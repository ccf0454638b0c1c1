-- ===== src/Gop/Trim.antt =====
-- core/stream.go: `trimGOPCacheLocked`, which cuts the cache down after a policy update.
pub mod Prefix
pub mod Valid
use liveforge.Base.{
  ℕ, ◌+◌, ◌-◌, Bool, true, false, not, List, [], ◌∷◌, ◌&&◌, ◌||◌, map, length, get_or, take, drop,
  ltb, leb, ◌==◌, if◌then◌else◌, ℤ, pos,
}
use liveforge.AvFrame.{Frame}
use liveforge.Config.{StreamConfig}
use liveforge.Gop.{
  Gops, gop_duration_exceeded, lower, higher, payload_size, total_payload, lowest, highest, evict,
  current_gop_at_bound,
}

unfoldable pub limit_frames : StreamConfig → List Frame → ℕ
limit_frames cfg gop =
    let limit = length gop in
    if ltb 0 cfg.gop_cache_max_frames && ltb cfg.gop_cache_max_frames limit
    then cfg.gop_cache_max_frames
    else limit

-- The loop over `gop[:limit]` that finds how many frames fit in the bytes; `n` is the index of the
-- next frame, and `byte_limit` the count so far.
unfoldable pub byte_loop : ℕ → ℕ → ℕ → ℕ → List Frame → ℕ
byte_loop max_bytes n bytes byte_limit [] = byte_limit
byte_loop max_bytes n bytes byte_limit (f ∷ fs) =
    if ltb 0 n && ltb max_bytes (bytes + payload_size f)
    then byte_limit
    else if leb max_bytes (bytes + payload_size f)
    then n + 1
    else byte_loop max_bytes (n + 1) (bytes + payload_size f) (n + 1) fs

unfoldable pub limit_bytes : StreamConfig → List Frame → ℕ → ℕ
limit_bytes cfg gop limit =
    if ltb 0 cfg.gop_cache_max_bytes
    then (let byte_limit = byte_loop cfg.gop_cache_max_bytes 0 0 0 (take limit gop) in
        if ltb byte_limit limit then byte_limit else limit)
    else limit

-- The loop over `gop[1:limit]` that finds how many frames fit in the duration.
unfoldable pub duration_loop : ℕ → ℕ → ℕ → ℤ → ℤ → List Frame → ℕ
duration_loop max_duration n duration_limit min_dts max_dts [] = duration_limit
duration_loop max_duration n duration_limit min_dts max_dts (f ∷ fs) =
    if gop_duration_exceeded (lower f.dts min_dts) (higher f.dts max_dts) max_duration
    then duration_limit
    else duration_loop max_duration (n + 1) (n + 1) (lower f.dts min_dts) (higher f.dts max_dts) fs

unfoldable pub limit_duration : StreamConfig → Frame → List Frame → ℕ → ℕ
limit_duration cfg first rest limit =
    if ltb 0 cfg.gop_cache_max_duration
    then (let duration_limit =
          duration_loop cfg.gop_cache_max_duration 1 1 first.dts first.dts
            (take (limit - 1) rest) in
        if ltb duration_limit limit then duration_limit else limit)
    else limit

-- How many frames of a GOP the trim keeps.
unfoldable pub trim_limit : StreamConfig → Frame → List Frame → ℕ
trim_limit cfg first rest =
    let gop = first ∷ rest in
    let limit = limit_duration cfg first rest (limit_bytes cfg gop (limit_frames cfg gop)) in
    if ltb limit 1 then 1 else limit

unfoldable pub trim_gop : StreamConfig → List Frame → List Frame
trim_gop cfg [] = []
trim_gop cfg (k ∷ fs) = take (trim_limit cfg k fs) (k ∷ fs)

abbrev pub min_of : List Frame → ℤ
min_of [] = pos 0
min_of (k ∷ fs) = lowest k.dts fs

abbrev pub max_of : List Frame → ℤ
max_of [] = pos 0
max_of (k ∷ fs) = highest k.dts fs

abbrev pub no_gops : Gops → Gops
no_gops g = record g {
  cache = [];
  starts = [];
  bytes = [];
  min_dts = [];
  max_dts = [];
  sealed = false;
}

-- The body of the loop over the GOPs, which writes every row but its start; the last GOP is sealed
-- if frames of it are gone.
unfoldable pub trim_rows : StreamConfig → Gops → Gops
trim_rows cfg g =
    let cache = map (trim_gop cfg) g.cache in
    let index = length g.cache - 1 in
    record g {
      cache = cache;
      bytes = map total_payload cache;
      min_dts = map min_of cache;
      max_dts = map max_of cache;
      sealed =
          ltb 0 (length g.cache)
          && ltb (length (get_or cache index [])) (length (get_or g.cache index []));
    }

-- `trimGOPCacheLocked`
unfoldable pub trim_gop_cache : StreamConfig → Gops → Gops
trim_gop_cache cfg g =
    if not cfg.gop_cache || cfg.gop_cache_num == 0
    then no_gops g
    else (let g' = trim_rows cfg (evict cfg.gop_cache_num g) in
        if current_gop_at_bound cfg g' then record g' { sealed = true } else g')

-- What `UpdatePolicy` does to the cache, under the new configuration.
unfoldable pub update_gops : StreamConfig → Gops → Gops
update_gops cfg g =
    trim_gop_cache cfg
      (if not cfg.gop_cache || cfg.gop_cache_num == 0 then no_gops g else evict cfg.gop_cache_num g)
