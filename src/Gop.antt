-- ===== src/Gop.antt =====
-- core/stream.go: the GOP cache of a stream, which is kept in five slices of one length: the frames
-- of each GOP, the ring position where it starts, its payload bytes and its lowest and highest DTS.
-- Byte counts are int64 in the code and count the payload bytes held in memory.
pub mod Span
pub mod Rows
pub mod Valid
pub mod Trim
pub mod Placed
mod Tests
use liveforge.Base.{
  ℕ, ◌+◌, ◌-◌, ◌/◌, ◌^◌, Bool, true, false, not, List, [], ◌∷◌, ◌++◌, ◌&&◌, ◌||◌, length, get_or,
  set, drop, ltb, leb, ◌==◌, if◌then◌else◌, ℤ, pos, ltb_ℤ, ◌+ℤ◌, ◌-ℤ◌, wrap_int64,
}
use liveforge.AvFrame.{Frame, is_video, is_audio, is_keyframe, frame_type_sequence_header}
use liveforge.Config.{StreamConfig}

pub record Gops : Type 0 where
  pub cache : List (List Frame)
  pub starts : List ℕ
  pub bytes : List ℕ
  pub min_dts : List ℤ
  pub max_dts : List ℤ
  pub generation : ℕ
  pub sealed : Bool

abbrev pub max_int64 : ℕ
max_int64 = 2 ^ 63 - 1

-- `dtsSpanMillis`: the span of two times, at most the largest int64.
unfoldable pub dts_span_millis : ℤ → ℤ → ℤ
dts_span_millis min_dts max_dts =
    let swapped = ltb_ℤ max_dts min_dts in
    let lo = if swapped then max_dts else min_dts in
    let hi = if swapped then min_dts else max_dts in
    if ltb_ℤ lo (pos 0) && ltb_ℤ (wrap_int64 (pos max_int64 +ℤ lo)) hi
    then pos max_int64
    else wrap_int64 (hi -ℤ lo)

abbrev pub millisecond : ℕ
millisecond = 1000000

-- `gopDurationExceeded`
unfoldable pub gop_duration_exceeded : ℤ → ℤ → ℕ → Bool
gop_duration_exceeded min_dts max_dts limit =
    if limit == 0 || ltb_ℤ max_dts min_dts
    then false
    else ltb_ℤ (pos (limit / millisecond)) (dts_span_millis min_dts max_dts)

-- `gopDurationAtLeast`
unfoldable pub gop_duration_at_least : ℤ → ℤ → ℕ → Bool
gop_duration_at_least min_dts max_dts limit =
    if limit == 0 || ltb_ℤ max_dts min_dts
    then false
    else not (ltb_ℤ (dts_span_millis min_dts max_dts) (pos (limit / millisecond)))

abbrev pub lower : ℤ → ℤ → ℤ
lower dts m = if ltb_ℤ dts m then dts else m

abbrev pub higher : ℤ → ℤ → ℤ
higher dts m = if ltb_ℤ m dts then dts else m

abbrev pub payload_size : Frame → ℕ
payload_size f = length f.payload

-- the payload bytes of some frames
abbrev pub total_payload : List Frame → ℕ
total_payload [] = 0
total_payload (f ∷ fs) = payload_size f + total_payload fs

-- the lowest and highest DTS of `fs`, from a first one on
abbrev pub lowest : ℤ → List Frame → ℤ
lowest m [] = m
lowest m (f ∷ fs) = lowest (lower f.dts m) fs

abbrev pub highest : ℤ → List Frame → ℤ
highest m [] = m
highest m (f ∷ fs) = highest (higher f.dts m) fs

abbrev pub last_index : Gops → ℕ
last_index g = length g.cache - 1

-- The tests of `currentGOPAtBoundLocked` on one GOP: a bound is reached.
unfoldable pub gop_at_bound : StreamConfig → List Frame → ℕ → ℤ → ℤ → Bool
gop_at_bound cfg gop bytes min_dts max_dts =
    if ltb 0 cfg.gop_cache_max_frames && leb cfg.gop_cache_max_frames (length gop)
    then true
    else if ltb 0 cfg.gop_cache_max_bytes && leb cfg.gop_cache_max_bytes bytes
    then true
    else ltb 0 cfg.gop_cache_max_duration
      && ltb 0 (length gop)
      && gop_duration_at_least min_dts max_dts cfg.gop_cache_max_duration

-- `currentGOPAtBoundLocked`
unfoldable pub current_gop_at_bound : StreamConfig → Gops → Bool
current_gop_at_bound cfg g =
    if length g.cache == 0
    then false
    else (let index = last_index g in
        gop_at_bound cfg (get_or g.cache index []) (get_or g.bytes index 0)
          (get_or g.min_dts index (pos 0)) (get_or g.max_dts index (pos 0)))

-- The writes of `appendGOPFrameLocked` once the frame is within the bounds.
unfoldable pub extend_last : Frame → Gops → Gops
extend_last frame g =
    let index = last_index g in
    record g {
      cache = set g.cache index (get_or g.cache index [] ++ frame ∷ []);
      bytes = set g.bytes index (get_or g.bytes index 0 + payload_size frame);
      min_dts = set g.min_dts index (lower frame.dts (get_or g.min_dts index (pos 0)));
      max_dts = set g.max_dts index (higher frame.dts (get_or g.max_dts index (pos 0)));
    }

-- The tests of `appendGOPFrameLocked` on the last GOP: with the frame a bound would be passed.
unfoldable pub gop_over_bound : StreamConfig → Frame → List Frame → ℕ → ℤ → ℤ → Bool
gop_over_bound cfg frame gop bytes min_dts max_dts =
    if ltb 0 cfg.gop_cache_max_frames && leb cfg.gop_cache_max_frames (length gop)
    then true
    else if ltb 0 cfg.gop_cache_max_bytes
        && ltb 0 (length gop)
        && ltb cfg.gop_cache_max_bytes (bytes + payload_size frame)
    then true
    else ltb 0 cfg.gop_cache_max_duration
      && ltb 0 (length gop)
      && gop_duration_exceeded (lower frame.dts min_dts) (higher frame.dts max_dts)
          cfg.gop_cache_max_duration

unfoldable pub over_bound : StreamConfig → Frame → Gops → Bool
over_bound cfg frame g =
    let index = last_index g in
    gop_over_bound cfg frame (get_or g.cache index []) (get_or g.bytes index 0)
      (get_or g.min_dts index (pos 0)) (get_or g.max_dts index (pos 0))

-- `appendGOPFrameLocked`
unfoldable pub append_gop_frame : StreamConfig → Frame → Gops → Gops
append_gop_frame cfg frame g =
    if length g.cache == 0 || g.sealed
    then g
    else if over_bound cfg frame g
    then record g { sealed = true }
    else (let g' = extend_last frame g in
        if current_gop_at_bound cfg g' then record g' { sealed = true } else g')

-- `xs[len(xs)-num:]`
abbrev pub keep_last {ℓ} : {A : Type ℓ} → ℕ → List A → List A
keep_last num xs = drop (length xs - num) xs

-- The eviction of the oldest GOPs.
unfoldable pub evict : ℕ → Gops → Gops
evict num g =
    if ltb num (length g.cache)
    then (record g {
      cache = keep_last num g.cache;
      starts = keep_last num g.starts;
      bytes = keep_last num g.bytes;
      min_dts = keep_last num g.min_dts;
      max_dts = keep_last num g.max_dts;
    })
    else g

-- A video keyframe starts a GOP at the write cursor of the ring.
unfoldable pub start_gop : StreamConfig → ℕ → Frame → Gops → Gops
start_gop cfg write_cursor frame g = evict cfg.gop_cache_num (record {
  cache = g.cache ++ (frame ∷ []) ∷ [];
  starts = g.starts ++ write_cursor ∷ [];
  bytes = g.bytes ++ payload_size frame ∷ [];
  min_dts = g.min_dts ++ frame.dts ∷ [];
  max_dts = g.max_dts ++ frame.dts ∷ [];
  generation = g.generation + 1;
  sealed = false;
})

-- The part of `writeFrameLocked` that updates the cache.
unfoldable pub cache_frame : StreamConfig → ℕ → Frame → Gops → Gops
cache_frame cfg write_cursor frame g =
    if cfg.gop_cache && ltb 0 cfg.gop_cache_num
    then if is_video frame.media_type
      then if is_keyframe frame.frame_type
        then start_gop cfg write_cursor frame g
        else if not (frame.frame_type == frame_type_sequence_header) && ltb 0 (length g.cache)
        then append_gop_frame cfg frame g
        else g
      else if is_audio frame.media_type
          && not (frame.frame_type == frame_type_sequence_header)
          && ltb 0 (length g.cache)
      then append_gop_frame cfg frame g
      else g
    else g
