-- ===== src/Gop/Trim/Valid.antt =====
-- The cache that `trimGOPCacheLocked` leaves is valid under the new configuration.
use liveforge.Base.{
  ℕ, ◌≤◌, ◌≡◌, refl, true, not, ◌||◌, List, [], ◌∷◌, arith, length, take, length-take, map,
  length-map, ℤ, Bool-cases, inl, inr, ◌==◌,
}
use liveforge.AvFrame.{Frame}
use liveforge.Config.{StreamConfig}
use liveforge.Gop.{Gops, total_payload, evict, current_gop_at_bound}
use liveforge.Gop.Rows.{Rows}
use liveforge.Gop.Valid.{Row, IsValid, IsValid-seal, IsEvicted, evict_lem, duration_within}
use liveforge.Gop.Trim.{trim_gop, min_of, max_of, no_gops, trim_rows, trim_gop_cache, update_gops}
use liveforge.Gop.Trim.Prefix.{trim_limit-IsKept}

kept_length : (kept : ℕ) (fs : List Frame) → kept ≤ length fs → length (take kept fs) ≡ kept
kept_length kept fs h = omega (arith, length-take kept fs)

-- A GOP that was valid under any configuration is cut down to a valid one under `cfg`.
Row-trim :
    (old cfg : StreamConfig) (gop : List Frame) (bytes : ℕ) (lo hi : ℤ)
    → Row old gop bytes lo hi
    → let gop' = trim_gop cfg gop in Row cfg gop' (total_payload gop') (min_of gop') (max_of gop')
unfolding trim_gop
Row-trim old cfg [] bytes lo hi r = r
Row-trim old cfg (k ∷ fs) bytes lo hi r =
    let (kept, at) = trim_limit-IsKept cfg k fs in
    rw at.counts (record {
      key = r.key;
      size = refl;
      low = refl;
      high = refl;
      frames_bound = λ h. omega (arith, at.frames_bound h, kept_length kept fs at.here);
      bytes_bound = λ h p. at.bytes_bound h (omega (arith, kept_length kept fs at.here));
      span_bound = λ p.
          duration_within _ _ _ (λ h. at.span_bound h (omega (arith, kept_length kept fs at.here)));
    })

Rows-trim :
    (old cfg : StreamConfig) (cache : List (List Frame)) (bytes : List ℕ) (lo hi : List ℤ)
    → Rows (Row old) cache bytes lo hi
    → let cache' = map (trim_gop cfg) cache in
      Rows (Row cfg) cache' (map total_payload cache') (map min_of cache') (map max_of cache')
Rows-trim old cfg [] [] [] [] h = tt
Rows-trim old cfg (c ∷ cs) (b ∷ bs) (l ∷ ls) (m ∷ ms) h =
    (Row-trim old cfg c b l m h.0, Rows-trim old cfg cs bs ls ms h.1)
Rows-trim old cfg _ _ _ _ h = absurd h

no_gops-IsValid : (cfg : StreamConfig) (g : Gops) → IsValid cfg (no_gops g)
no_gops-IsValid cfg g = record { rows = tt; starts = refl; count = omega arith; off = λ _. refl }

trim_rows-IsValid :
    (old cfg : StreamConfig) (g g' : Gops)
    → cfg.gop_cache ≡ true
    → IsEvicted old cfg.gop_cache_num g g'
    → IsValid cfg (trim_rows cfg g')
unfolding trim_rows
trim_rows-IsValid old cfg g g' on e = record {
  rows = Rows-trim old cfg g'.cache g'.bytes g'.min_dts g'.max_dts e.rows;
  starts = omega (arith, e.starts, length-map g'.cache (trim_gop cfg));
  count = omega (arith, e.count, length-map g'.cache (trim_gop cfg));
  off = λ o. cc;
}

-- Rows that are valid under the old bounds are all that the trim needs.
trim_gop_cache-IsValid :
    (old cfg : StreamConfig) (g : Gops)
    → Rows (Row old) g.cache g.bytes g.min_dts g.max_dts
    → length g.starts ≡ length g.cache
    → IsValid cfg (trim_gop_cache cfg g)
unfolding trim_gop_cache
trim_gop_cache-IsValid old cfg g rows starts =
    elim (Bool-cases (not cfg.gop_cache || cfg.gop_cache_num == 0)) [
      | inl e ↦ rw e (no_gops-IsValid cfg g)
      | inr e ↦
          let v =
            trim_rows-IsValid old cfg g _ (ground arith)
              (evict_lem old cfg.gop_cache_num g rows starts) in
          rw e
            (elim (Bool-cases
              (current_gop_at_bound cfg (trim_rows cfg (evict cfg.gop_cache_num g)))) [
                | inl b ↦ rw b (IsValid-seal cfg _ v true)
                | inr b ↦ rw b v
              ])
    ]

-- After a change of the policy the cache is valid under the new one, whatever the old one was.
pub update_gops-IsValid :
    (old cfg : StreamConfig) (g : Gops) → IsValid old g → IsValid cfg (update_gops cfg g)
unfolding update_gops
update_gops-IsValid old cfg g v = elim (Bool-cases (not cfg.gop_cache || cfg.gop_cache_num == 0)) [
  | inl e ↦ rw e (trim_gop_cache-IsValid old cfg (no_gops g) tt refl)
  | inr e ↦
      let ev = evict_lem old cfg.gop_cache_num g v.rows v.starts in
      rw e (trim_gop_cache-IsValid old cfg _ ev.rows ev.starts)
]
