-- ===== src/Gop/Placed/Writes.antt =====
-- core/stream.go: each frame, and each change of the policy, leaves the GOP cache placed in the
-- history of the ring.
use liveforge.Base.{
  ℕ, ◌-◌, ◌≤◌, ◌≡◌, true, false, not, List, [], ◌∷◌, ◌++◌, ◌||◌, arith, length, ltb, ◌==◌,
  Bool-cases, inl, inr, IsSublist, take-IsSublist, IsSublist-self,
}
use liveforge.AvFrame.{Frame, is_keyframe, is_header}
use liveforge.Config.{StreamConfig}
use liveforge.Gop.{Gops, extend_last, append_gop_frame, evict, start_gop, cache_frame}
use liveforge.Gop.Trim.{trim_gop, trim_rows, trim_gop_cache, update_gops, no_gops}
use liveforge.Gop.Placed.{
  Placed, Placed-write, Placed-add_last, Placed-start, Placed-drop, Placed-length, Placed-cut,
  set-add_last,
}

abbrev pub InHistory : ℕ → List Frame → Gops → Type 0
InHistory from h g = Placed from h g.cache g.starts

evict-InHistory :
    (num from : ℕ) (h : List Frame) (g : Gops) → InHistory from h g → InHistory from h (evict num g)
unfolding evict
evict-InHistory num from h g p = elim (Bool-cases (ltb num (length g.cache))) [
  | inl e ↦
      rw (e, Placed-length from h g.cache g.starts p)
        (Placed-drop (length g.cache - num) from h g.cache g.starts p)
  | inr e ↦ rw e p
]

module _ (cfg : StreamConfig) (from : ℕ) (h : List Frame) (f : Frame) (g : Gops)
    (p : InHistory from h g) where
  extended : is_header f ≡ false → InHistory from (h ++ f ∷ []) (extend_last f g)
  unfolding extend_last
  extended e = rw (set-add_last g.cache f) (Placed-add_last from h f g.cache g.starts e p)

  uncached : InHistory from (h ++ f ∷ []) g
  uncached = Placed-write from h f g.cache g.starts p

  append-InHistory : is_header f ≡ false → InHistory from (h ++ f ∷ []) (append_gop_frame cfg f g)
  unfolding append_gop_frame
  append-InHistory e = ground (arith, extended e, uncached)

  start-InHistory :
      is_keyframe f.frame_type ≡ true
      → from ≤ length h
      → InHistory from (h ++ f ∷ []) (start_gop cfg (length h) f g)
  unfolding start_gop
  start-InHistory e le =
      evict-InHistory cfg.gop_cache_num from (h ++ f ∷ []) _
        (Placed-start from h f g.cache g.starts e le p)

  pub cache_frame-InHistory :
      from ≤ length h → InHistory from (h ++ f ∷ []) (cache_frame cfg (length h) f g)
  unfolding cache_frame
  cache_frame-InHistory le = ground (arith, uncached, append-InHistory, start-InHistory)

trim_gop-IsSublist : (cfg : StreamConfig) (gop : List Frame) → IsSublist (trim_gop cfg gop) gop
unfolding trim_gop
trim_gop-IsSublist cfg [] = IsSublist-self []
trim_gop-IsSublist cfg (k ∷ fs) = take-IsSublist _ (k ∷ fs)

module _ (cfg : StreamConfig) (from : ℕ) (h : List Frame) where
  trim_rows-InHistory : (g : Gops) → InHistory from h g → InHistory from h (trim_rows cfg g)
  unfolding trim_rows
  trim_rows-InHistory g p =
      Placed-cut (trim_gop cfg) (trim_gop-IsSublist cfg) from h g.cache g.starts p

  trim_gop_cache-InHistory :
      (g : Gops) → InHistory from h g → InHistory from h (trim_gop_cache cfg g)
  unfolding trim_gop_cache
  trim_gop_cache-InHistory g p =
      let trimmed =
        trim_rows-InHistory (evict cfg.gop_cache_num g)
          (evict-InHistory cfg.gop_cache_num from h g p) in
      ground (arith, trimmed)

  pub update_gops-InHistory : (g : Gops) → InHistory from h g → InHistory from h (update_gops cfg g)
  unfolding update_gops
  update_gops-InHistory g p = elim (Bool-cases (not cfg.gop_cache || cfg.gop_cache_num == 0)) [
    | inl e ↦ rw e (trim_gop_cache-InHistory (no_gops g) tt)
    | inr e ↦ rw e (trim_gop_cache-InHistory _ (evict-InHistory cfg.gop_cache_num from h g p))
  ]
