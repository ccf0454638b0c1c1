-- ===== src/Gop/Valid.antt =====
-- The invariant of the GOP cache of core/stream.go, and that every frame keeps it.
use liveforge.Base.{
  ℕ, zero, suc, ◌+◌, ◌-◌, ◌<◌, ◌≤◌, ◌≡◌, refl, sym, ◌∙◌, Bool, true, false, List, [], ◌∷◌, ◌++◌,
  arith, length, get_or, ap, inl, inr, ℤ, pos, Bool-cases, length-append, length-drop, length-set,
  ltb, ◌==◌, ◌||◌, not_both, ltb→lt, ltb_false→le,
}
use liveforge.AvFrame.{Frame, is_video, is_keyframe}
use liveforge.Config.{StreamConfig}
use liveforge.Gop.{
  Gops, gop_over_bound, over_bound, gop_duration_exceeded, lower, higher, payload_size,
  total_payload, lowest, highest, last_index, extend_last, append_gop_frame, current_gop_at_bound,
  evict, start_gop, cache_frame, keep_last,
}
use liveforge.Gop.Rows.{Rows, Rows-append, Rows-drop, Rows-get, Rows-set, Rows-length}

-- What the slices say of the GOP of a keyframe `k` and the frames `fs` after it.
pub record IsGop (cfg : StreamConfig) (k : Frame) (fs : List Frame) (bytes : ℕ) (lo hi : ℤ)
    : Type 0 where
  pub key : (is_video k.media_type ≡ true) × (is_keyframe k.frame_type ≡ true)
  pub size : bytes ≡ payload_size k + total_payload fs
  pub low : lo ≡ lowest k.dts fs
  pub high : hi ≡ highest k.dts fs
  pub frames_bound : 0 < cfg.gop_cache_max_frames → suc (length fs) ≤ cfg.gop_cache_max_frames
  pub bytes_bound : 0 < cfg.gop_cache_max_bytes → 0 < length fs → bytes ≤ cfg.gop_cache_max_bytes
  pub span_bound : 0 < length fs → gop_duration_exceeded lo hi cfg.gop_cache_max_duration ≡ false

abbrev pub Row : StreamConfig → List Frame → ℕ → ℤ → ℤ → Type 0
Row cfg [] bytes lo hi = ⊥
Row cfg (k ∷ fs) bytes lo hi = IsGop cfg k fs bytes lo hi

-- The slices have one length, which is within the configured number of GOPs; each GOP begins with
-- a video keyframe, has its payload size and lowest and highest DTS beside it, and is within the
-- bounds on frames, on bytes and on duration, of which the latter two do not hold back a keyframe.
pub record IsValid (cfg : StreamConfig) (g : Gops) : Type 0 where
  pub rows : Rows (Row cfg) g.cache g.bytes g.min_dts g.max_dts
  pub starts : length g.starts ≡ length g.cache
  pub count : length g.cache ≤ cfg.gop_cache_num
  pub off : cfg.gop_cache ≡ false → length g.cache ≡ 0

total_payload-append :
    (fs : List Frame) (f : Frame) → total_payload (fs ++ f ∷ []) ≡ total_payload fs + payload_size f
total_payload-append [] f = omega arith
total_payload-append (x ∷ fs) f = omega (arith, total_payload-append fs f)

lowest-append :
    (m : ℤ) (fs : List Frame) (f : Frame) → lowest m (fs ++ f ∷ []) ≡ lower f.dts (lowest m fs)
lowest-append m [] f = refl
lowest-append m (x ∷ fs) f = lowest-append (lower x.dts m) fs f

highest-append :
    (m : ℤ) (fs : List Frame) (f : Frame) → highest m (fs ++ f ∷ []) ≡ higher f.dts (highest m fs)
highest-append m [] f = refl
highest-append m (x ∷ fs) f = highest-append (higher x.dts m) fs f

no_duration : (lo hi : ℤ) → gop_duration_exceeded lo hi 0 ≡ false
unfolding gop_duration_exceeded
no_duration lo hi = refl

-- What it means that a frame passes no bound.
within_bounds :
    (cfg : StreamConfig) (f : Frame) (gop : List Frame) (bytes : ℕ) (lo hi : ℤ)
    → 0 < length gop
    → gop_over_bound cfg f gop bytes lo hi ≡ false
    → (0 < cfg.gop_cache_max_frames → length gop < cfg.gop_cache_max_frames)
      × (0 < cfg.gop_cache_max_bytes → bytes + payload_size f ≤ cfg.gop_cache_max_bytes)
      × (0 < cfg.gop_cache_max_duration
          → gop_duration_exceeded (lower f.dts lo) (higher f.dts hi) cfg.gop_cache_max_duration
            ≡ false)
unfolding gop_over_bound
within_bounds cfg f gop bytes lo hi h e = (ground arith, ground arith, ground arith)

pub duration_within :
    (lo hi : ℤ) (d : ℕ)
    → (0 < d → gop_duration_exceeded lo hi d ≡ false)
    → gop_duration_exceeded lo hi d ≡ false
duration_within lo hi zero h = no_duration lo hi
duration_within lo hi (suc d) h = h (omega arith)

-- A frame that passes no bound may be added to a GOP.
Row-extend :
    (cfg : StreamConfig) (f : Frame) (gop : List Frame) (bytes : ℕ) (lo hi : ℤ)
    → Row cfg gop bytes lo hi
    → gop_over_bound cfg f gop bytes lo hi ≡ false
    → Row cfg (gop ++ f ∷ []) (bytes + payload_size f) (lower f.dts lo) (higher f.dts hi)
Row-extend cfg f (k ∷ fs) bytes lo hi r e = record {
  key = r.key;
  size = omega (arith, r.size, total_payload-append fs f);
  low = ap (lower f.dts) r.low ∙ sym (lowest-append k.dts fs f);
  high = ap (higher f.dts) r.high ∙ sym (highest-append k.dts fs f);
  frames_bound = λ h. omega (arith, w.0 h, length-append fs (f ∷ []));
  bytes_bound = λ h _. w.1 h;
  span_bound = λ _. duration_within _ _ _ w.2;
}
  where
    w :
        (0 < cfg.gop_cache_max_frames → suc (length fs) < cfg.gop_cache_max_frames)
        × (0 < cfg.gop_cache_max_bytes → bytes + payload_size f ≤ cfg.gop_cache_max_bytes)
        × (0 < cfg.gop_cache_max_duration
            → gop_duration_exceeded (lower f.dts lo) (higher f.dts hi) cfg.gop_cache_max_duration
              ≡ false)
    w = within_bounds cfg f (k ∷ fs) bytes lo hi (omega arith) e
Row-extend cfg f [] bytes lo hi r e = absurd r

Row-start :
    (cfg : StreamConfig) (k : Frame)
    → (is_video k.media_type ≡ true) × (is_keyframe k.frame_type ≡ true)
    → Row cfg (k ∷ []) (payload_size k) k.dts k.dts
Row-start cfg k h = record {
  key = h;
  size = omega arith;
  low = refl;
  high = refl;
  frames_bound = λ p. p;
  bytes_bound = λ p q. absurd (omega arith);
  span_bound = λ q. absurd (omega arith);
}

module _ (cfg : StreamConfig) (g : Gops) (v : IsValid cfg g) where
  lengths :
      (length g.bytes ≡ length g.cache)
      × (length g.min_dts ≡ length g.cache)
      × (length g.max_dts ≡ length g.cache)
  lengths = Rows-length (Row cfg) g.cache g.bytes g.min_dts g.max_dts v.rows

  pub IsValid-seal : (b : Bool) → IsValid cfg (record g { sealed = b })
  IsValid-seal b = record { rows = v.rows; starts = v.starts; count = v.count; off = v.off }

  extend_last-IsValid :
      (f : Frame) → 0 < length g.cache → over_bound cfg f g ≡ false → IsValid cfg (extend_last f g)
  unfolding extend_last over_bound
  extend_last-IsValid f h e = record {
    rows = Rows-set (Row cfg) (last_index g) g.cache g.bytes g.min_dts g.max_dts v.rows (
        Row-extend cfg f _ _ _ _
          (Rows-get (Row cfg) (last_index g) g.cache g.bytes g.min_dts g.max_dts [] 0 (pos 0)
            (pos 0) v.rows (omega arith))
          e);
    starts = omega (
      arith,
      v.starts,
      length-set g.cache (last_index g) (get_or g.cache (last_index g) [] ++ f ∷ []),
    );
    count = omega (
      arith,
      v.count,
      length-set g.cache (last_index g) (get_or g.cache (last_index g) [] ++ f ∷ []),
    );
    off = λ o. omega (arith, v.off o, h);
  }

IsValid-append :
    (cfg : StreamConfig) (f : Frame) (g : Gops)
    → IsValid cfg g
    → IsValid cfg (append_gop_frame cfg f g)
unfolding append_gop_frame
IsValid-append cfg f g v = elim (Bool-cases (length g.cache == 0 || g.sealed)) [
  | inl e ↦ rw e v
  | inr e ↦ rw e (elim (Bool-cases (over_bound cfg f g)) [
    | inl o ↦ rw o (IsValid-seal cfg g v true)
    | inr o ↦ rw o (elim (Bool-cases (current_gop_at_bound cfg (extend_last f g))) [
      | inl b ↦ rw b (IsValid-seal cfg _ (extended e o) true)
      | inr b ↦ rw b (extended e o)
    ])
  ])
]
  where
    extended :
        (length g.cache == 0 || g.sealed) ≡ false
        → over_bound cfg f g ≡ false
        → IsValid cfg (extend_last f g)
    extended e o = extend_last-IsValid cfg g v f (ground arith) o

Rows-keep_last :
    (cfg : StreamConfig) (n : ℕ) (g : Gops)
    → Rows (Row cfg) g.cache g.bytes g.min_dts g.max_dts
    → Rows
        (Row cfg)
        (keep_last n g.cache)
        (keep_last n g.bytes)
        (keep_last n g.min_dts)
        (keep_last n g.max_dts)
Rows-keep_last cfg n g rows =
    let (b, lo, hi) = Rows-length (Row cfg) g.cache g.bytes g.min_dts g.max_dts rows in
    rw (b, lo, hi)
      (Rows-drop (Row cfg) (length g.cache - n) g.cache g.bytes g.min_dts g.max_dts rows)

length-keep_last {ℓ} :
    {A : Type ℓ} (n : ℕ) (xs : List A) → n < length xs → length (keep_last n xs) ≡ n
length-keep_last n xs h = omega (arith, length-drop (length xs - n) xs)

-- Eviction leaves the newest rows, as many as are configured.
pub record IsEvicted (cfg : StreamConfig) (num : ℕ) (g g' : Gops) : Type 0 where
  pub rows : Rows (Row cfg) g'.cache g'.bytes g'.min_dts g'.max_dts
  pub starts : length g'.starts ≡ length g'.cache
  pub count : length g'.cache ≤ num
  pub no_more : length g'.cache ≤ length g.cache

pub evict_lem :
    (cfg : StreamConfig) (num : ℕ) (g : Gops)
    → Rows (Row cfg) g.cache g.bytes g.min_dts g.max_dts
    → length g.starts ≡ length g.cache
    → IsEvicted cfg num g (evict num g)
unfolding evict
evict_lem cfg num g rows starts = elim (Bool-cases (ltb num (length g.cache))) [
  | inl e ↦
      let lt : num < length g.cache = ltb→lt num (length g.cache) e in
      rw e (record {
        rows = Rows-keep_last cfg num g rows;
        starts = omega (
          arith,
          length-keep_last num g.cache lt,
          length-keep_last num g.starts (omega (arith, starts)),
        );
        count = omega (arith, length-keep_last num g.cache lt);
        no_more = omega (arith, length-keep_last num g.cache lt);
      })
  | inr e ↦ rw e (record {
    rows = rows;
    starts = starts;
    count = ltb_false→le num (length g.cache) e;
    no_more = omega arith;
  })
]

start_gop-IsValid :
    (cfg : StreamConfig) (at : ℕ) (k : Frame) (g : Gops)
    → cfg.gop_cache ≡ true
    → (is_video k.media_type ≡ true) × (is_keyframe k.frame_type ≡ true)
    → IsValid cfg g
    → IsValid cfg (start_gop cfg at k g)
unfolding start_gop
start_gop-IsValid cfg at k g on key v =
    let ev =
      evict_lem cfg cfg.gop_cache_num _ (Rows-append (Row cfg) _ _ _ _ v.rows (Row-start cfg k key))
        (omega (
          arith,
          v.starts,
          length-append g.starts (at ∷ []),
          length-append g.cache ((k ∷ []) ∷ []),
        )) in
    record {
      rows = ev.rows;
      starts = ev.starts;
      count = ev.count;
      off = λ o. not_both cfg.gop_cache on o;
    }

-- Whatever frame is written, the cache stays valid.
pub cache_frame-IsValid :
    (cfg : StreamConfig) (at : ℕ) (f : Frame) (g : Gops)
    → IsValid cfg g
    → IsValid cfg (cache_frame cfg at f g)
unfolding cache_frame
cache_frame-IsValid cfg at f g v =
    ground (arith, v, IsValid-append cfg f g v, start_gop-IsValid cfg at f g)
