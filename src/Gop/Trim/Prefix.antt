-- ===== src/Gop/Trim/Prefix.antt =====
-- How many frames the loops of `trimGOPCacheLocked` keep, and that these are within the bounds.
use liveforge.Base.{
  ℕ, zero, suc, ◌+◌, ◌-◌, ◌<◌, ◌≤◌, ◌≡◌, refl, ◌∙◌, true, false, List, [], ◌∷◌, arith, length, take,
  ap, ltb, leb, ◌&&◌, if◌then◌else◌, ℤ, Bool-cases, inl, inr, min, length-take, le_trans,
}
use liveforge.AvFrame.{Frame}
use liveforge.Config.{StreamConfig}
use liveforge.Gop.{
  gop_duration_exceeded, payload_size, total_payload, lowest, highest, lower, higher,
}
use liveforge.Gop.Trim.{
  limit_frames, byte_loop, limit_bytes, duration_loop, limit_duration, trim_limit,
}

-- what a run of the byte loop from frame `n` on adds to the count
record FitsBytes (max_bytes n bytes : ℕ) (fs : List Frame) (result : ℕ) : Type 0 where
  more : ℕ
  counts : result ≡ n + more
  here : more ≤ length fs
  progress : n ≡ 0 → 0 < length fs → 0 < more
  fits : 1 < n + more → 0 < more → bytes + total_payload (take more fs) ≤ max_bytes

fits_step :
    (mb n bytes size more : ℕ) (fs : List Frame)
    → leb mb (bytes + size) ≡ false
    → (1 < n + 1 + more → 0 < more → bytes + size + total_payload (take more fs) ≤ mb)
    → bytes + (size + total_payload (take more fs)) ≤ mb
fits_step mb n bytes size zero fs b h = ground arith
fits_step mb n bytes size (suc more) fs b h = omega (arith, h (omega arith) (omega arith))

byte_loop_fits :
    (mb n bytes : ℕ) (fs : List Frame) → FitsBytes mb n bytes fs (byte_loop mb n bytes n fs)
unfolding byte_loop
byte_loop_fits mb n bytes [] = record {
  more = 0;
  counts = omega arith;
  here = omega arith;
  progress = λ _ h. h;
  fits = λ _ h. absurd (omega arith);
}
byte_loop_fits mb n bytes (f ∷ fs) =
    elim (Bool-cases (ltb 0 n && ltb mb (bytes + payload_size f))) [
      | inl e ↦ rw e (record {
        more = 0;
        counts = omega arith;
        here = omega arith;
        progress = λ z _. absurd (ground arith);
        fits = λ _ h. absurd (omega arith);
      })
      | inr e ↦ rw e (elim (Bool-cases (leb mb (bytes + payload_size f))) [
        | inl b ↦ rw b (record {
          more = 1;
          counts = omega arith;
          here = omega arith;
          progress = λ _ _. omega arith;
          fits = λ p _. ground arith;
        })
        | inr b ↦
            let ih = byte_loop_fits mb (n + 1) (bytes + payload_size f) fs in
            rw b (record {
              more = suc ih.more;
              counts = omega (arith, ih.counts);
              here = omega (arith, ih.here);
              progress = λ _ _. omega arith;
              fits = λ _ _. fits_step mb n bytes (payload_size f) ih.more fs b ih.fits;
            })
      ])
    ]

-- what a run of the duration loop from frame `n` on adds to the count
record FitsSpan (d n : ℕ) (lo hi : ℤ) (fs : List Frame) (result : ℕ) : Type 0 where
  more : ℕ
  counts : result ≡ n + more
  here : more ≤ length fs
  fits :
      0 < more
      → gop_duration_exceeded (lowest lo (take more fs)) (highest hi (take more fs)) d ≡ false

span_step :
    (d : ℕ) (lo hi : ℤ) (more : ℕ) (fs : List Frame)
    → gop_duration_exceeded lo hi d ≡ false
    → (0 < more
        → gop_duration_exceeded (lowest lo (take more fs)) (highest hi (take more fs)) d ≡ false)
    → gop_duration_exceeded (lowest lo (take more fs)) (highest hi (take more fs)) d ≡ false
span_step d lo hi zero fs e h = e
span_step d lo hi (suc more) fs e h = h (omega arith)

duration_loop_fits :
    (d n : ℕ) (lo hi : ℤ) (fs : List Frame) → FitsSpan d n lo hi fs (duration_loop d n n lo hi fs)
unfolding duration_loop
duration_loop_fits d n lo hi [] = record {
  more = 0;
  counts = omega arith;
  here = omega arith;
  fits = λ h. absurd (omega arith);
}
duration_loop_fits d n lo hi (f ∷ fs) =
    let lo' = lower f.dts lo in
    let hi' = higher f.dts hi in
    elim (Bool-cases (gop_duration_exceeded lo' hi' d)) [
      | inl e ↦ rw e (record {
        more = 0;
        counts = omega arith;
        here = omega arith;
        fits = λ h. absurd (omega arith);
      })
      | inr e ↦
          let ih = duration_loop_fits d (n + 1) lo' hi' fs in
          rw e (record {
            more = suc ih.more;
            counts = omega (arith, ih.counts);
            here = omega (arith, ih.here);
            fits = λ _. span_step d lo' hi' ih.more fs e ih.fits;
          })
    ]

take-take {ℓ} : {A : Type ℓ} (m n : ℕ) (xs : List A) → m ≤ n → take m (take n xs) ≡ take m xs
take-take zero n xs h = refl
take-take (suc m) zero xs h = absurd (omega arith)
take-take (suc m) (suc n) [] h = refl
take-take (suc m) (suc n) (x ∷ xs) h = ap (λ l. x ∷ l) (take-take m n xs (omega arith))

total_payload-take_mono :
    (m n : ℕ) (fs : List Frame) → m ≤ n → total_payload (take m fs) ≤ total_payload (take n fs)
total_payload-take_mono zero n fs h = omega arith
total_payload-take_mono (suc m) zero fs h = absurd (omega arith)
total_payload-take_mono (suc m) (suc n) [] h = omega arith
total_payload-take_mono (suc m) (suc n) (f ∷ fs) h =
    omega (arith, total_payload-take_mono m n fs (omega arith))

fits_result :
    (mb r : ℕ) (xs : List Frame) → FitsBytes mb 0 0 xs r → 1 < r → total_payload (take r xs) ≤ mb
fits_result mb r xs f h =
    let same : r ≡ f.more = omega (arith, f.counts) in
    rw same (omega (arith, f.fits (omega (arith, same)) (omega (arith, same))))

run_or_frames : (run frames : ℕ) → run ≤ frames → (if ltb run frames then run else frames) ≡ run
run_or_frames run frames h = ground arith

not_below_one : (n : ℕ) → 0 < n → (if ltb n 1 then 1 else n) ≡ n
not_below_one n h = ground arith

final_limit :
    (run bytes : ℕ)
    → run ≤ bytes
    → 0 < run
    → (let limit = if ltb run bytes then run else bytes in if ltb limit 1 then 1 else limit) ≡ run
final_limit run bytes h p = ground arith

module _ (cfg : StreamConfig) (k : Frame) (fs : List Frame) where
  frames : ℕ
  frames = limit_frames cfg (k ∷ fs)

  bytes : ℕ
  bytes = limit_bytes cfg (k ∷ fs) frames

  frames_lem :
      (0 < frames)
      × (frames ≤ suc (length fs))
      × (0 < cfg.gop_cache_max_frames → frames ≤ cfg.gop_cache_max_frames)
  unfolding frames limit_frames
  frames_lem = (ground arith, ground arith, ground arith)

  run : ℕ
  run = byte_loop cfg.gop_cache_max_bytes 0 0 0 (take frames (k ∷ fs))

  run_fits : FitsBytes cfg.gop_cache_max_bytes 0 0 (take frames (k ∷ fs)) run
  unfolding run
  run_fits = byte_loop_fits cfg.gop_cache_max_bytes 0 0 (take frames (k ∷ fs))

  run_range : (0 < run) × (run ≤ frames)
  run_range =
      let len : length (take frames (k ∷ fs)) ≡ min frames (suc (length fs)) =
        length-take frames (k ∷ fs) in
      omega (
        arith,
        run_fits.counts,
        run_fits.here,
        frames_lem,
        len,
        run_fits.progress (omega arith) (omega (arith, len, frames_lem)),
      )

  run_total : 1 < run → total_payload (take run (k ∷ fs)) ≤ cfg.gop_cache_max_bytes
  run_total h =
      rw (← take-take run frames (k ∷ fs) run_range.1)
        (fits_result cfg.gop_cache_max_bytes run (take frames (k ∷ fs)) run_fits h)

  bytes_lem :
      (0 < bytes)
      × (bytes ≤ frames)
      × (0 < cfg.gop_cache_max_bytes
          → 1 < bytes
          → total_payload (take bytes (k ∷ fs)) ≤ cfg.gop_cache_max_bytes)
  bytes_lem = elim (Bool-cases (ltb 0 cfg.gop_cache_max_bytes)) [
    | inl e ↦
        let same : bytes ≡ run =
          unfold bytes limit_bytes run in rw e (run_or_frames run frames run_range.1) in
        rw same (run_range.0, run_range.1, λ _. run_total)
    | inr e ↦
        let same : bytes ≡ frames = unfold bytes limit_bytes in rw e in
        rw same (frames_lem.0, omega arith, λ h _. absurd (ground arith))
  ]

  -- The trim keeps the keyframe `k` and the first `kept` of the frames after it, which are within
  -- every bound.
  pub record IsKept (limit kept : ℕ) : Type 0 where
    pub counts : limit ≡ suc kept
    pub here : kept ≤ length fs
    pub frames_bound : 0 < cfg.gop_cache_max_frames → suc kept ≤ cfg.gop_cache_max_frames
    pub bytes_bound :
        0 < cfg.gop_cache_max_bytes
        → 0 < kept
        → total_payload (take (suc kept) (k ∷ fs)) ≤ cfg.gop_cache_max_bytes
    pub span_bound :
        0 < cfg.gop_cache_max_duration
        → 0 < kept
        → gop_duration_exceeded
            (lowest k.dts (take kept fs))
            (highest k.dts (take kept fs))
            cfg.gop_cache_max_duration
          ≡ false

  span_run : ℕ
  span_run = duration_loop cfg.gop_cache_max_duration 1 1 k.dts k.dts (take (bytes - 1) fs)

  span_fits : FitsSpan cfg.gop_cache_max_duration 1 k.dts k.dts (take (bytes - 1) fs) span_run
  unfolding span_run
  span_fits = duration_loop_fits cfg.gop_cache_max_duration 1 k.dts k.dts (take (bytes - 1) fs)

  span_here : span_fits.more ≤ bytes - 1
  span_here = omega (arith, span_fits.here, length-take (bytes - 1) fs)

  span_ok :
      0 < span_fits.more
      → gop_duration_exceeded
          (lowest k.dts (take span_fits.more fs))
          (highest k.dts (take span_fits.more fs))
          cfg.gop_cache_max_duration
        ≡ false
  span_ok h = rw (← take-take span_fits.more (bytes - 1) fs span_here) (span_fits.fits h)

  -- the bounds on frames and bytes go down to any shorter prefix
  shorter :
      (kept : ℕ)
      → suc kept ≤ bytes
      → (0 < cfg.gop_cache_max_duration
          → 0 < kept
          → gop_duration_exceeded
              (lowest k.dts (take kept fs))
              (highest k.dts (take kept fs))
              cfg.gop_cache_max_duration
            ≡ false)
      → IsKept (suc kept) kept
  shorter kept le span = record {
    counts = refl;
    here = omega (arith, frames_lem, bytes_lem.1);
    frames_bound = λ h. omega (arith, frames_lem.2 h, bytes_lem.1);
    bytes_bound = λ h p.
        le_trans (total_payload-take_mono (suc kept) bytes (k ∷ fs) le)
          (bytes_lem.2 h (omega arith));
    span_bound = span;
  }

  counted : span_run ≡ suc span_fits.more
  counted = omega (arith, span_fits.counts)

  limit_with_duration : ltb 0 cfg.gop_cache_max_duration ≡ true → trim_limit cfg k fs ≡ span_run
  unfolding trim_limit limit_duration bytes frames span_run
  limit_with_duration e = rw e (
      final_limit span_run bytes (omega (arith, span_here, span_fits.counts, bytes_lem))
        (omega (arith, span_fits.counts)))

  limit_without_duration : ltb 0 cfg.gop_cache_max_duration ≡ false → trim_limit cfg k fs ≡ bytes
  unfolding trim_limit limit_duration bytes frames
  limit_without_duration e = rw e (not_below_one bytes bytes_lem.0)

  pub trim_limit-IsKept : (kept : ℕ) × IsKept (trim_limit cfg k fs) kept
  trim_limit-IsKept = elim (Bool-cases (ltb 0 cfg.gop_cache_max_duration)) [
    | inl e ↦ (
      span_fits.more,
      rw (limit_with_duration e ∙ counted)
          (shorter span_fits.more (omega (arith, span_here, bytes_lem.0)) (λ _. span_ok)),
    )
    | inr e ↦
        let same : bytes ≡ suc (bytes - 1) = omega (arith, bytes_lem.0) in
        (
          bytes - 1,
          rw (limit_without_duration e ∙ same)
              (shorter (bytes - 1) (omega (arith, same)) (λ h _. absurd (ground arith))),
        )
  ]
