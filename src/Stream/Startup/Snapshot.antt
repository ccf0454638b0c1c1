-- ===== src/Stream/Startup/Snapshot.antt =====
-- core/stream.go: the startup snapshot against the history of the ring.
use liveforge.Base.{
  ℕ, ◌+◌, ◌-◌, ◌≤◌, ◌<◌, ◌≡◌, refl, sym, List, [], ◌∷◌, inl, inr, arith, length, length-drop, false,
  drop, dec_le, ltb, concat, Bool-cases, IsSublist-full, ltb_false→le, le→ltb_false, subst,
}
use liveforge.AvFrame.{Frame}
use liveforge.Ring.{RingBuffer}
use liveforge.Ring.History.{Holds}
use liveforge.Gop.Placed.{Placed, IsKeyAt-lt, non_headers, length-non_headers}
use liveforge.Config.{StreamConfig, LimitsConfig}
use liveforge.Stream.{Stream, new_stream}
use liveforge.Stream.Steps.{Reach}
use liveforge.Stream.Startup.History.{history, new_stream-HasHistory}
use liveforge.Stream.Startup.Runs.{run-HasHistory}
use liveforge.Stream.Startup.{replay_at, retained_startup_replay, startup_replay, startup_snapshot}
use liveforge.Stream.Startup.Replay.{
  IsReplay, AnyHeld, replay_from_held, replay_from_lost, drop_end,
}

nothing-IsReplay : (from : ℕ) (h : List Frame) → from ≤ length h → IsReplay from h ([], length h)
unfolding non_headers
nothing-IsReplay from h le =
    (rw (drop_end h (length h) (omega arith)) refl, le, omega arith, λ lt. absurd (omega arith))

-- What is replayed, up to the live cursor: all there is of the history, and something if the ring
-- has the start of a GOP.
abbrev IsStartup : ℕ → List Frame → ℕ → ℕ → List Frame × ℕ → List ℕ → Type 0
IsStartup from h size live_cursor replay starts =
    IsReplay from h replay × (AnyHeld live_cursor size starts → replay.1 < live_cursor)

module _ (from : ℕ) (h : List Frame) (rb : RingBuffer Frame) (v : Holds h rb)
    (le : from ≤ length h) where
  retained-IsReplay :
      (cache : List (List Frame)) (starts : List ℕ)
      → Placed from h cache starts
      → IsReplay from h (retained_startup_replay starts (length h) rb)
        × (AnyHeld (length h) rb.size starts
            → (retained_startup_replay starts (length h) rb).1 < length h)
  unfolding retained_startup_replay
  retained-IsReplay [] [] p = (nothing-IsReplay from h le, λ a. absurd a)
  retained-IsReplay (g ∷ gs) (s ∷ ss) (lo, key, sub, p) = elim (dec_le (length h) (s + rb.size)) [
    | yes held ↦
        let lt = IsKeyAt-lt h s key in
        rw (retained_startup_replay, replay_from_held h rb v s key held)
          ((refl, lo, omega (arith, lt), λ _. key), λ _. lt)
    | no lost ↦
        let (rest, found) = retained-IsReplay gs ss p in
        rw (retained_startup_replay, replay_from_lost h rb v s (omega (arith, lost)))
          (rest, λ a. elim a [ inl held ↦ absurd (lost held) | inr a' ↦ found a' ])
  ]
  retained-IsReplay [] (s ∷ ss) p = absurd p
  retained-IsReplay (g ∷ gs) [] p = absurd p

  -- The cache is all there is from its start on, if it is as long.
  cached :
      (g : List Frame) (gs : List (List Frame)) (s : ℕ) (ss : List ℕ)
      → Placed from h (g ∷ gs) (s ∷ ss)
      → length h - s ≤ length (concat (g ∷ gs))
      → IsReplay from h (concat (g ∷ gs), s)
  cached g gs s ss (lo, key, sub, p) long = (
    IsSublist-full sub (omega (arith, long, length-non_headers (drop s h), length-drop s h)),
    lo,
    omega (arith, IsKeyAt-lt h s key),
    λ _. key,
  )

  replay_at-IsStartup :
      (cache : List (List Frame)) (starts : List ℕ)
      → Placed from h cache starts
      → IsStartup from h rb.size (length h) (replay_at cache starts rb (length h)) starts
  replay_at-IsStartup [] [] p =
      rw (le→ltb_false 0 (length h - length h) (omega arith))
        (nothing-IsReplay from h le, λ a. absurd a)
  replay_at-IsStartup (g ∷ gs) (s ∷ ss) p =
      elim (Bool-cases (ltb (length (concat (g ∷ gs))) (length h - s))) [
        | inl e ↦ rw e (retained-IsReplay (g ∷ gs) (s ∷ ss) p)
        | inr e ↦ rw e (cached g gs s ss p (ltb_false→le _ _ e), λ _. IsKeyAt-lt h s p.1)
      ]
  replay_at-IsStartup [] (s ∷ ss) p = absurd p
  replay_at-IsStartup (g ∷ gs) [] p = absurd p

-- The startup snapshot in every run from a new stream whose ring is not closed, against the list of
-- all frames that the run has written into the ring. The live cursor is the end of that list. The
-- frames to replay are exactly those from the source cursor to the live cursor, without the sequence
-- headers, in their order. The source cursor is not before the start of the latest generation, and if
-- it is before the live cursor a key frame stands at it. It is before the live cursor if the ring
-- still has the start of any GOP of the cache.
pub startup_snapshot-IsReplay :
    (cfg : StreamConfig) (limits : LimitsConfig) {s : Stream}
    (run : Reach (new_stream cfg limits) s)
    → s.ring.closed ≡ false
    → let snapshot = startup_snapshot s in
      (snapshot.live_cursor ≡ length (history run))
      × IsReplay s.generation_start_cursor
          (history run)
          (snapshot.replay_frames, snapshot.source_cursor)
      × (AnyHeld snapshot.live_cursor s.ring.size s.gops.starts
          → snapshot.source_cursor < snapshot.live_cursor)
unfolding startup_snapshot startup_replay
startup_snapshot-IsReplay cfg limits {s = s} run open_ring =
    let v = run-HasHistory run [] (new_stream-HasHistory cfg limits) in
    let startup =
      subst
        (λ c.
          IsStartup s.generation_start_cursor (history run) s.ring.size c
            (replay_at s.gops.cache s.gops.starts s.ring c) s.gops.starts)
        (sym v.holds.cursor)
        (replay_at-IsStartup s.generation_start_cursor (history run) s.ring v.holds v.began
          s.gops.cache s.gops.starts (v.placed open_ring)) in
    (v.holds.cursor, startup.0, startup.1)
