-- ===== src/SkipTracker/Tests.antt =====
-- The skip tracker of core/stream.go on a few overwrites, and its theorem at a concrete input.
use liveforge.Base.{◌≡◌, refl, true, [], ◌∷◌, ◌++◌, arith, ltb, length}
use liveforge.SkipTracker.{new_skip_tracker, trim_events, record_skip, record_all}
use liveforge.SkipTracker.Window.{recent, record_skip_lem}

-- of the overwrites at 0, 5 and 12, two are in the window of 10 at 12
third_is_too_many : (record_skip 12 (record_all (0 ∷ 5 ∷ []) (new_skip_tracker 1 10))).1 ≡ true
unfolding record_skip record_all trim_events new_skip_tracker
third_is_too_many = refl

record_skip_lem_example :
    (record_skip 12 (record_all (0 ∷ 5 ∷ []) (new_skip_tracker 1 10))).1
    ≡ ltb 1 (length (recent 12 10 ((0 ∷ 5 ∷ []) ++ 12 ∷ [])))
record_skip_lem_example =
    record_skip_lem 1 10 12 (0 ∷ 5 ∷ []) (omega arith)
      (omega arith, (omega arith, (omega arith, tt)))
