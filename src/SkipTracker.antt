-- ===== src/SkipTracker.antt =====
-- core/stream.go: `SkipTracker`, which counts the overwrites of a reader within a sliding window.
-- Times are nanoseconds of a clock that does not go back. A `maxCount` that is not positive is 0.

pub mod Window
mod Tests
use liveforge.Base.{
  ℕ, zero, suc, ◌+◌, ◌≤◌, ◌<◌, ◌≡◌, refl, sym, ◌∙◌, ap, Bool, true, false, List, [], ◌∷◌, ◌++◌,
  arith, ltb, ◌==◌, if◌then◌else◌, length, Bool-cases, inl, inr, append-nil, append_assoc, ltb→lt,
  ltb_false→le, le→ltb_false, lt→ltb, subst,
}

pub record SkipTracker : Type 0 where
  pub max_count : ℕ
  pub window : ℕ
  pub events : List ℕ

-- `NewSkipTracker`
unfoldable pub new_skip_tracker : ℕ → ℕ → SkipTracker
new_skip_tracker max_count window = record { max_count = max_count; window = window; events = [] }

-- The loop over `trimIdx`: events before `now - window` are cut off at the front.
unfoldable pub trim_events : ℕ → ℕ → List ℕ → List ℕ
trim_events now window [] = []
trim_events now window (t ∷ ts) =
    let rest = trim_events now window ts in if ltb (t + window) now then rest else t ∷ ts

-- `RecordSkip`, at the time `now`: whether the threshold has been exceeded.
unfoldable pub record_skip : ℕ → SkipTracker → SkipTracker × Bool
record_skip now st =
    if st.max_count == 0
    then (st, false)
    else (let events = trim_events now st.window st.events ++ now ∷ [] in
        (record st { events = events }, ltb st.max_count (length events)))

-- several overwrites, at the times of the list
unfoldable pub record_all : List ℕ → SkipTracker → SkipTracker
record_all [] st = st
record_all (t ∷ ts) st = record_all ts (record_skip t st).0
