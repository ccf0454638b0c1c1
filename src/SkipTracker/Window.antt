-- ===== src/SkipTracker/Window.antt =====
-- `RecordSkip` of core/stream.go against all overwrites that it has been told.
use liveforge.Base.{
  ℕ, ◌+◌, ◌≤◌, ◌<◌, ◌≡◌, refl, sym, ◌∙◌, ap, false, List, [], ◌∷◌, ◌++◌, arith, ltb, ◌==◌,
  if◌then◌else◌, length, Bool-cases, inl, inr, append-nil, append_assoc, ltb→lt, ltb_false→le,
  le→ltb_false, lt→ltb, subst,
}
use liveforge.SkipTracker.{SkipTracker, new_skip_tracker, trim_events, record_skip, record_all}

-- the times that are in the window at `now`
abbrev pub recent : ℕ → ℕ → List ℕ → List ℕ
recent now window [] = []
recent now window (t ∷ ts) =
    let rest = recent now window ts in if ltb (t + window) now then rest else t ∷ rest

-- from `lo` on, each time is at least the one before it
abbrev pub Ascending : ℕ → List ℕ → Type 0
Ascending lo [] = Unit
Ascending lo (t ∷ ts) = (lo ≤ t) × Ascending t ts

all_recent :
    (now window lo : ℕ) (ts : List ℕ)
    → now ≤ lo + window
    → Ascending lo ts
    → recent now window ts ≡ ts
all_recent now window lo [] h a = refl
all_recent now window lo (t ∷ ts) h (le, a) =
    rw (le→ltb_false (t + window) now (omega (arith, h, le)))
      (ap (λ l. t ∷ l) (all_recent now window t ts (omega (arith, h, le)) a))

trim_events_lem :
    (now window lo : ℕ) (ts : List ℕ)
    → Ascending lo ts
    → trim_events now window ts ≡ recent now window ts
unfolding trim_events
trim_events_lem now window lo [] a = refl
trim_events_lem now window lo (t ∷ ts) (le, a) = elim (Bool-cases (ltb (t + window) now)) [
  | inl e ↦ rw e (trim_events_lem now window t ts a)
  | inr e ↦
      rw e (ap (λ l. t ∷ l) (sym (all_recent now window t ts (ltb_false→le (t + window) now e) a)))
]

Ascending-weaken : (lo lo' : ℕ) (ts : List ℕ) → lo' ≤ lo → Ascending lo ts → Ascending lo' ts
Ascending-weaken lo lo' [] h a = tt
Ascending-weaken lo lo' (t ∷ ts) h (le, a) = (omega (arith, h, le), a)

Ascending-recent :
    (now window lo : ℕ) (ts : List ℕ) → Ascending lo ts → Ascending lo (recent now window ts)
Ascending-recent now window lo [] a = tt
Ascending-recent now window lo (t ∷ ts) (le, a) = elim (Bool-cases (ltb (t + window) now)) [
  | inl e ↦ rw e (Ascending-weaken t lo _ le (Ascending-recent now window t ts a))
  | inr e ↦ rw e (le, Ascending-recent now window t ts a)
]

-- What is not recent stays so.
recent-recent :
    (now now' window : ℕ) (ts : List ℕ)
    → now ≤ now'
    → recent now' window (recent now window ts) ≡ recent now' window ts
recent-recent now now' window [] h = refl
recent-recent now now' window (t ∷ ts) h = elim (Bool-cases (ltb (t + window) now)) [
  | inl e ↦
      rw (e, lt→ltb (t + window) now' (omega (arith, ltb→lt (t + window) now e, h)))
        (recent-recent now now' window ts h)
  | inr e ↦ elim (Bool-cases (ltb (t + window) now')) [
    | inl e' ↦ rw (e, e') (recent-recent now now' window ts h)
    | inr e' ↦ rw (e, e') (ap (λ l. t ∷ l) (recent-recent now now' window ts h))
  ]
]

recent-append :
    (now window : ℕ) (ts us : List ℕ)
    → recent now window (ts ++ us) ≡ recent now window ts ++ recent now window us
recent-append now window [] us = refl
recent-append now window (t ∷ ts) us = elim (Bool-cases (ltb (t + window) now)) [
  | inl e ↦ rw e (recent-append now window ts us)
  | inr e ↦ rw e (ap (λ l. t ∷ l) (recent-append now window ts us))
]

recent_one : (now window t : ℕ) → now ≤ t → recent now window (t ∷ []) ≡ t ∷ []
recent_one now window t le = rw (le→ltb_false (t + window) now (omega (arith, le))) refl

Ascending-append_left : (lo : ℕ) (xs ys : List ℕ) → Ascending lo (xs ++ ys) → Ascending lo xs
Ascending-append_left lo [] ys a = tt
Ascending-append_left lo (x ∷ xs) ys (le, a) = (le, Ascending-append_left x xs ys a)

Ascending-later :
    (lo a b : ℕ) (xs : List ℕ)
    → a ≤ b
    → Ascending lo (xs ++ a ∷ [])
    → Ascending lo ((xs ++ a ∷ []) ++ b ∷ [])
Ascending-later lo a b [] le asc = (asc.0, (le, tt))
Ascending-later lo a b (x ∷ xs) le (le', asc) = (le', Ascending-later x a b xs le asc)

-- The tracker, behind the overwrites of `past`, of which the last one was at `last`: what it keeps is
-- as recent, at any later time, as all of them are.
record Tracks (past : List ℕ) (last : ℕ) (st : SkipTracker) : Type 0 where
  same : (now : ℕ) → last ≤ now → recent now st.window st.events ≡ recent now st.window past
  ascending : (now : ℕ) → last ≤ now → Ascending 0 (st.events ++ now ∷ [])

module _ (past : List ℕ) (last now : ℕ) (st : SkipTracker) (on : 0 < st.max_count) (le : last ≤ now)
    (tr : Tracks past last st) where
  kept :
      trim_events now st.window st.events ++ now ∷ [] ≡ recent now st.window (st.events ++ now ∷ [])
  kept =
      ap (λ l. l ++ now ∷ [])
        (trim_events_lem now st.window 0 st.events
          (Ascending-append_left 0 st.events (now ∷ []) (tr.ascending now le)))
      ∙ ap (λ l. recent now st.window st.events ++ l)
          (sym (recent_one now st.window now (omega arith)))
      ∙ sym (recent-append now st.window st.events (now ∷ []))

  both_recent :
      (later : ℕ)
      → now ≤ later
      → recent later st.window (st.events ++ now ∷ []) ≡ recent later st.window (past ++ now ∷ [])
  both_recent later le' =
      recent-append later st.window st.events (now ∷ [])
      ∙ ap (λ l. l ++ recent later st.window (now ∷ [])) (tr.same later (omega (arith, le, le')))
      ∙ sym (recent-append later st.window past (now ∷ []))

  recorded : record_skip now st ≡ (
    record st { events = recent now st.window (st.events ++ now ∷ []) },
    ltb st.max_count (length (recent now st.window (past ++ now ∷ []))),
  )
  unfolding record_skip
  recorded = rw (zero_test, kept, both_recent now (omega arith)) refl
    where
      zero_test : (st.max_count == 0) ≡ false
      zero_test = ground arith

  Tracks-on : Tracks (past ++ now ∷ []) now (record_skip now st).0
  Tracks-on = rw recorded (record {
    same = λ later le'.
        recent-recent now later st.window (st.events ++ now ∷ []) le' ∙ both_recent later le';
    ascending = λ later le'.
        subst (Ascending 0)
          (recent-append now st.window (st.events ++ now ∷ []) (later ∷ [])
            ∙ ap (λ l. recent now st.window (st.events ++ now ∷ []) ++ l)
                (recent_one now st.window later le'))
          (Ascending-recent now st.window 0 _
            (Ascending-later 0 now later st.events le' (tr.ascending now le)));
  })

last_of : ℕ → List ℕ → ℕ
last_of last [] = last
last_of last (t ∷ ts) = last_of t ts

record_skip-config :
    (now : ℕ) (st : SkipTracker)
    → ((record_skip now st).0.max_count ≡ st.max_count)
      × ((record_skip now st).0.window ≡ st.window)
unfolding record_skip
record_skip-config now st = ground arith

-- The tracker behind a run of overwrites.
record Follows (past ts : List ℕ) (last : ℕ) (st t : SkipTracker) : Type 0 where
  max_count : t.max_count ≡ st.max_count
  window : t.window ≡ st.window
  tracks : Tracks (past ++ ts) (last_of last ts) t

record_all-Follows :
    (ts past : List ℕ) (last : ℕ) (st : SkipTracker)
    → 0 < st.max_count
    → Ascending last ts
    → Tracks past last st
    → Follows past ts last st (record_all ts st)
unfolding record_all last_of
record_all-Follows [] past last st on asc tr = record {
  max_count = refl;
  window = refl;
  tracks = rw append-nil tr;
}
record_all-Follows (t ∷ ts) past last st on (le, asc) tr =
    let (count, window) = record_skip-config t st in
    let rest =
      record_all-Follows ts (past ++ t ∷ []) t (record_skip t st).0 (omega (arith, count, on)) asc
        (Tracks-on past last t st on le tr) in
    record {
      max_count = rest.max_count ∙ count;
      window = rest.window ∙ window;
      tracks =
          subst (λ l. Tracks l (last_of t ts) (record_all ts (record_skip t st).0))
            (append_assoc past (t ∷ []) ts) rest.tracks;
    }

last_before : (lo now : ℕ) (ts : List ℕ) → Ascending lo (ts ++ now ∷ []) → last_of lo ts ≤ now
unfolding last_of
last_before lo now [] asc = asc.0
last_before lo now (t ∷ ts) asc = last_before t now ts asc.1

nothing_tracked : (max_count window : ℕ) → Tracks [] 0 (new_skip_tracker max_count window)
unfolding new_skip_tracker
nothing_tracked max_count window = record {
  same = λ now le. refl;
  ascending = λ now le. (omega arith, tt);
}

-- What `RecordSkip` answers after overwrites at the times `ts`, of a clock that does not go back: an
-- overwrite at `now` exceeds the threshold exactly if, it included, more than `maxCount` of all of
-- them are within the window that ends at `now`.
pub record_skip_lem :
    (max_count window now : ℕ) (ts : List ℕ)
    → 0 < max_count
    → Ascending 0 (ts ++ now ∷ [])
    → (record_skip now (record_all ts (new_skip_tracker max_count window))).1
      ≡ ltb max_count (length (recent now window (ts ++ now ∷ [])))
unfolding new_skip_tracker
record_skip_lem max_count window now ts on asc =
    let f =
      record_all-Follows ts [] 0 (new_skip_tracker max_count window) on
        (Ascending-append_left 0 ts (now ∷ []) asc) (nothing_tracked max_count window) in
    ap (λ x. x.1)
      (recorded ts (last_of 0 ts) now (record_all ts (new_skip_tracker max_count window))
        (omega (arith, f.max_count, on)) (last_before 0 now ts asc) f.tracks)
    ∙ rw (f.max_count, f.window) refl
