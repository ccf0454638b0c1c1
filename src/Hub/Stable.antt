-- ===== src/Hub/Stable.antt =====
-- `StableStreams` of core/stream_hub.go.
use liveforge.Base.{
  ℕ, zero, suc, ◌≡◌, refl, ap, String, Bool, List, [], ◌∷◌, take, if◌then◌else◌, Bool-cases, inl,
  inr, ◌∙◌,
}
use liveforge.Hub.{StreamHub, first_stable, stable_streams, new_stream_hub}
use liveforge.Hub.Life.{Reach, Reach-IsValid}

-- the streams that do not end
abbrev pub lasting : (ℕ → Bool) → List (String × ℕ) → List ℕ
lasting is_ending [] = []
lasting is_ending ((k, s) ∷ m) =
    let rest = lasting is_ending m in if is_ending s then rest else s ∷ rest

first_stable_lem :
    (is_ending : ℕ → Bool) (limit : ℕ) (m : List (String × ℕ))
    → first_stable is_ending limit m ≡ take limit (lasting is_ending m)
unfolding first_stable
first_stable_lem is_ending zero m = refl
first_stable_lem is_ending (suc limit) [] = refl
first_stable_lem is_ending (suc limit) ((k, s) ∷ m) = elim (Bool-cases (is_ending s)) [
  | inl ends ↦ rw ends (first_stable_lem is_ending (suc limit) m)
  | inr lasts ↦ rw lasts (ap (λ l. s ∷ l) (first_stable_lem is_ending limit m))
]

-- In every run of a hub, `StableStreams` returns the first `limit` of those streams of the map that
-- are not destroying, or all of them if there are fewer, in the order of the list that stands for the
-- map, which has the streams in the order of their creation.
pub stable_streams_lem :
    (max : ℕ) {h : StreamHub} (r : Reach (new_stream_hub max) h) (is_ending : ℕ → Bool) (limit : ℕ)
    → stable_streams is_ending limit h ≡ take limit (lasting is_ending h.streams)
unfolding stable_streams
stable_streams_lem max {h = h} r is_ending limit =
    first_stable_lem is_ending limit h.order
    ∙ ap (λ m. take limit (lasting is_ending m)) (Reach-IsValid max r).order
