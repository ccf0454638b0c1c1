-- ===== src/Subscribers/Tests.antt =====
-- The subscriber counts of core/stream.go on small inputs, and the theorems at concrete inputs.
use liveforge.Base.{ℕ, ◌+◌, ◌≤◌, ◌<◌, ◌≡◌, ◌↔◌, refl, String, none, some, [], ◌∷◌, if◌then◌else◌}
use liveforge.Base.Assoc.{count, lookup, insert, string_key, number_key}
use liveforge.Subscribers.{
  Subscribers, add_subscriber, add_for_generation, remove_for_generation, generation_counts,
}
use liveforge.Subscribers.Leases.{release-add_for_generation, add_subscriber_admission}

abbrev one : Subscribers
one = record { counts = ("rtmp", 1) ∷ []; total = 1; by_generation = [] }

abbrev two : Subscribers
two = record { counts = ("rtmp", 2) ∷ []; total = 2; by_generation = (7, ("rtmp", 1) ∷ []) ∷ [] }

leased_once : add_for_generation 2 "rtmp" 7 one ≡ some two
unfolding add_for_generation add_subscriber generation_counts count lookup insert
leased_once = refl

at_the_limit : add_subscriber 2 "srt" two ≡ none
unfolding add_subscriber
at_the_limit = refl

release-add_for_generation_example :
    ((q : String) → count q (remove_for_generation "rtmp" 7 two).counts ≡ count q one.counts)
    × ((remove_for_generation "rtmp" 7 two).total ≡ 1)
    × ((h : ℕ) (q : String)
        → count q (generation_counts h (remove_for_generation "rtmp" 7 two))
          ≡ count q (generation_counts h one))
release-add_for_generation_example = release-add_for_generation 2 "rtmp" 7 one two leased_once

add_subscriber_admission_example :
    ((add_subscriber 2 "srt" two ≡ none) ↔ (0 < 2) × (2 ≤ 2))
    × ((t : Subscribers)
        → add_subscriber 2 "srt" two ≡ some t
        → (t.total ≡ 3)
          × (0 < 2 → t.total ≤ 2)
          × ((q : String)
              → count q t.counts ≡ (
                  if string_key.beq "srt" q
                  then count "srt" two.counts + 1
                  else count q two.counts)))
add_subscriber_admission_example = add_subscriber_admission 2 "srt" two
