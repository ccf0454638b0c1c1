-- ===== src/Subscribers.antt =====
-- core/stream.go: the subscriber counts of a stream, by protocol, in all, and by publisher
-- generation. `subscriberTotal` is an int64 that is never below 0: it goes down only with a count
-- that is positive.
pub mod Counts
pub mod Leases
mod Tests
use liveforge.Base.{
  ℕ, ◌+◌, ◌-◌, String, Bool, true, false, Option, none, some, List, [], ◌∷◌, ltb, leb, ◌==◌, ◌&&◌,
  if◌then◌else◌,
}
use liveforge.Base.Assoc.{lookup, insert, delete, count, string_key, number_key}

abbrev pub Counts : Type 0
Counts = List (String × ℕ)

pub record Subscribers : Type 0 where
  pub counts : Counts
  pub total : ℕ
  pub by_generation : List (ℕ × Counts)

abbrev pub no_subscribers : Subscribers
no_subscribers = record { counts = []; total = 0; by_generation = [] }

-- `addSubscriberLocked`, on the counts: `none` is the error at the limit, where 0 is no limit.
unfoldable pub add_subscriber : ℕ → String → Subscribers → Option Subscribers
add_subscriber max protocol s =
    if ltb 0 max && leb max s.total
    then none
    else some (record s {
      counts = insert protocol (count protocol s.counts + 1) s.counts;
      total = s.total + 1;
    })

-- `m[k]--` where the count is positive, and the deletion of a count of 0
unfoldable pub decrement : String → Counts → Counts
decrement k m =
    let n = count k m in if n == 1 then delete k m else if ltb 0 n then insert k (n - 1) m else m

-- `RemoveSubscriber`, on the counts. A count of 0 is deleted after the decrement, and also where
-- the protocol has none.
unfoldable pub remove_subscriber : String → Subscribers → Subscribers
remove_subscriber protocol s =
    if ltb 0 (count protocol s.counts)
    then record s { counts = decrement protocol s.counts; total = s.total - 1 }
    else record s { counts = delete protocol s.counts }

abbrev pub or_empty : Option Counts → Counts
or_empty none = []
or_empty (some m) = m

-- The counts of one generation; a missing map is nil, which reads as empty.
unfoldable pub generation_counts : ℕ → Subscribers → Counts
generation_counts generation s = or_empty (lookup generation s.by_generation)

-- `AddSubscriberForGeneration` after its test of the generation
unfoldable pub add_for_generation : ℕ → String → ℕ → Subscribers → Option Subscribers
add_for_generation max protocol generation s = elim (add_subscriber max protocol s) [
  | none ↦ none
  | some s' ↦
      let m = generation_counts generation s' in
      some (record s' {
        by_generation =
            insert generation (insert protocol (count protocol m + 1) m) s'.by_generation;
      })
]

abbrev pub is_empty : Counts → Bool
is_empty [] = true
is_empty (x ∷ xs) = false

-- `removeSubscriberForGeneration`, on the counts
unfoldable pub remove_for_generation : String → ℕ → Subscribers → Subscribers
remove_for_generation protocol generation s =
    let m = generation_counts generation s in
    if ltb 0 (count protocol m)
    then (let m' = decrement protocol m in
        let by_generation =
          if is_empty m'
          then delete generation s.by_generation
          else insert generation m' s.by_generation in
        if ltb 0 (count protocol s.counts)
        then record {
          counts = decrement protocol s.counts;
          total = s.total - 1;
          by_generation = by_generation;
        }
        else record s { by_generation = by_generation })
    else s
