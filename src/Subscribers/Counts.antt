-- ===== src/Subscribers/Counts.antt =====
-- The counts of core/stream.go agree with each other under every operation.
use liveforge.Base.{
  ℕ, ◌+◌, ◌-◌, ◌<◌, ◌≡◌, refl, String, true, some, List, [], ◌∷◌, arith, ◌==◌, if◌then◌else◌,
}
use liveforge.Base.Assoc.{
  lookup, insert, delete, count, total, IsCount, string_key, number_key, lookup-insert,
  lookup-delete, total-insert, total-delete, insert-IsCount, delete-IsCount,
}
use liveforge.Subscribers.{
  Counts, Subscribers, add_subscriber, decrement, remove_subscriber, add_for_generation,
  remove_for_generation, generation_counts, or_empty, is_empty,
}

-- The total is the sum of the counts by protocol, which are positive, each protocol once.
pub record IsValid (s : Subscribers) : Type 0 where
  pub counts : IsCount s.counts
  pub sum : s.total ≡ total s.counts

pub count-insert :
    (k j : String) (n : ℕ) (m : Counts)
    → count j (insert k n m) ≡ (if string_key.beq k j then n else count j m)
unfolding count
count-insert k j n m = rw (lookup-insert k j n m) (ground arith)

count-delete :
    (k j : String) (m : Counts)
    → count j (delete k m) ≡ (if string_key.beq k j then 0 else count j m)
unfolding count
count-delete k j m = rw (lookup-delete k j m) (ground arith)

pub count-decrement :
    (k j : String) (m : Counts)
    → count j (decrement k m) ≡ (if string_key.beq k j then count k m - 1 else count j m)
unfolding decrement
count-decrement k j m =
    ground (arith, count-delete k j m, count-insert k j (count k m - 1) m, string_key.beq_iff k j)

pub add_subscriber-IsValid :
    (max : ℕ) (p : String) (s : Subscribers) {t : Subscribers}
    → IsValid s
    → add_subscriber max p s ≡ some t
    → IsValid t
unfolding add_subscriber
add_subscriber-IsValid max p s v e = ground (
  arith,
  v,
  e,
  insert-IsCount p (count p s.counts + 1) s.counts,
  total-insert p (count p s.counts + 1) s.counts,
)

decrement-IsCount : (k : String) (m : Counts) → IsCount m → IsCount (decrement k m)
unfolding decrement
decrement-IsCount k m h = ground (arith, delete-IsCount k m h, insert-IsCount k (count k m - 1) m)

total-decrement :
    (k : String) (m : Counts) → IsCount m → 0 < count k m → total (decrement k m) + 1 ≡ total m
unfolding decrement
total-decrement k m h p = ground (arith, total-delete k m h, total-insert k (count k m - 1) m)

pub remove_subscriber-IsValid :
    (p : String) (s : Subscribers) → IsValid s → IsValid (remove_subscriber p s)
unfolding remove_subscriber
remove_subscriber-IsValid p s v = ground (
  arith,
  v,
  decrement-IsCount p s.counts v.counts,
  total-decrement p s.counts v.counts,
  delete-IsCount p s.counts v.counts,
  total-delete p s.counts v.counts,
)

-- the counts that a lease of `p` in generation `g` leaves
unfoldable pub leased : String → ℕ → Subscribers → Subscribers
leased p g s =
    let m = generation_counts g s in
    record {
      counts = insert p (count p s.counts + 1) s.counts;
      total = s.total + 1;
      by_generation = insert g (insert p (count p m + 1) m) s.by_generation;
    }

pub add_for_generation_lem :
    (max : ℕ) (p : String) (g : ℕ) (s t : Subscribers)
    → add_for_generation max p g s ≡ some t
    → t ≡ leased p g s
unfolding add_for_generation add_subscriber leased generation_counts
add_for_generation_lem max p g s t e = ground (arith, e)

leased-IsValid : (p : String) (g : ℕ) (s : Subscribers) → IsValid s → IsValid (leased p g s)
unfolding leased
leased-IsValid p g s v = record {
  counts = insert-IsCount p (count p s.counts + 1) s.counts (omega arith) v.counts;
  sum = omega (arith, v.sum, total-insert p (count p s.counts + 1) s.counts);
}

pub add_for_generation-IsValid :
    (max : ℕ) (p : String) (g : ℕ) (s : Subscribers) {t : Subscribers}
    → IsValid s
    → add_for_generation max p g s ≡ some t
    → IsValid t
add_for_generation-IsValid max p g s {t} v e =
    rw (add_for_generation_lem max p g s t e) (leased-IsValid p g s v)

pub remove_for_generation-IsValid :
    (p : String) (g : ℕ) (s : Subscribers) → IsValid s → IsValid (remove_for_generation p g s)
unfolding remove_for_generation
remove_for_generation-IsValid p g s v =
    ground (arith, v, decrement-IsCount p s.counts v.counts, total-decrement p s.counts v.counts)

gc-insert :
    (g g' : ℕ) (m : Counts) (l : List (ℕ × Counts))
    → or_empty (lookup g' (insert g m l)) ≡ (if g == g' then m else or_empty (lookup g' l))
gc-insert g g' m l = rw (lookup-insert g g' m l) (ground arith)

gc-delete :
    (g g' : ℕ) (l : List (ℕ × Counts))
    → or_empty (lookup g' (delete g l)) ≡ (if g == g' then [] else or_empty (lookup g' l))
gc-delete g g' l = rw (lookup-delete g g' l) (ground arith)

pub generation_counts-leased :
    (p : String) (g g' : ℕ) (s : Subscribers)
    → generation_counts g' (leased p g s) ≡ (
        if g == g'
        then insert p (count p (generation_counts g s) + 1) (generation_counts g s)
        else generation_counts g' s)
unfolding leased generation_counts
generation_counts-leased p g g' s = gc-insert g g' _ s.by_generation

empty_counts : (m : Counts) → is_empty m ≡ true → m ≡ []
empty_counts [] h = refl
empty_counts (x ∷ m) h = cc

-- A release takes one from the lease's protocol in its generation, and nothing from another
-- generation.
pub generation_counts-remove :
    (p : String) (g g' : ℕ) (s : Subscribers)
    → 0 < count p (generation_counts g s)
    → generation_counts g' (remove_for_generation p g s)
      ≡ (if g == g' then decrement p (generation_counts g s) else generation_counts g' s)
unfolding remove_for_generation generation_counts
generation_counts-remove p g g' s h = ground (
  arith,
  h,
  gc-insert g g' (decrement p (generation_counts g s)) s.by_generation,
  gc-delete g g' s.by_generation,
  empty_counts (decrement p (generation_counts g s)),
)

pub counts-remove :
    (p : String) (g : ℕ) (s : Subscribers)
    → 0 < count p (generation_counts g s)
    → 0 < count p s.counts
    → ((remove_for_generation p g s).counts ≡ decrement p s.counts)
      × ((remove_for_generation p g s).total ≡ s.total - 1)
unfolding remove_for_generation
counts-remove p g s h k = ground arith
