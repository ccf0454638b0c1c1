-- ===== src/Subscribers/Leases.antt =====
-- A subscriber's lease for one publisher generation (core/stream.go): taken and released.
use liveforge.Base.{ℕ, ◌+◌, ◌-◌, ◌<◌, ◌≡◌, String, none, some, ◌↔◌, ◌≤◌, arith, if◌then◌else◌}
use liveforge.Base.Assoc.{count, string_key, number_key}
use liveforge.Subscribers.{
  Subscribers, add_subscriber, decrement, add_for_generation, remove_for_generation,
  generation_counts,
}
use liveforge.Subscribers.Counts.{
  count-insert, count-decrement, leased, add_for_generation_lem, generation_counts-leased,
  generation_counts-remove, counts-remove,
}

module _ (p : String) (g : ℕ) (s : Subscribers) where
  lease_held : count p (generation_counts g (leased p g s)) ≡ count p (generation_counts g s) + 1
  lease_held = rw (generation_counts-leased p g g s) (
      ground (
        arith,
        count-insert p p (count p (generation_counts g s) + 1) (generation_counts g s),
        string_key.beq_iff p p,
      ))

  counted : count p (leased p g s).counts ≡ count p s.counts + 1
  unfolding leased
  counted = ground (arith, count-insert p p (count p s.counts + 1) s.counts, string_key.beq_iff p p)

  back : Subscribers
  back = remove_for_generation p g (leased p g s)

  released :
      (back.counts ≡ decrement p (leased p g s).counts) × (back.total ≡ (leased p g s).total - 1)
  unfolding back
  released = counts-remove p g (leased p g s) (omega (arith, lease_held)) (omega (arith, counted))

  back_counts : (q : String) → count q back.counts ≡ count q s.counts
  unfolding leased
  back_counts q = rw (released.0) (
      ground (
        arith,
        count-decrement p q (leased p g s).counts,
        count-insert p q (count p s.counts + 1) s.counts,
        counted,
        string_key.beq_iff p q,
      ))

  back_total : back.total ≡ s.total
  unfolding leased
  back_total = omega (arith, released.1)

  back_leases :
      (h : ℕ) (q : String) → count q (generation_counts h back) ≡ count q (generation_counts h s)
  unfolding back
  back_leases h q = rw (generation_counts-remove p g h (leased p g s) (omega (arith, lease_held))) (
      ground (
        arith,
        generation_counts-leased p g g s,
        generation_counts-leased p g h s,
        count-decrement p q (generation_counts g (leased p g s)),
        count-insert p q (count p (generation_counts g s) + 1) (generation_counts g s),
        lease_held,
        string_key.beq_iff p q,
      ))

-- A lease that is taken and released leaves every count by protocol, the total, and the leases of
-- every generation as they were.
pub release-add_for_generation :
    (max : ℕ) (p : String) (g : ℕ) (s t : Subscribers)
    → add_for_generation max p g s ≡ some t
    → let u = remove_for_generation p g t in
      ((q : String) → count q u.counts ≡ count q s.counts)
      × (u.total ≡ s.total)
      × ((h : ℕ) (q : String) → count q (generation_counts h u) ≡ count q (generation_counts h s))
unfolding back
release-add_for_generation max p g s t e =
    rw (add_for_generation_lem max p g s t e)
      (back_counts p g s, back_total p g s, back_leases p g s)

-- A release in a generation that holds no lease of the protocol changes nothing: what one
-- generation has released cannot take subscribers from another.
remove_for_generation_none :
    (p : String) (g : ℕ) (s : Subscribers)
    → count p (generation_counts g s) ≡ 0
    → remove_for_generation p g s ≡ s
unfolding remove_for_generation
remove_for_generation_none p g s h = ground arith

-- A subscriber is refused exactly at a limit that is set and reached; one that is accepted counts
-- for its protocol alone and stays within the limit.
pub add_subscriber_admission :
    (max : ℕ) (p : String) (s : Subscribers)
    → ((add_subscriber max p s ≡ none) ↔ (0 < max) × (max ≤ s.total))
      × ((t : Subscribers)
          → add_subscriber max p s ≡ some t
          → (t.total ≡ s.total + 1)
            × (0 < max → t.total ≤ max)
            × ((q : String)
                → count q t.counts
                  ≡ (if string_key.beq p q then count p s.counts + 1 else count q s.counts)))
unfolding add_subscriber
add_subscriber_admission max p s = (
  (λ e. ground arith, λ h. ground arith),
  λ t e. (
    ground (arith, e),
    λ h. ground (arith, e),
    λ q. ground (arith, e, count-insert p q (count p s.counts + 1) s.counts),
  ),
)
