-- ===== src/PortAlloc/Free.antt =====
-- `Free` of pkg/portalloc/portalloc.go, and that it undoes `AllocatePair`.
use liveforge.Base.{
  ℕ, ◌+◌, ◌≡◌, inl, inr, refl, sym, ◌∙◌, subst, Bool, true, false, not, Option, some, List, [], ◌∷◌,
  ◌&&◌, ◌||◌, arith, leb, ◌==◌, ℕ_discrete,
}
use liveforge.PortAlloc.{
  PortAllocator, is_used, delete_port, is_free_pair, allocate_pair, free_one, free,
}
use liveforge.PortAlloc.Pool.{IsValid, IsPair, FirstPair, Takes, allocate_pair_lem}

is_used-delete_port :
    (q p : ℕ) (used : List ℕ) → is_used q (delete_port p used) ≡ (is_used q used && not (p == q))
is_used-delete_port q p [] = refl
is_used-delete_port q p (x ∷ used) = ground (arith, is_used-delete_port q p used)

free_one_lem :
    (port : ℕ) (pa : PortAllocator) (q : ℕ)
    → is_used q (free_one port pa).used
      ≡ (is_used q pa.used && not (port == q && (leb pa.min_port q && leb q pa.max_port)))
free_one_lem port pa q = ground (arith, is_used-delete_port q port pa.used)

free_one-bounds :
    (port : ℕ) (pa : PortAllocator)
    → ((free_one port pa).min_port ≡ pa.min_port) × ((free_one port pa).max_port ≡ pa.max_port)
free_one-bounds port pa = ground arith

-- `Free` gives back exactly the ports that it is called with and that are within the pool's bounds.
pub free_lem :
    (ports : List ℕ) (pa : PortAllocator) (q : ℕ)
    → is_used q (free ports pa).used
      ≡ (is_used q pa.used && not (is_used q ports && (leb pa.min_port q && leb q pa.max_port)))
unfolding free
free_lem [] pa q = ground arith
free_lem (port ∷ ports) pa q =
    let (lo, hi) = free_one-bounds port pa in
    free_lem ports (free_one port pa) q
    ∙ rw (free_one_lem port pa q, lo, hi)
        (both_tests (is_used q pa.used) (port == q) (is_used q ports)
          (leb pa.min_port q && leb q pa.max_port))
  where
    both_tests :
        (used one rest within : Bool)
        → ((used && not (one && within)) && not (rest && within))
          ≡ (used && not ((one || rest) && within))
    both_tests used one rest within = ground arith

-- a port of a free pair is free, and within the bounds
one_of_pair :
    (pa : PortAllocator) (p q : ℕ)
    → IsPair pa p
    → is_free_pair pa p ≡ true
    → is_used q (p ∷ (p + 1) ∷ []) ≡ true
    → (is_used q pa.used ≡ false) × ((leb pa.min_port q && leb q pa.max_port) ≡ true)
one_of_pair pa p q (lo, hi, _) free_pair one = elim (ℕ_discrete q p) [
  | yes e ↦ rw e (ground (arith, free_pair), ground (arith, lo, hi))
  | no ne ↦
      let second : q ≡ p + 1 = ground (arith, one, ne) in
      rw second (ground (arith, free_pair), ground (arith, lo, hi))
]

freed_pair :
    (pa t : PortAllocator) (p q : ℕ)
    → FirstPair (is_free_pair pa) pa p
    → Takes pa t (p ∷ (p + 1) ∷ [])
    → is_used q (free (p ∷ (p + 1) ∷ []) t).used ≡ is_used q pa.used
freed_pair pa t p q (is_pair, free_pair, _) takes =
    free_lem (p ∷ (p + 1) ∷ []) t q
    ∙ rw (takes.used q, takes.bounds.0, takes.bounds.1)
        (by_test (is_used q (p ∷ (p + 1) ∷ [])) refl)
  where
    by_test :
        (b : Bool)
        → is_used q (p ∷ (p + 1) ∷ []) ≡ b
        → ((b || is_used q pa.used) && not (b && (leb pa.min_port q && leb q pa.max_port)))
          ≡ is_used q pa.used
    by_test true e =
        let (unused, within) = one_of_pair pa p q is_pair free_pair e in rw (unused, within) refl
    by_test false e = ground arith

same_pair :
    (x : Option ((ℕ × ℕ) × PortAllocator)) (p p' : ℕ) (t t' : PortAllocator)
    → x ≡ some ((p, p + 1), t)
    → x ≡ some ((p', p' + 1), t')
    → (p' ≡ p) × (t' ≡ t)
same_pair x p p' t t' e e' = ground (arith, sym e ∙ e')

-- Freeing a pair that was allocated makes the pool what it was: the same ports are used as before.
pub free-allocate_pair :
    (pa t : PortAllocator) (p : ℕ)
    → IsValid pa
    → allocate_pair pa ≡ some ((p, p + 1), t)
    → (q : ℕ) → is_used q (free (p ∷ (p + 1) ∷ []) t).used ≡ is_used q pa.used
free-allocate_pair pa t p v e q = elim (allocate_pair_lem pa v) [
  | inl (e', _) ↦ cc (e, e')
  | inr (p', t', e', first, takes, _) ↦
      let (same, same_pool) = same_pair (allocate_pair pa) p p' t t' e e' in
      subst (λ x. is_used q (free (p ∷ (p + 1) ∷ []) x).used ≡ is_used q pa.used) same_pool
        (subst (λ x. is_used q (free (x ∷ (x + 1) ∷ []) t').used ≡ is_used q pa.used) same
          (freed_pair pa t' p' q first takes))
]
