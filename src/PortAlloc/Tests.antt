-- ===== src/PortAlloc/Tests.antt =====
-- The pool of pkg/portalloc/portalloc.go on a few ports, and the theorems at concrete inputs.
use liveforge.Base.{
  ℕ, ◌+◌, ◌≤◌, ◌≡◌, ◌⊎◌, refl, Bool, true, false, not, none, some, [], ◌∷◌, arith, ◌&&◌, ◌==◌, leb,
}
use liveforge.PortAlloc.{
  PortAllocator, is_used, scan, first_even_port, mark, allocate, allocate_pair, is_free_pair,
  bound_loop, allocate_bound_udp_pair, free,
}
use liveforge.PortAlloc.Pool.{
  IsValid, IsFree, IsPair, Takes, FirstPair, allocate_lem, allocate_pair_lem,
}
use liveforge.PortAlloc.Free.{free_lem, free-allocate_pair}
use liveforge.PortAlloc.Bound.{IsBound, allocate_bound_udp_pair_lem}

-- ports 9 to 14, of which 10 is used
abbrev pool : PortAllocator
pool = record { used = 10 ∷ []; min_port = 9; max_port = 14 }

pool-IsValid : IsValid pool
pool-IsValid = record {
  low = omega arith;
  ordered = omega arith;
  high = omega arith;
  within = λ p u. ground (arith, u);
}

-- another program has port 13
abbrev busy : ℕ → Bool
busy p = not (p == 13)

abbrev taken : PortAllocator
taken = mark 13 (mark 12 pool)

lowest_pair : allocate_pair pool ≡ some ((12, 13), taken)
unfolding allocate_pair scan first_even_port
lowest_pair = refl

-- the first socket of the pair that cannot be bound is closed again
no_pair_is_left : (allocate_bound_udp_pair busy pool).open_ports ≡ []
unfolding allocate_bound_udp_pair bound_loop first_even_port
no_pair_is_left = refl

allocate_bound_udp_pair_lem_example : IsBound busy pool (allocate_bound_udp_pair busy pool)
allocate_bound_udp_pair_lem_example = allocate_bound_udp_pair_lem busy pool pool-IsValid

free-allocate_pair_example :
    is_used 12 (free (12 ∷ (12 + 1) ∷ []) taken).used ≡ is_used 12 pool.used
free-allocate_pair_example = free-allocate_pair pool taken 12 pool-IsValid lowest_pair 12

free_lem_example : is_used 12 (free (12 ∷ 20 ∷ []) taken).used ≡ (
    is_used 12 taken.used
    && not (is_used 12 (12 ∷ 20 ∷ []) && (leb taken.min_port 12 && leb 12 taken.max_port)))
free_lem_example = free_lem (12 ∷ 20 ∷ []) taken 12

allocate_lem_example :
    ((allocate pool ≡ none)
      × ((p : ℕ) → pool.min_port ≤ p → p ≤ pool.max_port → is_used p pool.used ≡ true))
    ⊎ ((p : ℕ) × (t : PortAllocator) × (allocate pool ≡ some (p, t))
        × IsFree pool p
        × ((q : ℕ) → IsFree pool q → p ≤ q)
        × Takes pool t (p ∷ [])
        × IsValid t)
allocate_lem_example = allocate_lem pool pool-IsValid

allocate_pair_lem_example :
    ((allocate_pair pool ≡ none) × ((q : ℕ) → IsPair pool q → is_free_pair pool q ≡ false))
    ⊎ ((p : ℕ) × (t : PortAllocator) × (allocate_pair pool ≡ some ((p, p + 1), t))
        × FirstPair (is_free_pair pool) pool p
        × Takes pool t (p ∷ (p + 1) ∷ [])
        × IsValid t)
allocate_pair_lem_example = allocate_pair_lem pool pool-IsValid
