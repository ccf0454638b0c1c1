-- ===== src/PortAlloc/Bound.antt =====
-- `AllocateBoundUDPPair` of pkg/portalloc/portalloc.go, whatever ports other programs have bound.
use liveforge.Base.{
  ℕ, zero, suc, ◌+◌, ◌-◌, ◌≡◌, ◌⊎◌, inl, inr, refl, sym, ◌∙◌, ap, ap₂, subst, Bool, true, false,
  not, Option, none, some, List, [], ◌∷◌, ◌&&◌, ◌||◌, arith, leb, if◌then◌else◌,
}
use liveforge.PortAlloc.{
  PortAllocator, BoundResult, bound_pair, not_bindable, not_available, BoundState, is_used,
  delete_port, scan, first_even_port, mark, rounds, is_free_pair, unbound, bound_loop,
  allocate_bound_udp_pair,
}
use liveforge.PortAlloc.Pool.{
  IsValid, IsPair, FirstPair, Takes, scan_pair_lem, mark_pair-IsValid, mark_pair-Takes,
}

-- The test of the loop: a free pair of which both sockets can be bound.
abbrev pub is_bindable : (ℕ → Bool) → PortAllocator → ℕ → Bool
is_bindable can_bind pa p = is_free_pair pa p && (can_bind p && can_bind (p + 1))

abbrev found : Option ℕ → Bool
found none = false
found (some p) = true

-- The loop as a search: what it returns for the pair that is found, and else the error.
abbrev ending : PortAllocator → Bool → Option ℕ → BoundState
ending pa bind_failed none = unbound bind_failed pa []
ending pa bind_failed (some p) = record {
  result = bound_pair p (p + 1);
  pool = mark (p + 1) (mark p pa);
  open_ports = (p + 1) ∷ p ∷ [];
}

closed_again : (p : ℕ) → delete_port p (p ∷ []) ≡ []
closed_again p = ground arith

or_false : (b : Bool) → (b || false) ≡ b
or_false b = ground arith

or_true : (b : Bool) → (b || true) ≡ true
or_true b = ground arith

-- One round, by its tests: `next` is the rounds after it, and `free` and `bindable` what the searches
-- for a free pair and for one that can be bound find in them.
round_lem :
    (pa : PortAllocator) (p : ℕ) (next : Bool → List ℕ → BoundState) (free bindable : Option ℕ)
    (within used used' can can' bind_failed : Bool)
    → ((b : Bool) → next b [] ≡ ending pa (b || found free) bindable)
    → (if within
        then if used || used'
          then next bind_failed []
          else if not can
          then next true []
          else if not can'
          then next true (delete_port p (p ∷ []))
          else (record {
            result = bound_pair p (p + 1);
            pool = mark (p + 1) (mark p pa);
            open_ports = (p + 1) ∷ p ∷ [];
          })
        else unbound bind_failed pa [])
      ≡ ending pa
          (bind_failed
            || found (if within then if not used && not used' then some p else free else none))
          (if within
            then if (not used && not used') && (can && can') then some p else bindable
            else none)
round_lem pa p next free bindable false used used' can can' b h = rw (or_false b) refl
round_lem pa p next free bindable true true used' can can' b h = h b
round_lem pa p next free bindable true false true can can' b h = h b
round_lem pa p next free bindable true false false false can' b h = h true ∙ rw (or_true b) refl
round_lem pa p next free bindable true false false true false b h =
    ap (next true) (closed_again p) ∙ h true ∙ rw (or_true b) refl
round_lem pa p next free bindable true false false true true b h = refl

module _ (can_bind : ℕ → Bool) (pa : PortAllocator) where
  loop_lem :
      (fuel p : ℕ) (bind_failed : Bool)
      → bound_loop can_bind pa fuel p bind_failed []
        ≡ ending pa
            (bind_failed || found (scan (is_free_pair pa) 2 (pa.max_port - 1) fuel p))
            (scan (is_bindable can_bind pa) 2 (pa.max_port - 1) fuel p)
  unfolding bound_loop scan
  loop_lem zero p bind_failed = ground arith
  loop_lem (suc fuel) p bind_failed =
      round_lem pa p (bound_loop can_bind pa fuel (p + 2)) _ _ (leb p (pa.max_port - 1))
        (is_used p pa.used) (is_used (p + 1) pa.used) (can_bind p) (can_bind (p + 1)) bind_failed
        (loop_lem fuel (p + 2))

-- No pair of the pool is both free and bindable: why it fails.
pub data Failure (pa : PortAllocator) : BoundResult → Type 0 where
  all_taken : ((q : ℕ) → IsPair pa q → is_free_pair pa q ≡ false) → Failure pa not_available
  some_busy : (q : ℕ) → IsPair pa q → is_free_pair pa q ≡ true → Failure pa not_bindable

-- The two ways in which a call may end.
abbrev pub IsBound : (ℕ → Bool) → PortAllocator → BoundState → Type 0
IsBound can_bind pa t =
    ((t.pool ≡ pa)
      × (t.open_ports ≡ [])
      × ((q : ℕ) → IsPair pa q → is_bindable can_bind pa q ≡ false)
      × Failure pa t.result)
    ⊎ ((p : ℕ) × (t.result ≡ bound_pair p (p + 1))
        × (t.open_ports ≡ (p + 1) ∷ p ∷ [])
        × FirstPair (is_bindable can_bind pa) pa p
        × Takes pa t.pool (p ∷ (p + 1) ∷ [])
        × IsValid t.pool)

-- `AllocateBoundUDPPair`, whatever ports other programs have. It returns the lowest pair of an even
-- port and the odd one after it of which both are free in the pool and can be bound; it takes these
-- two ports and no other one, and of the sockets that it opens exactly these two stay open. Or there
-- is no such pair: then the pool is as it was, no socket stays open, and the error tells whether a
-- pair of the pool was free.
pub allocate_bound_udp_pair_lem :
    (can_bind : ℕ → Bool) (pa : PortAllocator)
    → IsValid pa
    → IsBound can_bind pa (allocate_bound_udp_pair can_bind pa)
unfolding allocate_bound_udp_pair
allocate_bound_udp_pair_lem can_bind pa v = elim (scan_pair_lem (is_bindable can_bind pa) pa v) [
  | inl (e, none_bindable) ↦ elim (scan_pair_lem (is_free_pair pa) pa v) [
    | inl (e', full) ↦
        subst (IsBound can_bind pa) (sym (ends _ _ e' e))
          (inl (refl, refl, none_bindable, all_taken full))
    | inr (q, e', (is_pair, is_free, _)) ↦
        subst (IsBound can_bind pa) (sym (ends _ _ e' e))
          (inl (refl, refl, none_bindable, some_busy q is_pair is_free))
  ]
  | inr (p, e, first) ↦
      subst (IsBound can_bind pa) (sym (ends _ _ refl e))
        (inr (p, refl, refl, first, mark_pair-Takes p pa, mark_pair-IsValid p pa v first.0))
]
  where
    ends :
        (x y : Option ℕ)
        → scan (is_free_pair pa) 2 (pa.max_port - 1) (rounds pa) (first_even_port pa) ≡ x
        → scan (is_bindable can_bind pa) 2 (pa.max_port - 1) (rounds pa) (first_even_port pa) ≡ y
        → allocate_bound_udp_pair can_bind pa ≡ ending pa (found x) y
    ends x y e e' =
        loop_lem can_bind pa (rounds pa) (first_even_port pa) false
        ∙ ap₂ (λ a b. ending pa (found a) b) e e'
