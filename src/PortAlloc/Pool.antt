-- ===== src/PortAlloc/Pool.antt =====
-- `New`, `Allocate` and `AllocatePair` of pkg/portalloc/portalloc.go.
use liveforge.Base.{
  ℕ, ◌+◌, ◌-◌, ◌%◌, ◌≤◌, ◌<◌, ◌≡◌, ◌≢◌, ◌⊎◌, inl, inr, refl, sym, ◌∙◌, Bool, true, false, not,
  Option, none, some, List, [], ◌∷◌, ◌||◌, arith, ltb→lt, ltb_false→le, false≢true, not_both,
  dec_le, ltb, ◌==◌, Bool-cases, ℕ_discrete,
}
use liveforge.PortAlloc.{
  PortAllocator, new_allocator, is_used, scan, first_even_port, mark, rounds, allocate,
  is_free_pair, allocate_pair,
}
use liveforge.PortAlloc.Scan.{Visits, one-IsStep, two-IsStep, scan_lem}

-- The bounds are those that `New` accepts, and each used port is within them.
pub record IsValid (pa : PortAllocator) : Type 0 where
  pub low : 1 ≤ pa.min_port
  pub ordered : pa.min_port ≤ pa.max_port
  pub high : pa.max_port ≤ 65535
  pub within : (p : ℕ) → is_used p pa.used ≡ true → (pa.min_port ≤ p) × (p ≤ pa.max_port)

-- A port of the pool that nobody has.
abbrev pub IsFree : PortAllocator → ℕ → Type 0
IsFree pa p = (pa.min_port ≤ p) × (p ≤ pa.max_port) × (is_used p pa.used ≡ false)

-- `t` is the pool `s` with the ports of `ps` taken.
pub record Takes (s t : PortAllocator) (ps : List ℕ) : Type 0 where
  pub bounds : (t.min_port ≡ s.min_port) × (t.max_port ≡ s.max_port)
  pub used : (q : ℕ) → is_used q t.used ≡ (is_used q ps || is_used q s.used)

-- `New` accepts exactly ranges within the ports, and starts with no port used.
pub new_allocator_lem :
    (lo hi : ℕ)
    → ((new_allocator lo hi ≡ none) × ((lo < 1) ⊎ (65535 < hi) ⊎ (hi < lo)))
      ⊎ ((pa : PortAllocator) × (new_allocator lo hi ≡ some pa) × IsValid pa × (pa.used ≡ []))
unfolding new_allocator
new_allocator_lem lo hi = elim (Bool-cases (ltb lo 1 || ltb 65535 hi)) [
  | inl e ↦ inl (rw (new_allocator, e) refl, out_of_ports e)
  | inr e ↦ elim (Bool-cases (ltb hi lo)) [
    | inl e' ↦ inl (rw (new_allocator, e, e') refl, inr (inr (ltb→lt hi lo e')))
    | inr e' ↦ inr (
      record { used = []; min_port = lo; max_port = hi },
      rw (new_allocator, e, e') refl,
      record {
        low = ground arith;
        ordered = ltb_false→le hi lo e';
        high = ground arith;
        within = λ p u. absurd (false≢true u);
      },
      refl,
    )
  ]
]
  where
    out_of_ports : (ltb lo 1 || ltb 65535 hi) ≡ true → (lo < 1) ⊎ (65535 < hi) ⊎ (hi < lo)
    out_of_ports e = elim (dec_le 1 lo) [
      | yes le ↦ inr (inl (ground arith))
      | no nle ↦ inl (omega (arith, nle))
    ]

passes_when : (b : Bool) → not b ≡ false → b ≡ true
passes_when b e = ground arith

fails_when : (b : Bool) → not b ≡ true → b ≡ false
fails_when b e = ground arith

-- a port of the pool that is marked
pub mark-IsValid :
    (p : ℕ) (pa : PortAllocator)
    → IsValid pa
    → pa.min_port ≤ p
    → p ≤ pa.max_port
    → IsValid (mark p pa)
mark-IsValid p pa v lo hi = record {
  low = v.low;
  ordered = v.ordered;
  high = v.high;
  within = λ q u. elim (ℕ_discrete p q) [
    | yes e ↦ rw (← e) (lo, hi)
    | no ne ↦ v.within q (ground (arith, ne, u))
  ];
}

mark-Takes : (p : ℕ) (pa : PortAllocator) → Takes pa (mark p pa) (p ∷ [])
mark-Takes p pa = record { bounds = (refl, refl); used = λ q. ground arith }

pub mark_pair-Takes :
    (p : ℕ) (pa : PortAllocator) → Takes pa (mark (p + 1) (mark p pa)) (p ∷ (p + 1) ∷ [])
mark_pair-Takes p pa = record { bounds = (refl, refl); used = λ q. ground arith }

-- What `Allocate` does: the lowest free port becomes used and no other one does, or there is no free
-- port and it fails.
pub allocate_lem :
    (pa : PortAllocator)
    → IsValid pa
    → ((allocate pa ≡ none)
        × ((p : ℕ) → pa.min_port ≤ p → p ≤ pa.max_port → is_used p pa.used ≡ true))
      ⊎ ((p : ℕ) × (t : PortAllocator) × (allocate pa ≡ some (p, t))
          × IsFree pa p
          × ((q : ℕ) → IsFree pa q → p ≤ q)
          × Takes pa t (p ∷ [])
          × IsValid t)
unfolding allocate
allocate_lem pa v =
    elim (scan_lem (λ p. not (is_used p pa.used)) 1 pa.max_port one-IsStep (rounds pa) pa.min_port
      (omega arith)) [
        | inl (e, none_free) ↦
            inl
              (rw (allocate, e) refl, λ p lo hi. passes_when _ (none_free p (lo, hi, omega arith)))
        | inr (p, e, ((lo, hi, _), passed, before)) ↦ inr (
          p,
          mark p pa,
          rw (allocate, e) refl,
          (lo, hi, fails_when _ passed),
          λ q f. elim (dec_le p q) [
            | yes le ↦ le
            | no nle ↦ absurd (
                not_both _
                  (passes_when _
                    (before q (f.0, omega (arith, hi, nle), omega arith) (omega (arith, nle))))
                  f.2)
          ],
          mark-Takes p pa,
          mark-IsValid p pa v lo hi,
        )
      ]

-- An even RTP port and the odd one after it, in the pool.
abbrev pub IsPair : PortAllocator → ℕ → Type 0
IsPair pa p = (pa.min_port ≤ p) × (p + 1 ≤ pa.max_port) × (p % 2 ≡ 0)

pub first_even :
    (pa : PortAllocator)
    → (pa.min_port ≤ first_even_port pa)
      × (first_even_port pa ≤ pa.min_port + 1)
      × (first_even_port pa % 2 ≡ 0)
unfolding first_even_port
first_even pa = elim (Bool-cases (pa.min_port % 2 == 0)) [
  | inl e ↦ rw e (omega arith, omega arith, ground arith)
  | inr e ↦ rw e (omega arith, omega arith, odd_next (pa.min_port) (ground arith))
]
  where
    odd_next : (n : ℕ) → n % 2 ≢ 0 → (n + 1) % 2 ≡ 0
    odd_next n ne = omega (arith, ne)

-- the rounds of the pair loops
IsPair-Visits :
    (pa : PortAllocator) (q : ℕ) → IsPair pa q → Visits 2 (pa.max_port - 1) (first_even_port pa) q
IsPair-Visits pa q (lo, hi, even) =
    let (_, le, even') = first_even pa in
    (omega (arith, le, even', even, lo), omega (arith, hi), even ∙ sym even')

Visits-IsPair :
    (pa : PortAllocator) (q : ℕ)
    → IsValid pa
    → Visits 2 (pa.max_port - 1) (first_even_port pa) q
    → IsPair pa q
Visits-IsPair pa q v (lo, hi, even) =
    let (ge, _, even') = first_even pa in
    (omega (arith, ge, lo), omega (arith, hi, v.low, v.ordered), even ∙ even')

-- the first pair of ports that passes a test, if there is one
abbrev pub FirstPair : (ℕ → Bool) → PortAllocator → ℕ → Type 0
FirstPair test pa p =
    IsPair pa p × (test p ≡ true) × ((q : ℕ) → IsPair pa q → test q ≡ true → p ≤ q)

abbrev pub IsPairScanned : (ℕ → Bool) → PortAllocator → Option ℕ → Type 0
IsPairScanned test pa found =
    ((found ≡ none) × ((q : ℕ) → IsPair pa q → test q ≡ false))
    ⊎ ((p : ℕ) × (found ≡ some p) × FirstPair test pa p)

pub scan_pair_lem :
    (test : ℕ → Bool) (pa : PortAllocator)
    → IsValid pa
    → IsPairScanned test pa (scan test 2 (pa.max_port - 1) (rounds pa) (first_even_port pa))
scan_pair_lem test pa v =
    elim (scan_lem test 2 (pa.max_port - 1) two-IsStep (rounds pa) (first_even_port pa)
      (omega arith)) [
        | inl (e, none_passes) ↦ inl (e, λ q is_pair. none_passes q (IsPair-Visits pa q is_pair))
        | inr (p, e, (visited, passed, before)) ↦ inr (
          p,
          e,
          (
            Visits-IsPair pa p v visited,
            passed,
            λ q is_pair passes. elim (dec_le p q) [
              | yes le ↦ le
              | no nle ↦
                  absurd
                    (not_both _ passes (before q (IsPair-Visits pa q is_pair) (omega (arith, nle))))
            ],
          ),
        )
      ]

pub mark_pair-IsValid :
    (p : ℕ) (pa : PortAllocator) → IsValid pa → IsPair pa p → IsValid (mark (p + 1) (mark p pa))
mark_pair-IsValid p pa v (lo, hi, _) =
    mark-IsValid (p + 1) (mark p pa) (mark-IsValid p pa v lo (omega (arith, hi)))
      (omega (arith, lo)) hi

-- What `AllocatePair` does: it takes the lowest pair of an even port and the odd one after it of
-- which both are free, and no other port, or there is no such pair and it fails.
pub allocate_pair_lem :
    (pa : PortAllocator)
    → IsValid pa
    → ((allocate_pair pa ≡ none) × ((q : ℕ) → IsPair pa q → is_free_pair pa q ≡ false))
      ⊎ ((p : ℕ) × (t : PortAllocator) × (allocate_pair pa ≡ some ((p, p + 1), t))
          × FirstPair (is_free_pair pa) pa p
          × Takes pa t (p ∷ (p + 1) ∷ [])
          × IsValid t)
unfolding allocate_pair
allocate_pair_lem pa v = elim (scan_pair_lem (is_free_pair pa) pa v) [
  | inl (e, full) ↦ inl (rw (allocate_pair, e) refl, full)
  | inr (p, e, first) ↦ inr (
    p,
    mark (p + 1) (mark p pa),
    rw (allocate_pair, e) refl,
    first,
    mark_pair-Takes p pa,
    mark_pair-IsValid p pa v first.0,
  )
]
