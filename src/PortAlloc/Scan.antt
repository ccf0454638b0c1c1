-- ===== src/PortAlloc/Scan.antt =====
-- The port loops of pkg/portalloc/portalloc.go find the first port that passes their test.
use liveforge.Base.{
  ℕ, zero, suc, ◌+◌, ◌%◌, ◌≤◌, ◌<◌, ◌≡◌, ◌≢◌, sym, ◌∙◌, leb→le, leb_false→lt, ◌⊎◌, inl, inr, refl,
  Bool, true, false, Option, none, some, arith, leb, Bool-cases, ℕ_discrete,
}
use liveforge.PortAlloc.{scan}

-- The loop visits `q` when it starts at `p`.
abbrev pub Visits : ℕ → ℕ → ℕ → ℕ → Type 0
Visits step last p q = (p ≤ q) × (q ≤ last) × (q % step ≡ p % step)

-- Nothing is found, and each port that is visited fails the test.
abbrev pub NoneFound : (ℕ → Bool) → ℕ → ℕ → ℕ → Type 0
NoneFound test step last p = (q : ℕ) → Visits step last p q → test q ≡ false

-- `q` is visited and passes, and each port that is visited before it fails.
abbrev pub FirstFound : (ℕ → Bool) → ℕ → ℕ → ℕ → ℕ → Type 0
FirstFound test step last p q =
    Visits step last p q
    × (test q ≡ true)
    × ((r : ℕ) → Visits step last p r → r < q → test r ≡ false)

-- a step of the loop, which is 1 or 2
pub record IsStep (step : ℕ) : Type 0 where
  pub positive : 0 < step
  pub again : (p : ℕ) → (p + step) % step ≡ p % step
  pub gap : (p q : ℕ) → p ≤ q → q % step ≡ p % step → q ≢ p → p + step ≤ q

pub one-IsStep : IsStep 1
one-IsStep = record {
  positive = omega arith;
  again = λ p. omega arith;
  gap = λ p q le e ne. grind arith;
}

pub two-IsStep : IsStep 2
two-IsStep = record {
  positive = omega arith;
  again = λ p. omega arith;
  gap = λ p q le e ne. grind arith;
}

module _ (test : ℕ → Bool) (step last : ℕ) (st : IsStep step) where
  -- The rounds after the first visit the same ports, but for the first one.
  later : (p q : ℕ) → Visits step last p q → q ≢ p → Visits step last (p + step) q
  later p q (le, hi, same) ne = (st.gap p q le same ne, hi, same ∙ sym (st.again p))

  earlier : (p q : ℕ) → Visits step last (p + step) q → Visits step last p q
  earlier p q (le, hi, same) = (omega (arith, le), hi, same ∙ st.again p)

  still_none :
      (p : ℕ) → test p ≡ false → NoneFound test step last (p + step) → NoneFound test step last p
  still_none p failed none_later q v = elim (ℕ_discrete q p) [
    | yes e ↦ rw e failed
    | no ne ↦ none_later q (later p q v ne)
  ]

  still_first :
      (p q : ℕ)
      → test p ≡ false
      → FirstFound test step last (p + step) q
      → FirstFound test step last p q
  still_first p q failed (v, passed, before) = (
    earlier p q v,
    passed,
    λ r v' lt. elim (ℕ_discrete r p) [
      | yes e ↦ rw e failed
      | no ne ↦ before r (later p r v' ne) lt
    ],
  )

  abbrev pub IsScanned : ℕ → Option ℕ → Type 0
  IsScanned p found =
      ((found ≡ none) × NoneFound test step last p)
      ⊎ ((q : ℕ) × (found ≡ some q) × FirstFound test step last p q)

  pub scan_lem : (fuel p : ℕ) → last < p + fuel → IsScanned p (scan test step last fuel p)
  unfolding scan
  scan_lem zero p enough = inl (refl, λ q v. absurd (omega (arith, v)))
  scan_lem (suc fuel) p enough = elim (Bool-cases (leb p last)) [
    | inr out ↦ inl (rw out refl, λ q v. absurd (omega (arith, leb_false→lt p last out, v)))
    | inl within ↦ elim (Bool-cases (test p)) [
      | inl passed ↦ inr (
        p,
        rw (within, passed) refl,
        (
          (omega arith, leb→le p last within, refl),
          passed,
          λ r v lt. absurd (omega (arith, v, lt)),
        ),
      )
      | inr failed ↦ elim (scan_lem fuel (p + step) (omega (arith, st.positive))) [
        | inl (e, none_later) ↦ inl (rw (within, failed) e, still_none p failed none_later)
        | inr (q, e, first) ↦ inr (q, rw (within, failed) e, still_first p q failed first)
      ]
    ]
  ]
