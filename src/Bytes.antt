-- ===== src/Bytes.antt =====
-- What the protocol code shares: bytes as numbers, the big-endian and little-endian words of
-- encoding/binary and of the shifts in the source, io.ReadFull, and Go's (value, error) pair.
use liveforge.Base.{
  ℕ, zero, suc, ◌+◌, ◌*◌, ◌/◌, ◌%◌, ◌^◌, ◌<◌, ◌≡◌, refl, sym, ap, ◌∙◌, ◌⊎◌, inl, inr, Bool, true,
  false, List, [], ◌∷◌, ◌++◌, arith, ltb, length, take, drop, get_or,
}

pub data Result (E A : Type 0) : Type 0 where
  ok : A → Result E A
  err : E → Result E A

infixl 5 ◌>>=◌
abbrev pub ◌>>=◌ : {E A B : Type 0} → Result E A → (A → Result E B) → Result E B
ok a >>= f = f a
err e >>= f = err e

-- `if bad { return err }`
abbrev pub refuse : {E : Type 0} → Bool → E → Result E Unit
refuse true e = err e
refuse false e = ok tt

abbrev pub IsByte : ℕ → Type 0
IsByte b = b < 256

abbrev pub cons_read : {E : Type 0} → ℕ → Result E (List ℕ × List ℕ) → Result E (List ℕ × List ℕ)
cons_read b (ok (bs, rest)) = ok (b ∷ bs, rest)
cons_read b (err e) = err e

-- `io.ReadFull` into `n` bytes, with the error that the caller returns
abbrev pub read_full : {E : Type 0} → E → ℕ → List ℕ → Result E (List ℕ × List ℕ)
read_full e zero source = ok ([], source)
read_full e (suc n) [] = err e
read_full e (suc n) (b ∷ source) = cons_read b (read_full e n source)

pub read_full-append :
    {E : Type 0} (e : E) (bs rest : List ℕ) → read_full e (length bs) (bs ++ rest) ≡ ok (bs, rest)
read_full-append e [] rest = refl
read_full-append e (b ∷ bs) rest = ap (cons_read b) (read_full-append e bs rest)

-- the words at index `i` of a buffer
abbrev pub be16 : List ℕ → ℕ → ℕ
be16 buf i = get_or buf i 0 * 256 + get_or buf (i + 1) 0

abbrev pub be24 : List ℕ → ℕ → ℕ
be24 buf i = be16 buf i * 256 + get_or buf (i + 2) 0

abbrev pub be32 : List ℕ → ℕ → ℕ
be32 buf i = be24 buf i * 256 + get_or buf (i + 3) 0

abbrev pub le32 : List ℕ → ℕ → ℕ
le32 buf i =
    get_or buf i 0
    + 256 * get_or buf (i + 1) 0
    + 65536 * get_or buf (i + 2) 0
    + 16777216 * get_or buf (i + 3) 0

abbrev pub put16 : ℕ → List ℕ
put16 v = v / 256 % 256 ∷ v % 256 ∷ []

abbrev pub put24 : ℕ → List ℕ
put24 v = v / 65536 % 256 ∷ v / 256 % 256 ∷ v % 256 ∷ []

abbrev pub put32 : ℕ → List ℕ
put32 v = v / 16777216 % 256 ∷ v / 65536 % 256 ∷ v / 256 % 256 ∷ v % 256 ∷ []

abbrev pub put32_le : ℕ → List ℕ
put32_le v = v % 256 ∷ v / 256 % 256 ∷ v / 65536 % 256 ∷ v / 16777216 % 256 ∷ []

pub be16-put16 : (v : ℕ) → v < 2 ^ 16 → be16 (put16 v) 0 ≡ v
be16-put16 v h = omega arith

pub be24-put24 : (v : ℕ) → v < 2 ^ 24 → be24 (put24 v) 0 ≡ v
be24-put24 v h = omega arith

pub be32-put32 : (v : ℕ) → v < 2 ^ 32 → be32 (put32 v) 0 ≡ v
be32-put32 v h = omega arith

pub le32-put32_le : (v : ℕ) → v < 2 ^ 32 → le32 (put32_le v) 0 ≡ v
le32-put32_le v h = omega arith

-- `P` holds of a result and `F` of an error.
pub data Ensures {E A : Type 0} (F : E → Type 0) (P : A → Type 0) : Result E A → Type 0 where
  ensured : {a : A} → P a → Ensures F P (ok a)
  refused : {e : E} → F e → Ensures F P (err e)

pub Ensures-bind :
    {E A B : Type 0} {F : E → Type 0} {P : A → Type 0} {Q : B → Type 0} {m : Result E A}
    {f : A → Result E B}
    → Ensures F P m
    → ((a : A) → P a → Ensures F Q (f a))
    → Ensures F Q (m >>= f)
Ensures-bind (ensured p) q = q _ p
Ensures-bind (refused p) q = refused p

pub Ensures-weaken :
    {E A : Type 0} {F : E → Type 0} {P Q : A → Type 0} {m : Result E A}
    → Ensures F P m
    → ((a : A) → P a → Q a)
    → Ensures F Q m
Ensures-weaken (ensured p) q = ensured (q _ p)
Ensures-weaken (refused p) q = refused p

-- `io.ReadFull` fills the buffer, and the bytes that it takes are gone.
abbrev pub Filled : ℕ → ℕ → List ℕ × List ℕ → Type 0
Filled n m (bs, rest) = (length bs ≡ n) × (length rest + n ≡ m)

cons-Ensures :
    {E : Type 0} {F : E → Type 0} {n m : ℕ} {r : Result E (List ℕ × List ℕ)} (b : ℕ)
    → Ensures F (Filled n m) r
    → Ensures F (Filled (suc n) (suc m)) (cons_read b r)
cons-Ensures b (ensured {a = (bs, rest)} (p, q)) = ensured (ap suc p, omega (arith, q))
cons-Ensures b (refused p) = refused p

pub read_full-Ensures :
    {E : Type 0} {F : E → Type 0} (e : E) (n : ℕ) (source : List ℕ)
    → F e
    → Ensures F (Filled n (length source)) (read_full e n source)
read_full-Ensures e zero source f = ensured (refl, omega arith)
read_full-Ensures e (suc n) [] f = refused f
read_full-Ensures e (suc n) (b ∷ source) f = cons-Ensures b (read_full-Ensures e n source f)

-- To split on a computed result and keep the equation.
pub Result-cases :
    {E A : Type 0} (r : Result E A) → ((a : A) × (r ≡ ok a)) ⊎ ((e : E) × (r ≡ err e))
Result-cases (ok a) = inl (a, refl)
Result-cases (err e) = inr (e, refl)

abbrev or_else : {E A : Type 0} → A → Result E A → A
or_else d (ok a) = a
or_else d (err e) = d

pub ok_unique : {E A : Type 0} {a b : A} (x : Result E A) → x ≡ ok a → x ≡ ok b → a ≡ b
ok_unique {a = a} x e f = ap (or_else a) (sym e ∙ f)

-- `len(data) < n`, by the first `n` bytes only
abbrev pub is_shorter : ℕ → List ℕ → Bool
is_shorter zero bs = false
is_shorter (suc n) [] = true
is_shorter (suc n) (b ∷ bs) = is_shorter n bs

pub is_shorter-length : (n : ℕ) (bs : List ℕ) → is_shorter n bs ≡ ltb (length bs) n
is_shorter-length zero bs = ground arith
is_shorter-length (suc n) [] = ground arith
is_shorter-length (suc n) (b ∷ bs) = is_shorter-length n bs ∙ ground arith

-- What a chain that returned something went through.
pub bind_ok :
    {E A B : Type 0} (m : Result E A) (f : A → Result E B) (b : B)
    → (m >>= f) ≡ ok b
    → (a : A) × (m ≡ ok a) × (f a ≡ ok b)
bind_ok (ok a) f b e = (a, refl, e)
bind_ok (err x) f b e = cc

pub take-append : (bs rest : List ℕ) → take (length bs) (bs ++ rest) ≡ bs
take-append [] rest = refl
take-append (b ∷ bs) rest = ap (λ x. b ∷ x) (take-append bs rest)

pub drop-append : (bs rest : List ℕ) → drop (length bs) (bs ++ rest) ≡ rest
drop-append [] rest = refl
drop-append (b ∷ bs) rest = drop-append bs rest
