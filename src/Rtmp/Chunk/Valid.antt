-- ===== src/Rtmp/Chunk/Valid.antt =====
-- module/rtmp/chunk.go: what holds of the reader after every round, on any bytes whatever.
use liveforge.Base.{
  ℕ, zero, suc, ◌+◌, ◌≤◌, ◌≡◌, refl, Bool, true, false, List, arith, ◌==◌, ◌%◌, if◌then◌else◌, not,
  false≢true, length, get_or,
}
use liveforge.Bytes.{
  refuse, Ensures, ensured, Ensures-bind, Ensures-weaken, read_full-Ensures, be24,
}
use liveforge.Rtmp.Chunk.{
  Error, end_of_input, compressed_without_previous, message_incomplete, exceeds_length,
  not_initialized, ChunkHeader, bytes, wide_id, extended, with_delta, header_0, header_1, header_2,
  header_3, read_basic_header,
}

-- the errors that a reader which starts without state can return
abbrev pub IsPossible : Error → Type 0
IsPossible end_of_input = Unit
IsPossible compressed_without_previous = Unit
IsPossible message_incomplete = Unit
IsPossible exceeds_length = ⊥
IsPossible not_initialized = ⊥

abbrev pub Taken : {A : Type 0} → ℕ → List ℕ → A × List ℕ → Type 0
Taken n source (a, rest) = length rest + n ≤ length source

pub bytes-Ensures : (n : ℕ) (source : List ℕ) → Ensures IsPossible (Taken n source) (bytes n source)
bytes-Ensures n source =
    Ensures-weaken (read_full-Ensures end_of_input n source tt)
      (λ (bs, rest) (_, e). omega (arith, e))

wide_id-Ensures : (n : ℕ) (source : List ℕ) → Ensures IsPossible (Taken 0 source) (wide_id n source)
wide_id-Ensures zero source =
    Ensures-bind (bytes-Ensures 1 source) (λ (b, rest) le. ensured (omega (arith, le)))
wide_id-Ensures (suc zero) source =
    Ensures-bind (bytes-Ensures 2 source) (λ (b, rest) le. ensured (omega (arith, le)))
wide_id-Ensures (suc (suc n)) source = ensured (omega arith)

pub basic_header-Ensures :
    (source : List ℕ) → Ensures IsPossible (Taken 1 source) (read_basic_header source)
unfolding read_basic_header
basic_header-Ensures source = Ensures-bind (bytes-Ensures 1 source) (λ (b, s1) le.
    Ensures-bind (wide_id-Ensures (get_or b 0 0 % 64) s1)
      (λ (csid, s2) le2. ensured (omega (arith, le, le2))))

extended-Ensures :
    (present : Bool) (value : ℕ) (source : List ℕ)
    → Ensures IsPossible (Taken 0 source) (extended present value source)
extended-Ensures false value source = ensured (omega arith)
extended-Ensures true value source =
    Ensures-bind (bytes-Ensures 4 source) (λ (b, rest) le. ensured (omega (arith, le)))

-- The header is initialized and as active as it was.
abbrev pub Ready : ChunkHeader → List ℕ → ChunkHeader × List ℕ → Type 0
Ready h source (h1, rest) =
    (h1.initialized ≡ true) × (h1.message_active ≡ h.message_active) × (length rest ≤ length source)

pub header_0-Ensures :
    (h : ChunkHeader) (source : List ℕ) → Ensures IsPossible (Ready h source) (header_0 h source)
header_0-Ensures h source = Ensures-bind (bytes-Ensures 11 source) (λ (b, s1) le.
    Ensures-bind (extended-Ensures (be24 b 0 == 0xffffff) (be24 b 0) s1)
      (λ (ts, s2) le2. ensured (refl, refl, omega (arith, le, le2))))

with_delta-Ensures :
    (h : ChunkHeader) (field : ℕ) (source : List ℕ)
    → Ensures IsPossible (Ready h source) (with_delta h field source)
with_delta-Ensures h field source =
    Ensures-bind (extended-Ensures (field == 0xffffff) field source)
      (λ (delta, rest) le. ensured (refl, refl, omega (arith, le)))

pub header_1-Ensures :
    (h : ChunkHeader) (source : List ℕ) → Ensures IsPossible (Ready h source) (header_1 h source)
header_1-Ensures h source = Ensures-bind (bytes-Ensures 7 source) (λ (b, s1) le.
    Ensures-weaken
      (with_delta-Ensures (record h { length = be24 b 3; type_id = get_or b 6 0 }) (be24 b 0) s1)
      (λ (h1, rest) (i, a, le2). (i, a, omega (arith, le, le2))))

pub header_2-Ensures :
    (h : ChunkHeader) (source : List ℕ) → Ensures IsPossible (Ready h source) (header_2 h source)
header_2-Ensures h source = Ensures-bind (bytes-Ensures 3 source) (λ (b, s1) le.
    Ensures-weaken (with_delta-Ensures h (be24 b 0) s1)
      (λ (h1, rest) (i, a, le2). (i, a, omega (arith, le, le2))))

-- A chunk of format 3 keeps the length, and needs a header that is initialized.
abbrev pub Kept : ChunkHeader → List ℕ → ChunkHeader × List ℕ → Type 0
Kept h source (h1, rest) = Ready h source (h1, rest) × (h1.length ≡ h.length)

continued_ready :
    (continuation : Bool) (h : ChunkHeader) (source rest : List ℕ) (ts : ℕ)
    → h.initialized ≡ true
    → length rest ≤ length source
    → Kept h source (if continuation then h else record h { timestamp = ts }, rest)
continued_ready true h source rest ts i le = ((i, refl, le), refl)
continued_ready false h source rest ts i le = ((i, refl, le), refl)

initialized-Ensures :
    (b : Bool) → b ≡ true → Ensures IsPossible (λ _. Unit) (refuse (not b) not_initialized)
initialized-Ensures true e = ensured tt
initialized-Ensures false e = absurd (false≢true e)

pub header_3-Ensures :
    (h : ChunkHeader) (continuation : Bool) (source : List ℕ)
    → h.initialized ≡ true
    → Ensures IsPossible (Kept h source) (header_3 h continuation source)
header_3-Ensures h continuation source i =
    Ensures-bind (initialized-Ensures h.initialized i) (λ _ _.
      Ensures-bind (extended-Ensures h.has_extended_timestamp 0 source) (λ (value, rest) le.
        ensured (continued_ready continuation h source rest _ i (omega (arith, le)))))
