-- ===== src/Rtmp/Chunk/Safety.antt =====
-- module/rtmp/chunk.go: the invariant of the reader, which a message that is complete or incomplete
-- and any bytes of the peer keep, and what follows for the outcome of `ReadMessage`.
use liveforge.Base.{
  ℕ, zero, suc, ◌≤◌, ◌<◌, ◌≡◌, ◌≢◌, ◌⊎◌, inl, inr, refl, sym, ◌∙◌, subst, Bool, true, false, Option,
  none, some, List, [], ◌++◌, arith, ◌==◌, length, leb, Bool-cases, leb_false→lt, ℕ_discrete,
  le→ltb_false,
}
use liveforge.Base.Assoc.{number_key, lookup, insert}
use liveforge.Bytes.{Result, ◌>>=◌, Ensures, ensured, refused, Ensures-bind, Ensures-weaken}
use liveforge.Rtmp.{Message}
use liveforge.Rtmp.Chunk.{
  Error, exceeds_length, not_initialized, ChunkHeader, ChunkReader, empty_header, new_chunk_reader,
  read_message_header,
}
use liveforge.Rtmp.Chunk.Read.{
  buffer, buffered, known_header, after_chunk, to_read, read_payload, read_body, with_header,
  read_chunk, Outcome, received, failed, out_of_fuel, or_again, read_message_loop, read_message,
}
use liveforge.Rtmp.Chunk.Effects.{stored, lookup-insert_self, lookup-insert_ne}
use liveforge.Rtmp.Chunk.Valid.{
  IsPossible, Ready, Kept, bytes-Ensures, basic_header-Ensures, header_0-Ensures, header_1-Ensures,
  header_2-Ensures, header_3-Ensures,
}

-- What is buffered is less than a message that is incomplete, and nothing otherwise.
abbrev pub Fits : Bool → ChunkHeader → List ℕ → Type 0
Fits true h got = length got < h.length
Fits false h got = got ≡ []

abbrev pub Holds : Option ChunkHeader → List ℕ → Type 0
Holds none got = got ≡ []
Holds (some h) got = (h.initialized ≡ true) × Fits h.message_active h got

abbrev pub IsValid : ChunkReader → Type 0
IsValid r = (j : ℕ) → Holds (lookup j r.headers) (buffer j r)

pub new_chunk_reader-IsValid : (source : List ℕ) (n : ℕ) → IsValid (new_chunk_reader source n)
unfolding lookup buffer
new_chunk_reader-IsValid source n j = refl

pub stored-IsValid :
    (csid : ℕ) (h : ChunkHeader) (got rest : List ℕ) (r : ChunkReader)
    → IsValid r
    → Holds (some h) got
    → IsValid (stored csid h got rest r)
unfolding buffer
stored-IsValid csid h got rest r v new j = elim (ℕ_discrete csid j) [
  | yes e ↦
      subst
        (λ i.
          Holds (lookup i (insert csid h r.headers))
            (buffered (lookup i (insert csid got r.buffers))))
        e (rw (lookup-insert_self csid h r.headers, lookup-insert_self csid got r.buffers) new)
  | no ne ↦
      rw (lookup-insert_ne csid j h r.headers ne, lookup-insert_ne csid j got r.buffers ne) (v j)
]

-- After a round the reader is valid, and has less to read.
abbrev pub Good : ℕ → Option Message × ChunkReader → Type 0
Good n (o, r) = IsValid r × (length r.source < n)

after_chunk-Good :
    (csid n : ℕ) (h : ChunkHeader) (got rest : List ℕ) (r : ChunkReader)
    → IsValid r
    → h.initialized ≡ true
    → h.message_active ≡ true
    → length rest < n
    → Good n (after_chunk csid h got rest r)
after_chunk-Good csid n h got rest r v i a lt = elim (Bool-cases (leb h.length (length got))) [
  | inl e ↦
      rw e (stored-IsValid csid (record h { message_active = false }) [] rest r v (i, refl), lt)
  | inr e ↦ rw e (
    stored-IsValid csid h got rest r v
        (i, subst (λ c. Fits c h got) (sym a) (leb_false→lt h.length (length got) e)),
    lt,
  )
]

payload-Good :
    (csid n : ℕ) (h : ChunkHeader) (source : List ℕ) (r : ChunkReader)
    → IsValid r
    → h.initialized ≡ true
    → h.message_active ≡ true
    → length (buffer csid r) ≤ h.length
    → length source < n
    → Ensures IsPossible (Good n) (read_payload csid r h source)
unfolding read_payload
payload-Good csid n h source r v i a le lt =
    rw (le→ltb_false h.length (length (buffer csid r)) le) (
      Ensures-bind (bytes-Ensures (to_read h (buffer csid r) r.chunk_size) source)
        (λ (piece, rest) le2. ensured (
          after_chunk-Good csid n h (buffer csid r ++ piece) rest r v i a
            (omega (arith, le2, lt)))))

-- A header that `ReadMessage` goes on with is initialized, or the chunk brings a whole one.
abbrev pub IsUsable : ℕ → ChunkHeader → Type 0
IsUsable format h = (format ≡ 0) ⊎ (h.initialized ≡ true)

read_message_header-Ensures :
    (format : ℕ) (h : ChunkHeader) (continuation : Bool) (source : List ℕ)
    → IsUsable format h
    → Ensures IsPossible (Ready h source) (read_message_header format h continuation source)
unfolding read_message_header
read_message_header-Ensures zero h c source u = header_0-Ensures h source
read_message_header-Ensures (suc zero) h c source u = header_1-Ensures h source
read_message_header-Ensures (suc (suc zero)) h c source u = header_2-Ensures h source
read_message_header-Ensures (suc (suc (suc n))) h c source (inl e) = absurd (omega (arith, e))
read_message_header-Ensures (suc (suc (suc n))) h c source (inr i) =
    Ensures-weaken (header_3-Ensures h c source i) (λ x p. p.0)

active_header :
    (h : ChunkHeader) (source : List ℕ)
    → IsUsable 3 h
    → Ensures IsPossible (Kept h source) (read_message_header 3 h true source)
unfolding read_message_header
active_header h source (inl e) = absurd (omega (arith, e))
active_header h source (inr i) = header_3-Ensures h true source i

active_body-Good :
    (csid n format : ℕ) (h : ChunkHeader) (source : List ℕ) (r : ChunkReader)
    → IsValid r
    → IsUsable format h
    → h.message_active ≡ true
    → Fits true h (buffer csid r)
    → length source < n
    → Dec (format ≡ 3)
    → Ensures IsPossible (Good n) (read_body csid r format h true source)
active_body-Good csid n format h source r v u a fits lt (no ne) =
    let other : (format == 3) ≡ false = ground arith in rw other (refused tt)
active_body-Good csid n format h source r v u a fits lt (yes e) =
    subst (λ f. Ensures IsPossible (Good n) (read_body csid r f h true source)) (sym e)
      (Ensures-bind (active_header h source (subst (λ f. IsUsable f h) e u))
        (λ (h1, rest) ((i, same, le), whole).
          payload-Good csid n h1 rest r v i (same ∙ a) (omega (arith, whole, fits))
            (omega (arith, le, lt))))

body-Good :
    (csid n format : ℕ) (h : ChunkHeader) (continuation : Bool) (source : List ℕ) (r : ChunkReader)
    → IsValid r
    → IsUsable format h
    → h.message_active ≡ continuation
    → Fits continuation h (buffer csid r)
    → length source < n
    → Ensures IsPossible (Good n) (read_body csid r format h continuation source)
body-Good csid n format h false source r v u a fits lt =
    Ensures-bind (read_message_header-Ensures format h false source u) (λ (h1, rest) (i, same, le).
      payload-Good csid n (record h1 { message_active = true }) rest r v i refl
        (rw fits (omega arith)) (omega (arith, le, lt)))
body-Good csid n format h true source r v u a fits lt =
    active_body-Good csid n format h source r v u a fits lt (ℕ_discrete format 3)

header-Good :
    (csid n format : ℕ) (source : List ℕ) (r : ChunkReader) (o : Option ChunkHeader)
    → IsValid r
    → Holds o (buffer csid r)
    → length source < n
    → Ensures IsPossible (Good n) (known_header format o >>= with_header csid r format source)
header-Good csid n format source r (some h) v (i, fits) lt =
    body-Good csid n format h h.message_active source r v (inr i) refl fits lt
header-Good csid n format source r none v empty lt = elim (ℕ_discrete format 0) [
  | yes e ↦
      subst (λ f. Ensures IsPossible (Good n) (known_header f none >>= with_header csid r f source))
        (sym e) (body-Good csid n 0 empty_header false source r v (inl refl) refl empty lt)
  | no ne ↦ let other : (format == 0) ≡ false = ground arith in rw other (refused tt)
]

pub read_chunk-Good :
    (r : ChunkReader) → IsValid r → Ensures IsPossible (Good (length r.source)) (read_chunk r)
unfolding read_chunk
read_chunk-Good r v = Ensures-bind (basic_header-Ensures r.source) (λ ((csid, format), source) le.
    header-Good csid (length r.source) format source r (lookup csid r.headers) v (v csid)
      (omega (arith, le)))

-- What `ReadMessage` may do: an error that is possible, or a message with a valid reader that has
-- less to read.
abbrev pub IsSound : ℕ → Outcome → Type 0
IsSound n (received msg r) = IsValid r × (length r.source < n)
IsSound n (failed e) = IsPossible e
IsSound n out_of_fuel = ⊥

IsSound-weaken : (n m : ℕ) (o : Outcome) → n ≤ m → IsSound n o → IsSound m o
IsSound-weaken n m (received msg r) le (v, lt) = (v, omega (arith, le, lt))
IsSound-weaken n m (failed e) le p = p
IsSound-weaken n m out_of_fuel le p = p

again_lem :
    (fuel n : ℕ) {x : Result Error (Option Message × ChunkReader)}
    → Ensures IsPossible (Good n) x
    → n ≤ fuel
    → ((s : ChunkReader)
        → IsValid s
        → length s.source < fuel
        → IsSound (length s.source) (read_message_loop fuel s))
    → IsSound n (or_again (read_message_loop fuel) x)
again_lem fuel n (ensured {a = (some msg, s)} good) le again = good
again_lem fuel n (ensured {a = (none, s)} (v, lt)) le again =
    IsSound-weaken (length s.source) n (read_message_loop fuel s) (omega (arith, lt))
      (again s v (omega (arith, le, lt)))
again_lem fuel n (refused p) le again = p

loop_lem :
    (fuel : ℕ) (r : ChunkReader)
    → IsValid r
    → length r.source < fuel
    → IsSound (length r.source) (read_message_loop fuel r)
unfolding read_message_loop
loop_lem zero r v lt = absurd (omega arith)
loop_lem (suc fuel) r v lt =
    again_lem fuel (length r.source) (read_chunk-Good r v) (omega arith) (loop_lem fuel)

sound : (r : ChunkReader) → IsValid r → IsSound (length r.source) (read_message r)
unfolding read_message
sound r v = loop_lem (suc (length r.source)) r v (omega arith)

-- On any bytes, the loop of ReadMessage ends with a message or an error, from every reader whose
-- headers are initialized and whose buffers fit their messages.
pub read_message_ends : (r : ChunkReader) → IsValid r → read_message r ≢ out_of_fuel
read_message_ends r v e = subst (IsSound (length r.source)) e (sound r v)

-- A reader whose headers are initialized and whose buffers fit their messages is such a reader again
-- after ReadMessage returned a message from any bytes, and has fewer bytes to read.
pub read_message-IsValid :
    (r s : ChunkReader) (msg : Message)
    → IsValid r
    → read_message r ≡ received msg s
    → IsValid s × (length s.source < length r.source)
read_message-IsValid r s msg v e = subst (IsSound (length r.source)) e (sound r v)

-- Such a reader never fails because a payload exceeds its declared length, nor because a chunk of
-- format 3 has no header before it.
pub read_message_errors :
    (r : ChunkReader) (e : Error)
    → IsValid r
    → read_message r ≡ failed e
    → (e ≢ exceeds_length) × (e ≢ not_initialized)
read_message_errors r e v eq =
    let possible : IsPossible e = subst (IsSound (length r.source)) eq (sound r v) in
    (λ p. subst IsPossible p possible, λ p. subst IsPossible p possible)
