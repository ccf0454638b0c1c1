-- ===== src/Rtmp/Chunk/Effects.antt =====
-- module/rtmp/chunk.go: what a chunk does to the state of the reader, on its own chunk stream and on
-- the others.
use liveforge.Base.{
  ℕ, ◌<◌, ◌≡◌, ◌≢◌, refl, sym, ap, ◌∙◌, subst, false, none, some, List, [], ◌∷◌, arith, length,
  take, lt→leb_false, le→leb,
}
use liveforge.Base.Assoc.{number_key, lookup, insert, lookup-insert}
use liveforge.Rtmp.{Message}
use liveforge.Rtmp.Chunk.{ChunkHeader, ChunkReader}
use liveforge.Rtmp.Chunk.Read.{buffered, buffer, after_chunk}
use liveforge.Rtmp.Chunk.Headers.{IsMessage, opened}
use liveforge.Rtmp.Chunk.Turns.{IsIdle, IsReceiving}

-- The chunk size and the other chunk streams are as before.
pub record IsElsewhere (csid : ℕ) (r s : ChunkReader) : Type 0 where
  pub same_size : s.chunk_size ≡ r.chunk_size
  pub same_headers : (j : ℕ) → csid ≢ j → lookup j s.headers ≡ lookup j r.headers
  pub same_buffers : (j : ℕ) → csid ≢ j → buffer j s ≡ buffer j r

pub IsElsewhere-trans :
    {csid : ℕ} {r s t : ChunkReader}
    → IsElsewhere csid r s
    → IsElsewhere csid s t
    → IsElsewhere csid r t
IsElsewhere-trans a b = record {
  same_size = b.same_size ∙ a.same_size;
  same_headers = λ j ne. b.same_headers j ne ∙ a.same_headers j ne;
  same_buffers = λ j ne. b.same_buffers j ne ∙ a.same_buffers j ne;
}

module _ {V : Type 0} where
  pub lookup-insert_self : (k : ℕ) (v : V) (m : List (ℕ × V)) → lookup k (insert k v m) ≡ some v
  lookup-insert_self k v m = ground (arith, lookup-insert k k v m)

  pub lookup-insert_ne :
      (k j : ℕ) (v : V) (m : List (ℕ × V)) → k ≢ j → lookup j (insert k v m) ≡ lookup j m
  lookup-insert_ne k j v m ne = ground (arith, lookup-insert k j v m)

-- the reader after a chunk that leaves the message incomplete, and after its last
abbrev pub stored : ℕ → ChunkHeader → List ℕ → List ℕ → ChunkReader → ChunkReader
stored csid h got rest r = record r {
  source = rest;
  headers = insert csid h r.headers;
  buffers = insert csid got r.buffers;
}

abbrev pub completed : ℕ → ChunkHeader → List ℕ → ChunkReader → ChunkReader
completed csid h rest r = stored csid (record h { message_active = false }) [] rest r

pub stored-IsElsewhere :
    (csid : ℕ) (h : ChunkHeader) (got rest : List ℕ) (r : ChunkReader)
    → IsElsewhere csid r (stored csid h got rest r)
unfolding buffer
stored-IsElsewhere csid h got rest r = record {
  same_size = refl;
  same_headers = λ j ne. lookup-insert_ne csid j h r.headers ne;
  same_buffers = λ j ne. ap buffered (lookup-insert_ne csid j got r.buffers ne);
}

pub stored-IsReceiving :
    (csid : ℕ) (msg : Message) (got rest : List ℕ) (r : ChunkReader)
    → IsReceiving csid msg got (stored csid (opened msg) got rest r)
unfolding buffer
stored-IsReceiving csid msg got rest r = record {
  header = lookup-insert_self csid (opened msg) r.headers;
  holds = ap buffered (lookup-insert_self csid got r.buffers);
}

some-injective_lem {ℓ} : {A : Type ℓ} {a b : A} → some a ≡ some b → a ≡ b
some-injective_lem {a = a} e = ap (λ o. elim o [ none ↦ a | some x ↦ x ]) e

pub completed-IsIdle :
    (csid : ℕ) (h : ChunkHeader) (rest : List ℕ) (r : ChunkReader)
    → IsIdle csid (completed csid h rest r)
unfolding buffer
completed-IsIdle csid h rest r = record {
  inactive = λ k e. ap ChunkHeader.message_active (
      some-injective_lem
        (sym e ∙ lookup-insert_self csid (record h { message_active = false }) r.headers));
  empty = ap buffered (lookup-insert_self csid [] r.buffers);
}

pub after_chunk_more :
    (csid : ℕ) (h : ChunkHeader) (got rest : List ℕ) (r : ChunkReader)
    → length got < h.length
    → after_chunk csid h got rest r ≡ (none, stored csid h got rest r)
after_chunk_more csid h got rest r lt = rw (lt→leb_false h.length (length got) lt) refl

take_all {ℓ} : {A : Type ℓ} (xs : List A) → take (length xs) xs ≡ xs
take_all [] = refl
take_all (x ∷ xs) = ap (λ ys. x ∷ ys) (take_all xs)

pub after_chunk_last :
    (csid : ℕ) (msg : Message) (rest : List ℕ) (r : ChunkReader)
    → IsMessage msg
    → after_chunk csid (opened msg) msg.payload rest r
      ≡ (some msg, completed csid (opened msg) rest r)
after_chunk_last csid msg rest r w =
    rw (w.whole, le→leb msg.length msg.length (omega arith))
      (ap (λ p. (some (record msg { payload = p }), completed csid (opened msg) rest r))
        (subst (λ n. take n msg.payload ≡ msg.payload) w.whole (take_all msg.payload)))
