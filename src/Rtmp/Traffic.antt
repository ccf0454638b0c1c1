-- ===== src/Rtmp/Traffic.antt =====
-- module/rtmp: a sender may interleave the chunks of messages on several chunk streams. The loop of
-- `Handle` then gets each message whole, in the order in which the messages are completed.
use liveforge.Base.{
  ℕ, zero, suc, ◌+◌, ◌-◌, ◌≤◌, ◌<◌, ◌≡◌, refl, sym, ap, ◌∙◌, subst, Bool, true, false, List, [],
  ◌∷◌, ◌++◌, arith, min, ◌==◌, if◌then◌else◌, length, take, drop, length-take, length-append,
  append-nil, append_assoc, take-append-drop, ℕ_discrete,
}
use liveforge.Base.Assoc.{number_key, lookup}
use liveforge.Bytes.{ok, ◌>>=◌}
use liveforge.Rtmp.{Message}
use liveforge.Rtmp.Chunk.{end_of_input, read_basic_header, ChunkReader}
use liveforge.Rtmp.Chunk.Read.{
  buffer, or_again, read_message_loop, read_message, read_chunk, on_stream, after_chunk,
}
use liveforge.Rtmp.Chunk.Write.{basic_header, extension, full_header}
use liveforge.Rtmp.Chunk.Headers.{IsChunkStream, IsMessage, opened}
use liveforge.Rtmp.Chunk.Turns.{IsIdle, IsReceiving, first_turn, next_turn}
use liveforge.Rtmp.Chunk.Effects.{
  IsElsewhere, stored, completed, stored-IsElsewhere, stored-IsReceiving, completed-IsIdle,
  after_chunk_more, after_chunk_last,
}
use liveforge.Rtmp.Chunk.RoundTrip.{basic_header-nonempty, length_whole}
use liveforge.Rtmp.Handler.{
  msg_set_chunk_size, next_size, resized, read_failed, accepted, after_message, handle_message,
  on_outcome, handle_loop, handle,
}

-- What a sender has sent of a message on a chunk stream, and what is left.
pub data Progress : Type 0 where
  idle : Progress
  sending : Message → List ℕ → List ℕ → Progress

abbrev pub advance : Message → List ℕ → List ℕ → Progress
advance msg got [] = idle
advance msg got (b ∷ left) = sending msg got (b ∷ left)

abbrev pub at : ℕ → Progress → (ℕ → Progress) → ℕ → Progress
at csid p st j = if csid == j then p else st j

-- the messages that are complete from here on, and the chunk size
abbrev pub completes : Message → List ℕ → List Message → List Message
completes msg [] ms = msg ∷ ms
completes msg (b ∷ left) ms = ms

abbrev pub size_after : Message → List ℕ → ℕ → ℕ
size_after msg [] n = next_size msg n
size_after msg (b ∷ left) n = n

-- A message that sets the chunk size has 4 bytes for it.
abbrev pub IsSendable : Message → Type 0
IsSendable msg = IsMessage msg × (msg.type_id ≡ msg_set_chunk_size → 4 ≤ length msg.payload)

-- The chunks of a sender, with the chunk size and what it has sent; and the messages that they complete.
pub data Traffic : ℕ → (ℕ → Progress) → List ℕ → List Message → Type 0 where
  quiet : {n : ℕ} {st : ℕ → Progress} → Traffic n st [] []
  starts :
      {n : ℕ} {st : ℕ → Progress} {bs : List ℕ} {ms : List Message} (csid : ℕ) (msg : Message)
      → IsChunkStream csid
      → IsSendable msg
      → st csid ≡ idle
      → Traffic
          (size_after msg (drop n msg.payload) n)
          (at csid (advance msg (take n msg.payload) (drop n msg.payload)) st)
          bs
          ms
      → Traffic n st
          (basic_header 0 csid ++ (full_header msg ++ (take n msg.payload ++ bs)))
          (completes msg (drop n msg.payload) ms)
  goes_on :
      {n : ℕ} {st : ℕ → Progress} {bs : List ℕ} {ms : List Message} (csid : ℕ) (msg : Message)
      (got left : List ℕ)
      → IsChunkStream csid
      → st csid ≡ sending msg got left
      → Traffic
          (size_after msg (drop n left) n)
          (at csid (advance msg (got ++ take n left) (drop n left)) st)
          bs
          ms
      → Traffic n st
          (basic_header 3 csid ++ (extension msg.timestamp ++ (take n left ++ bs)))
          (completes msg (drop n left) ms)

-- The reader has what the sender has sent.
abbrev pub Agrees : ℕ → ChunkReader → Progress → Type 0
Agrees csid r idle = IsIdle csid r
Agrees csid r (sending msg got left) =
    IsReceiving csid msg got r × IsSendable msg × (got ++ left ≡ msg.payload)

abbrev pub AllAgree : ChunkReader → (ℕ → Progress) → Type 0
AllAgree r st = (j : ℕ) → Agrees j r (st j)

Agrees-same :
    (j : ℕ) (r s : ChunkReader) (p : Progress)
    → lookup j s.headers ≡ lookup j r.headers
    → buffer j s ≡ buffer j r
    → Agrees j r p
    → Agrees j s p
Agrees-same j r s idle hs bs a = record {
  inactive = λ h e. a.inactive h (sym hs ∙ e);
  empty = bs ∙ a.empty;
}
Agrees-same j r s (sending msg got left) hs bs (a, w, whole) =
    (record { header = hs ∙ a.header; holds = bs ∙ a.holds }, w, whole)

AllAgree-at :
    (csid : ℕ) (r s : ChunkReader) (st : ℕ → Progress) (p : Progress)
    → AllAgree r st
    → IsElsewhere csid r s
    → Agrees csid s p
    → AllAgree s (at csid p st)
AllAgree-at csid r s st p all same new j = elim (ℕ_discrete csid j) [
  | yes e ↦
      let here : (csid == j) ≡ true = ground arith in rw here (subst (λ i. Agrees i s p) e new)
  | no ne ↦
      let there : (csid == j) ≡ false = ground arith in
      rw there (Agrees-same j r s (st j) (same.same_headers j ne) (same.same_buffers j ne) (all j))
]

the_agreement :
    (csid : ℕ) (r : ChunkReader) (p : Progress) (msg : Message) (got left : List ℕ)
    → p ≡ sending msg got left
    → Agrees csid r p
    → Agrees csid r (sending msg got left)
the_agreement csid r p msg got left e a = subst (Agrees csid r) e a

buffer-resized : (j : ℕ) (msg : Message) (r : ChunkReader) → buffer j (resized msg r) ≡ buffer j r
unfolding buffer
buffer-resized j msg r = refl

-- `rest` is shorter than a chunk that it follows.
chunk_takes :
    (format csid : ℕ) (a b rest : List ℕ)
    → length rest < length (basic_header format csid ++ (a ++ (b ++ rest)))
chunk_takes format csid a b rest = omega (
  arith,
  basic_header-nonempty format csid,
  length-append (basic_header format csid) (a ++ (b ++ rest)),
  length-append a (b ++ rest),
  length-append b rest,
)

module _ (refuses : List Message → Message → Bool)
    (none_fails : (before : List Message) (msg : Message) → refuses before msg ≡ false) where
  -- From here on the loop handles `ms` and ends at the end of the input.
  Ends : ℕ → ℕ → List Message → ChunkReader → List Message → Type 0
  Ends k fuel before r ms =
      on_outcome refuses (handle_loop refuses fuel) before (read_message_loop k r)
      ≡ (before ++ ms, read_failed end_of_input)

  -- what the chunks after this one do
  Later : ℕ → (ℕ → Progress) → List ℕ → List Message → Type 0
  Later n st bs ms =
      (k fuel : ℕ) (before : List Message) (r : ChunkReader)
      → AllAgree r st
      → r.chunk_size ≡ n
      → r.source ≡ bs
      → length bs < k
      → length bs ≤ fuel
      → Ends k fuel before r ms

  accepts :
      (before : List Message) (msg : Message)
      → IsSendable msg
      → handle_message refuses before msg ≡ accepted
  unfolding handle_message
  accepts before msg (w, enough) = ground (arith, enough, none_fails before msg)

  -- a round of the loop of Handle
  ended :
      (fuel : ℕ) (before ms : List Message) (r : ChunkReader)
      → Ends (suc (length r.source)) fuel before r ms
      → handle_loop refuses (suc fuel) before r ≡ (before ++ ms, read_failed end_of_input)
  unfolding Ends handle_loop read_message
  ended fuel before ms r e = e

  quiet_lem :
      (k fuel : ℕ) (before : List Message) (r : ChunkReader)
      → r.source ≡ []
      → 0 < k
      → Ends k fuel before r []
  unfolding Ends read_message_loop read_chunk read_basic_header
  quiet_lem zero fuel before r e lt = absurd (omega arith)
  quiet_lem (suc k) fuel before r e lt =
      ap
        (λ s.
          on_outcome refuses (handle_loop refuses fuel) before
            (or_again (read_message_loop k) (read_basic_header s >>= on_stream r)))
        e
      ∙ ap (λ x. (x, read_failed end_of_input)) (sym (append-nil before))

  turn_lem :
      (csid n : ℕ) (st : ℕ → Progress) (msg : Message) (got left bs : List ℕ) (ms : List Message)
      (k fuel : ℕ) (before : List Message) (r : ChunkReader)
      → IsSendable msg
      → got ++ left ≡ msg.payload
      → AllAgree r st
      → r.chunk_size ≡ n
      → read_chunk r ≡ ok (after_chunk csid (opened msg) got bs r)
      → length bs < k
      → length bs < fuel
      → Later (size_after msg left n) (at csid (advance msg got left) st) bs ms
      → Ends (suc k) fuel before r (completes msg left ms)
  unfolding Ends Later read_message_loop
  turn_lem csid n st msg got (b ∷ left) bs ms k fuel before r w whole all size turn lt enough
        later =
      let total : length got + suc (length left) ≡ msg.length =
        length_whole got (b ∷ left) msg.payload whole ∙ w.0.whole in
      let s : ChunkReader = stored csid (opened msg) got bs r in
      ap
        (λ x.
          on_outcome refuses (handle_loop refuses fuel) before (or_again (read_message_loop k) x))
        (turn ∙ ap ok (after_chunk_more csid (opened msg) got bs r (omega (arith, total))))
      ∙ later k fuel before s
          (AllAgree-at csid r s st (sending msg got (b ∷ left)) all
            (stored-IsElsewhere csid (opened msg) got bs r)
            (stored-IsReceiving csid msg got bs r, w, whole))
          size refl lt (omega (arith, enough))
  turn_lem csid n st msg got [] bs ms k zero before r w whole all size turn lt enough later =
      absurd (omega arith)
  turn_lem csid n st msg got [] bs ms k (suc fuel) before r w whole all size turn lt enough later =
      let s : ChunkReader = completed csid (opened msg) bs r in
      ap
        (λ x.
          on_outcome refuses (handle_loop refuses (suc fuel)) before
            (or_again (read_message_loop k) x))
        (turn
          ∙ ap (λ g. ok (after_chunk csid (opened msg) g bs r)) (sym (append-nil got) ∙ whole)
          ∙ ap ok (after_chunk_last csid msg bs r w.0))
      ∙ ap (after_message refuses (handle_loop refuses (suc fuel)) before msg s)
          (accepts before msg w)
      ∙ ended fuel (before ++ (msg ∷ [])) ms (resized msg s) (
          later (suc (length bs)) fuel (before ++ (msg ∷ [])) (resized msg s)
            (λ j.
              Agrees-same j s (resized msg s) (at csid idle st j) refl (buffer-resized j msg s) (
                AllAgree-at csid r s st idle all (stored-IsElsewhere csid _ [] bs r)
                  (completed-IsIdle csid (opened msg) bs r) j))
            (ap (next_size msg) size) refl (omega arith) (omega (arith, enough)))
      ∙ ap (λ x. (x, read_failed end_of_input)) (append_assoc before (msg ∷ []) ms)

  traffic_lem :
      {n : ℕ} {st : ℕ → Progress} {bs : List ℕ} {ms : List Message}
      → Traffic n st bs ms
      → Later n st bs ms
  unfolding Later
  traffic_lem quiet k fuel before r all size source lt enough = quiet_lem k fuel before r source lt
  traffic_lem (starts {n = n} {st = st} {bs = bs} csid msg c w free rest) zero fuel before r all
        size source lt enough =
      absurd (omega arith)
  traffic_lem (starts {n = n} {st = st} {bs = bs} {ms = ms} csid msg c w free rest) (suc k) fuel
        before r all size source lt enough =
      let shorter = chunk_takes 0 csid (full_header msg) (take n msg.payload) bs in
      let took : length (take n msg.payload) ≡ min msg.length r.chunk_size =
        omega (arith, size, length-take n msg.payload, w.0.whole) in
      turn_lem csid n st msg (take n msg.payload) (drop n msg.payload) bs ms k fuel before r w
        (take-append-drop n msg.payload) all size
        (first_turn csid msg (take n msg.payload) bs r c w.0 (subst (Agrees csid r) free (all csid))
          took source)
        (omega (arith, shorter, lt)) (omega (arith, shorter, enough)) (traffic_lem rest)
  traffic_lem (goes_on csid msg got left c there rest) zero fuel before r all size source lt
        enough =
      absurd (omega arith)
  traffic_lem (goes_on {n = n} {st = st} {bs = bs} {ms = ms} csid msg got left c there rest) (suc k)
        fuel before r all size source lt enough =
      let shorter = chunk_takes 3 csid (extension msg.timestamp) (take n left) bs in
      let (receiving, w, whole) = the_agreement csid r (st csid) msg got left there (all csid) in
      let total : length got + length left ≡ msg.length =
        length_whole got left msg.payload whole ∙ w.0.whole in
      let took : length (take n left) ≡ min (msg.length - length got) r.chunk_size =
        omega (arith, size, length-take n left, total) in
      turn_lem csid n st msg (got ++ take n left) (drop n left) bs ms k fuel before r w
        (append_assoc got (take n left) (drop n left)
          ∙ ap (λ x. got ++ x) (take-append-drop n left)
          ∙ whole)
        all size
        (next_turn csid msg got (take n left) bs r c w.0 receiving (omega (arith, total)) took
          source)
        (omega (arith, shorter, lt)) (omega (arith, shorter, enough)) (traffic_lem rest)

  -- Where no other handler fails, and the reader has what the sender has sent, the loop of Handle on
  -- any interleaving of the chunks of messages, each in chunks of the size that is in force, handles
  -- the messages whole and in the order in which they are completed, takes each new chunk size, and
  -- ends at the end of the input.
  pub handle_interleaved :
      (st : ℕ → Progress) (bs : List ℕ) (ms : List Message) (r : ChunkReader)
      → Traffic r.chunk_size st bs ms
      → AllAgree r st
      → r.source ≡ bs
      → handle refuses r ≡ (ms, read_failed end_of_input)
  unfolding handle Later
  handle_interleaved st bs ms r t all source = ended (length r.source) [] ms r (
      traffic_lem t (suc (length r.source)) (length r.source) [] r all refl source
        (rw source (omega arith)) (rw source (omega arith)))
