-- ===== src/Rtmp/Chunk/RoundTrip.antt =====
-- module/rtmp/chunk.go: `ReadMessage` on the chunks that one call of `WriteMessage` writes.
use liveforge.Base.{
  ℕ, zero, suc, ◌+◌, ◌-◌, ◌≤◌, ◌<◌, ◌≡◌, refl, sym, ap, ap₂, ◌∙◌, subst, List, [], ◌∷◌, ◌++◌, arith,
  min, length, take, drop, length-append, length-take, length-drop, append-nil, append_assoc,
  take-append-drop,
}
use liveforge.Bytes.{ok}
use liveforge.Rtmp.{Message}
use liveforge.Rtmp.Chunk.{ChunkReader}
use liveforge.Rtmp.Chunk.Read.{
  Outcome, received, or_again, read_message_loop, read_message, read_chunk, after_chunk,
}
use liveforge.Rtmp.Chunk.Write.{
  basic_header, extension, full_header, continuation_chunks, write_message,
}
use liveforge.Rtmp.Chunk.Headers.{IsChunkStream, IsMessage, opened}
use liveforge.Rtmp.Chunk.Turns.{IsIdle, first_turn, next_turn}
use liveforge.Rtmp.Chunk.Effects.{
  IsElsewhere, IsElsewhere-trans, stored, completed, stored-IsElsewhere, stored-IsReceiving,
  completed-IsIdle, after_chunk_more, after_chunk_last,
}

-- `ReadMessage` returns `msg` and leaves `rest` to read, the chunk stream idle, and the other chunk
-- streams as they were.
pub record Delivers (csid : ℕ) (msg : Message) (rest : List ℕ) (r : ChunkReader) (o : Outcome)
    : Type 0 where
  pub after : ChunkReader
  pub outcome : o ≡ received msg after
  pub left : after.source ≡ rest
  pub idle : IsIdle csid after
  pub elsewhere : IsElsewhere csid r after

append_assoc₄ :
    (a b c d rest : List ℕ) → (a ++ (b ++ (c ++ d))) ++ rest ≡ a ++ (b ++ (c ++ (d ++ rest)))
append_assoc₄ a b c d rest =
    append_assoc a (b ++ (c ++ d)) rest
    ∙ ap (λ x. a ++ x) (append_assoc b (c ++ d) rest ∙ ap (λ x. b ++ x) (append_assoc c d rest))

pub basic_header-nonempty : (format csid : ℕ) → 0 < length (basic_header format csid)
unfolding basic_header
basic_header-nonempty format csid = ground arith

continuation_chunks-nil : (fuel csid ts n : ℕ) → continuation_chunks fuel csid ts n [] ≡ []
unfolding continuation_chunks
continuation_chunks-nil zero csid ts n = refl
continuation_chunks-nil (suc fuel) csid ts n = refl

continued :
    (fuel csid ts n b : ℕ) (left rest : List ℕ)
    → continuation_chunks (suc fuel) csid ts n (b ∷ left) ++ rest
      ≡ basic_header 3 csid
        ++ (extension ts
            ++ (take n (b ∷ left)
                ++ (continuation_chunks fuel csid ts n (drop n (b ∷ left)) ++ rest)))
unfolding continuation_chunks
continued fuel csid ts n b left rest =
    append_assoc₄ (basic_header 3 csid) (extension ts) (take n (b ∷ left))
      (continuation_chunks fuel csid ts n (drop n (b ∷ left))) rest

pub length_whole :
    (got left payload : List ℕ) → got ++ left ≡ payload → length got + length left ≡ length payload
length_whole got left payload e = sym (length-append got left) ∙ ap length e

-- the length of what follows the next chunk
shorter :
    (format csid : ℕ) (ext piece rest : List ℕ) (k : ℕ)
    → length (basic_header format csid ++ (ext ++ (piece ++ rest))) < suc k
    → length rest < k
shorter format csid ext piece rest k lt = omega (
  arith,
  lt,
  basic_header-nonempty format csid,
  length-append (basic_header format csid) (ext ++ (piece ++ rest)),
  length-append ext (piece ++ rest),
  length-append piece rest,
)

Delivers-last :
    (csid : ℕ) (msg : Message) (rest : List ℕ) (k : ℕ) (r : ChunkReader)
    → IsMessage msg
    → read_chunk r ≡ ok (after_chunk csid (opened msg) msg.payload rest r)
    → Delivers csid msg rest r (read_message_loop (suc k) r)
unfolding read_message_loop
Delivers-last csid msg rest k r w turn = record {
  after = completed csid (opened msg) rest r;
  outcome = ap (or_again (read_message_loop k)) (turn ∙ ap ok (after_chunk_last csid msg rest r w));
  left = refl;
  idle = completed-IsIdle csid (opened msg) rest r;
  elsewhere = stored-IsElsewhere csid _ [] rest r;
}

Delivers-later :
    (csid : ℕ) (msg : Message) (got source rest : List ℕ) (k : ℕ) (r : ChunkReader)
    → length got < msg.length
    → read_chunk r ≡ ok (after_chunk csid (opened msg) got source r)
    → Delivers csid msg rest
        (stored csid (opened msg) got source r)
        (read_message_loop k (stored csid (opened msg) got source r))
    → Delivers csid msg rest r (read_message_loop (suc k) r)
unfolding read_message_loop
Delivers-later csid msg got source rest k r lt turn d = record {
  after = d.after;
  outcome =
      ap (or_again (read_message_loop k))
        (turn ∙ ap ok (after_chunk_more csid (opened msg) got source r lt))
      ∙ d.outcome;
  left = d.left;
  idle = d.idle;
  elsewhere = IsElsewhere-trans (stored-IsElsewhere csid (opened msg) got source r) d.elsewhere;
}

module _ (csid : ℕ) (msg : Message) (rest : List ℕ) (c : IsChunkStream csid)
    (w : IsMessage msg) where
  -- Once a chunk is read, the loop goes on to the end of the message.
  deliver :
      (fuel n : ℕ) (got left : List ℕ) (k : ℕ) (r : ChunkReader)
      → 0 < n
      → r.chunk_size ≡ n
      → got ++ left ≡ msg.payload
      → length left ≤ fuel
      → length (continuation_chunks fuel csid msg.timestamp n left ++ rest) < k
      → read_chunk r
        ≡ ok (
            after_chunk csid
              (opened msg)
              got
              (continuation_chunks fuel csid msg.timestamp n left ++ rest)
              r)
      → Delivers csid msg rest r (read_message_loop (suc k) r)
  deliver fuel n got [] k r pos size whole enough lt turn = Delivers-last csid msg rest k r w (
      turn
      ∙ ap₂ (λ g s. ok (after_chunk csid (opened msg) g s r)) (sym (append-nil got) ∙ whole)
          (ap (λ x. x ++ rest) (continuation_chunks-nil fuel csid msg.timestamp n)))
  deliver zero n got (b ∷ left) k r pos size whole enough lt turn = absurd (omega arith)
  deliver (suc fuel) n got (b ∷ left) zero r pos size whole enough lt turn = absurd (omega arith)
  deliver (suc fuel) n got (b ∷ left) (suc k) r pos size whole enough lt turn =
      let piece : List ℕ = take n (b ∷ left) in
      let more : List ℕ =
        continuation_chunks fuel csid msg.timestamp n (drop n (b ∷ left)) ++ rest in
      let source : List ℕ =
        continuation_chunks (suc fuel) csid msg.timestamp n (b ∷ left) ++ rest in
      let r1 : ChunkReader = stored csid (opened msg) got source r in
      let same : source ≡ basic_header 3 csid ++ (extension msg.timestamp ++ (piece ++ more)) =
        continued fuel csid msg.timestamp n b left rest in
      let total : length got + suc (length left) ≡ msg.length =
        length_whole got (b ∷ left) msg.payload whole ∙ w.whole in
      let took : length piece ≡ min (msg.length - length got) r.chunk_size =
        omega (arith, total, size, length-take n (b ∷ left)) in
      let turn1 : read_chunk r1 ≡ ok (after_chunk csid (opened msg) (got ++ piece) more r1) =
        next_turn csid msg got piece more r1 c w (stored-IsReceiving csid msg got source r)
          (omega (arith, total)) took same in
      Delivers-later csid msg got source rest (suc k) r (omega (arith, total)) turn (
        deliver fuel n (got ++ piece) (drop n (b ∷ left)) k r1 pos size
          (append_assoc got piece (drop n (b ∷ left))
            ∙ ap (λ x. got ++ x) (take-append-drop n (b ∷ left))
            ∙ whole)
          (omega (arith, enough, length-drop n (b ∷ left)))
          (shorter 3 csid (extension msg.timestamp) piece more k
            (subst (λ x. length x < suc k) same lt))
          turn1)

written :
    (csid n : ℕ) (msg : Message) (rest : List ℕ)
    → write_message n csid msg ++ rest
      ≡ basic_header 0 csid
        ++ (full_header msg
            ++ (take n msg.payload
                ++ (continuation_chunks
                      (length msg.payload)
                      csid
                      msg.timestamp
                      n
                      (drop n msg.payload)
                    ++ rest)))
unfolding write_message
written csid n msg rest =
    append_assoc₄ (basic_header 0 csid) (full_header msg) (take n msg.payload)
      (continuation_chunks (length msg.payload) csid msg.timestamp n (drop n msg.payload)) rest

-- For a chunk stream from 2 to 65599 that is idle, a chunk size above 0 and a message whose length
-- field is the length of its payload and below 2 ^ 24: reading what WriteMessage wrote, with any bytes
-- behind it, returns the message, leaves those bytes to read and the chunk stream idle, and leaves the
-- other chunk streams as they were.
pub read_message-write_message :
    (csid : ℕ) (msg : Message) (rest : List ℕ) (r : ChunkReader)
    → IsChunkStream csid
    → IsMessage msg
    → 0 < r.chunk_size
    → IsIdle csid r
    → r.source ≡ write_message r.chunk_size csid msg ++ rest
    → Delivers csid msg rest r (read_message r)
unfolding read_message
read_message-write_message csid msg rest r c w pos idle source =
    let n : ℕ = r.chunk_size in
    let piece : List ℕ = take n msg.payload in
    let left : List ℕ = drop n msg.payload in
    let more : List ℕ =
      continuation_chunks (length msg.payload) csid msg.timestamp n left ++ rest in
    let same : r.source ≡ basic_header 0 csid ++ (full_header msg ++ (piece ++ more)) =
      source ∙ written csid n msg rest in
    let took : length piece ≡ min msg.length n =
      omega (arith, length-take n msg.payload, w.whole) in
    deliver csid msg rest c w (length msg.payload) n piece left (length r.source) r pos refl
      (take-append-drop n msg.payload) (omega (arith, length-drop n msg.payload))
      (shorter 0 csid (full_header msg) piece more (length r.source)
        (subst (λ x. length x < suc (length r.source)) same (omega arith)))
      (first_turn csid msg piece more r c w idle took same)
