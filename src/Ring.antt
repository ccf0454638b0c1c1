-- ===== src/Ring.antt =====
-- pkg/util/ringbuffer.go: a ring with one writer and a cursor for each reader.
-- The cursors are int64 in the code and count the frames of one stream, so that they stay below
-- 2 ^ 63; here they are numbers. `mu`, `cond` and `dataMu` make each operation below one step; what
-- other threads do between two steps of one reader is given as an argument.
pub mod History
pub mod Read
pub mod Quiet
mod Tests
use liveforge.Base.{
  ℕ, ◌+◌, ◌-◌, ◌%◌, Bool, true, false, Option, none, some, List, [], ◌∷◌, ltb, leb, ◌==◌,
  if◌then◌else◌, get_or, set, replicate, min,
}

-- `RingBuffer`. A slot is `none` until it is written (Go's zero value). `signal` is the channel of
-- capacity 1: whether a token is in it.
pub record RingBuffer {ℓ} (A : Type ℓ) : Type ℓ where
  pub buf : List (Option A)
  pub size : ℕ
  pub write_cursor : ℕ
  pub signal : Bool
  pub closed : Bool

-- `RingReader`, without the context plumbing.
pub record RingReader : Type 0 where
  pub read_cursor : ℕ
  pub last_skipped : ℕ
  pub closed : Bool

-- `RingReadResult`: the value is there exactly if OK is true.
pub record RingReadResult {ℓ} (A : Type ℓ) : Type ℓ where
  pub value : Option A
  pub is_ok : Bool
  pub overwritten : ℕ

-- What one round of the loop of `TryReadResult` comes to: a return, or `continue` after the writer
-- has lapped the reader, with the overwritten count so far.
pub data Round {ℓ} (A : Type ℓ) : Type ℓ where
  finished : RingReadResult A → RingReader → RingBuffer A → Round A
  lapped : ℕ → RingReader → RingBuffer A → Round A

module _ {ℓ} {A : Type ℓ} where
  -- `NewRingBuffer`: a size that is not positive becomes 1.
  unfoldable pub new_ring_buffer : ℕ → RingBuffer A
  new_ring_buffer n =
      let size : ℕ = if n == 0 then 1 else n in
      record {
        buf = replicate size none;
        size = size;
        write_cursor = 0;
        signal = false;
        closed = false;
      }

  -- `Write`: nothing on a closed ring; else the slot, the cursor and the signal token.
  unfoldable pub write : A → RingBuffer A → RingBuffer A
  write val rb = if rb.closed then rb else (record rb {
    buf = set rb.buf (rb.write_cursor % rb.size) (some val);
    write_cursor = rb.write_cursor + 1;
    signal = true;
  })

  -- several calls of `Write`, the first value first
  unfoldable pub write_all : List A → RingBuffer A → RingBuffer A
  write_all [] rb = rb
  write_all (x ∷ xs) rb = write_all xs (write x rb)

  -- `Close`
  unfoldable pub close : RingBuffer A → RingBuffer A
  close rb = record rb { closed = true; signal = true }

  -- `NewReader`: from the oldest value that is still there.
  unfoldable pub new_reader : RingBuffer A → RingReader
  new_reader rb = record {
    read_cursor = rb.write_cursor - rb.size;
    last_skipped = 0;
    closed = false;
  }

  -- `NewReaderAt`
  unfoldable pub new_reader_at : RingBuffer A → ℕ → RingReader
  new_reader_at rb at = record { read_cursor = at; last_skipped = 0; closed = false }

  -- One round. `between` is what the writer writes between the load of its cursor and the read lock;
  -- under the lock nothing is written.
  unfoldable pub round : List A → ℕ → RingReader → RingBuffer A → Round A
  round between overwritten r rb =
      if leb rb.write_cursor r.read_cursor
      then finished (record { value = none; is_ok = false; overwritten = overwritten }) r rb
      else (let oldest = rb.write_cursor - rb.size in
          let slow = ltb r.read_cursor oldest in
          let skipped = if slow then overwritten + (oldest - r.read_cursor) else overwritten in
          let read_cursor = if slow then oldest else r.read_cursor in
          let rb' = write_all between rb in
          if ltb read_cursor (rb'.write_cursor - rb'.size)
          then lapped skipped (record r { read_cursor = read_cursor }) rb'
          else finished
              (record {
                value = get_or rb'.buf (read_cursor % rb'.size) none;
                is_ok = true;
                overwritten = skipped;
              })
              (record r { read_cursor = read_cursor + 1; last_skipped = skipped }) rb')

  -- `continue` runs the next round, a return ends the loop.
  abbrev pub after_round :
      (ℕ → RingReader → RingBuffer A → Option (RingReadResult A × RingReader × RingBuffer A))
      → Round A
      → Option (RingReadResult A × RingReader × RingBuffer A)
  after_round next (finished res r rb) = some (res, r, rb)
  after_round next (lapped overwritten r rb) = next overwritten r rb

  -- The loop, over what the writer does in each round; after the list it does nothing more. `none`
  -- would be a loop that goes on for ever.
  unfoldable pub try_read_loop :
      List (List A)
      → ℕ
      → RingReader
      → RingBuffer A
      → Option (RingReadResult A × RingReader × RingBuffer A)
  try_read_loop [] overwritten r rb = after_round (λ _ _ _. none) (round [] overwritten r rb)
  try_read_loop (ws ∷ schedule) overwritten r rb =
      after_round (try_read_loop schedule) (round ws overwritten r rb)

  -- `TryReadResult`
  unfoldable pub try_read_result :
      List (List A)
      → RingReader
      → RingBuffer A
      → Option (RingReadResult A × RingReader × RingBuffer A)
  try_read_result schedule r rb = try_read_loop schedule 0 (record r { last_skipped = 0 }) rb

  -- `AdvanceToLive`, which returns how many positions it discards.
  unfoldable pub advance_to_live : RingReader → RingBuffer A → ℕ × RingReader
  advance_to_live r rb =
      if leb rb.write_cursor r.read_cursor
      then (0, r)
      else (rb.write_cursor - r.read_cursor, record r { read_cursor = rb.write_cursor })

  -- `Lag` as the two numbers whose quotient it returns.
  unfoldable pub lag : RingReader → RingBuffer A → ℕ × ℕ
  lag r rb = (min (rb.write_cursor - r.read_cursor) rb.size, rb.size)
