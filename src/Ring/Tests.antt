-- ===== src/Ring/Tests.antt =====
-- pkg/util/ringbuffer.go on small rings, and the theorems at concrete inputs.
use liveforge.Base.{ℕ, ◌≡◌, refl, true, false, some, List, [], ◌∷◌, ◌++◌, arith}
use liveforge.Ring.{
  RingBuffer, RingReader, new_ring_buffer, write, write_all, close, new_reader, round,
  try_read_loop, try_read_result, advance_to_live, lag,
}
use liveforge.Ring.History.{Holds, accepted, new_ring_buffer-Holds, write_all-Holds}
use liveforge.Ring.Read.{IsServed, try_read_result_lem}

abbrev three : List ℕ
three = 10 ∷ 20 ∷ 30 ∷ []

-- a ring of two slots after three writes
abbrev ring : RingBuffer ℕ
ring = write_all three (new_ring_buffer 2)

abbrev start : RingReader
start = record { read_cursor = 0; last_skipped = 0; closed = false }

-- the reader has lost the first value
slow_reader :
    try_read_result [] start ring
    ≡ some (
      record { value = some 20; is_ok = true; overwritten = 1 },
      record { read_cursor = 2; last_skipped = 1; closed = false },
      ring,
    )
unfolding try_read_result try_read_loop round write_all write new_ring_buffer
slow_reader = refl

-- the writer laps it once more before the slot is read, and the loop goes round
lapped_reader :
    try_read_result ((40 ∷ 50 ∷ []) ∷ []) start ring
    ≡ some (
      record { value = some 40; is_ok = true; overwritten = 3 },
      record { read_cursor = 4; last_skipped = 3; closed = false },
      write_all (40 ∷ 50 ∷ []) ring,
    )
unfolding try_read_result try_read_loop round write_all write new_ring_buffer
lapped_reader = refl

advance : advance_to_live start ring ≡ (3, record start { read_cursor = 3 })
unfolding advance_to_live write_all write new_ring_buffer
advance = refl

lag_full : lag start ring ≡ (2, 2)
unfolding lag write_all write new_ring_buffer
lag_full = refl

closed_ring : write 40 (close ring) ≡ close ring
unfolding write close write_all new_ring_buffer
closed_ring = refl

oldest_reader : (new_reader ring).read_cursor ≡ 1
unfolding new_reader write_all write new_ring_buffer
oldest_reader = refl

abbrev history : List ℕ
history = [] ++ accepted (new_ring_buffer 2) three

history-Holds : Holds history ring
history-Holds = write_all-Holds three [] (new_ring_buffer 2) (new_ring_buffer-Holds 2)

write_all-Holds_example : Holds history ring
write_all-Holds_example = write_all-Holds three [] (new_ring_buffer 2) (new_ring_buffer-Holds 2)

try_read_result_lem_example : IsServed ((40 ∷ 50 ∷ []) ∷ []) history start ring
unfolding accepted new_ring_buffer
try_read_result_lem_example =
    try_read_result_lem ((40 ∷ 50 ∷ []) ∷ []) history start ring history-Holds (omega arith)
