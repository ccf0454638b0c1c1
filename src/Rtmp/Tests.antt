-- ===== src/Rtmp/Tests.antt =====
-- module/rtmp at concrete inputs.
use liveforge.Base.{ℕ, ◌<◌, ◌≡◌, ◌≢◌, refl, Bool, false, List, [], ◌∷◌, ◌++◌, arith, length}
use liveforge.Base.Assoc.{number_key, lookup, insert}
use liveforge.Rtmp.{Message}
use liveforge.Rtmp.Chunk.{
  ChunkReader, new_chunk_reader, end_of_input, exceeds_length, not_initialized, read_basic_header,
  read_message_header,
}
use liveforge.Rtmp.Chunk.Read.{
  received, failed, out_of_fuel, read_message, read_message_loop, read_chunk, read_payload, buffer,
}
use liveforge.Rtmp.Chunk.Write.{write_message, basic_header, extension, full_header}
use liveforge.Rtmp.Chunk.Headers.{IsMessage}
use liveforge.Rtmp.Chunk.Turns.{IsIdle}
use liveforge.Rtmp.Chunk.RoundTrip.{Delivers, read_message-write_message}
use liveforge.Rtmp.Chunk.Safety.{
  IsValid, new_chunk_reader-IsValid, read_message_ends, read_message-IsValid, read_message_errors,
}
use liveforge.Rtmp.Handler.{read_failed, handle}
use liveforge.Rtmp.Traffic.{Progress, idle, Traffic, quiet, starts, goes_on, handle_interleaved}

-- with an extended timestamp, in two chunks
abbrev long : Message
long = record {
  type_id = 9;
  length = 3;
  timestamp = 0x1000000;
  stream_id = 1;
  payload = 7 ∷ 8 ∷ 9 ∷ [];
}

abbrev short : Message
short = record { type_id = 8; length = 1; timestamp = 5; stream_id = 1; payload = 6 ∷ [] }

long-IsMessage : IsMessage long
long-IsMessage = record {
  length_lt = omega arith;
  timestamp_lt = omega arith;
  stream_id_lt = omega arith;
  whole = refl;
}

short-IsMessage : IsMessage short
short-IsMessage = record {
  length_lt = omega arith;
  timestamp_lt = omega arith;
  stream_id_lt = omega arith;
  whole = refl;
}

new-IsIdle : (csid : ℕ) (source : List ℕ) → IsIdle csid (new_chunk_reader source 2)
unfolding lookup buffer
new-IsIdle csid source = record { inactive = λ h e. cc; empty = refl }

abbrev wire : ChunkReader
wire = new_chunk_reader (write_message 2 3 long ++ 1 ∷ []) 2

read_message-write_message_example : Delivers 3 long (1 ∷ []) wire (read_message wire)
read_message-write_message_example =
    read_message-write_message 3 long (1 ∷ []) wire (omega arith) long-IsMessage (omega arith)
      (new-IsIdle 3 _) refl

abbrev noise : ChunkReader
noise = new_chunk_reader (195 ∷ 1 ∷ []) 128

read_message_ends_example : read_message noise ≢ out_of_fuel
read_message_ends_example = read_message_ends noise (new_chunk_reader-IsValid _ 128)

abbrev one_chunk : ChunkReader
one_chunk = new_chunk_reader (3 ∷ 0 ∷ 0 ∷ 5 ∷ 0 ∷ 0 ∷ 1 ∷ 8 ∷ 1 ∷ 0 ∷ 0 ∷ 0 ∷ 6 ∷ []) 128

abbrev left_over : ChunkReader
left_over = elim (read_message one_chunk) [ received msg s ↦ s | _ ↦ one_chunk ]

received_short : read_message one_chunk ≡ received short left_over
unfolding read_message read_message_loop read_chunk read_basic_header read_message_header
    read_payload buffer lookup insert
received_short = refl

read_message-IsValid_example : IsValid left_over × (length left_over.source < 13)
read_message-IsValid_example =
    read_message-IsValid one_chunk left_over short (new_chunk_reader-IsValid _ 128) received_short

abbrev nothing : ChunkReader
nothing = new_chunk_reader [] 128

fails : read_message nothing ≡ failed end_of_input
unfolding read_message read_message_loop read_chunk read_basic_header
fails = refl

read_message_errors_example : (end_of_input ≢ exceeds_length) × (end_of_input ≢ not_initialized)
read_message_errors_example =
    read_message_errors nothing end_of_input (new_chunk_reader-IsValid _ 128) fails

abbrev none_sent : ℕ → Progress
none_sent j = idle

abbrev accepts_all : List Message → Message → Bool
accepts_all before msg = false

-- the second chunk of `long` comes after `short`, which is on another chunk stream
interleaved :
    Traffic 2 none_sent
      (basic_header 0 4
        ++ (full_header long
            ++ ((7 ∷ 8 ∷ [])
                ++ (basic_header 0 6
                    ++ (full_header short
                        ++ ((6 ∷ [])
                            ++ (basic_header 3 4 ++ (extension 0x1000000 ++ ((9 ∷ []) ++ [])))))))))
      (short ∷ long ∷ [])
interleaved =
    starts 4 long (omega arith) (long-IsMessage, omega arith) refl
      (starts 6 short (omega arith) (short-IsMessage, omega arith) refl
        (goes_on 4 long (7 ∷ 8 ∷ []) (9 ∷ []) (omega arith) refl quiet))

abbrev mixed : ChunkReader
mixed =
    new_chunk_reader
      (basic_header 0 4
        ++ (full_header long
            ++ ((7 ∷ 8 ∷ [])
                ++ (basic_header 0 6
                    ++ (full_header short
                        ++ ((6 ∷ [])
                            ++ (basic_header 3 4 ++ (extension 0x1000000 ++ ((9 ∷ []) ++ [])))))))))
      2

handle_interleaved_example :
    handle accepts_all mixed ≡ (short ∷ long ∷ [], read_failed end_of_input)
handle_interleaved_example =
    handle_interleaved accepts_all (λ before msg. refl) none_sent mixed.source (short ∷ long ∷ [])
      mixed interleaved (λ j. new-IsIdle j mixed.source) refl
