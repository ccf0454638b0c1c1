-- ===== src/Stream/Startup.antt =====
-- core/stream.go: what a subscriber that joins gets at once: headers, frames to replay and the
-- position in the ring from where it goes on. The copy of the media information is a copy here by
-- itself; the instance ID and the channel and boundary of the generation's end, which the snapshot
-- shares with the stream, are left out.
pub mod Replay
pub mod History
pub mod Runs
pub mod Snapshot
use liveforge.Base.{
  ℕ, ◌+◌, ◌-◌, zero, suc, String, Bool, true, false, Option, none, some, List, [], ◌∷◌, ◌&&◌,
  length, concat, ltb, ◌==◌, if◌then◌else◌,
}
use liveforge.AvFrame.{Frame, MediaInfo, is_keyframe, is_header}
use liveforge.Ring.{RingBuffer, RingReader, RingReadResult, new_reader_at, try_read_result}
use liveforge.Stream.{Stream, Publisher}

-- `StreamStartupSnapshot`
pub record StartupSnapshot : Type 0 where
  pub generation : ℕ
  pub publisher_id : String
  pub generation_start_cursor : ℕ
  pub media_info : MediaInfo
  pub video_sequence_header : Option Frame
  pub audio_sequence_header : Option Frame
  pub replay_frames : List Frame
  pub live_cursor : ℕ
  pub source_cursor : ℕ
  pub ready : Bool
  pub audio_codec_epoch : ℕ

-- A read that returned a frame and met no overwritten position.
abbrev pub exact :
    Option (RingReadResult Frame × RingReader × RingBuffer Frame)
    → Option (Frame × RingReader × RingBuffer Frame)
exact none = none
exact (some (read, reader, rb)) =
    if read.is_ok && read.overwritten == 0
    then elim read.value [ none ↦ none | some frame ↦ some (frame, reader, rb) ]
    else none

-- Under `writeMu` nothing is written while the loops read.
unfoldable pub next_frame :
    RingReader → RingBuffer Frame → Option (Frame × RingReader × RingBuffer Frame)
next_frame reader rb = exact (try_read_result [] reader rb)

-- A frame is appended to the replay, unless it is a sequence header.
abbrev pub with_frame : Frame → Option (List Frame) → Option (List Frame)
with_frame frame none = none
with_frame frame (some replay) = some (if is_header frame then replay else frame ∷ replay)

abbrev pub then_rest :
    (RingReader → RingBuffer Frame → Option (List Frame))
    → Option (Frame × RingReader × RingBuffer Frame)
    → Option (List Frame)
then_rest rest none = none
then_rest rest (some (frame, reader, rb)) = with_frame frame (rest reader rb)

-- The loop over the cursors, of which there are `n`; `none` if it is not complete.
unfoldable pub read_rest : ℕ → RingReader → RingBuffer Frame → Option (List Frame)
read_rest zero reader rb = some []
read_rest (suc n) reader rb = then_rest (read_rest n) (next_frame reader rb)

abbrev pub from_key : ℕ → Option (Frame × RingReader × RingBuffer Frame) → Option (List Frame)
from_key n none = none
from_key n (some (first, reader, rb)) =
    let rest = read_rest n reader rb in
    if is_keyframe first.frame_type
    then elim rest [ none ↦ none | some replay ↦ some (first ∷ replay) ]
    else none

-- The body of the loop over the starts; `none` where it goes on to the next one.
unfoldable pub replay_from : ℕ → ℕ → RingBuffer Frame → Option (List Frame)
replay_from live_cursor start rb =
    from_key (live_cursor - (start + 1)) (next_frame (new_reader_at rb start) rb)

-- `retainedStartupReplayLocked`
unfoldable pub retained_startup_replay : List ℕ → ℕ → RingBuffer Frame → List Frame × ℕ
retained_startup_replay [] live_cursor rb = ([], live_cursor)
retained_startup_replay (start ∷ starts) live_cursor rb =
    let later = retained_startup_replay starts live_cursor rb in
    elim (replay_from live_cursor start rb) [ none ↦ later | some replay ↦ (replay, start) ]

abbrev pub first_start : List ℕ → ℕ → ℕ
first_start [] live_cursor = live_cursor
first_start (start ∷ starts) live_cursor = start

-- The frames to replay and where they begin: the GOP cache, or what the ring has retained where
-- the cache ends before the live position.
abbrev pub replay_at : List (List Frame) → List ℕ → RingBuffer Frame → ℕ → List Frame × ℕ
replay_at cache starts rb live_cursor =
    let source_cursor = first_start starts live_cursor in
    if ltb (length (concat cache)) (live_cursor - source_cursor)
    then retained_startup_replay starts live_cursor rb
    else (concat cache, source_cursor)

unfoldable pub startup_replay : Stream → List Frame × ℕ
startup_replay s = replay_at s.gops.cache s.gops.starts s.ring s.ring.write_cursor

abbrev pub id_of : Option Publisher → String
id_of none = ""
id_of (some p) = p.id

-- `StartupSnapshot`
unfoldable pub startup_snapshot : Stream → StartupSnapshot
startup_snapshot s =
    let replay = startup_replay s in
    record {
      generation = s.publisher_generation;
      publisher_id = id_of s.publisher;
      generation_start_cursor = s.generation_start_cursor;
      media_info = s.media_info;
      video_sequence_header = s.video_seq_header;
      audio_sequence_header = s.audio_seq_header;
      replay_frames = replay.0;
      live_cursor = s.ring.write_cursor;
      source_cursor = replay.1;
      ready = s.startup_ready;
      audio_codec_epoch = s.audio_codec_epoch;
    }
