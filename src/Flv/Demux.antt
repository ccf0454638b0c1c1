-- ===== src/Flv/Demux.antt =====
-- pkg/muxer/flv/demuxer.go: the reader of tags.
use liveforge.Base.{
  ℕ, zero, suc, ◌+◌, ◌*◌, pos, Bool, true, not, ◌||◌, Option, none, some, List, ◌==◌, if◌then◌else◌,
  length, get_or,
}
use liveforge.AvFrame.{Frame}
use liveforge.Bytes.{Result, ok, err, ◌>>=◌, refuse, read_full, be24}
use liveforge.Flv.{
  Error, end_of_input, invalid_signature, unknown_tag, tag_type_audio, tag_type_video,
  tag_type_script,
}
use liveforge.Flv.Payload.{parse_video_payload, parse_audio_payload}

-- `Demuxer`, with the bytes that its reader still gives
pub record Demuxer : Type 0 where
  pub source : List ℕ
  pub header_read : Bool

-- `readHeader`: what is left to read
unfoldable pub read_header : List ℕ → Result Error (List ℕ)
read_header source = do
  (b, rest) ← read_full end_of_input 13 source
  _ ←
      refuse
        (not (get_or b 0 0 == 0x46) || (not (get_or b 1 0 == 0x4c) || not (get_or b 2 0 == 0x56)))
        invalid_signature
  ok rest

-- the timestamp of a tag header, whose highest byte stands last
abbrev pub tag_timestamp : List ℕ → ℕ
tag_timestamp b = get_or b 7 0 * 16777216 + be24 b 4

abbrev pub parse_tag : ℕ → List ℕ → ℕ → Result Error (Option Frame)
parse_tag tag_type body ts =
    if tag_type == tag_type_video
    then parse_video_payload body (pos ts)
    else if tag_type == tag_type_audio
    then parse_audio_payload body (pos ts)
    else if tag_type == tag_type_script
    then ok none
    else err unknown_tag

-- `readOneTag`. A frame that is nil was skipped.
unfoldable pub read_one_tag : List ℕ → Result Error (Option Frame × List ℕ)
read_one_tag source = do
  (b, s1) ← read_full end_of_input 11 source
  (body, s2) ← read_full end_of_input (be24 b 1) s1
  (_, s3) ← read_full end_of_input 4 s2
  parse_tag (get_or b 0 0) body (tag_timestamp b) >>= (λ frame. ok (frame, s3))

-- What `ReadTag` returns. `out_of_fuel` is no outcome of the code: the loop of the model was cut.
pub data Tag : Type 0 where
  frame_read : Frame → Demuxer → Tag
  failed : Error → Tag
  out_of_fuel : Tag

abbrev pub or_skip : (List ℕ → Tag) → Result Error (Option Frame × List ℕ) → Tag
or_skip again (err e) = failed e
or_skip again (ok (some frame, rest)) =
    frame_read frame (record { source = rest; header_read = true })
or_skip again (ok (none, rest)) = again rest

unfoldable pub read_tag_loop : ℕ → List ℕ → Tag
read_tag_loop zero source = out_of_fuel
read_tag_loop (suc fuel) source = or_skip (read_tag_loop fuel) (read_one_tag source)

-- the loop of `ReadTag`: a tag takes a byte at least
abbrev pub read_tags : List ℕ → Tag
read_tags source = read_tag_loop (suc (length source)) source

abbrev pub after_file_header : Result Error (List ℕ) → Tag
after_file_header (err e) = failed e
after_file_header (ok source) = read_tags source

-- `Demuxer.ReadTag`
unfoldable pub read_tag : Demuxer → Tag
read_tag d = if d.header_read then read_tags d.source else after_file_header (read_header d.source)
