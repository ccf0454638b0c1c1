-- ===== src/Flv/Payload.antt =====
-- pkg/muxer/flv/payload.go: the parsers of tag bodies. `none` is the frame nil with no error, which the
-- code returns for packets that carry no frame.
use liveforge.Base.{
  ℕ, ◌/◌, ◌%◌, ℤ, ◌+ℤ◌, pos, wrap_int64, not, ◌||◌, ◌&&◌, Option, none, some, List, leb, ◌==◌,
  if◌then◌else◌, drop, get_or,
}
use liveforge.AvFrame.{
  Frame, new_frame, media_type_video, media_type_audio, frame_type_keyframe, frame_type_interframe,
  frame_type_sequence_header,
}
use liveforge.AvFrame.Codec.{h264, h265, aac, opus}
use liveforge.Bytes.{Result, ok, err, ◌>>=◌, refuse, be32, is_shorter}
use liveforge.Flv.{
  Error, unsupported, too_short, video_four_cc_to_codec, audio_four_cc_to_codec, decode_si24,
  flv_video_codec_to_av_frame, flv_audio_codec_to_av_frame,
}

-- `frameTypeFromFLV`
unfoldable pub frame_type_from_flv : ℕ → ℕ
frame_type_from_flv t = if t == 1 then frame_type_keyframe else frame_type_interframe

-- the frame of a body whose payload starts at `offset`
abbrev pub video_frame : ℕ → ℕ → ℤ → ℤ → ℕ → List ℕ → Option Frame
video_frame codec frame_type dts cts offset body =
    some
      (new_frame media_type_video codec frame_type dts (wrap_int64 (dts +ℤ cts)) (drop offset body))

abbrev pub audio_frame : ℕ → ℕ → ℤ → ℕ → List ℕ → Option Frame
audio_frame codec frame_type dts offset body =
    some (new_frame media_type_audio codec frame_type dts dts (drop offset body))

-- `parseClassicVideoPayload`, with the packet type
abbrev pub classic_video_packet : ℕ → ℕ → List ℕ → ℤ → Result Error (Option Frame)
classic_video_packet codec packet_type body dts =
    if packet_type == 2
    then ok none
    else if not (packet_type == 0) && not (packet_type == 1)
    then err unsupported
    else if is_shorter 5 body
    then err too_short
    else let frame_type : ℕ =
        if packet_type == 0
        then frame_type_sequence_header
        else frame_type_from_flv (get_or body 0 0 / 16) in
      ok (video_frame codec frame_type dts (decode_si24 body 2) 5 body)

-- `parseClassicVideoPayload`
unfoldable pub parse_classic_video_payload : List ℕ → ℤ → Result Error (Option Frame)
parse_classic_video_payload body dts = do
  _ ← refuse (is_shorter 2 body) too_short
  let codec : ℕ = flv_video_codec_to_av_frame (get_or body 0 0 % 16)
  _ ← refuse (codec == 0) unsupported
  classic_video_packet codec (get_or body 1 0) body dts

-- `parseEnhancedVideoPayload`, with the packet type
abbrev pub enhanced_video_packet : ℕ → ℕ → List ℕ → ℤ → Result Error (Option Frame)
enhanced_video_packet codec packet_type body dts =
    let frame_type : ℕ = frame_type_from_flv (get_or body 0 0 / 16 % 8) in
    if packet_type == 0
    then ok (video_frame codec frame_type_sequence_header dts (pos 0) 5 body)
    else if packet_type == 1
    then if (codec == h264) || (codec == h265)
      then if is_shorter 8 body
        then err too_short
        else ok (video_frame codec frame_type dts (decode_si24 body 5) 8 body)
      else ok (video_frame codec frame_type dts (pos 0) 5 body)
    else if packet_type == 3
    then ok (video_frame codec frame_type dts (pos 0) 5 body)
    else if (packet_type == 2) || (packet_type == 4)
    then ok none
    else err unsupported

-- `parseEnhancedVideoPayload`
unfoldable pub parse_enhanced_video_payload : List ℕ → ℤ → Result Error (Option Frame)
parse_enhanced_video_payload body dts = do
  _ ← refuse (is_shorter 5 body) too_short
  let codec : ℕ = video_four_cc_to_codec (be32 body 1)
  _ ← refuse (codec == 0) unsupported
  enhanced_video_packet codec (get_or body 0 0 % 16) body dts

-- `ParseVideoPayload`. The tests of bits of the first byte are tests of the byte.
unfoldable pub parse_video_payload : List ℕ → ℤ → Result Error (Option Frame)
parse_video_payload body dts = do
  _ ← refuse (is_shorter 1 body) too_short
  if leb 128 (get_or body 0 0)
      then parse_enhanced_video_payload body dts
      else parse_classic_video_payload body dts

-- `parseClassicAudioPayload` after the codec
abbrev pub classic_audio_packet : ℕ → List ℕ → ℤ → Result Error (Option Frame)
classic_audio_packet codec body dts =
    if (codec == aac) || (codec == opus)
    then if is_shorter 2 body
      then err too_short
      else if get_or body 1 0 == 0
      then ok (audio_frame codec frame_type_sequence_header dts 2 body)
      else if get_or body 1 0 == 1
      then ok (audio_frame codec frame_type_interframe dts 2 body)
      else err unsupported
    else ok (audio_frame codec frame_type_interframe dts 1 body)

-- `parseClassicAudioPayload`
unfoldable pub parse_classic_audio_payload : List ℕ → ℤ → Result Error (Option Frame)
parse_classic_audio_payload body dts = do
  let codec : ℕ = flv_audio_codec_to_av_frame (get_or body 0 0 / 16)
  _ ← refuse (codec == 0) unsupported
  classic_audio_packet codec body dts

-- `parseEnhancedAudioPayload`, with the packet type
abbrev pub enhanced_audio_packet : ℕ → ℕ → List ℕ → ℤ → Result Error (Option Frame)
enhanced_audio_packet codec packet_type body dts =
    if packet_type == 0
    then ok (audio_frame codec frame_type_sequence_header dts 5 body)
    else if packet_type == 1
    then ok (audio_frame codec frame_type_interframe dts 5 body)
    else if packet_type == 2
    then ok none
    else err unsupported

-- `parseEnhancedAudioPayload`
unfoldable pub parse_enhanced_audio_payload : List ℕ → ℤ → Result Error (Option Frame)
parse_enhanced_audio_payload body dts = do
  _ ← refuse (is_shorter 5 body) too_short
  let codec : ℕ = audio_four_cc_to_codec (be32 body 1)
  _ ← refuse (codec == 0) unsupported
  enhanced_audio_packet codec (get_or body 0 0 % 16) body dts

-- `ParseAudioPayload`
unfoldable pub parse_audio_payload : List ℕ → ℤ → Result Error (Option Frame)
parse_audio_payload body dts = do
  _ ← refuse (is_shorter 1 body) too_short
  if get_or body 0 0 / 16 == 9
      then parse_enhanced_audio_payload body dts
      else parse_classic_audio_payload body dts
