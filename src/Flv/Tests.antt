-- ===== src/Flv/Tests.antt =====
-- pkg/muxer/flv at concrete inputs.
use liveforge.Base.{
  ℕ, ◌<◌, ◌-ℤ◌, wrap_int64, ◌≡◌, ◌≢◌, refl, pos, true, some, List, [], ◌∷◌, ◌++◌, map, arith,
  length,
}
use liveforge.AvFrame.{
  Frame, new_frame, media_type_video, media_type_audio, frame_type_keyframe,
  frame_type_sequence_header,
}
use liveforge.AvFrame.Codec.{h265, aac}
use liveforge.Bytes.{ok}
use liveforge.Flv.{
  auto, classic, encode_si24, video_codec_to_four_cc, av_frame_type_to_flv, audio_codec_to_flv,
}
use liveforge.Flv.Mux.{
  Muxer, write_frame, write_tag, enhanced_video_body, enhanced_offset, classic_audio_body,
}
use liveforge.Flv.Demux.{Demuxer, read_one_tag, read_tag, out_of_fuel}
use liveforge.Flv.Tags.{IsTimed, carried}
use liveforge.Flv.RoundTrip.{read_one_tag-write_frame}
use liveforge.Flv.File.{
  Written, nothing, then_frame, ReadsAll, file, read_tag-write_frame, read_tag_ends,
}

abbrev muxer : Muxer
muxer = record { video_mode = auto; audio_mode = classic }

-- an enhanced tag with a composition offset, and an AAC configuration
abbrev picture : Frame
picture = new_frame media_type_video h265 frame_type_keyframe (pos 40) (pos 120) (1 ∷ 2 ∷ [])

abbrev setup : Frame
setup = new_frame media_type_audio aac frame_type_sequence_header (pos 0) (pos 0) (18 ∷ 16 ∷ [])

abbrev picture_tag : List ℕ
picture_tag = write_tag 9 (pos 40) (145 ∷ 0x68 ∷ 0x76 ∷ 0x63 ∷ 0x31 ∷ 0 ∷ 0 ∷ 80 ∷ 1 ∷ 2 ∷ [])

abbrev setup_tag : List ℕ
setup_tag = write_tag 8 (pos 0) (175 ∷ 0 ∷ 18 ∷ 16 ∷ [])

writes_picture : write_frame muxer picture ≡ ok picture_tag
unfolding write_frame new_frame enhanced_video_body enhanced_offset encode_si24 wrap_int64 ◌-ℤ◌
    video_codec_to_four_cc av_frame_type_to_flv
writes_picture = refl

writes_setup : write_frame muxer setup ≡ ok setup_tag
unfolding write_frame new_frame classic_audio_body audio_codec_to_flv
writes_setup = refl

picture-IsTimed : IsTimed picture
unfolding new_frame
picture-IsTimed = record { ms = 40; dts_eq = refl; ms_lt = omega arith; pts_in = omega arith }

setup-IsTimed : IsTimed setup
unfolding new_frame
setup-IsTimed = record { ms = 0; dts_eq = refl; ms_lt = omega arith; pts_in = omega arith }

picture_small : length picture_tag < 16777216
unfolding write_tag
picture_small = omega arith

setup_small : length setup_tag < 16777216
unfolding write_tag
setup_small = omega arith

read_one_tag-write_frame_example :
    read_one_tag (picture_tag ++ setup_tag) ≡ ok (some (carried muxer picture), setup_tag)
read_one_tag-write_frame_example =
    read_one_tag-write_frame muxer picture picture_tag setup_tag picture-IsTimed writes_picture
      picture_small

written : Written muxer (setup ∷ picture ∷ []) (setup_tag ++ (picture_tag ++ []))
written =
    then_frame setup-IsTimed writes_setup setup_small
      (then_frame picture-IsTimed writes_picture picture_small nothing)

read_tag-write_frame_example :
    ReadsAll
      (file true true (setup_tag ++ (picture_tag ++ [])))
      (map (carried muxer) (setup ∷ picture ∷ []))
read_tag-write_frame_example = read_tag-write_frame muxer (setup ∷ picture ∷ []) _ true true written

abbrev script : Demuxer
script = record {
  source = 18 ∷ 0 ∷ 0 ∷ 0 ∷ 0 ∷ 0 ∷ 0 ∷ 0 ∷ 0 ∷ 0 ∷ 0 ∷ 0 ∷ 0 ∷ 0 ∷ 11 ∷ [];
  header_read = true;
}

read_tag_ends_example : read_tag script ≢ out_of_fuel
read_tag_ends_example = read_tag_ends script
