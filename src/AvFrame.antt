-- ===== src/AvFrame.antt =====
-- pkg/avframe: the universal media frame and the media information of a stream.
-- `MediaType`, `CodecType` and `FrameType` are uint8 in the code, with constants from 1; a frame may
-- hold any value, so they are numbers here too.
pub mod Codec
use liveforge.Base.{ℕ, ℤ, List, [], Bool, ◌==◌}

abbrev pub media_type_video : ℕ
media_type_video = 1

abbrev pub media_type_audio : ℕ
media_type_audio = 2

abbrev pub is_video : ℕ → Bool
is_video m = m == media_type_video

abbrev pub is_audio : ℕ → Bool
is_audio m = m == media_type_audio

abbrev pub frame_type_keyframe : ℕ
frame_type_keyframe = 1

abbrev pub frame_type_interframe : ℕ
frame_type_interframe = 2

abbrev pub frame_type_sequence_header : ℕ
frame_type_sequence_header = 3

abbrev pub is_keyframe : ℕ → Bool
is_keyframe f = f == frame_type_keyframe

-- `FrameProvenance`
pub data Provenance : Type 0 where
  unknown source transcoded : Provenance

-- `AVFrame`. Times are int64 milliseconds.
pub record Frame : Type 0 where
  pub media_type : ℕ
  pub codec : ℕ
  pub frame_type : ℕ
  pub dts : ℤ
  pub pts : ℤ
  pub payload : List ℕ
  pub audio_codec_epoch : ℕ
  pub audio_provenance : Provenance

-- `NewAVFrame`
unfoldable pub new_frame : ℕ → ℕ → ℕ → ℤ → ℤ → List ℕ → Frame
new_frame media_type codec frame_type dts pts payload = record {
  media_type = media_type;
  codec = codec;
  frame_type = frame_type;
  dts = dts;
  pts = pts;
  payload = payload;
  audio_codec_epoch = 0;
  audio_provenance = unknown;
}

-- `MediaInfo`
pub record MediaInfo : Type 0 where
  pub video_codec : ℕ
  pub audio_codec : ℕ
  pub width : ℕ
  pub height : ℕ
  pub video_sequence_header : List ℕ
  pub audio_sequence_header : List ℕ
  pub sample_rate : ℕ
  pub channels : ℕ

abbrev pub no_media_info : MediaInfo
no_media_info = record {
  video_codec = 0;
  audio_codec = 0;
  width = 0;
  height = 0;
  video_sequence_header = [];
  audio_sequence_header = [];
  sample_rate = 0;
  channels = 0;
}

abbrev pub is_header : Frame → Bool
is_header frame = frame.frame_type == frame_type_sequence_header
