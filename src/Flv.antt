-- ===== src/Flv.antt =====
-- pkg/muxer/flv/types.go: the codes of FLV and of enhanced FLV, and signed numbers of 24 bits. A FourCC
-- is the number of its four bytes, the highest first, and 0 stands for the empty one.
pub mod Payload
pub mod Mux
pub mod Demux
pub mod Codes
pub mod Bodies
pub mod Enhanced
pub mod Audio
pub mod Tags
pub mod RoundTrip
pub mod File
mod Tests
use liveforge.Base.{
  ℕ, ◌+◌, ◌-◌, ◌*◌, ◌^◌, ℤ, pos, negsuc, Bool, true, false, ◌||◌, List, leb, ◌==◌, if◌then◌else◌,
  get_or,
}
use liveforge.AvFrame.{frame_type_keyframe, frame_type_sequence_header}
use liveforge.AvFrame.Codec.{h264, h265, av1, vp8, vp9, aac, opus, mp3}
use liveforge.Bytes.{Result, ok, err, be24, put24}

pub data Error : Type 0 where
  end_of_input unsupported too_short invalid_signature unknown_tag si24_overflow : Error

-- `EncodingMode`. The other values of its uint8 are refused as unsupported.
pub data EncodingMode : Type 0 where
  auto classic enhanced : EncodingMode

abbrev pub tag_type_audio : ℕ
tag_type_audio = 8

abbrev pub tag_type_video : ℕ
tag_type_video = 9

abbrev pub tag_type_script : ℕ
tag_type_script = 18

-- `VideoCodecToFourCC`
unfoldable pub video_codec_to_four_cc : ℕ → ℕ
video_codec_to_four_cc c =
    if c == vp8
    then 0x76703038
    else if c == vp9
    then 0x76703039
    else if c == h264
    then 0x61766331
    else if c == h265
    then 0x68766331
    else if c == av1
    then 0x61763031
    else 0

-- `AudioCodecToFourCC`
unfoldable pub audio_codec_to_four_cc : ℕ → ℕ
audio_codec_to_four_cc c =
    if c == aac
    then 0x6d703461
    else if c == opus
    then 0x4f707573
    else if c == mp3
    then 0x2e6d7033
    else 0

-- `VideoFourCCToCodec`
unfoldable pub video_four_cc_to_codec : ℕ → ℕ
video_four_cc_to_codec f =
    if f == 0x76703038
    then vp8
    else if f == 0x76703039
    then vp9
    else if f == 0x61766331
    then h264
    else if f == 0x68766331
    then h265
    else if f == 0x61763031
    then av1
    else 0

-- `AudioFourCCToCodec`
unfoldable pub audio_four_cc_to_codec : ℕ → ℕ
audio_four_cc_to_codec f =
    if f == 0x6d703461
    then aac
    else if f == 0x4f707573
    then opus
    else if f == 0x2e6d7033
    then mp3
    else 0

-- `encodeSI24`
unfoldable pub encode_si24 : ℤ → Result Error (List ℕ)
encode_si24 (pos n) = if leb n 8388607 then ok (put24 n) else err si24_overflow
encode_si24 (negsuc n) = if leb n 8388607 then ok (put24 (2 ^ 24 - (n + 1))) else err si24_overflow

-- `decodeSI24` of the bytes at index `i`
unfoldable pub decode_si24 : List ℕ → ℕ → ℤ
decode_si24 data_bytes i =
    if leb 128 (get_or data_bytes i 0)
    then negsuc (2 ^ 24 - be24 data_bytes i - 1)
    else pos (be24 data_bytes i)

-- `AVFrameTypeToFLV`
unfoldable pub av_frame_type_to_flv : ℕ → ℕ
av_frame_type_to_flv t =
    if (t == frame_type_keyframe) || (t == frame_type_sequence_header) then 1 else 2

-- `VideoCodecToFLV`
unfoldable pub video_codec_to_flv : ℕ → ℕ
video_codec_to_flv c = if c == h264 then 7 else if c == h265 then 12 else if c == av1 then 13 else 0

-- `AudioCodecToFLV`
unfoldable pub audio_codec_to_flv : ℕ → ℕ
audio_codec_to_flv c = if c == aac then 10 else if c == opus then 13 else if c == mp3 then 2 else 0

-- `FLVVideoCodecToAVFrame`
unfoldable pub flv_video_codec_to_av_frame : ℕ → ℕ
flv_video_codec_to_av_frame i =
    if i == 7 then h264 else if i == 12 then h265 else if i == 13 then av1 else 0

-- `FLVAudioCodecToAVFrame`
unfoldable pub flv_audio_codec_to_av_frame : ℕ → ℕ
flv_audio_codec_to_av_frame i =
    if i == 10 then aac else if i == 13 then opus else if i == 2 then mp3 else 0
