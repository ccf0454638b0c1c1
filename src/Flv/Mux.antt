-- ===== src/Flv/Mux.antt =====
-- pkg/muxer/flv/muxer.go: the tags that the muxer writes, as bytes.
use liveforge.Base.{
  ℕ, ◌+◌, ◌-◌, ◌*◌, ◌/◌, ◌%◌, ◌^◌, ℤ, pos, negsuc, ◌-ℤ◌, wrap_int64, Bool, not, ◌||◌, ◌&&◌, List,
  [], ◌∷◌, ◌++◌, ltb_ℤ, ◌==◌, if◌then◌else◌, length,
}
use liveforge.AvFrame.{Frame, is_video, is_audio, frame_type_sequence_header}
use liveforge.AvFrame.Codec.{h264, h265, aac, mp3}
use liveforge.Bytes.{Result, ok, err, ◌>>=◌, refuse, put24, put32}
use liveforge.Flv.{
  Error, unsupported, EncodingMode, auto, classic, enhanced, tag_type_audio, tag_type_video,
  video_codec_to_four_cc, audio_codec_to_four_cc, encode_si24, av_frame_type_to_flv,
  video_codec_to_flv, audio_codec_to_flv,
}

-- `Muxer`
pub record Muxer : Type 0 where
  pub video_mode : EncodingMode
  pub audio_mode : EncodingMode

-- `Muxer.WriteHeader`
unfoldable pub write_header : Bool → Bool → List ℕ
write_header has_video has_audio =
    let flags : ℕ = (if has_audio then 4 else 0) + (if has_video then 1 else 0) in
    0x46 ∷ 0x4c ∷ 0x56 ∷ 1 ∷ flags ∷ 0 ∷ 0 ∷ 0 ∷ 9 ∷ 0 ∷ 0 ∷ 0 ∷ 0 ∷ []

-- the conversion of an int64 to uint32
unfoldable pub to_uint32 : ℤ → ℕ
to_uint32 (pos n) = n % 2 ^ 32
to_uint32 (negsuc n) = 2 ^ 32 - 1 - n % 2 ^ 32

-- `Muxer.writeTag`
unfoldable pub write_tag : ℕ → ℤ → List ℕ → List ℕ
write_tag tag_type dts body =
    let ts : ℕ = to_uint32 dts in
    (tag_type ∷ put24 (length body))
    ++ (put24 ts ++ ((ts / 16777216 ∷ 0 ∷ 0 ∷ 0 ∷ []) ++ (body ++ put32 (11 + length body))))

abbrev pub is_sequence_header : Frame → Bool
is_sequence_header frame = frame.frame_type == frame_type_sequence_header

-- the body that `writeClassicVideoTag` writes
unfoldable pub classic_video_body : Frame → Result Error (List ℕ)
classic_video_body frame = do
  _ ← refuse (not (frame.codec == h264)) unsupported
  _ ← refuse (video_codec_to_flv frame.codec == 0) unsupported
  cts ← encode_si24 (wrap_int64 (frame.pts -ℤ frame.dts))
  ok (
      (av_frame_type_to_flv frame.frame_type * 16 + video_codec_to_flv frame.codec)
      ∷ ((if is_sequence_header frame then 0 else 1) ∷ (cts ++ frame.payload)))

-- the composition offset in `writeEnhancedVideoTag`
unfoldable pub enhanced_offset : Frame → Result Error (List ℕ)
enhanced_offset frame =
    if is_sequence_header frame
    then ok []
    else if (frame.codec == h264) || (frame.codec == h265)
    then encode_si24 (wrap_int64 (frame.pts -ℤ frame.dts))
    else if ltb_ℤ frame.pts frame.dts || ltb_ℤ frame.dts frame.pts
    then err unsupported
    else ok []

-- the body that `writeEnhancedVideoTag` writes
unfoldable pub enhanced_video_body : Frame → Result Error (List ℕ)
enhanced_video_body frame = do
  _ ← refuse (video_codec_to_four_cc frame.codec == 0) unsupported
  offset ← enhanced_offset frame
  ok (
      (128
        + av_frame_type_to_flv frame.frame_type * 16
        + (if is_sequence_header frame then 0 else 1))
      ∷ (put32 (video_codec_to_four_cc frame.codec) ++ (offset ++ frame.payload)))

abbrev pub video_body : EncodingMode → Frame → Result Error (List ℕ)
video_body classic frame = classic_video_body frame
video_body enhanced frame = enhanced_video_body frame
video_body auto frame =
    if frame.codec == h264 then classic_video_body frame else enhanced_video_body frame

-- the body that `writeAudioTag` writes in the classic mode
unfoldable pub classic_audio_body : Frame → Result Error (List ℕ)
classic_audio_body frame = do
  _ ← refuse (not (frame.codec == aac) && not (frame.codec == mp3)) unsupported
  let packet_type : List ℕ =
      if frame.codec == aac then (if is_sequence_header frame then 0 else 1) ∷ [] else []
  ok ((audio_codec_to_flv frame.codec * 16 + 15) ∷ (packet_type ++ frame.payload))

-- the body that `writeEnhancedAudioTag` writes
unfoldable pub enhanced_audio_body : Frame → Result Error (List ℕ)
enhanced_audio_body frame = do
  _ ← refuse (audio_codec_to_four_cc frame.codec == 0) unsupported
  ok (
      (9 * 16 + (if is_sequence_header frame then 0 else 1))
      ∷ (put32 (audio_codec_to_four_cc frame.codec) ++ frame.payload))

abbrev pub audio_body : EncodingMode → Frame → Result Error (List ℕ)
audio_body classic frame = classic_audio_body frame
audio_body enhanced frame = enhanced_audio_body frame
audio_body auto frame =
    if (frame.codec == aac) || (frame.codec == mp3)
    then classic_audio_body frame
    else enhanced_audio_body frame

-- `writeVideoTag` and `writeAudioTag`: an error comes before anything is written.
abbrev pub video_tag : EncodingMode → Frame → Result Error (List ℕ)
video_tag mode frame =
    video_body mode frame >>= (λ body. ok (write_tag tag_type_video frame.dts body))

abbrev pub audio_tag : EncodingMode → Frame → Result Error (List ℕ)
audio_tag mode frame =
    audio_body mode frame >>= (λ body. ok (write_tag tag_type_audio frame.dts body))

-- `Muxer.WriteFrame`
unfoldable pub write_frame : Muxer → Frame → Result Error (List ℕ)
write_frame m frame =
    if is_video frame.media_type
    then video_tag m.video_mode frame
    else if is_audio frame.media_type
    then audio_tag m.audio_mode frame
    else err unsupported
