-- ===== src/Stream/Frames.antt =====
-- core/stream.go: the frames that are written to a stream.
use liveforge.Base.{
  ◌+◌, Bool, true, false, not, Option, none, some, ◌&&◌, ◌||◌, ltb, ◌==◌, if◌then◌else◌,
}
use liveforge.AvFrame.{Frame, is_video, is_audio, is_header, source}
use liveforge.AvFrame.Codec
use liveforge.Ring
use liveforge.Gop.{cache_frame}
use liveforge.Stream.{Stream, Publisher, is_publishing, update_startup_ready}
use liveforge.Stream.Publish.{publisher_matches}

-- What an audio frame says of the stream: its codec, and a new epoch where that changes. G.711 has
-- one clock and one channel.
unfoldable pub note_audio : Frame → Stream → Stream
note_audio frame s =
    let info = s.media_info in
    let epoch =
      if s.audio_codec_epoch == 0 || not (info.audio_codec == frame.codec)
      then s.audio_codec_epoch + 1
      else s.audio_codec_epoch in
    let fixed = frame.codec == Codec.g711a || frame.codec == Codec.g711u in
    record s {
      audio_codec_epoch = epoch;
      media_info = record info {
        audio_codec = frame.codec;
        sample_rate = if fixed then 8000 else info.sample_rate;
        channels = if fixed then 1 else info.channels;
      };
    }

-- The frame as it is stored: an audio frame is marked with the epoch and as the source's.
unfoldable pub mark_frame : Stream → Frame → Frame
mark_frame s frame =
    if is_video frame.media_type
    then frame
    else if is_audio frame.media_type
    then record frame { audio_codec_epoch = s.audio_codec_epoch; audio_provenance = source }
    else frame

unfoldable pub note_media : Frame → Stream → Stream
note_media frame s =
    if is_video frame.media_type
    then record s { media_info = record (s.media_info) { video_codec = frame.codec } }
    else if is_audio frame.media_type
    then note_audio frame s
    else s

-- A sequence header is kept for those that join late; whatever its medium, it ends their wait.
unfoldable pub note_header : Frame → Stream → Stream
note_header frame s =
    if is_header frame
    then if is_video frame.media_type
      then (record s {
        video_seq_header = some frame;
        media_info = record (s.media_info) { video_sequence_header = frame.payload };
        seq_header_ready = true;
      })
      else if is_audio frame.media_type
      then (record s {
        audio_seq_header = some frame;
        media_info = record (s.media_info) { audio_sequence_header = frame.payload };
        seq_header_ready = true;
      })
      else record s { seq_header_ready = true }
    else s

-- The frame goes into the GOP cache and into the ring.
unfoldable pub store_frame : Frame → Stream → Stream
store_frame frame s = record s {
  gops = cache_frame s.config s.ring.write_cursor frame s.gops;
  ring = Ring.write frame s.ring;
}

-- `writeFrameLocked`. `exceeded` is what `bitrateLimitExceeded` answers, if it is asked.
unfoldable pub write_frame_locked : Bool → Frame → Stream → Stream × Bool
write_frame_locked exceeded frame s =
    if ltb 0 s.limits.max_bitrate_per_stream && not (is_header frame) && exceeded
    then (s, false)
    else (let s1 = note_media frame s in
        let frame' = mark_frame s1 frame in
        (store_frame frame' (update_startup_ready (note_header frame' s1)), true))

-- `WriteFrame`; a nil frame is `none`.
unfoldable pub write_frame : Bool → Option Frame → Stream → Stream × Bool
write_frame exceeded none s = (s, false)
write_frame exceeded (some frame) s = write_frame_locked exceeded frame s

-- `WriteFrameForPublisher`
unfoldable pub write_frame_for_publisher :
    Bool → Option Publisher → Option Frame → Stream → Stream × Bool
write_frame_for_publisher exceeded candidate none s = (s, false)
write_frame_for_publisher exceeded candidate (some frame) s =
    if publisher_matches candidate s && is_publishing s.state
    then write_frame_locked exceeded frame s
    else (s, false)
