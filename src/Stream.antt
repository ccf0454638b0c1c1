-- ===== src/Stream.antt =====
-- core/stream.go: the life of one stream. Each method is one step on its state: it holds `writeMu`, `mu`
-- or both while it changes what that lock guards. WriteFrame and StartupSnapshot hold `writeMu` alone;
-- AddSubscriber, RemoveSubscriber and the callback of the idle timer hold `mu` alone, so that two steps of
-- these two kinds may overlap in the source. They change different fields, but for the signal
-- `startupStateChanged`, whose race this model does not show. Not part of the state: the muxers, the feedback router (whose subscriber
-- count is the total kept here), the transcoder, the simulcast family and the reporting statistics.
-- The two timers are kept as whether a timer is set; their callbacks are steps of their own, which
-- may run at any time.
pub mod Publish
pub mod Frames
pub mod Owner
pub mod Content
pub mod Steps
pub mod Life
pub mod Progress
pub mod Identity
pub mod Retired
pub mod Publication
pub mod Startup
mod Tests
use liveforge.Base.{
  ℕ, ◌+◌, String, str_eq, Bool, true, false, not, Option, none, some, List, [], ◌∷◌, ◌&&◌, ◌||◌,
  ltb, ◌==◌, if◌then◌else◌, pos, length,
}
use liveforge.AvFrame.{
  Frame, MediaInfo, no_media_info, new_frame, media_type_video, media_type_audio,
  frame_type_sequence_header, Provenance, source,
}
use liveforge.AvFrame.Codec
use liveforge.Config.{StreamConfig, LimitsConfig, normalize_gop_config}
use liveforge.Ring
use liveforge.Ring.{RingBuffer, new_ring_buffer}
use liveforge.Gop.{Gops}
use liveforge.Subscribers
use liveforge.Subscribers.{Subscribers, no_subscribers}

-- `StreamState`
pub data State : Type 0 where
  idle waiting_pull publishing no_publisher destroying : State

-- The dynamic type of a publisher, by its number, and whether Go can compare its values.
pub data DynamicType : Type 0 where
  comparable incomparable : ℕ → DynamicType

-- A `Publisher`: its dynamic type, its value (two values of a comparable type are equal under `==` if they
-- have the same number here), its ID and what it says of its media.
pub record Publisher : Type 0 where
  pub dynamic_type : DynamicType
  pub object : ℕ
  pub id : String
  pub media_info : Option MediaInfo

-- `streamGenerationBoundary`: where the generation has ended, if it has.
pub record Boundary : Type 0 where
  pub end_cursor : Option ℕ

pub record Stream : Type 0 where
  pub config : StreamConfig
  pub limits : LimitsConfig
  pub state : State
  pub publisher : Option Publisher
  pub used_publisher_ids : List String
  pub last_publisher_id : String
  pub last_publisher_generation : ℕ
  pub ring : RingBuffer Frame
  pub gops : Gops
  pub subscribers : Subscribers
  pub video_seq_header : Option Frame
  pub audio_seq_header : Option Frame
  -- `seqHeaderReady` is closed
  pub seq_header_ready : Bool
  pub publisher_generation : ℕ
  pub generation_start_cursor : ℕ
  pub media_info : MediaInfo
  pub audio_codec_epoch : ℕ
  pub boundary : Option Boundary
  -- how often `startupStateChanged` has been closed and made anew
  pub startup_changes : ℕ
  pub startup_ready : Bool
  pub no_publisher_timer : Bool
  pub idle_timer : Bool
  -- the destroy callback, which runs once, has run
  pub destroy_notified : Bool

abbrev pub empty_gops : Gops
empty_gops = record {
  cache = [];
  starts = [];
  bytes = [];
  min_dts = [];
  max_dts = [];
  generation = 0;
  sealed = false;
}

-- `NewStream`
unfoldable pub new_stream : StreamConfig → LimitsConfig → Stream
new_stream cfg limits =
    let cfg' = normalize_gop_config cfg in
    record {
      config = cfg';
      limits = limits;
      state = idle;
      publisher = none;
      used_publisher_ids = [];
      last_publisher_id = "";
      last_publisher_generation = 0;
      ring = new_ring_buffer cfg'.ring_buffer_size;
      gops = empty_gops;
      subscribers = no_subscribers;
      video_seq_header = none;
      audio_seq_header = none;
      seq_header_ready = false;
      publisher_generation = 0;
      generation_start_cursor = 0;
      media_info = no_media_info;
      audio_codec_epoch = 0;
      boundary = none;
      startup_changes = 0;
      startup_ready = false;
      no_publisher_timer = false;
      idle_timer = false;
      destroy_notified = false;
    }

abbrev pub is_some {ℓ} : {A : Type ℓ} → Option A → Bool
is_some none = false
is_some (some a) = true

abbrev pub is_destroying : State → Bool
is_destroying destroying = true
is_destroying _ = false

abbrev pub is_publishing : State → Bool
is_publishing publishing = true
is_publishing _ = false

abbrev pub is_no_publisher : State → Bool
is_no_publisher no_publisher = true
is_no_publisher _ = false

abbrev pub contains : String → List String → Bool
contains k [] = false
contains k (x ∷ xs) = str_eq x k || contains k xs

-- `signalStartupStateChangedLocked`
abbrev pub signal_startup : Stream → Stream
signal_startup s = record s { startup_changes = s.startup_changes + 1 }

-- `closeGenerationLocked`: the end of a generation is recorded once.
abbrev pub end_boundary : ℕ → Option Boundary → Option Boundary
end_boundary cursor none = none
end_boundary cursor (some b) = elim b.end_cursor [
  | none ↦ some (record { end_cursor = some cursor })
  | some c ↦ some (record { end_cursor = some c })
]

unfoldable pub close_generation : Stream → Stream
close_generation s = record s { boundary = end_boundary s.ring.write_cursor s.boundary }

-- `trackReady`
unfoldable pub track_ready : ℕ → Bool → Bool
track_ready codec has_header =
    if codec == Codec.h264 || codec == Codec.h265 || codec == Codec.aac
    then has_header
    else codec == Codec.mp3
      || codec == Codec.g711a
      || codec == Codec.g711u
      || codec == Codec.g722
      || codec == Codec.g729
      || codec == Codec.av1
      || codec == Codec.vp8
      || codec == Codec.vp9
      || codec == Codec.opus

-- A codec of 0 is no track.
unfoldable pub track_or_none : ℕ → Bool → Bool
unfolding track_ready
track_or_none codec has_header = codec == 0 || track_ready codec has_header

-- `startupReadyLocked`
unfoldable pub startup_ready_now : Stream → Bool
unfolding track_or_none
startup_ready_now s =
    let info = s.media_info in
    track_or_none info.video_codec
      (is_some s.video_seq_header || ltb 0 (length info.video_sequence_header))
    && track_or_none info.audio_codec
        (is_some s.audio_seq_header || ltb 0 (length info.audio_sequence_header))
    && (not (info.video_codec == 0) || not (info.audio_codec == 0))

-- `updateStartupReadyLocked`
unfoldable pub update_startup_ready : Stream → Stream
update_startup_ready s =
    let ready = startup_ready_now s in
    if ready
    then if s.startup_ready then s else signal_startup (record s { startup_ready = true })
    else if s.startup_ready
    then signal_startup (record s { startup_ready = false })
    else s

-- `checkIdleTimeout`
unfoldable pub check_idle_timeout : Stream → Stream
check_idle_timeout s =
    if s.config.idle_timeout == 0
    then s
    else record s { idle_timer = not (is_some s.publisher) && s.subscribers.total == 0 }
