-- ===== src/Stream/Publish.antt =====
-- core/stream.go: publishers come and go, the stream is closed, its timers fire, its policy changes.
use liveforge.Base.{
  ℕ, ◌+◌, String, str_eq, Bool, true, false, not, Option, none, some, List, [], ◌∷◌, ◌&&◌, ◌||◌,
  ltb, ◌==◌, if◌then◌else◌, pos, length,
}
use liveforge.AvFrame.{
  Frame, MediaInfo, no_media_info, new_frame, media_type_video, media_type_audio,
  frame_type_sequence_header, source,
}
use liveforge.Config.{StreamConfig, LimitsConfig, normalize_gop_config}
use liveforge.Ring
use liveforge.Gop.Trim.{update_gops}
use liveforge.Subscribers
use liveforge.Base.Assoc.{count, string_key}
use liveforge.Stream.{
  publishing, no_publisher, destroying, DynamicType, comparable, incomparable, Publisher, Stream,
  empty_gops, is_some, is_destroying, is_publishing, is_no_publisher, contains, signal_startup,
  close_generation, startup_ready_now, check_idle_timeout,
}

-- What is left of the header that a publisher announces: a frame, if the codec is known.
unfoldable pub announced : ℕ → ℕ → List ℕ → Option Frame
announced media_type codec header =
    if ltb 0 (length header) && not (codec == 0)
    then some (new_frame media_type codec frame_type_sequence_header (pos 0) (pos 0) header)
    else none

-- `mergePublisherMediaInfoLocked`, on a generation that has no headers yet.
unfoldable pub merge_media_info : Option MediaInfo → Stream → Stream
merge_media_info none s = s
merge_media_info (some info) s =
    let video = announced media_type_video info.video_codec info.video_sequence_header in
    let audio = announced media_type_audio info.audio_codec info.audio_sequence_header in
    record s {
      media_info = info;
      video_seq_header = video;
      audio_seq_header = audio;
      seq_header_ready = is_some video || is_some audio;
    }

abbrev first_epoch : Option Frame → Option Frame
first_epoch none = none
first_epoch (some f) = some (record f { audio_codec_epoch = 1; audio_provenance = source })

-- A known audio codec is the first of its generation.
unfoldable pub start_audio_epoch : Stream → Stream
start_audio_epoch s =
    if s.media_info.audio_codec == 0
    then s
    else record s { audio_codec_epoch = 1; audio_seq_header = first_epoch s.audio_seq_header }

-- The state of a new generation, before its publisher's media information.
unfoldable pub fresh_generation : Stream → Stream
fresh_generation s = record s {
  publisher_generation = s.publisher_generation + 1;
  generation_start_cursor = s.ring.write_cursor;
  gops = empty_gops;
  video_seq_header = none;
  audio_seq_header = none;
  seq_header_ready = false;
  media_info = no_media_info;
  audio_codec_epoch = 0;
  startup_ready = false;
  boundary = some (record { end_cursor = none });
}

pub data SetError : Type 0 where
  publisher_is_nil already_has_publisher is_closing id_already_used : SetError

pub data SetResult : Type 0 where
  accepted : Stream → SetResult
  refused : SetError → SetResult

-- The body of `SetPublisher` behind its tests.
unfoldable pub install_publisher : Publisher → Stream → Stream
install_publisher pub' s =
    let s1 = start_audio_epoch (
      merge_media_info pub'.media_info (
        fresh_generation
          (close_generation (record s { no_publisher_timer = false; idle_timer = false })))) in
    signal_startup (record s1 {
      publisher = some pub';
      last_publisher_id = pub'.id;
      last_publisher_generation = s1.publisher_generation;
      state = publishing;
      startup_ready = startup_ready_now s1;
      used_publisher_ids =
          if str_eq pub'.id "" then s1.used_publisher_ids else pub'.id ∷ s1.used_publisher_ids;
    })

-- `SetPublisher`; a nil publisher is `none`.
unfoldable pub set_publisher : Option Publisher → Stream → SetResult
set_publisher none s = refused publisher_is_nil
set_publisher (some p) s =
    if is_publishing s.state
    then refused already_has_publisher
    else if is_destroying s.state
    then refused is_closing
    else if not (str_eq p.id "") && contains p.id s.used_publisher_ids
    then refused id_already_used
    else accepted (install_publisher p s)

-- `removePublisherLocked`
unfoldable pub remove_publisher : Stream → Stream
remove_publisher s =
    if is_destroying s.state
    then s
    else (let s1 = close_generation s in
        check_idle_timeout (
          signal_startup (record s1 {
            publisher = none;
            state = no_publisher;
            startup_ready = false;
            no_publisher_timer =
                if ltb 0 s1.config.no_publisher_timeout then true else s1.no_publisher_timer;
          })))

abbrev pub same_type : DynamicType → DynamicType → Bool
same_type (comparable a) (comparable b) = a == b
same_type (incomparable a) (incomparable b) = a == b
same_type _ _ = false

abbrev pub is_comparable : DynamicType → Bool
is_comparable (comparable a) = true
is_comparable (incomparable a) = false

-- `samePublisher` of two publishers that are not nil
unfoldable pub same_publisher : Publisher → Publisher → Bool
same_publisher left right =
    if not (same_type left.dynamic_type right.dynamic_type) || not (is_comparable left.dynamic_type)
    then false
    else left.object == right.object

-- The two publishers of `publisherMatchesLocked` that are not nil: by ID, or by `samePublisher` where
-- neither has one.
unfoldable pub candidate_matches : String → Publisher → Publisher → Bool
candidate_matches last_id current candidate =
    if not (str_eq last_id "") || not (str_eq candidate.id "")
    then not (str_eq last_id "") && str_eq last_id candidate.id
    else same_publisher current candidate

-- `publisherMatchesLocked`
abbrev pub both_match : String → Option Publisher → Option Publisher → Bool
both_match last_id none candidate = false
both_match last_id (some current) none = false
both_match last_id (some current) (some candidate) = candidate_matches last_id current candidate

unfoldable pub publisher_matches : Option Publisher → Stream → Bool
publisher_matches candidate s =
    is_publishing s.state && both_match s.last_publisher_id s.publisher candidate

-- `RemovePublisherIf`
unfoldable pub remove_publisher_if : Option Publisher → Stream → Stream × Bool
remove_publisher_if candidate s =
    if publisher_matches candidate s then (remove_publisher s, true) else (s, false)

-- Both timers' callbacks and `Close` end in this: the stream is destroying, and says so once.
unfoldable pub destroy : Stream → Stream
destroy s =
    signal_startup
      (record s { used_publisher_ids = []; state = destroying; destroy_notified = true })

-- the callback of the no-publisher timer
unfoldable pub no_publisher_expired : Stream → Stream
no_publisher_expired s = if is_no_publisher s.state then destroy s else s

-- the callback of the idle timer
unfoldable pub idle_expired : Stream → Stream
idle_expired s = if not (is_some s.publisher) && s.subscribers.total == 0 then destroy s else s

-- `Close`, with the publisher that it closes, if any.
unfoldable pub close : Stream → Stream × Option Publisher
close s =
    if is_destroying s.state
    then (record s { ring = Ring.close s.ring; destroy_notified = true }, none)
    else (let s1 = close_generation (record s { no_publisher_timer = false; idle_timer = false }) in
        (
          destroy
              (record s1 { publisher = none; startup_ready = false; ring = Ring.close s1.ring }),
          s.publisher,
        ))

-- `UpdatePolicy`
unfoldable pub update_policy : StreamConfig → LimitsConfig → Stream → Stream
update_policy cfg limits s =
    let cfg' = normalize_gop_config cfg in
    check_idle_timeout (record s {
      config = cfg';
      limits = limits;
      gops = update_gops cfg' s.gops;
      no_publisher_timer = is_no_publisher s.state && ltb 0 cfg'.no_publisher_timeout;
      idle_timer = false;
    })

-- `AddSubscriber`: `none` is the error. It stops the idle timer.
unfoldable pub add_subscriber : String → Stream → Option Stream
add_subscriber protocol s =
    elim (Subscribers.add_subscriber s.limits.max_subscribers_per_stream protocol s.subscribers) [
      | none ↦ none
      | some subs ↦ some (record s { subscribers = subs; idle_timer = false })
    ]

-- `AddSubscriberForGeneration`: refused too where the generation is not the one that publishes.
unfoldable pub add_subscriber_for_generation : String → ℕ → Stream → Option Stream
add_subscriber_for_generation protocol generation s =
    if is_publishing s.state && s.publisher_generation == generation
    then elim (Subscribers.add_for_generation s.limits.max_subscribers_per_stream protocol
        generation s.subscribers) [
          | none ↦ none
          | some subs ↦ some (record s { subscribers = subs; idle_timer = false })
        ]
    else none

-- `RemoveSubscriber`
unfoldable pub remove_subscriber : String → Stream → Stream
remove_subscriber protocol s =
    check_idle_timeout
      (record s { subscribers = Subscribers.remove_subscriber protocol s.subscribers })

-- `removeSubscriberForGeneration`, which returns at once where there is no such lease.
unfoldable pub remove_subscriber_for_generation : String → ℕ → Stream → Stream
remove_subscriber_for_generation protocol generation s =
    if ltb 0 (count protocol (Subscribers.generation_counts generation s.subscribers))
    then check_idle_timeout (record s {
      subscribers = Subscribers.remove_for_generation protocol generation s.subscribers;
    })
    else s
