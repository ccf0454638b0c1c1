-- ===== src/Stream/Tests.antt =====
-- A stream of core/stream.go through a short life, and the theorems at concrete inputs.
use liveforge.Base.{
  ◌⊎◌, ◌≡◌, ◌≢◌, ◌↔◌, refl, String, true, false, none, some, [], ◌∷◌, pos, str_eq_iff, false≢true,
  length, ◌<◌,
}
use liveforge.Base.Assoc.{string_key}
use liveforge.AvFrame.{Frame, new_frame, media_type_video, frame_type_keyframe}
use liveforge.AvFrame.Codec
use liveforge.Ring
use liveforge.Config.{StreamConfig, LimitsConfig, normalize_gop_config}
use liveforge.Stream.{
  Stream, comparable, Publisher, new_stream, is_publishing, close_generation, update_startup_ready,
  check_idle_timeout, startup_ready_now,
}
use liveforge.Stream.Publish.{
  accepted, set_publisher, install_publisher, merge_media_info, start_audio_epoch, fresh_generation,
  remove_publisher, remove_publisher_if, publisher_matches, idle_expired,
}
use liveforge.Stream.Frames.{
  write_frame, write_frame_locked, write_frame_for_publisher, note_media, note_header, store_frame,
  mark_frame,
}
use liveforge.Stream.Content.{HasContent}
use liveforge.Stream.Steps.{Reach, here, next, publish, unpublish, frame, idle_fires}
use liveforge.Stream.Life.{Reach-HasContent}
use liveforge.Stream.Startup.{startup_snapshot}
use liveforge.Stream.Startup.Replay.{IsReplay, AnyHeld}
use liveforge.Stream.Startup.History.{history}
use liveforge.Stream.Startup.Snapshot.{startup_snapshot-IsReplay}
use liveforge.Stream.Progress.{Advances, Reach-Advances}
use liveforge.Stream.Identity.{AreSame, publisher_id_once, publisher_matches_iff}
use liveforge.Stream.Retired.{stale_publisher}
use liveforge.Stream.Publication.{Ends, Continues, publication-Continues}

abbrev config : StreamConfig
config = record {
  gop_cache = true;
  gop_cache_num = 1;
  gop_cache_max_frames = 0;
  gop_cache_max_duration = 0;
  gop_cache_max_bytes = 0;
  ring_buffer_size = 4;
  idle_timeout = 1;
  no_publisher_timeout = 1;
}

abbrev limits : LimitsConfig
limits = record { max_subscribers_per_stream = 1; max_bitrate_per_stream = 0 }

abbrev alice : Publisher
alice = record { dynamic_type = comparable 0; object = 1; id = "alice"; media_info = none }

abbrev bob : Publisher
bob = record { dynamic_type = comparable 0; object = 2; id = "bob"; media_info = none }

abbrev fresh : Stream
fresh = new_stream config limits

abbrev live : Stream
live = install_publisher alice fresh

set_alice : set_publisher (some alice) fresh ≡ accepted live
unfolding set_publisher new_stream
set_alice = refl

abbrev key : Frame
key = new_frame media_type_video Codec.vp8 frame_type_keyframe (pos 0) (pos 0) (1 ∷ [])

-- a key frame reaches the ring and the cache, and makes the stream ready
frame_is_cached : (write_frame false (some key) live).0.startup_ready ≡ true
unfolding write_frame write_frame_locked store_frame note_header note_media mark_frame
    update_startup_ready startup_ready_now install_publisher merge_media_info start_audio_epoch
    fresh_generation close_generation new_stream new_frame
frame_is_cached = refl

run : Reach fresh (write_frame false (some key) live).0
run = next (next here (publish (some alice) set_alice)) (frame false (some key) live)

Reach-HasContent_example : HasContent (write_frame false (some key) live).0
Reach-HasContent_example = Reach-HasContent config limits run

Reach-Advances_example : Advances fresh (write_frame false (some key) live).0
Reach-Advances_example = Reach-Advances run

gone : Reach live (remove_publisher live)
gone = next here (unpublish live)

alice_has_id : alice.id ≢ ""
alice_has_id e = false≢true ((str_eq_iff "alice" "").1 e)

publisher_id_once_example : set_publisher (some alice) (remove_publisher live) ≢ accepted live
publisher_id_once_example =
    publisher_id_once alice alice fresh live (remove_publisher live) live set_alice alice_has_id
      gone refl

on_air : Reach fresh live
on_air = next here (publish (some alice) set_alice)

live_owner : live.publisher ≡ some alice
unfolding install_publisher
live_owner = refl

publisher_matches_iff_example :
    (publisher_matches (some bob) live ≡ true)
    ↔ ◌≡◌ {A = String} "bob" "alice" × (◌≡◌ {A = String} "alice" "" → AreSame alice bob)
publisher_matches_iff_example = publisher_matches_iff config limits alice bob on_air live_owner

abbrev replaced : Stream
replaced = install_publisher bob (remove_publisher live)

set_bob : set_publisher (some bob) (remove_publisher live) ≡ accepted replaced
unfolding set_publisher remove_publisher install_publisher merge_media_info start_audio_epoch
    fresh_generation close_generation new_stream check_idle_timeout normalize_gop_config
set_bob = refl

off_air : is_publishing (remove_publisher live).state ≡ false
unfolding remove_publisher install_publisher merge_media_info start_audio_epoch fresh_generation
    close_generation new_stream check_idle_timeout normalize_gop_config
off_air = refl

stale_publisher_example :
    (write_frame_for_publisher false (some alice) (some key) replaced ≡ (replaced, false))
    × (remove_publisher_if (some alice) replaced ≡ (replaced, false))
stale_publisher_example =
    stale_publisher false alice (some key) fresh live (remove_publisher live) replaced set_alice
      alice_has_id gone off_air (next here (publish (some bob) set_bob))

live_is_publishing : is_publishing live.state ≡ true
unfolding install_publisher
live_is_publishing = refl

publication-Continues_example :
    Ends live (idle_expired live) (idle_fires live) ⊎ Continues live (idle_expired live)
publication-Continues_example =
    publication-Continues config limits on_air live_is_publishing (idle_fires live)

abbrev cached : Stream
cached = (write_frame false (some key) live).0

cached_is_open : cached.ring.closed ≡ false
unfolding write_frame write_frame_locked store_frame note_header note_media mark_frame
    update_startup_ready startup_ready_now install_publisher merge_media_info start_audio_epoch
    fresh_generation close_generation new_stream new_frame Ring.write Ring.new_ring_buffer
cached_is_open = refl

startup_snapshot-IsReplay_example :
    let snapshot = startup_snapshot cached in
    (snapshot.live_cursor ≡ length (history run))
    × IsReplay cached.generation_start_cursor
        (history run)
        (snapshot.replay_frames, snapshot.source_cursor)
    × (AnyHeld snapshot.live_cursor cached.ring.size cached.gops.starts
        → snapshot.source_cursor < snapshot.live_cursor)
startup_snapshot-IsReplay_example = startup_snapshot-IsReplay config limits run cached_is_open
