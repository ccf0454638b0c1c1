-- ===== src/Stream/Startup/History.antt =====
-- core/stream.go: the frames that a run writes into the ring, and where the GOP cache stands in them.
use liveforge.Base.{
  ℕ, String, ◌≤◌, ◌≡◌, Bool, false, not, some, List, [], ◌∷◌, ◌++◌, ◌&&◌, arith, length, ltb,
  if◌then◌else◌,
}
use liveforge.AvFrame.{Frame, is_header}
use liveforge.Config.{StreamConfig, LimitsConfig}
use liveforge.Ring
use liveforge.Ring.History.{Holds, new_ring_buffer-Holds, write-Holds}
use liveforge.Gop.Placed.Writes.{InHistory}
use liveforge.Stream.{
  Stream, Publisher, new_stream, empty_gops, is_publishing, close_generation, check_idle_timeout,
  update_startup_ready,
}
use liveforge.Stream.Publish.{
  install_publisher, merge_media_info, start_audio_epoch, fresh_generation, remove_publisher,
  publisher_matches, destroy, no_publisher_expired, idle_expired, add_subscriber,
  add_subscriber_for_generation, remove_subscriber, remove_subscriber_for_generation,
}
use liveforge.Stream.Frames.{note_header, note_media, note_audio, mark_frame}
use liveforge.Stream.Steps.{Step, Reach, here, next, frame, frame_for}

-- What a call of `writeFrameLocked` adds to the ring.
unfoldable pub stored : Bool → Frame → Stream → List Frame
stored exceeded f s =
    if ltb 0 s.limits.max_bitrate_per_stream && not (is_header f) && exceeded
    then []
    else Ring.History.accepted s.ring (mark_frame (note_media f s) f ∷ [])

-- What a step adds to the ring.
unfoldable pub writes : {s t : Stream} → Step s t → List Frame
writes (frame exceeded (some f) s) = stored exceeded f s
writes (frame_for exceeded p (some f) s) =
    if publisher_matches p s && is_publishing s.state then stored exceeded f s else []
writes _ = []

-- The frames that a run has written into the ring, all of them in their order.
unfoldable pub history : {s t : Stream} → Reach s t → List Frame
history here = []
history (next r step) = history r ++ writes step

-- The ring holds the end of the history, the generation began within it, and while the ring is open
-- the GOP cache is placed in it, behind the start of the generation.
pub record HasHistory (h : List Frame) (s : Stream) : Type 0 where
  pub holds : Holds h s.ring
  pub began : s.generation_start_cursor ≤ length h
  pub placed : s.ring.closed ≡ false → InHistory s.generation_start_cursor h s.gops

pub new_stream-HasHistory :
    (cfg : StreamConfig) (limits : LimitsConfig) → HasHistory [] (new_stream cfg limits)
unfolding new_stream
new_stream-HasHistory cfg limits = record {
  holds = new_ring_buffer-Holds _;
  began = omega arith;
  placed = λ _. tt;
}

-- what stays as it is
pub record IsSame (s t : Stream) : Type 0 where
  pub ring : t.ring ≡ s.ring
  pub gops : t.gops ≡ s.gops
  pub began : t.generation_start_cursor ≡ s.generation_start_cursor

pub IsSame-HasHistory :
    {s t : Stream} {h : List Frame} → IsSame s t → HasHistory h s → HasHistory h t
IsSame-HasHistory e v = record {
  holds = rw e.ring v.holds;
  began = rw e.began v.began;
  placed = rw (e.ring, e.gops, e.began) v.placed;
}

pub check_idle_timeout-IsSame : (s : Stream) → IsSame s (check_idle_timeout s)
unfolding check_idle_timeout
check_idle_timeout-IsSame s = ground arith

pub remove_publisher-IsSame : (s : Stream) → IsSame s (remove_publisher s)
unfolding remove_publisher close_generation check_idle_timeout
remove_publisher-IsSame s = ground arith

pub no_publisher_expired-IsSame : (s : Stream) → IsSame s (no_publisher_expired s)
unfolding no_publisher_expired destroy
no_publisher_expired-IsSame s = ground arith

pub idle_expired-IsSame : (s : Stream) → IsSame s (idle_expired s)
unfolding idle_expired destroy
idle_expired-IsSame s = ground arith

pub add_subscriber-IsSame : (p : String) (s t : Stream) → add_subscriber p s ≡ some t → IsSame s t
unfolding add_subscriber
add_subscriber-IsSame p s t e = ground (arith, e)

pub add_subscriber_for_generation-IsSame :
    (p : String) (g : ℕ) (s t : Stream) → add_subscriber_for_generation p g s ≡ some t → IsSame s t
unfolding add_subscriber_for_generation
add_subscriber_for_generation-IsSame p g s t e = ground (arith, e)

pub remove_subscriber-IsSame : (p : String) (s : Stream) → IsSame s (remove_subscriber p s)
unfolding remove_subscriber check_idle_timeout
remove_subscriber-IsSame p s = ground arith

pub remove_subscriber_for_generation-IsSame :
    (p : String) (g : ℕ) (s : Stream) → IsSame s (remove_subscriber_for_generation p g s)
unfolding remove_subscriber_for_generation check_idle_timeout
remove_subscriber_for_generation-IsSame p g s = ground arith

pub noted-IsSame :
    (f f' : Frame) (s : Stream) → IsSame s (update_startup_ready (note_header f' (note_media f s)))
unfolding update_startup_ready note_header note_media note_audio
noted-IsSame f f' s = ground arith

-- A new publisher begins behind all that has been written, with an empty cache.
record IsFresh (s t : Stream) : Type 0 where
  ring : t.ring ≡ s.ring
  gops : t.gops ≡ empty_gops
  began : t.generation_start_cursor ≡ s.ring.write_cursor

install_publisher-IsFresh : (p : Publisher) (s : Stream) → IsFresh s (install_publisher p s)
unfolding install_publisher merge_media_info start_audio_epoch fresh_generation close_generation
install_publisher-IsFresh p s = ground arith

pub install_publisher-HasHistory :
    (p : Publisher) (s : Stream) (h : List Frame)
    → HasHistory h s
    → HasHistory h (install_publisher p s)
install_publisher-HasHistory p s h v =
    let e = install_publisher-IsFresh p s in
    record {
      holds = rw e.ring v.holds;
      began = omega (arith, e.began, v.holds.cursor);
      placed = λ _. rw e.gops tt;
    }
