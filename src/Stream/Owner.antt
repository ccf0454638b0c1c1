-- ===== src/Stream/Owner.antt =====
-- core/stream.go: a stream has a publisher exactly while it is publishing, and every method and
-- timer keeps it so.
use liveforge.Base.{
  ℕ, String, Bool, true, false, not, Option, none, some, ◌≡◌, refl, arith, Bool-cases, inl, inr,
}
use liveforge.AvFrame.{Frame}
use liveforge.Config.{StreamConfig, LimitsConfig}
use liveforge.Stream.{
  Stream, Publisher, Boundary, new_stream, is_some, is_publishing, is_destroying, close_generation,
  check_idle_timeout, end_boundary, update_startup_ready,
}
use liveforge.Stream.Frames.{
  store_frame, note_header, note_media, note_audio, mark_frame, write_frame_locked,
}
use liveforge.Subscribers.{remove_for_generation}
use liveforge.Stream.Publish.{
  install_publisher, merge_media_info, start_audio_epoch, fresh_generation, remove_publisher,
  destroy, no_publisher_expired, idle_expired, close, update_policy, add_subscriber,
  add_subscriber_for_generation, remove_subscriber, remove_subscriber_for_generation,
}

-- no generation, or one whose end is recorded
abbrev pub is_ended : Option Boundary → Bool
is_ended none = true
is_ended (some b) = is_some b.end_cursor

-- While the stream is publishing it has a publisher, its generation has not ended and is the last
-- one, and no timer is set. At any other time there is no publisher, and the generation has ended.
-- The idle timer is set only while there is no publisher.
pub record IsOwned (s : Stream) : Type 0 where
  pub owner : is_some s.publisher ≡ is_publishing s.state
  pub ended : is_ended s.boundary ≡ not (is_publishing s.state)
  pub latest : is_publishing s.state ≡ true → s.last_publisher_generation ≡ s.publisher_generation
  pub no_publisher_timer : is_publishing s.state ≡ true → s.no_publisher_timer ≡ false
  pub idle_timer : is_publishing s.state ≡ true → s.idle_timer ≡ false

pub new_stream-IsOwned :
    (cfg : StreamConfig) (limits : LimitsConfig) → IsOwned (new_stream cfg limits)
unfolding new_stream
new_stream-IsOwned cfg limits = ground arith

ended_boundary : (c : ℕ) (b : Option Boundary) → is_ended (end_boundary c b) ≡ true
ended_boundary c none = refl
ended_boundary c (some b) = ground arith

check_idle_timeout-IsOwned : (s : Stream) → IsOwned s → IsOwned (check_idle_timeout s)
unfolding check_idle_timeout
check_idle_timeout-IsOwned s v = ground arith

pub remove_publisher-IsOwned : (s : Stream) → IsOwned s → IsOwned (remove_publisher s)
unfolding remove_publisher close_generation
remove_publisher-IsOwned s v = elim (Bool-cases (is_destroying s.state)) [
  | inl e ↦ rw e v
  | inr e ↦
      rw e (
        check_idle_timeout-IsOwned _
          (ground (arith, ended_boundary s.ring.write_cursor s.boundary)))
]

pub install_publisher-IsOwned :
    (p : Publisher) (s : Stream) → IsOwned s → IsOwned (install_publisher p s)
unfolding install_publisher merge_media_info start_audio_epoch fresh_generation close_generation
install_publisher-IsOwned p s v = ground arith

destroy-IsOwned :
    (s : Stream) → is_some s.publisher ≡ false → is_ended s.boundary ≡ true → IsOwned (destroy s)
unfolding destroy
destroy-IsOwned s p b = ground arith

pub no_publisher_expired-IsOwned : (s : Stream) → IsOwned s → IsOwned (no_publisher_expired s)
unfolding no_publisher_expired
no_publisher_expired-IsOwned s v = ground (arith, v, destroy-IsOwned s)

pub idle_expired-IsOwned : (s : Stream) → IsOwned s → IsOwned (idle_expired s)
unfolding idle_expired
idle_expired-IsOwned s v = ground (arith, v, destroy-IsOwned s)

pub close-IsOwned : (s : Stream) → IsOwned s → IsOwned (close s).0
unfolding close close_generation destroy
close-IsOwned s v = ground (arith, v, ended_boundary s.ring.write_cursor s.boundary)

pub update_policy-IsOwned :
    (cfg : StreamConfig) (limits : LimitsConfig) (s : Stream)
    → IsOwned s
    → IsOwned (update_policy cfg limits s)
unfolding update_policy
update_policy-IsOwned cfg limits s v = check_idle_timeout-IsOwned _ (ground (arith, v))

pub add_subscriber-IsOwned :
    (p : String) (s t : Stream) → IsOwned s → add_subscriber p s ≡ some t → IsOwned t
unfolding add_subscriber
add_subscriber-IsOwned p s t v e = ground (arith, v, e)

pub add_subscriber_for_generation-IsOwned :
    (p : String) (g : ℕ) (s t : Stream)
    → IsOwned s
    → add_subscriber_for_generation p g s ≡ some t
    → IsOwned t
unfolding add_subscriber_for_generation
add_subscriber_for_generation-IsOwned p g s t v e = ground (arith, v, e)

pub remove_subscriber-IsOwned :
    (p : String) (s : Stream) → IsOwned s → IsOwned (remove_subscriber p s)
unfolding remove_subscriber
remove_subscriber-IsOwned p s v = check_idle_timeout-IsOwned _ (ground (arith, v))

pub remove_subscriber_for_generation-IsOwned :
    (p : String) (g : ℕ) (s : Stream) → IsOwned s → IsOwned (remove_subscriber_for_generation p g s)
unfolding remove_subscriber_for_generation
remove_subscriber_for_generation-IsOwned p g s v = ground (
  arith,
  v,
  check_idle_timeout-IsOwned (record s { subscribers = remove_for_generation p g s.subscribers }),
)

-- A frame changes none of the fields.
note_media-IsOwned : (f : Frame) (s : Stream) → IsOwned s → IsOwned (note_media f s)
unfolding note_media note_audio
note_media-IsOwned f s v = ground (arith, v)

note_header-IsOwned : (f : Frame) (s : Stream) → IsOwned s → IsOwned (note_header f s)
unfolding note_header
note_header-IsOwned f s v = ground (arith, v)

update_startup_ready-IsOwned : (s : Stream) → IsOwned s → IsOwned (update_startup_ready s)
unfolding update_startup_ready
update_startup_ready-IsOwned s v = ground (arith, v)

store_frame-IsOwned : (f : Frame) (s : Stream) → IsOwned s → IsOwned (store_frame f s)
unfolding store_frame
store_frame-IsOwned f s v = ground (arith, v)

pub write_frame_locked-IsOwned :
    (b : Bool) (f : Frame) (s : Stream) → IsOwned s → IsOwned (write_frame_locked b f s).0
unfolding write_frame_locked
write_frame_locked-IsOwned b f s v =
    let stored = store_frame-IsOwned (mark_frame (note_media f s) f) _ (
      update_startup_ready-IsOwned _
        (note_header-IsOwned (mark_frame (note_media f s) f) _ (note_media-IsOwned f s v))) in
    ground (arith, v, stored)
