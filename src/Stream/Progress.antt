-- ===== src/Stream/Progress.antt =====
-- core/stream.go: what of a stream can only go forward, in every run.
use liveforge.Base.{ℕ, ◌≤◌, String, Bool, true, false, some, ◌≡◌, arith, ◌||◌}
use liveforge.AvFrame.{Frame}
use liveforge.Config.{StreamConfig, LimitsConfig}
use liveforge.Stream.{
  Stream, Publisher, is_destroying, contains, close_generation, check_idle_timeout,
  update_startup_ready,
}
use liveforge.Stream.Publish.{
  install_publisher, merge_media_info, start_audio_epoch, fresh_generation, remove_publisher,
  destroy, no_publisher_expired, idle_expired, close, update_policy, add_subscriber,
  add_subscriber_for_generation, remove_subscriber, remove_subscriber_for_generation,
}
use liveforge.Stream.Frames.{write_frame_locked, store_frame, note_header, note_media, note_audio}
use liveforge.Ring
use liveforge.Stream.Steps.{Reach, Keeps, Reach_keeps}

-- The stream is destroying, or the ID stands among the used ones.
abbrev pub is_used : String → Stream → Bool
is_used id s = contains id s.used_publisher_ids || is_destroying s.state

-- What can only go forward.
pub record Advances (s t : Stream) : Type 0 where
  pub used : (id : String) → is_used id s ≡ true → is_used id t ≡ true
  pub final : is_destroying s.state ≡ true → is_destroying t.state ≡ true
  pub generation : s.publisher_generation ≤ t.publisher_generation
  pub cursor : s.ring.write_cursor ≤ t.ring.write_cursor

Advances-refl : (s : Stream) → Advances s s
Advances-refl s = record {
  used = λ id h. h;
  final = λ h. h;
  generation = omega arith;
  cursor = omega arith;
}

Advances-trans : {s t u : Stream} → Advances s t → Advances t u → Advances s u
Advances-trans a b = record {
  used = λ id h. b.used id (a.used id h);
  final = λ h. b.final (a.final h);
  generation = omega (arith, a.generation, b.generation);
  cursor = omega (arith, a.cursor, b.cursor);
}

install_publisher-Advances :
    (p : Publisher) (s : Stream)
    → is_destroying s.state ≡ false
    → Advances s (install_publisher p s)
unfolding install_publisher merge_media_info start_audio_epoch fresh_generation close_generation
install_publisher-Advances p s alive = record {
  used = λ id h. ground arith;
  final = λ h. ground arith;
  generation = ground arith;
  cursor = ground arith;
}

remove_publisher-Advances : (s : Stream) → Advances s (remove_publisher s)
unfolding remove_publisher close_generation check_idle_timeout
remove_publisher-Advances s = record {
  used = λ id h. ground arith;
  final = λ h. ground arith;
  generation = ground arith;
  cursor = ground arith;
}

no_publisher_expired-Advances : (s : Stream) → Advances s (no_publisher_expired s)
unfolding no_publisher_expired destroy
no_publisher_expired-Advances s = record {
  used = λ id h. ground arith;
  final = λ h. ground arith;
  generation = ground arith;
  cursor = ground arith;
}

idle_expired-Advances : (s : Stream) → Advances s (idle_expired s)
unfolding idle_expired destroy
idle_expired-Advances s = record {
  used = λ id h. ground arith;
  final = λ h. ground arith;
  generation = ground arith;
  cursor = ground arith;
}

close-Advances : (s : Stream) → Advances s (close s).0
unfolding close destroy close_generation Ring.close
close-Advances s = record {
  used = λ id h. ground arith;
  final = λ h. ground arith;
  generation = ground arith;
  cursor = ground arith;
}

update_policy-Advances :
    (cfg : StreamConfig) (limits : LimitsConfig) (s : Stream)
    → Advances s (update_policy cfg limits s)
unfolding update_policy check_idle_timeout
update_policy-Advances cfg limits s = record {
  used = λ id h. ground arith;
  final = λ h. ground arith;
  generation = ground arith;
  cursor = ground arith;
}

add_subscriber-Advances : (p : String) (s t : Stream) → add_subscriber p s ≡ some t → Advances s t
unfolding add_subscriber
add_subscriber-Advances p s t e = record {
  used = λ id h. ground arith;
  final = λ h. ground arith;
  generation = ground arith;
  cursor = ground arith;
}

add_subscriber_for_generation-Advances :
    (p : String) (g : ℕ) (s t : Stream)
    → add_subscriber_for_generation p g s ≡ some t
    → Advances s t
unfolding add_subscriber_for_generation
add_subscriber_for_generation-Advances p g s t e = record {
  used = λ id h. ground arith;
  final = λ h. ground arith;
  generation = ground arith;
  cursor = ground arith;
}

remove_subscriber-Advances : (p : String) (s : Stream) → Advances s (remove_subscriber p s)
unfolding remove_subscriber check_idle_timeout
remove_subscriber-Advances p s = record {
  used = λ id h. ground arith;
  final = λ h. ground arith;
  generation = ground arith;
  cursor = ground arith;
}

remove_subscriber_for_generation-Advances :
    (p : String) (g : ℕ) (s : Stream) → Advances s (remove_subscriber_for_generation p g s)
unfolding remove_subscriber_for_generation check_idle_timeout
remove_subscriber_for_generation-Advances p g s = record {
  used = λ id h. ground arith;
  final = λ h. ground arith;
  generation = ground arith;
  cursor = ground arith;
}

write_frame_locked-Advances :
    (b : Bool) (f : Frame) (s : Stream) → Advances s (write_frame_locked b f s).0
unfolding write_frame_locked store_frame update_startup_ready note_header note_media note_audio
    Ring.write
write_frame_locked-Advances b f s = record {
  used = λ id h. ground arith;
  final = λ h. ground arith;
  generation = ground arith;
  cursor = ground arith;
}

advances : (s : Stream) → Keeps (Advances s)
advances s0 = record {
  installs = λ p s _ alive _ v. Advances-trans v (install_publisher-Advances p s alive);
  removes = λ s v. Advances-trans v (remove_publisher-Advances s);
  no_publisher = λ s v. Advances-trans v (no_publisher_expired-Advances s);
  idle = λ s v. Advances-trans v (idle_expired-Advances s);
  ends = λ s v. Advances-trans v (close-Advances s);
  updates = λ cfg l s v. Advances-trans v (update_policy-Advances cfg l s);
  adds = λ p s t v e. Advances-trans v (add_subscriber-Advances p s t e);
  leases = λ p g s t v e. Advances-trans v (add_subscriber_for_generation-Advances p g s t e);
  leaves = λ p s v. Advances-trans v (remove_subscriber-Advances p s);
  releases = λ p g s v. Advances-trans v (remove_subscriber_for_generation-Advances p g s);
  writes = λ b f s v. Advances-trans v (write_frame_locked-Advances b f s);
}

-- In every run: a stream that is destroying stays so, an ID that is used stays used until then, and
-- neither the generation nor the write cursor of the ring goes back.
pub Reach-Advances : {s t : Stream} → Reach s t → Advances s t
Reach-Advances {s} r = Reach_keeps (advances s) r (Advances-refl s)
