-- ===== src/Stream/Retired.antt =====
-- core/stream.go: a publisher that no longer publishes has no more effect on the stream.
use liveforge.Base.{
  ltb, inl, inr, Bool-cases, false≢true, ℕ, String, str_eq, str_eq_iff, Bool, true, false, not,
  Option, none, some, ◌≡◌, ◌≢◌, refl, sym, ◌∙◌, ◌&&◌, arith,
}
use liveforge.AvFrame.{Frame, is_header}
use liveforge.Config.{StreamConfig, LimitsConfig}
use liveforge.Stream.{
  Stream, Publisher, is_destroying, is_publishing, contains, close_generation, check_idle_timeout,
  update_startup_ready,
}
use liveforge.Stream.Publish.{
  accepted, set_publisher, install_publisher, merge_media_info, start_audio_epoch, fresh_generation,
  remove_publisher, remove_publisher_if, publisher_matches, candidate_matches, destroy,
  no_publisher_expired, idle_expired, close, update_policy, add_subscriber,
  add_subscriber_for_generation, remove_subscriber, remove_subscriber_for_generation,
}
use liveforge.Stream.Frames.{
  mark_frame, write_frame_locked, write_frame_for_publisher, store_frame, note_header, note_media,
  note_audio,
}
use liveforge.Stream.Steps.{Reach, Keeps, Reach_keeps, set_publisher-accepted}
use liveforge.Stream.Progress.{is_used, Reach-Advances}
use liveforge.Stream.Identity.{contains_self}

-- The ID is used, and is not that of the publisher.
record IsRetired (id : String) (s : Stream) : Type 0 where
  used : is_used id s ≡ true
  other : is_publishing s.state ≡ true → s.last_publisher_id ≢ id

install_publisher-IsRetired :
    (id : String) (p : Publisher) (s : Stream)
    → id ≢ ""
    → is_destroying s.state ≡ false
    → (not (str_eq p.id "") && contains p.id s.used_publisher_ids) ≡ false
    → IsRetired id s
    → IsRetired id (install_publisher p s)
unfolding install_publisher merge_media_info start_audio_epoch fresh_generation close_generation
install_publisher-IsRetired id p s ne alive fresh v = record {
  used = ground (arith, v.used);
  other = λ on e. fresh_is_other id p s ne alive fresh v.used e;
}
  where
    fresh_is_other :
        (id : String) (p : Publisher) (s : Stream)
        → id ≢ ""
        → is_destroying s.state ≡ false
        → (not (str_eq p.id "") && contains p.id s.used_publisher_ids) ≡ false
        → is_used id s ≡ true
        → p.id ≢ id
    fresh_is_other id p s ne alive fresh used e =
        let used' : is_used p.id s ≡ true = rw e used in
        let named : p.id ≢ "" = λ x. ne (sym e ∙ x) in
        ground (arith, alive, fresh, used', named, str_eq_iff p.id "")

remove_publisher-IsRetired :
    (id : String) (s : Stream) → IsRetired id s → IsRetired id (remove_publisher s)
unfolding remove_publisher close_generation check_idle_timeout
remove_publisher-IsRetired id s v = record {
  used = ground (arith, v.used);
  other = ground (arith, v.other);
}

no_publisher_expired-IsRetired :
    (id : String) (s : Stream) → IsRetired id s → IsRetired id (no_publisher_expired s)
unfolding no_publisher_expired destroy
no_publisher_expired-IsRetired id s v = record {
  used = ground (arith, v.used);
  other = ground (arith, v.other);
}

idle_expired-IsRetired : (id : String) (s : Stream) → IsRetired id s → IsRetired id (idle_expired s)
unfolding idle_expired destroy
idle_expired-IsRetired id s v = record {
  used = ground (arith, v.used);
  other = ground (arith, v.other);
}

close-IsRetired : (id : String) (s : Stream) → IsRetired id s → IsRetired id (close s).0
unfolding close destroy close_generation
close-IsRetired id s v = record { used = ground (arith, v.used); other = ground (arith, v.other) }

update_policy-IsRetired :
    (id : String) (cfg : StreamConfig) (limits : LimitsConfig) (s : Stream)
    → IsRetired id s
    → IsRetired id (update_policy cfg limits s)
unfolding update_policy check_idle_timeout
update_policy-IsRetired id cfg limits s v = record {
  used = ground (arith, v.used);
  other = ground (arith, v.other);
}

add_subscriber-IsRetired :
    (id p : String) (s t : Stream) → IsRetired id s → add_subscriber p s ≡ some t → IsRetired id t
unfolding add_subscriber
add_subscriber-IsRetired id p s t v e = record {
  used = ground (arith, v.used, e);
  other = ground (arith, v.other, e);
}

lease-IsRetired :
    (id p : String) (g : ℕ) (s t : Stream)
    → IsRetired id s
    → add_subscriber_for_generation p g s ≡ some t
    → IsRetired id t
unfolding add_subscriber_for_generation
lease-IsRetired id p g s t v e = record {
  used = ground (arith, v.used, e);
  other = ground (arith, v.other, e);
}

remove_subscriber-IsRetired :
    (id p : String) (s : Stream) → IsRetired id s → IsRetired id (remove_subscriber p s)
unfolding remove_subscriber check_idle_timeout
remove_subscriber-IsRetired id p s v = record {
  used = ground (arith, v.used);
  other = ground (arith, v.other);
}

release-IsRetired :
    (id p : String) (g : ℕ) (s : Stream)
    → IsRetired id s
    → IsRetired id (remove_subscriber_for_generation p g s)
unfolding remove_subscriber_for_generation check_idle_timeout
release-IsRetired id p g s v = record {
  used = ground (arith, v.used);
  other = ground (arith, v.other);
}

note_media-IsRetired :
    (id : String) (f : Frame) (s : Stream) → IsRetired id s → IsRetired id (note_media f s)
unfolding note_media note_audio
note_media-IsRetired id f s v = record {
  used = ground (arith, v.used);
  other = ground (arith, v.other);
}

note_header-IsRetired :
    (id : String) (f : Frame) (s : Stream) → IsRetired id s → IsRetired id (note_header f s)
unfolding note_header
note_header-IsRetired id f s v = record {
  used = ground (arith, v.used);
  other = ground (arith, v.other);
}

update_startup_ready-IsRetired :
    (id : String) (s : Stream) → IsRetired id s → IsRetired id (update_startup_ready s)
unfolding update_startup_ready
update_startup_ready-IsRetired id s v = record {
  used = ground (arith, v.used);
  other = ground (arith, v.other);
}

store_frame-IsRetired :
    (id : String) (f : Frame) (s : Stream) → IsRetired id s → IsRetired id (store_frame f s)
unfolding store_frame
store_frame-IsRetired id f s v = record {
  used = ground (arith, v.used);
  other = ground (arith, v.other);
}

write_frame_locked-IsRetired :
    (id : String) (b : Bool) (f : Frame) (s : Stream)
    → IsRetired id s
    → IsRetired id (write_frame_locked b f s).0
unfolding write_frame_locked
write_frame_locked-IsRetired id b f s v =
    let g : Frame = mark_frame (note_media f s) f in
    let stored = store_frame-IsRetired id g _ (
      update_startup_ready-IsRetired id _
        (note_header-IsRetired id g _ (note_media-IsRetired id f s v))) in
    elim (Bool-cases (ltb 0 s.limits.max_bitrate_per_stream && not (is_header f) && b)) [
      | inl e ↦ rw e v
      | inr e ↦ rw e stored
    ]

retired : (id : String) → id ≢ "" → Keeps (IsRetired id)
retired id ne = record {
  installs = λ p s _ alive fresh v. install_publisher-IsRetired id p s ne alive fresh v;
  removes = remove_publisher-IsRetired id;
  no_publisher = no_publisher_expired-IsRetired id;
  idle = idle_expired-IsRetired id;
  ends = close-IsRetired id;
  updates = update_policy-IsRetired id;
  adds = add_subscriber-IsRetired id;
  leases = lease-IsRetired id;
  leaves = remove_subscriber-IsRetired id;
  releases = release-IsRetired id;
  writes = write_frame_locked-IsRetired id;
}

retired_matches :
    (p : Publisher) (s : Stream)
    → p.id ≢ ""
    → IsRetired p.id s
    → publisher_matches (some p) s ≡ false
unfolding publisher_matches candidate_matches
retired_matches p s ne v = ground (
  arith,
  v.other,
  ne,
  str_eq_iff p.id "",
  str_eq_iff s.last_publisher_id p.id,
  str_eq_iff s.last_publisher_id "",
)

refused_effects :
    (b : Bool) (p : Publisher) (f : Option Frame) (s : Stream)
    → publisher_matches (some p) s ≡ false
    → (write_frame_for_publisher b (some p) f s ≡ (s, false))
      × (remove_publisher_if (some p) s ≡ (s, false))
unfolding write_frame_for_publisher remove_publisher_if
refused_effects b p none s m = (refl, rw m)
refused_effects b p (some f) s m = (rw m, rw m)

-- A publisher with an ID was accepted, and at some later point of the run the stream was not publishing:
-- whatever happens after that, whoever publishes then, that publisher writes no frame and removes no
-- publisher, and its calls change nothing.
pub stale_publisher :
    (b : Bool) (p : Publisher) (f : Option Frame) (s t u v : Stream)
    → set_publisher (some p) s ≡ accepted t
    → p.id ≢ ""
    → Reach t u
    → is_publishing u.state ≡ false
    → Reach u v
    → (write_frame_for_publisher b (some p) f v ≡ (v, false))
      × (remove_publisher_if (some p) v ≡ (v, false))
stale_publisher b p f s t u v e ne r off r' =
    let (installed, _, _, _) = set_publisher-accepted p s t e in
    let first : is_used p.id t ≡ true = rw installed (contains_self p.id p s refl ne) in
    let at_u : IsRetired p.id u = record {
      used = (Reach-Advances r).used p.id first;
      other = λ on. absurd (false≢true (sym off ∙ on));
    } in
    refused_effects b p f v (retired_matches p v ne (Reach_keeps (retired p.id ne) r' at_u))
