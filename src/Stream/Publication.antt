-- ===== src/Stream/Publication.antt =====
-- core/stream.go: what ends a publication, and what does not.
use liveforge.Base.{
  ltb, not, ℕ, ◌≡◌, refl, String, Bool, true, Option, some, none, arith, Bool-cases, inl, inr, ◌⊎◌,
  ◌∙◌, ◌&&◌,
}
use liveforge.AvFrame.{Frame, is_header}
use liveforge.Ring
use liveforge.Config.{StreamConfig, LimitsConfig}
use liveforge.Stream.{
  Stream, Publisher, new_stream, is_some, is_publishing, check_idle_timeout, update_startup_ready,
}
use liveforge.Stream.Publish.{
  set_publisher, remove_publisher, remove_publisher_if, publisher_matches, no_publisher_expired,
  idle_expired, close, update_policy, add_subscriber, add_subscriber_for_generation,
  remove_subscriber, remove_subscriber_for_generation,
}
use liveforge.Stream.Frames.{
  write_frame, write_frame_for_publisher, write_frame_locked, store_frame, note_header, note_media,
  note_audio, mark_frame,
}
use liveforge.Stream.Owner.{IsOwned}
use liveforge.Stream.Life.{Reach-IsOwned}
use liveforge.Stream.Steps.{
  Step, publish, unpublish, unpublish_if, no_publisher_fires, idle_fires, closes, policy, subscribe,
  lease, unsubscribe, release, frame, frame_for, Reach, set_publisher-accepted,
}

-- the steps that end a publication
pub data Ends : (s t : Stream) → Step s t → Type 0 where
  unpublished : (s : Stream) → Ends s (remove_publisher s) (unpublish s)
  unpublished_if :
      (p : Option Publisher) (s : Stream)
      → publisher_matches p s ≡ true
      → Ends s (remove_publisher_if p s).0 (unpublish_if p s)
  closed : (s : Stream) → Ends s (close s).0 (closes s)

-- The publication goes on: what identifies it is left as it is.
pub record Continues (s t : Stream) : Type 0 where
  pub state : is_publishing t.state ≡ true
  pub publisher : t.publisher ≡ s.publisher
  pub generation : t.publisher_generation ≡ s.publisher_generation
  pub last_id : t.last_publisher_id ≡ s.last_publisher_id
  pub boundary : t.boundary ≡ s.boundary
  pub used_ids : t.used_publisher_ids ≡ s.used_publisher_ids
  pub destroy_notified : t.destroy_notified ≡ s.destroy_notified
  pub ring_closed : t.ring.closed ≡ s.ring.closed

same : (s : Stream) → is_publishing s.state ≡ true → Continues s s
same s on = record {
  state = on;
  publisher = refl;
  generation = refl;
  last_id = refl;
  boundary = refl;
  used_ids = refl;
  destroy_notified = refl;
  ring_closed = refl;
}

no_publisher_lem :
    (s : Stream) → is_publishing s.state ≡ true → Continues s (no_publisher_expired s)
unfolding no_publisher_expired
no_publisher_lem s on = ground (arith, on)

idle_lem : (s : Stream) → IsOwned s → is_publishing s.state ≡ true → Continues s (idle_expired s)
unfolding idle_expired
idle_lem s v on = let owned : is_some s.publisher ≡ true = v.owner ∙ on in rw owned (same s on)

policy_lem :
    (cfg : StreamConfig) (limits : LimitsConfig) (s : Stream)
    → is_publishing s.state ≡ true
    → Continues s (update_policy cfg limits s)
unfolding update_policy check_idle_timeout
policy_lem cfg limits s on = ground (arith, on)

subscribe_lem :
    (p : String) (s t : Stream)
    → is_publishing s.state ≡ true
    → add_subscriber p s ≡ some t
    → Continues s t
unfolding add_subscriber
subscribe_lem p s t on e = ground (arith, on, e)

lease_lem :
    (p : String) (g : ℕ) (s t : Stream)
    → is_publishing s.state ≡ true
    → add_subscriber_for_generation p g s ≡ some t
    → Continues s t
unfolding add_subscriber_for_generation
lease_lem p g s t on e = ground (arith, on, e)

unsubscribe_lem :
    (p : String) (s : Stream) → is_publishing s.state ≡ true → Continues s (remove_subscriber p s)
unfolding remove_subscriber check_idle_timeout
unsubscribe_lem p s on = ground (arith, on)

release_lem :
    (p : String) (g : ℕ) (s : Stream)
    → is_publishing s.state ≡ true
    → Continues s (remove_subscriber_for_generation p g s)
unfolding remove_subscriber_for_generation check_idle_timeout
release_lem p g s on = ground (arith, on)

after_media :
    (s0 : Stream) (f : Frame) (s : Stream) → Continues s0 s → Continues s0 (note_media f s)
unfolding note_media note_audio
after_media s0 f s c = ground (arith, c)

after_header :
    (s0 : Stream) (f : Frame) (s : Stream) → Continues s0 s → Continues s0 (note_header f s)
unfolding note_header
after_header s0 f s c = ground (arith, c)

after_ready : (s0 s : Stream) → Continues s0 s → Continues s0 (update_startup_ready s)
unfolding update_startup_ready
after_ready s0 s c = ground (arith, c)

after_store :
    (s0 : Stream) (f : Frame) (s : Stream) → Continues s0 s → Continues s0 (store_frame f s)
unfolding store_frame Ring.write
after_store s0 f s c = ground (arith, c)

write_lem :
    (b : Bool) (f : Frame) (s : Stream)
    → is_publishing s.state ≡ true
    → Continues s (write_frame_locked b f s).0
unfolding write_frame_locked
write_lem b f s on =
    let g : Frame = mark_frame (note_media f s) f in
    let stored =
      after_store s g _ (after_ready s _ (after_header s g _ (after_media s f s (same s on)))) in
    elim (Bool-cases (ltb 0 s.limits.max_bitrate_per_stream && not (is_header f) && b)) [
      | inl e ↦ rw e (same s on)
      | inr e ↦ rw e stored
    ]

frame_lem :
    (b : Bool) (f : Option Frame) (s : Stream)
    → is_publishing s.state ≡ true
    → Continues s (write_frame b f s).0
unfolding write_frame
frame_lem b none s on = same s on
frame_lem b (some f) s on = write_lem b f s on

frame_for_lem :
    (b : Bool) (p : Option Publisher) (f : Option Frame) (s : Stream)
    → is_publishing s.state ≡ true
    → Continues s (write_frame_for_publisher b p f s).0
unfolding write_frame_for_publisher
frame_for_lem b p none s on = same s on
frame_for_lem b p (some f) s on =
    elim (Bool-cases (publisher_matches p s && is_publishing s.state)) [
      | inl e ↦ rw e (write_lem b f s on)
      | inr e ↦ rw e (same s on)
    ]

step_lem :
    {s t : Stream} (st : Step s t)
    → IsOwned s
    → is_publishing s.state ≡ true
    → Ends s t st ⊎ Continues s t
unfolding remove_publisher_if
step_lem (publish none {s = s} {t = t} e) v on = unfold set_publisher in cc e
step_lem (publish (some p) {s = s} {t = t} e) v on =
    let (_, idle, _, _) = set_publisher-accepted p s t e in ground (arith, idle, on)
step_lem (unpublish s) v on = inl (unpublished s)
step_lem (unpublish_if p s) v on = elim (Bool-cases (publisher_matches p s)) [
  | inl e ↦ inl (unpublished_if p s e)
  | inr e ↦ inr (rw e (same s on))
]
step_lem (no_publisher_fires s) v on = inr (no_publisher_lem s on)
step_lem (idle_fires s) v on = inr (idle_lem s v on)
step_lem (closes s) v on = inl (closed s)
step_lem (policy cfg l s) v on = inr (policy_lem cfg l s on)
step_lem (subscribe p {s = s} {t = t} e) v on = inr (subscribe_lem p s t on e)
step_lem (lease p g {s = s} {t = t} e) v on = inr (lease_lem p g s t on e)
step_lem (unsubscribe p s) v on = inr (unsubscribe_lem p s on)
step_lem (release p g s) v on = inr (release_lem p g s on)
step_lem (frame b f s) v on = inr (frame_lem b f s on)
step_lem (frame_for b p f s) v on = inr (frame_for_lem b p f s on)

-- In every run from a new stream: while a stream is publishing, a step either is RemovePublisher, a
-- RemovePublisherIf by a publisher that matches, or Close; or, whatever it is (a frame, a subscriber, a
-- policy, another publisher, a late callback of either timer), the stream goes on publishing with the same
-- publisher, generation, boundary and used IDs, its ring is not closed by it and no destruction is told.
pub publication-Continues :
    (cfg : StreamConfig) (limits : LimitsConfig) {s t : Stream}
    → Reach (new_stream cfg limits) s
    → is_publishing s.state ≡ true
    → (st : Step s t) → Ends s t st ⊎ Continues s t
publication-Continues cfg limits r on st = step_lem st (Reach-IsOwned cfg limits r) on
