-- ===== src/Stream/Steps.antt =====
-- core/stream.go: every run of a stream, as a sequence of calls of its methods and of callbacks of
-- its timers, by any number of threads, each one step.
use liveforge.Base.{
  ℕ, String, Bool, false, not, Option, none, some, ◌≡◌, arith, ◌&&◌, Bool-cases, inl, inr, str_eq,
}
use liveforge.AvFrame.{Frame}
use liveforge.Config.{StreamConfig, LimitsConfig}
use liveforge.Stream.{Stream, Publisher, is_destroying, is_publishing, contains}
use liveforge.Stream.Publish.{
  accepted, set_publisher, install_publisher, remove_publisher, remove_publisher_if,
  publisher_matches, no_publisher_expired, idle_expired, close, update_policy, add_subscriber,
  add_subscriber_for_generation, remove_subscriber, remove_subscriber_for_generation,
}
use liveforge.Stream.Frames.{write_frame_locked, write_frame, write_frame_for_publisher}

-- One call or callback. A call that is refused is no step: it leaves the stream as it is.
pub data Step : Stream → Stream → Type 0 where
  publish : (p : Option Publisher) {s t : Stream} → set_publisher p s ≡ accepted t → Step s t
  unpublish : (s : Stream) → Step s (remove_publisher s)
  unpublish_if : (p : Option Publisher) (s : Stream) → Step s (remove_publisher_if p s).0
  no_publisher_fires : (s : Stream) → Step s (no_publisher_expired s)
  idle_fires : (s : Stream) → Step s (idle_expired s)
  closes : (s : Stream) → Step s (close s).0
  policy :
      (cfg : StreamConfig) (limits : LimitsConfig) (s : Stream)
      → Step s (update_policy cfg limits s)
  subscribe : (p : String) {s t : Stream} → add_subscriber p s ≡ some t → Step s t
  lease :
      (p : String) (g : ℕ) {s t : Stream} → add_subscriber_for_generation p g s ≡ some t → Step s t
  unsubscribe : (p : String) (s : Stream) → Step s (remove_subscriber p s)
  release : (p : String) (g : ℕ) (s : Stream) → Step s (remove_subscriber_for_generation p g s)
  frame : (b : Bool) (f : Option Frame) (s : Stream) → Step s (write_frame b f s).0
  frame_for :
      (b : Bool) (p : Option Publisher) (f : Option Frame) (s : Stream)
      → Step s (write_frame_for_publisher b p f s).0

pub data Reach (s : Stream) : Stream → Type 0 where
  here : Reach s s
  next : {t u : Stream} → Reach s t → Step t u → Reach s u

-- What `SetPublisher` has tested when it accepts a publisher.
pub set_publisher-accepted :
    (p : Publisher) (s t : Stream)
    → set_publisher (some p) s ≡ accepted t
    → (t ≡ install_publisher p s)
      × (is_publishing s.state ≡ false)
      × (is_destroying s.state ≡ false)
      × ((not (str_eq p.id "") && contains p.id s.used_publisher_ids) ≡ false)
unfolding set_publisher
set_publisher-accepted p s t e = ground (arith, e)

-- An invariant of each method's body is one of every step.
pub record Keeps (P : Stream → Type 0) : Type 0 where
  pub installs :
      (p : Publisher) (s : Stream)
      → is_publishing s.state ≡ false
      → is_destroying s.state ≡ false
      → (not (str_eq p.id "") && contains p.id s.used_publisher_ids) ≡ false
      → P s
      → P (install_publisher p s)
  pub removes : (s : Stream) → P s → P (remove_publisher s)
  pub no_publisher : (s : Stream) → P s → P (no_publisher_expired s)
  pub idle : (s : Stream) → P s → P (idle_expired s)
  pub ends : (s : Stream) → P s → P (close s).0
  pub updates :
      (cfg : StreamConfig) (limits : LimitsConfig) (s : Stream)
      → P s
      → P (update_policy cfg limits s)
  pub adds : (p : String) (s t : Stream) → P s → add_subscriber p s ≡ some t → P t
  pub leases :
      (p : String) (g : ℕ) (s t : Stream) → P s → add_subscriber_for_generation p g s ≡ some t → P t
  pub leaves : (p : String) (s : Stream) → P s → P (remove_subscriber p s)
  pub releases :
      (p : String) (g : ℕ) (s : Stream) → P s → P (remove_subscriber_for_generation p g s)
  pub writes : (b : Bool) (f : Frame) (s : Stream) → P s → P (write_frame_locked b f s).0

module _ {P : Stream → Type 0} (k : Keeps P) where
  publish_keeps : (p : Option Publisher) (s t : Stream) → P s → set_publisher p s ≡ accepted t → P t
  publish_keeps none s t v e = unfold set_publisher in cc e
  publish_keeps (some p) s t v e =
      let (same, idle, alive, fresh) = set_publisher-accepted p s t e in
      rw same (k.installs p s idle alive fresh v)

  pub Step_keeps : {s t : Stream} → Step s t → P s → P t
  unfolding remove_publisher_if write_frame write_frame_for_publisher
  Step_keeps (publish p {s = s} {t = t} e) v = publish_keeps p s t v e
  Step_keeps (unpublish s) v = k.removes s v
  Step_keeps (unpublish_if p s) v = elim (Bool-cases (publisher_matches p s)) [
    | inl e ↦ rw e (k.removes s v)
    | inr e ↦ rw e v
  ]
  Step_keeps (no_publisher_fires s) v = k.no_publisher s v
  Step_keeps (idle_fires s) v = k.idle s v
  Step_keeps (closes s) v = k.ends s v
  Step_keeps (policy cfg l s) v = k.updates cfg l s v
  Step_keeps (subscribe p {s = s} {t = t} e) v = k.adds p s t v e
  Step_keeps (lease p g {s = s} {t = t} e) v = k.leases p g s t v e
  Step_keeps (unsubscribe p s) v = k.leaves p s v
  Step_keeps (release p g s) v = k.releases p g s v
  Step_keeps (frame b none s) v = v
  Step_keeps (frame b (some f) s) v = k.writes b f s v
  Step_keeps (frame_for b p none s) v = v
  Step_keeps (frame_for b p (some f) s) v =
      elim (Bool-cases (publisher_matches p s && is_publishing s.state)) [
        | inl e ↦ rw e (k.writes b f s v)
        | inr e ↦ rw e v
      ]

  pub Reach_keeps : {s t : Stream} → Reach s t → P s → P t
  Reach_keeps here v = v
  Reach_keeps (next r st) v = Step_keeps st (Reach_keeps r v)
