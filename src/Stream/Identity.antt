-- ===== src/Stream/Identity.antt =====
-- core/stream.go: which IDs may publish, and which publisher passes for the present one.
use liveforge.Base.{
  ltb, false≢true, String, str_eq, str_eq_iff, Bool, true, false, not, Option, none, some, ◌≡◌, ◌≢◌,
  ◌↔◌, refl, sym, ap, subst, arith, ◌&&◌, Bool-cases, inl, inr, ◌∙◌,
}
use liveforge.AvFrame.{Frame, is_header}
use liveforge.Config.{StreamConfig, LimitsConfig}
use liveforge.Stream.{
  Stream, Publisher, DynamicType, comparable, incomparable, new_stream, is_destroying,
  is_publishing, is_some, contains, close_generation, check_idle_timeout, update_startup_ready,
}
use liveforge.Stream.Publish.{
  accepted, set_publisher, install_publisher, publisher_matches, same_type, is_comparable,
  same_publisher, candidate_matches, remove_publisher, no_publisher_expired, idle_expired, close,
  destroy, update_policy, add_subscriber, add_subscriber_for_generation, remove_subscriber,
  remove_subscriber_for_generation,
}
use liveforge.Stream.Frames.{
  mark_frame, write_frame_locked, store_frame, note_header, note_media, note_audio,
}
use liveforge.Stream.Life.{Reach-IsOwned}
use liveforge.Stream.Steps.{Reach, Keeps, Reach_keeps, set_publisher-accepted}
use liveforge.Stream.Progress.{is_used, Reach-Advances}

pub contains_self :
    (id : String) (p : Publisher) (s : Stream)
    → p.id ≡ id
    → id ≢ ""
    → is_used id (install_publisher p s) ≡ true
unfolding install_publisher
contains_self id p s e ne = ground (arith, e, str_eq_iff p.id "", str_eq_iff p.id id)

-- An ID that has published on a stream never publishes on it again, as long as the stream lives:
-- whatever happens in between, a publisher with that ID is refused.
pub publisher_id_once :
    (p q : Publisher) (s t u v : Stream)
    → set_publisher (some p) s ≡ accepted t
    → p.id ≢ ""
    → Reach t u
    → q.id ≡ p.id
    → set_publisher (some q) u ≢ accepted v
publisher_id_once p q s t u v e ne r same e' =
    let (installed, _, _, _) = set_publisher-accepted p s t e in
    let (_, _, alive, fresh) = set_publisher-accepted q u v e' in
    let first : is_used p.id t ≡ true = rw installed (contains_self p.id p s refl ne) in
    let later : is_used p.id u ≡ true = (Reach-Advances r).used p.id first in
    refused_again q.id u alive fresh (λ x. ne (rw (← same) x)) (rw same later)
  where
    refused_again :
        (id : String) (u : Stream)
        → is_destroying u.state ≡ false
        → (not (str_eq id "") && contains id u.used_publisher_ids) ≡ false
        → id ≢ ""
        → is_used id u ≡ true
        → ⊥
    refused_again id u alive fresh ne used = ground (arith, alive, fresh, used, str_eq_iff id "")

-- While the stream has a publisher, `lastPublisherID` is its ID.
abbrev Names : Option Publisher → String → Type 0
Names none id = Unit
Names (some p) id = id ≡ p.id

abbrev IsNamed : Stream → Type 0
IsNamed s = Names s.publisher s.last_publisher_id

new_stream-IsNamed : (cfg : StreamConfig) (limits : LimitsConfig) → IsNamed (new_stream cfg limits)
unfolding new_stream
new_stream-IsNamed cfg limits = tt

note_media-IsNamed : (f : Frame) (s : Stream) → IsNamed s → IsNamed (note_media f s)
unfolding note_media note_audio
note_media-IsNamed f s v = ground (arith, v)

note_header-IsNamed : (f : Frame) (s : Stream) → IsNamed s → IsNamed (note_header f s)
unfolding note_header
note_header-IsNamed f s v = ground (arith, v)

update_startup_ready-IsNamed : (s : Stream) → IsNamed s → IsNamed (update_startup_ready s)
unfolding update_startup_ready
update_startup_ready-IsNamed s v = ground (arith, v)

store_frame-IsNamed : (f : Frame) (s : Stream) → IsNamed s → IsNamed (store_frame f s)
unfolding store_frame
store_frame-IsNamed f s v = ground (arith, v)

write_frame_locked-IsNamed :
    (b : Bool) (f : Frame) (s : Stream) → IsNamed s → IsNamed (write_frame_locked b f s).0
unfolding write_frame_locked
write_frame_locked-IsNamed b f s v =
    let g : Frame = mark_frame (note_media f s) f in
    let stored =
      store_frame-IsNamed g _
        (update_startup_ready-IsNamed _ (note_header-IsNamed g _ (note_media-IsNamed f s v))) in
    elim (Bool-cases (ltb 0 s.limits.max_bitrate_per_stream && not (is_header f) && b)) [
      | inl e ↦ rw e v
      | inr e ↦ rw e stored
    ]

named : Keeps IsNamed
unfolding install_publisher remove_publisher no_publisher_expired idle_expired close destroy
    close_generation check_idle_timeout update_policy add_subscriber add_subscriber_for_generation
    remove_subscriber remove_subscriber_for_generation
named = record {
  installs = λ p s _ _ _ v. refl;
  removes = λ s v. ground (arith, v);
  no_publisher = λ s v. ground (arith, v);
  idle = λ s v. ground (arith, v);
  ends = λ s v. ground (arith, v);
  updates = λ cfg l s v. ground (arith, v);
  adds = λ p s t v e. ground (arith, v, e);
  leases = λ p g s t v e. ground (arith, v, e);
  leaves = λ p s v. ground (arith, v);
  releases = λ p g s v. ground (arith, v);
  writes = write_frame_locked-IsNamed;
}

-- Go holds the two publishers for the same: they have the same dynamic type, whose values can be compared,
-- and the same value.
pub record AreSame (p q : Publisher) : Type 0 where
  pub types : q.dynamic_type ≡ p.dynamic_type
  pub can_compare : is_comparable p.dynamic_type ≡ true
  pub objects : q.object ≡ p.object

equal_types : (a b : DynamicType) → same_type a b ≡ true → b ≡ a
equal_types (comparable a) (comparable b) h = ap comparable (ground (arith, h))
equal_types (incomparable a) (incomparable b) h = ap incomparable (ground (arith, h))
equal_types (comparable a) (incomparable b) h = absurd (false≢true h)
equal_types (incomparable a) (comparable b) h = absurd (false≢true h)

same_type_refl : (a : DynamicType) → same_type a a ≡ true
same_type_refl (comparable a) = ground arith
same_type_refl (incomparable a) = ground arith

same_publisher_iff : (p q : Publisher) → (same_publisher p q ≡ true) ↔ AreSame p q
unfolding same_publisher
same_publisher_iff p q = (
  λ h. record {
    types = equal_types p.dynamic_type q.dynamic_type (ground (arith, h));
    can_compare = ground (arith, h);
    objects = ground (arith, h);
  },
  λ v.
      let same : same_type p.dynamic_type q.dynamic_type ≡ true =
        ap (same_type p.dynamic_type) v.types ∙ same_type_refl p.dynamic_type in
      ground (arith, same, v.can_compare, v.objects),
)

candidate_lem :
    (p q : Publisher)
    → (candidate_matches p.id p q ≡ true) ↔ (q.id ≡ p.id) × (p.id ≡ "" → AreSame p q)
unfolding candidate_matches
candidate_lem p q = (
  λ h. (
    ground (arith, h, str_eq_iff p.id q.id, str_eq_iff p.id "", str_eq_iff q.id ""),
    λ e.
        (same_publisher_iff p q).0
          (ground (arith, h, e, str_eq_iff p.id q.id, str_eq_iff p.id "", str_eq_iff q.id "")),
  ),
  λ v. elim (Bool-cases (str_eq p.id "")) [
    | inl e ↦
        let same : same_publisher p q ≡ true =
          (same_publisher_iff p q).1 (v.1 ((str_eq_iff p.id "").0 e)) in
        ground (arith, v.0, same, e, str_eq_iff p.id q.id, str_eq_iff p.id "", str_eq_iff q.id "")
    | inr e ↦ ground (arith, v.0, e, str_eq_iff p.id q.id, str_eq_iff p.id "", str_eq_iff q.id "")
  ],
)

matches_owner :
    (p q : Publisher) (s : Stream)
    → is_publishing s.state ≡ true
    → s.last_publisher_id ≡ p.id
    → s.publisher ≡ some p
    → publisher_matches (some q) s ≡ candidate_matches p.id p q
unfolding publisher_matches
matches_owner p q s on id owner = rw (on, id, owner)

-- In every run from a new stream: while the stream has a publisher, another one passes for it exactly if
-- it has the same ID and, where that is empty, has the same dynamic type, whose values Go can compare,
-- and the same value.
pub publisher_matches_iff :
    (cfg : StreamConfig) (limits : LimitsConfig) (p q : Publisher) {s : Stream}
    → Reach (new_stream cfg limits) s
    → s.publisher ≡ some p
    → (publisher_matches (some q) s ≡ true) ↔ (q.id ≡ p.id) × (p.id ≡ "" → AreSame p q)
publisher_matches_iff cfg limits p q {s} r owner =
    let on : is_publishing s.state ≡ true =
      sym (Reach-IsOwned cfg limits r).owner ∙ ap is_some owner in
    let id : s.last_publisher_id ≡ p.id =
      subst (λ o. Names o s.last_publisher_id) owner
        (Reach_keeps named r (new_stream-IsNamed cfg limits)) in
    rw (matches_owner p q s on id owner) (candidate_lem p q)
