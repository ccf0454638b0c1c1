-- ===== src/Stream/Startup/Runs.antt =====
-- core/stream.go: every step of a stream keeps its cache placed in the history.
use liveforge.Base.{
  ◌≡◌, refl, sym, ◌∙◌, ap, Bool, true, not, Option, none, some, List, [], ◌∷◌, ◌++◌, ◌&&◌, arith,
  ltb, length-append, append-nil, append_assoc, Bool-cases, inl, inr, subst, not_both,
}
use liveforge.AvFrame.{Frame, is_header}
use liveforge.Config.{StreamConfig, LimitsConfig, normalize_gop_config}
use liveforge.Ring
use liveforge.Ring.History.{Holds, write-Holds, accepted_open, accepted_closed, write_closed}
use liveforge.Gop.{cache_frame}
use liveforge.Gop.Placed.Writes.{InHistory, cache_frame-InHistory, update_gops-InHistory}
use liveforge.Stream.{Stream, Publisher, is_publishing, close_generation, update_startup_ready}
use liveforge.Stream.Publish.{
  accepted, set_publisher, remove_publisher_if, publisher_matches, destroy, close, update_policy,
}
use liveforge.Stream.Frames.{
  store_frame, note_header, note_media, mark_frame, write_frame_locked, write_frame,
  write_frame_for_publisher,
}
use liveforge.Stream.Steps.{
  Step, Reach, here, next, publish, unpublish, unpublish_if, no_publisher_fires, idle_fires, closes,
  policy, subscribe, lease, unsubscribe, release, frame, frame_for, set_publisher-accepted,
}
use liveforge.Stream.Startup.History.{
  stored, writes, history, HasHistory, IsSame-HasHistory, check_idle_timeout-IsSame,
  remove_publisher-IsSame, no_publisher_expired-IsSame, idle_expired-IsSame, add_subscriber-IsSame,
  add_subscriber_for_generation-IsSame, remove_subscriber-IsSame,
  remove_subscriber_for_generation-IsSame, noted-IsSame, install_publisher-HasHistory,
}

Holds-close : (h : List Frame) (rb : Ring.RingBuffer Frame) → Holds h rb → Holds h (Ring.close rb)
unfolding Ring.close
Holds-close h rb v = record {
  size_pos = v.size_pos;
  storage = v.storage;
  cursor = v.cursor;
  slot = v.slot;
}

-- `Close` closes the ring.
record IsClosed (s t : Stream) : Type 0 where
  ring : t.ring ≡ Ring.close s.ring
  began : t.generation_start_cursor ≡ s.generation_start_cursor

close-IsClosed : (s : Stream) → IsClosed s (close s).0
unfolding close close_generation destroy
close-IsClosed s = ground arith

closed-close : (rb : Ring.RingBuffer Frame) → (Ring.close rb).closed ≡ true
unfolding Ring.close
closed-close rb = refl

close-HasHistory : (s : Stream) (h : List Frame) → HasHistory h s → HasHistory h (close s).0
close-HasHistory s h v =
    let e = close-IsClosed s in
    record {
      holds = rw e.ring (Holds-close h s.ring v.holds);
      began = rw e.began v.began;
      placed = λ open_ring.
          absurd (not_both _ (ap (λ rb. rb.closed) e.ring ∙ closed-close s.ring) open_ring);
    }

update_policy-HasHistory :
    (cfg : StreamConfig) (limits : LimitsConfig) (s : Stream) (h : List Frame)
    → HasHistory h s
    → HasHistory h (update_policy cfg limits s)
unfolding update_policy
update_policy-HasHistory cfg limits s h v =
    IsSame-HasHistory (check_idle_timeout-IsSame _) (record {
      holds = v.holds;
      began = v.began;
      placed = λ e. update_gops-InHistory (normalize_gop_config cfg) _ h s.gops (v.placed e);
    })

store_frame-HasHistory :
    (f : Frame) (s : Stream) (h : List Frame)
    → HasHistory h s
    → HasHistory (h ++ Ring.History.accepted s.ring (f ∷ [])) (store_frame f s)
unfolding store_frame
store_frame-HasHistory f s h v = elim (Bool-cases s.ring.closed) [
  | inl e ↦
      rw (accepted_closed s.ring (f ∷ []) e, append-nil, write_closed s.ring f e)
        (record { holds = v.holds; began = v.began; placed = λ o. absurd (not_both _ e o) })
  | inr e ↦ rw (accepted_open s.ring (f ∷ []) e) (record {
    holds = write-Holds h s.ring f e v.holds;
    began = omega (arith, v.began, length-append h (f ∷ []));
    placed = λ _.
        subst
          (λ c. InHistory s.generation_start_cursor (h ++ f ∷ []) (cache_frame s.config c f s.gops))
          (sym v.holds.cursor) (cache_frame-InHistory s.config _ h f s.gops (v.placed e) v.began);
  })
]

-- Before it stores a frame, the stream notes it.
accepted-noted :
    (f f' : Frame) (s : Stream)
    → Ring.History.accepted (update_startup_ready (note_header f' (note_media f s))).ring (f' ∷ [])
      ≡ Ring.History.accepted s.ring (f' ∷ [])
accepted-noted f f' s = ap (λ rb. Ring.History.accepted rb (f' ∷ [])) (noted-IsSame f f' s).ring

write_frame_locked-HasHistory :
    (b : Bool) (f : Frame) (s : Stream) (h : List Frame)
    → HasHistory h s
    → HasHistory (h ++ stored b f s) (write_frame_locked b f s).0
unfolding write_frame_locked stored
write_frame_locked-HasHistory b f s h v =
    elim (Bool-cases (ltb 0 s.limits.max_bitrate_per_stream && not (is_header f) && b)) [
      | inl e ↦ rw (e, append-nil) v
      | inr e ↦
          let f' = mark_frame (note_media f s) f in
          rw e (
            subst
              (λ l.
                HasHistory (h ++ l)
                  (store_frame f' (update_startup_ready (note_header f' (note_media f s)))))
              (accepted-noted f f' s)
              (store_frame-HasHistory f' _ h (IsSame-HasHistory (noted-IsSame f f' s) v)))
    ]

publish-HasHistory :
    (p : Option Publisher) (s t : Stream) (h : List Frame)
    → HasHistory h s
    → set_publisher p s ≡ accepted t
    → HasHistory h t
publish-HasHistory none s t h v e = unfold set_publisher in cc e
publish-HasHistory (some p) s t h v e =
    rw (set_publisher-accepted p s t e).0 (install_publisher-HasHistory p s h v)

nothing : (h : List Frame) (s : Stream) → HasHistory h s → HasHistory (h ++ []) s
nothing h s v = rw append-nil v

Step-HasHistory :
    {s t : Stream} (step : Step s t) (h : List Frame)
    → HasHistory h s
    → HasHistory (h ++ writes step) t
unfolding writes remove_publisher_if write_frame write_frame_for_publisher
Step-HasHistory (publish p {s = s} {t = t} e) h v = nothing h _ (publish-HasHistory p s t h v e)
Step-HasHistory (unpublish s) h v = nothing h _ (IsSame-HasHistory (remove_publisher-IsSame s) v)
Step-HasHistory (unpublish_if p s) h v = elim (Bool-cases (publisher_matches p s)) [
  | inl e ↦ rw e (nothing h _ (IsSame-HasHistory (remove_publisher-IsSame s) v))
  | inr e ↦ rw e (nothing h _ v)
]
Step-HasHistory (no_publisher_fires s) h v =
    nothing h _ (IsSame-HasHistory (no_publisher_expired-IsSame s) v)
Step-HasHistory (idle_fires s) h v = nothing h _ (IsSame-HasHistory (idle_expired-IsSame s) v)
Step-HasHistory (closes s) h v = nothing h _ (close-HasHistory s h v)
Step-HasHistory (policy cfg l s) h v = nothing h _ (update_policy-HasHistory cfg l s h v)
Step-HasHistory (subscribe p {s = s} {t = t} e) h v =
    nothing h _ (IsSame-HasHistory (add_subscriber-IsSame p s t e) v)
Step-HasHistory (lease p g {s = s} {t = t} e) h v =
    nothing h _ (IsSame-HasHistory (add_subscriber_for_generation-IsSame p g s t e) v)
Step-HasHistory (unsubscribe p s) h v =
    nothing h _ (IsSame-HasHistory (remove_subscriber-IsSame p s) v)
Step-HasHistory (release p g s) h v =
    nothing h _ (IsSame-HasHistory (remove_subscriber_for_generation-IsSame p g s) v)
Step-HasHistory (frame b none s) h v = nothing h _ v
Step-HasHistory (frame b (some f) s) h v = write_frame_locked-HasHistory b f s h v
Step-HasHistory (frame_for b p none s) h v = nothing h _ v
Step-HasHistory (frame_for b p (some f) s) h v =
    elim (Bool-cases (publisher_matches p s && is_publishing s.state)) [
      | inl e ↦ rw e (write_frame_locked-HasHistory b f s h v)
      | inr e ↦ rw e (nothing h _ v)
    ]

pub run-HasHistory :
    {s t : Stream} (run : Reach s t) (h : List Frame)
    → HasHistory h s
    → HasHistory (h ++ history run) t
unfolding history
run-HasHistory here h v = nothing h _ v
run-HasHistory {s = s} {t = t} (next r step) h v =
    subst (λ l. HasHistory l t) (append_assoc h (history r) (writes step))
      (Step-HasHistory step (h ++ history r) (run-HasHistory r h v))
