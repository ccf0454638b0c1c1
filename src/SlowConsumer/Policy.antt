-- ===== src/SlowConsumer/Policy.antt =====
-- core/slow_consumer.go: which frames a slow subscriber gets.
use liveforge.Base.{
  ℕ, ◌+◌, ◌≡◌, sym, ◌∙◌, ap, Bool, true, false, not, ◌||◌, if◌then◌else◌, arith, Bool-cases, inl,
  inr,
}
use liveforge.AvFrame.{Frame}
use liveforge.SlowConsumer.{
  Floats, ConsumerState, normal, drop_non_key, skip_to_key, is_normal, SlowConsumerFilter,
  should_deliver, update_state, policy_of, apply_policy,
}

module _ {F : Type 0} (fl : Floats F) where
  -- what the policy does in a state
  policy_of_lem :
      (st : ConsumerState) (frame : Frame) (f : SlowConsumerFilter F)
      → ((policy_of fl st frame f).1 ≡ (should_deliver frame || is_normal st))
        × ((policy_of fl st frame f).0.dropped
            ≡ (if should_deliver frame || is_normal st then f.dropped else f.dropped + 1))
  unfolding should_deliver
  policy_of_lem normal frame f = ground arith
  policy_of_lem drop_non_key frame f = ground arith
  policy_of_lem skip_to_key frame f = ground arith

  -- whether a frame is delivered: all are if the filter is off or, once the lag is taken into
  -- account, in the normal state
  abbrev pub is_due : ℕ × ℕ → Frame → SlowConsumerFilter F → Bool
  is_due lag frame f =
      not f.config.is_enabled || (should_deliver frame || is_normal (update_state fl lag f).state)

  pub apply_on :
      (lag : ℕ × ℕ) (frame : Frame) (f : SlowConsumerFilter F)
      → f.config.is_enabled ≡ true
      → apply_policy fl lag frame f
        ≡ policy_of fl (update_state fl lag f).state frame (update_state fl lag f)
  unfolding apply_policy
  apply_on lag frame f e =
      ap
        (λ b.
          if not b
          then (f, true)
          else policy_of fl (update_state fl lag f).state frame (update_state fl lag f))
        e

  apply_off :
      (lag : ℕ × ℕ) (frame : Frame) (f : SlowConsumerFilter F)
      → f.config.is_enabled ≡ false
      → apply_policy fl lag frame f ≡ (f, true)
  unfolding apply_policy
  apply_off lag frame f e =
      ap
        (λ b.
          if not b
          then (f, true)
          else policy_of fl (update_state fl lag f).state frame (update_state fl lag f))
        e

  -- `applyPolicy` in every state, whatever the lag and the send times are: audio frames, sequence
  -- headers and video key frames are always delivered; any other frame is if the filter is off, or if
  -- the state that follows from the lag is the normal one; and a frame that is not delivered, and
  -- only that, is counted as dropped.
  pub apply_policy_lem :
      (lag : ℕ × ℕ) (frame : Frame) (f : SlowConsumerFilter F)
      → ((apply_policy fl lag frame f).1 ≡ is_due lag frame f)
        × ((apply_policy fl lag frame f).0.dropped
            ≡ (if is_due lag frame f then f.dropped else f.dropped + 1))
  unfolding update_state
  apply_policy_lem lag frame f = elim (Bool-cases f.config.is_enabled) [
    | inl e ↦
        let due = should_deliver frame || is_normal (update_state fl lag f).state in
        let enabled : is_due lag frame f ≡ due = ap (λ b. not b || due) e in
        let (delivers, counts) =
          policy_of_lem (update_state fl lag f).state frame (update_state fl lag f) in
        (
          ap (λ x. x.1) (apply_on lag frame f e) ∙ delivers ∙ sym enabled,
          ap (λ x. x.0.dropped) (apply_on lag frame f e)
              ∙ counts
              ∙ ap (λ b. if b then f.dropped else f.dropped + 1) (sym enabled),
        )
    | inr e ↦
        let due = should_deliver frame || is_normal (update_state fl lag f).state in
        let disabled : is_due lag frame f ≡ true = ap (λ b. not b || due) e in
        (
          ap (λ x. x.1) (apply_off lag frame f e) ∙ sym disabled,
          ap (λ x. x.0.dropped) (apply_off lag frame f e)
              ∙ ap (λ b. if b then f.dropped else f.dropped + 1) (sym disabled),
        )
  ]
