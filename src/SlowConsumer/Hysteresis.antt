-- ===== src/SlowConsumer/Hysteresis.antt =====
-- core/slow_consumer.go: the state of a subscriber from the history of its lag.
use liveforge.Base.{
  ℕ, ◌+◌, ◌≡◌, subst, refl, sym, ◌∙◌, ap, Bool, true, false, not, ◌&&◌, ◌||◌, Option, List, [], ◌∷◌,
  if◌then◌else◌, arith,
}
use liveforge.AvFrame.{Frame, is_video, is_keyframe}
use liveforge.SlowConsumer.{
  Floats, ConsumerState, normal, drop_non_key, skip_to_key, is_normal, SlowConsumerConfig,
  SlowConsumerFilter, should_deliver, new_slow_consumer_filter, lag_of, is_send_slow, next_state,
  update_state, policy_of, apply_policy, report_send_time, record_overwrite,
}
use liveforge.SlowConsumer.Policy.{apply_on, apply_policy_lem}

abbrev pub is_skipping : ConsumerState → Bool
is_skipping skip_to_key = true
is_skipping _ = false

abbrev pub is_video_key : Frame → Bool
is_video_key frame = is_video frame.media_type && is_keyframe frame.frame_type

-- What the filter has seen with one frame: the lag, whether sending was slow, and the frame.
pub record Observation (F : Type 0) : Type 0 where
  pub lag : F
  pub slow : Bool
  pub seen : Frame

module _ {F : Type 0} (fl : Floats F) where
  -- The subscriber has fallen behind, by the observations, the latest one first: it falls behind when the
  -- lag is above the drop ratio while sending is slow, and stays so until the lag is below the recover
  -- ratio.
  abbrev pub is_behind : SlowConsumerConfig F → List (Observation F) → Bool
  is_behind cfg [] = false
  is_behind cfg (o ∷ before) =
      let was = is_behind cfg before in
      if was
      then not (fl.less o.lag cfg.lag_recover_ratio)
      else fl.less cfg.lag_drop_ratio o.lag && o.slow

  -- It waits for a key frame: once behind, the lag has been critical, and since then it was not below
  -- the recover ratio and no video key frame has come.
  abbrev pub awaits_key : SlowConsumerConfig F → List (Observation F) → Bool
  awaits_key cfg [] = false
  awaits_key cfg (o ∷ before) =
      let awaited = awaits_key cfg before in
      is_behind cfg before
      && not (is_video_key o.seen)
      && not (fl.less o.lag cfg.lag_recover_ratio)
      && (fl.less cfg.lag_critical_ratio o.lag || awaited)

  -- how many frames are dropped: those that come while the subscriber is behind, but for audio frames,
  -- sequence headers and video key frames
  abbrev pub drops : SlowConsumerConfig F → List (Observation F) → ℕ
  drops cfg [] = 0
  drops cfg (o ∷ before) =
      let rest = drops cfg before in
      if is_behind cfg (o ∷ before) && not (should_deliver o.seen) then rest + 1 else rest

  -- Any calls on a new filter, with the observations that they have made.
  pub data Run (cfg : SlowConsumerConfig F) (skip_cfg : Option (ℕ × ℕ))
      : List (Observation F) → SlowConsumerFilter F → Type 0 where
    start : Run cfg skip_cfg [] (new_slow_consumer_filter fl cfg skip_cfg)
    frame_comes :
        {h : List (Observation F)} {f : SlowConsumerFilter F} (lag : ℕ × ℕ) (frame : Frame)
        → Run cfg skip_cfg h f
        → Run cfg skip_cfg
            (record { lag = lag_of fl lag; slow = is_send_slow fl f; seen = frame } ∷ h)
            (apply_policy fl lag frame f).0
    send_ends :
        {h : List (Observation F)} {f : SlowConsumerFilter F} (ms : ℕ)
        → Run cfg skip_cfg h f
        → Run cfg skip_cfg h (report_send_time fl ms f)
    reader_skips :
        {h : List (Observation F)} {f : SlowConsumerFilter F} (now : ℕ)
        → Run cfg skip_cfg h f
        → Run cfg skip_cfg h (record_overwrite fl now f).0

  -- The state after a frame, from the state before it.
  abbrev after : F → Bool → Frame → SlowConsumerConfig F → ConsumerState → ConsumerState
  after lag slow frame cfg st =
      let st' = next_state fl lag slow cfg st in
      if is_skipping st' && is_video_key frame then drop_non_key else st'

  policy_state :
      (st : ConsumerState) (frame : Frame) (f : SlowConsumerFilter F)
      → f.state ≡ st
      → (policy_of fl st frame f).0.state
        ≡ (if is_skipping st && is_video_key frame then drop_non_key else st)
  policy_state normal frame f e = e
  policy_state drop_non_key frame f e = ground (arith, e)
  policy_state skip_to_key frame f e = ground (arith, e)

  apply_state :
      (lag : ℕ × ℕ) (frame : Frame) (f : SlowConsumerFilter F)
      → f.config.is_enabled ≡ true
      → (apply_policy fl lag frame f).0.state
        ≡ after (lag_of fl lag) (is_send_slow fl f) frame f.config f.state
  unfolding update_state
  apply_state lag frame f e =
      ap (λ x. x.0.state) (apply_on fl lag frame f e)
      ∙ policy_state (update_state fl lag f).state frame (update_state fl lag f) refl

  policy_config :
      (st : ConsumerState) (frame : Frame) (f : SlowConsumerFilter F)
      → (policy_of fl st frame f).0.config ≡ f.config
  policy_config normal frame f = refl
  policy_config drop_non_key frame f = ground arith
  policy_config skip_to_key frame f = ground arith

  apply_config :
      (lag : ℕ × ℕ) (frame : Frame) (f : SlowConsumerFilter F)
      → f.config.is_enabled ≡ true
      → (apply_policy fl lag frame f).0.config ≡ f.config
  unfolding update_state
  apply_config lag frame f e =
      ap (λ x. x.0.config) (apply_on fl lag frame f e)
      ∙ policy_config (update_state fl lag f).state frame (update_state fl lag f)

  -- The state tells what the history says.
  pub record Tells (cfg : SlowConsumerConfig F) (h : List (Observation F)) (st : ConsumerState)
      : Type 0 where
    pub behind : is_normal st ≡ not (is_behind cfg h)
    pub skipping : is_skipping st ≡ awaits_key cfg h

  -- No lag is critical and below the recover ratio at once.
  abbrev pub AreApart : SlowConsumerConfig F → Type 0
  AreApart cfg =
      (x : F) → fl.less cfg.lag_critical_ratio x ≡ true → fl.less x cfg.lag_recover_ratio ≡ false

  after-Tells :
      (cfg : SlowConsumerConfig F) (o : Observation F) (h : List (Observation F))
      (st : ConsumerState)
      → AreApart cfg
      → Tells cfg h st
      → Tells cfg (o ∷ h) (after o.lag o.slow o.seen cfg st)
  after-Tells cfg o h normal apart t = record {
    behind = ground (arith, t.behind, t.skipping);
    skipping = ground (arith, t.behind, t.skipping);
  }
  after-Tells cfg o h drop_non_key apart t = record {
    behind = ground (arith, t.behind, t.skipping, apart o.lag);
    skipping = ground (arith, t.behind, t.skipping, apart o.lag);
  }
  after-Tells cfg o h skip_to_key apart t = record {
    behind = ground (arith, t.behind, t.skipping);
    skipping = ground (arith, t.behind, t.skipping);
  }

  -- What a run keeps.
  pub record Follows (cfg : SlowConsumerConfig F) (h : List (Observation F))
      (f : SlowConsumerFilter F) : Type 0 where
    pub config : f.config ≡ cfg
    pub tells : Tells cfg h f.state
    pub dropped : f.dropped ≡ drops cfg h

  next_normal :
      (lag : F) (slow : Bool) (frame : Frame) (cfg : SlowConsumerConfig F) (st : ConsumerState)
      → is_normal (next_state fl lag slow cfg st) ≡ is_normal (after lag slow frame cfg st)
  next_normal lag slow frame cfg normal = ground arith
  next_normal lag slow frame cfg drop_non_key = ground arith
  next_normal lag slow frame cfg skip_to_key = ground arith

  apply_dropped :
      (lag : ℕ × ℕ) (frame : Frame) (f : SlowConsumerFilter F) (behind : Bool)
      → f.config.is_enabled ≡ true
      → is_normal (after (lag_of fl lag) (is_send_slow fl f) frame f.config f.state) ≡ not behind
      → (apply_policy fl lag frame f).0.dropped
        ≡ (if behind && not (should_deliver frame) then f.dropped + 1 else f.dropped)
  unfolding update_state
  apply_dropped lag frame f behind e after_normal =
      let due =
        next_normal (lag_of fl lag) (is_send_slow fl f) frame f.config f.state ∙ after_normal in
      (apply_policy_lem fl lag frame f).1 ∙ ground (arith, e, due)

  frame-Follows :
      (cfg : SlowConsumerConfig F) (h : List (Observation F)) (f : SlowConsumerFilter F)
      (lag : ℕ × ℕ) (frame : Frame)
      → cfg.is_enabled ≡ true
      → AreApart cfg
      → Follows cfg h f
      → Follows cfg
          (record { lag = lag_of fl lag; slow = is_send_slow fl f; seen = frame } ∷ h)
          (apply_policy fl lag frame f).0
  frame-Follows cfg h f lag frame on apart v =
      let o : Observation F = record {
        lag = lag_of fl lag;
        slow = is_send_slow fl f;
        seen = frame;
      } in
      let enabled : f.config.is_enabled ≡ true = ap (λ c. c.is_enabled) v.config ∙ on in
      let same : after o.lag o.slow frame f.config f.state ≡ after o.lag o.slow frame cfg f.state =
        ap (λ c. after o.lag o.slow frame c f.state) v.config in
      let t : Tells cfg (o ∷ h) (after o.lag o.slow frame cfg f.state) =
        after-Tells cfg o h f.state apart v.tells in
      record {
        config = apply_config lag frame f enabled ∙ v.config;
        tells = subst (Tells cfg (o ∷ h)) (sym (apply_state lag frame f enabled ∙ same)) t;
        dropped =
            apply_dropped lag frame f (is_behind cfg (o ∷ h)) enabled (ap is_normal same ∙ t.behind)
            ∙ ap (λ n. if is_behind cfg (o ∷ h) && not (should_deliver frame) then n + 1 else n)
                v.dropped;
      }

  -- Over any calls on a new filter that is enabled, where no lag is critical and below the recover
  -- ratio at once: the state is not the normal one exactly if the history says that the subscriber has
  -- fallen behind; it is the one that skips to a key frame exactly if the history says that it waits for
  -- one; and the number of dropped frames is the number of frames, other than audio frames, sequence
  -- headers and video key frames, that came while it was behind.
  pub Run-Follows :
      (cfg : SlowConsumerConfig F) (skip_cfg : Option (ℕ × ℕ)) {h : List (Observation F)}
      {f : SlowConsumerFilter F}
      → cfg.is_enabled ≡ true
      → AreApart cfg
      → Run cfg skip_cfg h f
      → Follows cfg h f
  unfolding new_slow_consumer_filter report_send_time
  Run-Follows cfg skip_cfg on apart start = record {
    config = refl;
    tells = record { behind = refl; skipping = refl };
    dropped = refl;
  }
  Run-Follows cfg skip_cfg on apart (frame_comes {h = h} {f = f} lag frame r) =
      frame-Follows cfg h f lag frame on apart (Run-Follows cfg skip_cfg on apart r)
  Run-Follows cfg skip_cfg on apart (send_ends {f = f} ms r) =
      let v = Run-Follows cfg skip_cfg on apart r in ground (arith, v)
  Run-Follows cfg skip_cfg on apart (reader_skips {f = f} now r) =
      let v = Run-Follows cfg skip_cfg on apart r in ground (arith, v)
