-- ===== src/SlowConsumer.antt =====
-- core/slow_consumer.go: frames are dropped for a subscriber that is too slow. float64 is a type `F`
-- with the operations that the code uses. The reads of the reader are an argument: each comes with
-- the lag that the reader then has, and with the time.

pub mod Policy
pub mod Hysteresis
mod Tests
use liveforge.Base.{
  ℕ, ◌+◌, Bool, true, false, not, Option, none, some, List, [], ◌∷◌, ◌&&◌, ◌||◌, ltb, ◌==◌,
  if◌then◌else◌,
}
use liveforge.AvFrame.{Frame, is_video, is_audio, is_keyframe, is_header}
use liveforge.Ring.{RingReadResult}
use liveforge.SkipTracker.{SkipTracker, new_skip_tracker, record_skip}

-- what the code does with float64
pub record Floats (F : Type 0) : Type 0 where
  pub of_nat : ℕ → F
  pub add : F → F → F
  pub minus : F → F → F
  pub times : F → F → F
  pub over : F → F → F
  pub less : F → F → Bool
  pub equal : F → F → Bool

-- `ConsumerState`
pub data ConsumerState : Type 0 where
  normal drop_non_key skip_to_key : ConsumerState

abbrev pub is_normal : ConsumerState → Bool
is_normal normal = true
is_normal _ = false

-- `SlowConsumerConfig`
pub record SlowConsumerConfig (F : Type 0) : Type 0 where
  pub is_enabled : Bool
  pub lag_drop_ratio : F
  pub lag_critical_ratio : F
  pub lag_recover_ratio : F
  pub ewma_alpha : F
  pub send_time_ratio : F

-- `SlowConsumerFilter`, without its reader
pub record SlowConsumerFilter (F : Type 0) : Type 0 where
  pub config : SlowConsumerConfig F
  pub skip_tracker : Option SkipTracker
  pub state : ConsumerState
  pub ewma_send : F
  pub dropped : ℕ

-- `SlowConsumerFrameResult`
pub record SlowConsumerFrameResult : Type 0 where
  pub frame : Option Frame
  pub is_ok : Bool
  pub overwritten : ℕ

-- One read of the ring: what `TryReadResult` returned, or `ReadResult` where that had nothing; the
-- two numbers whose quotient is the lag of the reader after it; and the time.
pub record Seen : Type 0 where
  pub read : RingReadResult Frame
  pub lag : ℕ × ℕ
  pub now : ℕ

-- `shouldDeliver`
unfoldable pub should_deliver : Frame → Bool
should_deliver frame =
    if is_header frame
    then true
    else if is_audio frame.media_type
    then true
    else is_video frame.media_type && is_keyframe frame.frame_type

abbrev pub limited : Option (ℕ × ℕ) → Option SkipTracker
limited none = none
limited (some (max_count, window)) =
    if ltb 0 max_count && ltb 0 window then some (new_skip_tracker max_count window) else none

module _ {F : Type 0} (fl : Floats F) where
  -- `NewSlowConsumerFilter`; the settings of the skip tracker are its count and its window.
  unfoldable pub new_slow_consumer_filter :
      SlowConsumerConfig F → Option (ℕ × ℕ) → SlowConsumerFilter F
  new_slow_consumer_filter cfg skip_cfg = record {
    config = cfg;
    skip_tracker = limited skip_cfg;
    state = normal;
    ewma_send = fl.of_nat 0;
    dropped = 0;
  }

  -- `isSendSlow`
  unfoldable pub is_send_slow : SlowConsumerFilter F → Bool
  is_send_slow f =
      if fl.equal f.ewma_send (fl.of_nat 0)
      then false
      else fl.less (fl.times f.config.send_time_ratio (fl.of_nat 33)) f.ewma_send

  abbrev pub lag_of : ℕ × ℕ → F
  lag_of (behind, size) = fl.over (fl.of_nat behind) (fl.of_nat size)

  abbrev pub next_state : F → Bool → SlowConsumerConfig F → ConsumerState → ConsumerState
  next_state lag slow cfg normal =
      if fl.less cfg.lag_drop_ratio lag && slow then drop_non_key else normal
  next_state lag slow cfg drop_non_key =
      if fl.less cfg.lag_critical_ratio lag
      then skip_to_key
      else if fl.less lag cfg.lag_recover_ratio
      then normal
      else drop_non_key
  next_state lag slow cfg skip_to_key =
      if fl.less lag cfg.lag_recover_ratio then normal else skip_to_key

  -- `updateState`
  unfoldable pub update_state : ℕ × ℕ → SlowConsumerFilter F → SlowConsumerFilter F
  update_state lag f = record f {
    state = next_state (lag_of lag) (is_send_slow f) f.config f.state;
  }

  abbrev drop_frame : SlowConsumerFilter F → SlowConsumerFilter F × Bool
  drop_frame f = (record f { dropped = f.dropped + 1 }, false)

  -- the switch of `applyPolicy`
  abbrev pub policy_of : ConsumerState → Frame → SlowConsumerFilter F → SlowConsumerFilter F × Bool
  policy_of normal frame f = (f, true)
  policy_of drop_non_key frame f = if should_deliver frame then (f, true) else drop_frame f
  policy_of skip_to_key frame f =
      if is_video frame.media_type && is_keyframe frame.frame_type
      then (record f { state = drop_non_key }, true)
      else if is_audio frame.media_type || is_header frame
      then (f, true)
      else drop_frame f

  -- `applyPolicy`
  unfoldable pub apply_policy : ℕ × ℕ → Frame → SlowConsumerFilter F → SlowConsumerFilter F × Bool
  apply_policy lag frame f =
      if not f.config.is_enabled
      then (f, true)
      else (let f' = update_state lag f in policy_of f'.state frame f')

  -- `ReportSendTime`, in milliseconds
  unfoldable pub report_send_time : ℕ → SlowConsumerFilter F → SlowConsumerFilter F
  report_send_time ms f =
      let ms' = fl.of_nat ms in
      if fl.equal f.ewma_send (fl.of_nat 0) then record f { ewma_send = ms' } else record f {
        ewma_send =
            fl.add (fl.times f.config.ewma_alpha ms')
              (fl.times (fl.minus (fl.of_nat 1) f.config.ewma_alpha) f.ewma_send);
      }

  -- `recordOverwrite`
  abbrev pub record_overwrite : ℕ → SlowConsumerFilter F → SlowConsumerFilter F × Bool
  record_overwrite now f = elim f.skip_tracker [
    | none ↦ (f, false)
    | some st ↦
        let recorded = record_skip now st in
        (record f { skip_tracker = some recorded.0 }, recorded.1)
  ]

  abbrev answer : Option Frame → ℕ → Bool → SlowConsumerFrameResult
  answer frame overwritten true = record { frame = none; is_ok = false; overwritten = overwritten }
  answer frame overwritten false = record { frame = frame; is_ok = true; overwritten = overwritten }

  abbrev delivered :
      Frame
      → Option (SlowConsumerFrameResult × SlowConsumerFilter F × List Seen)
      → List Seen
      → SlowConsumerFilter F × Bool
      → Option (SlowConsumerFrameResult × SlowConsumerFilter F × List Seen)
  delivered frame later reads (f, true) = some (answer (some frame) 0 false, f, reads)
  delivered frame later reads (f, false) = later

  -- `NextFrameResult`, with the reads that it has not made. `none`: it waits for a read that is not
  -- among those given.
  unfoldable pub next_frame_result :
      List Seen
      → SlowConsumerFilter F
      → Option (SlowConsumerFrameResult × SlowConsumerFilter F × List Seen)
  next_frame_result [] f = none
  next_frame_result (s ∷ reads) f =
      if not s.read.is_ok
      then some (record { frame = none; is_ok = false; overwritten = 0 }, f, reads)
      else if ltb 0 s.read.overwritten
      then (let over = record_overwrite s.now f in
          some (answer s.read.value s.read.overwritten over.1, over.0, reads))
      else elim s.read.value [
        | none ↦ next_frame_result reads f
        | some frame ↦
            delivered frame (next_frame_result reads (apply_policy s.lag frame f).0) reads
              (apply_policy s.lag frame f)
      ]
