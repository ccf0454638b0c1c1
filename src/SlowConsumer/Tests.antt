-- ===== src/SlowConsumer/Tests.antt =====
-- The filter of core/slow_consumer.go on a few frames, and the theorems at concrete inputs.
use liveforge.Base.{
  ℕ, arith, List, ◌+◌, ◌-◌, ◌*◌, ◌/◌, ◌≡◌, refl, true, none, some, [], ◌∷◌, ltb, ◌==◌, pos,
  if◌then◌else◌,
}
use liveforge.AvFrame.{
  Frame, new_frame, media_type_video, frame_type_keyframe, frame_type_interframe,
}
use liveforge.AvFrame.Codec
use liveforge.SlowConsumer.{
  Floats, drop_non_key, SlowConsumerConfig, SlowConsumerFilter, should_deliver, is_send_slow,
  update_state, apply_policy, next_frame_result, Seen, skip_to_key, new_slow_consumer_filter,
  report_send_time,
}
use liveforge.SlowConsumer.Policy.{is_due, apply_policy_lem}
use liveforge.SlowConsumer.Hysteresis.{
  Observation, Run, start, frame_comes, send_ends, AreApart, Follows, Run-Follows,
}

-- ratios in percent
abbrev percent : Floats ℕ
percent = record {
  of_nat = λ n. n;
  add = λ a b. a + b;
  minus = λ a b. a - b;
  times = λ a b. a * b;
  over = λ a b. a * 100 / b;
  less = ltb;
  equal = λ a b. a == b;
}

abbrev config : SlowConsumerConfig ℕ
config = record {
  is_enabled = true;
  lag_drop_ratio = 50;
  lag_critical_ratio = 80;
  lag_recover_ratio = 20;
  ewma_alpha = 1;
  send_time_ratio = 2;
}

abbrev dropping : SlowConsumerFilter ℕ
dropping = record {
  config = config;
  skip_tracker = none;
  state = drop_non_key;
  ewma_send = 100;
  dropped = 0;
}

abbrev key : Frame
key = new_frame media_type_video Codec.h264 frame_type_keyframe (pos 0) (pos 0) (1 ∷ [])

abbrev inter : Frame
inter = new_frame media_type_video Codec.h264 frame_type_interframe (pos 40) (pos 40) (1 ∷ [])

abbrev seen : Frame → Seen
seen frame = record {
  read = record { value = some frame; is_ok = true; overwritten = 0 };
  lag = (9, 10);
  now = 0;
}

-- at a lag of 90 %, a frame that is no key frame is dropped, and the key frame after it delivered
next_is_key :
    next_frame_result percent (seen inter ∷ seen key ∷ []) dropping
    ≡ some (
      record { frame = some key; is_ok = true; overwritten = 0 },
      record dropping { dropped = 1 },
      [],
    )
unfolding next_frame_result apply_policy update_state is_send_slow should_deliver new_frame
next_is_key = refl

apply_policy_lem_example :
    ((apply_policy percent (9, 10) inter dropping).1 ≡ is_due percent (9, 10) inter dropping)
    × ((apply_policy percent (9, 10) inter dropping).0.dropped ≡ (
        if is_due percent (9, 10) inter dropping then dropping.dropped else dropping.dropped + 1))
apply_policy_lem_example = apply_policy_lem percent (9, 10) inter dropping

abbrev unused : SlowConsumerFilter ℕ
unused = new_slow_consumer_filter percent config none

-- one slow send, then a key frame at a lag of 60 % and another frame at 90 %
abbrev slowed : SlowConsumerFilter ℕ
slowed = (apply_policy percent (6, 10) key (report_send_time percent 100 unused)).0

abbrev skipping : SlowConsumerFilter ℕ
skipping = (apply_policy percent (9, 10) inter slowed).0

abbrev observations : List (Observation ℕ)
observations =
    record { lag = 90; slow = is_send_slow percent slowed; seen = inter }
    ∷ record {
      lag = 60;
      slow = is_send_slow percent (report_send_time percent 100 unused);
      seen = key;
    }
    ∷ []

observed : Run percent config none observations skipping
observed = frame_comes (9, 10) inter (frame_comes (6, 10) key (send_ends 100 start))

apart : AreApart percent config
apart x h = ground (arith, h)

Run-Follows_example : Follows percent config observations skipping
Run-Follows_example = Run-Follows percent config none refl apart observed

ends_skipping : skipping.state ≡ skip_to_key
unfolding apply_policy update_state is_send_slow report_send_time new_slow_consumer_filter new_frame
    should_deliver
ends_skipping = refl
