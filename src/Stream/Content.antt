-- ===== src/Stream/Content.antt =====
-- core/stream.go: the GOP cache stays valid under the configuration of the stream, and the
-- subscriber counts agree, whatever method is called.
use liveforge.Base.{ℕ, String, Bool, not, some, ◌≡◌, refl, arith, ◌&&◌, Bool-cases, inl, inr, ltb}
use liveforge.Base.Assoc.{count, string_key}
use liveforge.AvFrame.{Frame, is_header}
use liveforge.Config.{StreamConfig, LimitsConfig, normalize_gop_config}
use liveforge.Gop.{cache_frame}
use liveforge.Gop
use liveforge.Gop.Valid.{cache_frame-IsValid}
use liveforge.Gop.Trim.Valid.{update_gops-IsValid}
use liveforge.Subscribers
use liveforge.Subscribers.{Subscribers}
use liveforge.Stream.{
  Stream, Publisher, new_stream, empty_gops, close_generation, check_idle_timeout,
  update_startup_ready,
}
use liveforge.Stream.Publish.{
  install_publisher, merge_media_info, start_audio_epoch, fresh_generation, remove_publisher,
  destroy, no_publisher_expired, idle_expired, close, update_policy, add_subscriber,
  add_subscriber_for_generation, remove_subscriber, remove_subscriber_for_generation,
}
use liveforge.Stream.Frames.{store_frame, note_header, note_media, note_audio, write_frame_locked}

pub record HasContent (s : Stream) : Type 0 where
  pub gops : Gop.Valid.IsValid s.config s.gops
  pub subscribers : Subscribers.Counts.IsValid s.subscribers

no_gops-IsValid : (cfg : StreamConfig) → Gop.Valid.IsValid cfg empty_gops
no_gops-IsValid cfg = record { rows = tt; starts = refl; count = omega arith; off = λ _. refl }

pub new_stream-HasContent :
    (cfg : StreamConfig) (limits : LimitsConfig) → HasContent (new_stream cfg limits)
unfolding new_stream
new_stream-HasContent cfg limits = record {
  gops = no_gops-IsValid _;
  subscribers = record { counts = tt; sum = refl };
}

-- what stays as it is
record IsSame (s t : Stream) : Type 0 where
  config : t.config ≡ s.config
  gops : t.gops ≡ s.gops
  subscribers : t.subscribers ≡ s.subscribers

IsSame-HasContent : {s t : Stream} → IsSame s t → HasContent s → HasContent t
IsSame-HasContent e v = record {
  gops = rw (e.config, e.gops) v.gops;
  subscribers = rw e.subscribers v.subscribers;
}

check_idle_timeout-IsSame : (s : Stream) → IsSame s (check_idle_timeout s)
unfolding check_idle_timeout
check_idle_timeout-IsSame s = ground arith

check_idle_timeout-HasContent : (s : Stream) → HasContent s → HasContent (check_idle_timeout s)
check_idle_timeout-HasContent s v = IsSame-HasContent (check_idle_timeout-IsSame s) v

record IsFresh (s t : Stream) : Type 0 where
  config : t.config ≡ s.config
  gops : t.gops ≡ empty_gops
  subscribers : t.subscribers ≡ s.subscribers

install_publisher-IsFresh : (p : Publisher) (s : Stream) → IsFresh s (install_publisher p s)
unfolding install_publisher merge_media_info start_audio_epoch fresh_generation close_generation
install_publisher-IsFresh p s = ground arith

pub install_publisher-HasContent :
    (p : Publisher) (s : Stream) → HasContent s → HasContent (install_publisher p s)
install_publisher-HasContent p s v =
    let e = install_publisher-IsFresh p s in
    record {
      gops = rw (e.config, e.gops) (no_gops-IsValid s.config);
      subscribers = rw e.subscribers v.subscribers;
    }

remove_publisher-IsSame : (s : Stream) → IsSame s (remove_publisher s)
unfolding remove_publisher close_generation check_idle_timeout
remove_publisher-IsSame s = ground arith

pub remove_publisher-HasContent : (s : Stream) → HasContent s → HasContent (remove_publisher s)
remove_publisher-HasContent s = IsSame-HasContent (remove_publisher-IsSame s)

no_publisher_expired-IsSame : (s : Stream) → IsSame s (no_publisher_expired s)
unfolding no_publisher_expired destroy
no_publisher_expired-IsSame s = ground arith

pub no_publisher_expired-HasContent :
    (s : Stream) → HasContent s → HasContent (no_publisher_expired s)
no_publisher_expired-HasContent s = IsSame-HasContent (no_publisher_expired-IsSame s)

idle_expired-IsSame : (s : Stream) → IsSame s (idle_expired s)
unfolding idle_expired destroy
idle_expired-IsSame s = ground arith

pub idle_expired-HasContent : (s : Stream) → HasContent s → HasContent (idle_expired s)
idle_expired-HasContent s = IsSame-HasContent (idle_expired-IsSame s)

close-IsSame : (s : Stream) → IsSame s (close s).0
unfolding close close_generation destroy
close-IsSame s = ground arith

pub close-HasContent : (s : Stream) → HasContent s → HasContent (close s).0
close-HasContent s = IsSame-HasContent (close-IsSame s)

pub update_policy-HasContent :
    (cfg : StreamConfig) (limits : LimitsConfig) (s : Stream)
    → HasContent s
    → HasContent (update_policy cfg limits s)
unfolding update_policy
update_policy-HasContent cfg limits s v = check_idle_timeout-HasContent _ (record {
  gops = update_gops-IsValid s.config (normalize_gop_config cfg) s.gops v.gops;
  subscribers = v.subscribers;
})

-- new counts on an otherwise unchanged stream
IsCounted : Stream → Subscribers → Stream → Type 0
IsCounted s subs t = (t.config ≡ s.config) × (t.gops ≡ s.gops) × (t.subscribers ≡ subs)

IsCounted-HasContent :
    (s t : Stream) (subs : Subscribers)
    → HasContent s
    → Subscribers.Counts.IsValid subs
    → IsCounted s subs t
    → HasContent t
unfolding IsCounted
IsCounted-HasContent s t subs v w e = record { gops = rw (e.0, e.1) v.gops; subscribers = rw e.2 w }

add_subscriber-IsCounted :
    (p : String) (s t : Stream)
    → add_subscriber p s ≡ some t
    → (subs : Subscribers) × (Subscribers.add_subscriber s.limits.max_subscribers_per_stream p
          s.subscribers
        ≡ some subs)
      × IsCounted s subs t
unfolding add_subscriber IsCounted
add_subscriber-IsCounted p s t e =
    (t.subscribers, ground (arith, e), (ground (arith, e), ground (arith, e), ground (arith, e)))

pub add_subscriber-HasContent :
    (p : String) (s t : Stream) → HasContent s → add_subscriber p s ≡ some t → HasContent t
add_subscriber-HasContent p s t v e =
    let (subs, got, counted) = add_subscriber-IsCounted p s t e in
    IsCounted-HasContent s t subs v
      (Subscribers.Counts.add_subscriber-IsValid s.limits.max_subscribers_per_stream p s.subscribers
        {t = subs} v.subscribers got)
      counted

add_subscriber_for_generation-IsCounted :
    (p : String) (g : ℕ) (s t : Stream)
    → add_subscriber_for_generation p g s ≡ some t
    → (subs : Subscribers) × (Subscribers.add_for_generation s.limits.max_subscribers_per_stream p g
          s.subscribers
        ≡ some subs)
      × IsCounted s subs t
unfolding add_subscriber_for_generation IsCounted
add_subscriber_for_generation-IsCounted p g s t e =
    (t.subscribers, ground (arith, e), (ground (arith, e), ground (arith, e), ground (arith, e)))

pub add_subscriber_for_generation-HasContent :
    (p : String) (g : ℕ) (s t : Stream)
    → HasContent s
    → add_subscriber_for_generation p g s ≡ some t
    → HasContent t
add_subscriber_for_generation-HasContent p g s t v e =
    let (subs, got, counted) = add_subscriber_for_generation-IsCounted p g s t e in
    IsCounted-HasContent s t subs v
      (Subscribers.Counts.add_for_generation-IsValid s.limits.max_subscribers_per_stream p g
        s.subscribers {t = subs} v.subscribers got)
      counted

pub remove_subscriber-HasContent :
    (p : String) (s : Stream) → HasContent s → HasContent (remove_subscriber p s)
unfolding remove_subscriber
remove_subscriber-HasContent p s v = check_idle_timeout-HasContent _ (record {
  gops = v.gops;
  subscribers = Subscribers.Counts.remove_subscriber-IsValid p s.subscribers v.subscribers;
})

pub remove_subscriber_for_generation-HasContent :
    (p : String) (g : ℕ) (s : Stream)
    → HasContent s
    → HasContent (remove_subscriber_for_generation p g s)
unfolding remove_subscriber_for_generation
remove_subscriber_for_generation-HasContent p g s v =
    elim (Bool-cases (ltb 0 (count p (Subscribers.generation_counts g s.subscribers)))) [
      | inl e ↦ rw e (
          check_idle_timeout-HasContent _ (record {
            gops = v.gops;
            subscribers =
                Subscribers.Counts.remove_for_generation-IsValid p g s.subscribers v.subscribers;
          }))
      | inr e ↦ rw e v
    ]

noted-IsSame :
    (f f' : Frame) (s : Stream) → IsSame s (update_startup_ready (note_header f' (note_media f s)))
unfolding update_startup_ready note_header note_media note_audio
noted-IsSame f f' s = ground arith

store_frame-HasContent : (f : Frame) (s : Stream) → HasContent s → HasContent (store_frame f s)
unfolding store_frame
store_frame-HasContent f s v = record {
  gops = cache_frame-IsValid s.config s.ring.write_cursor f s.gops v.gops;
  subscribers = v.subscribers;
}

pub write_frame_locked-HasContent :
    (b : Bool) (f : Frame) (s : Stream) → HasContent s → HasContent (write_frame_locked b f s).0
unfolding write_frame_locked
write_frame_locked-HasContent b f s v =
    elim (Bool-cases (ltb 0 s.limits.max_bitrate_per_stream && not (is_header f) && b)) [
      | inl e ↦ rw e v
      | inr e ↦ rw e (store_frame-HasContent _ _ (IsSame-HasContent (noted-IsSame f _ s) v))
    ]
