-- ===== src/Stream/Life.antt =====
-- core/stream.go: what holds of a stream in every run from `NewStream` on.
use liveforge.Config.{StreamConfig, LimitsConfig}
use liveforge.Stream.{Stream, new_stream}
use liveforge.Stream.Owner.{
  IsOwned, new_stream-IsOwned, install_publisher-IsOwned, remove_publisher-IsOwned,
  no_publisher_expired-IsOwned, idle_expired-IsOwned, close-IsOwned, update_policy-IsOwned,
  add_subscriber-IsOwned, add_subscriber_for_generation-IsOwned, remove_subscriber-IsOwned,
  remove_subscriber_for_generation-IsOwned, write_frame_locked-IsOwned,
}
use liveforge.Stream.Content.{
  HasContent, new_stream-HasContent, install_publisher-HasContent, remove_publisher-HasContent,
  no_publisher_expired-HasContent, idle_expired-HasContent, close-HasContent,
  update_policy-HasContent, add_subscriber-HasContent, add_subscriber_for_generation-HasContent,
  remove_subscriber-HasContent, remove_subscriber_for_generation-HasContent,
  write_frame_locked-HasContent,
}
use liveforge.Stream.Steps.{Reach, Keeps, Reach_keeps}

owned : Keeps IsOwned
owned = record {
  installs = λ p s _ _ _ v. install_publisher-IsOwned p s v;
  removes = remove_publisher-IsOwned;
  no_publisher = no_publisher_expired-IsOwned;
  idle = idle_expired-IsOwned;
  ends = close-IsOwned;
  updates = update_policy-IsOwned;
  adds = add_subscriber-IsOwned;
  leases = add_subscriber_for_generation-IsOwned;
  leaves = remove_subscriber-IsOwned;
  releases = remove_subscriber_for_generation-IsOwned;
  writes = write_frame_locked-IsOwned;
}

content : Keeps HasContent
content = record {
  installs = λ p s _ _ _ v. install_publisher-HasContent p s v;
  removes = remove_publisher-HasContent;
  no_publisher = no_publisher_expired-HasContent;
  idle = idle_expired-HasContent;
  ends = close-HasContent;
  updates = update_policy-HasContent;
  adds = add_subscriber-HasContent;
  leases = add_subscriber_for_generation-HasContent;
  leaves = remove_subscriber-HasContent;
  releases = remove_subscriber_for_generation-HasContent;
  writes = write_frame_locked-HasContent;
}

pub Reach-IsOwned :
    (cfg : StreamConfig) (limits : LimitsConfig) {s : Stream}
    → Reach (new_stream cfg limits) s
    → IsOwned s
Reach-IsOwned cfg limits r = Reach_keeps owned r (new_stream-IsOwned cfg limits)

-- In every run from a new stream, policy updates included, the GOP cache is valid under the
-- configuration that the stream has, and the subscriber counts agree with their total.
pub Reach-HasContent :
    (cfg : StreamConfig) (limits : LimitsConfig) {s : Stream}
    → Reach (new_stream cfg limits) s
    → HasContent s
Reach-HasContent cfg limits r = Reach_keeps content r (new_stream-HasContent cfg limits)
