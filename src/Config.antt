-- ===== src/Config.antt =====
-- config/config.go: the settings of a stream that the core reads. The code tests each of these
-- bounds by `> 0` before it uses it, so that a negative value acts as 0: they are numbers.
-- Durations are nanoseconds.
use liveforge.Base.{ℕ, Bool, ◌&&◌, ltb, ◌==◌, if◌then◌else◌}

-- `StreamConfig`, without the slow-consumer, simulcast and feedback settings.
pub record StreamConfig : Type 0 where
  pub gop_cache : Bool
  pub gop_cache_num : ℕ
  pub gop_cache_max_frames : ℕ
  pub gop_cache_max_duration : ℕ
  pub gop_cache_max_bytes : ℕ
  pub ring_buffer_size : ℕ
  pub idle_timeout : ℕ
  pub no_publisher_timeout : ℕ

-- `LimitsConfig`, the limits of one stream.
pub record LimitsConfig : Type 0 where
  pub max_subscribers_per_stream : ℕ
  pub max_bitrate_per_stream : ℕ

abbrev pub default_gop_cache_max_frames : ℕ
default_gop_cache_max_frames = 300

-- `normalizeGOPConfig` of core/stream.go
unfoldable pub normalize_gop_config : StreamConfig → StreamConfig
normalize_gop_config cfg =
    if cfg.gop_cache
      && ltb 0 cfg.gop_cache_num
      && cfg.gop_cache_max_frames == 0
      && cfg.gop_cache_max_bytes == 0
    then record cfg { gop_cache_max_frames = default_gop_cache_max_frames }
    else cfg
