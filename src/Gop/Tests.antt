-- ===== src/Gop/Tests.antt =====
-- The GOP cache of core/stream.go on small inputs, and the theorems at concrete inputs.
use liveforge.Base.{ℕ, ◌≡◌, refl, true, false, [], ◌∷◌, arith, pos, negsuc, min, wrap_int64, ◌+ℤ◌}
use liveforge.AvFrame.{
  Frame, new_frame, media_type_video, frame_type_keyframe, frame_type_interframe,
}
use liveforge.AvFrame.Codec
use liveforge.Config.{StreamConfig}
use liveforge.Gop.{
  Gops, dts_span_millis, gop_at_bound, current_gop_at_bound, gop_over_bound, over_bound,
  extend_last, append_gop_frame, evict, start_gop, cache_frame,
}
use liveforge.Gop.Span.{distance, dts_span_millis_lem}
use liveforge.Gop.Valid.{IsValid, cache_frame-IsValid}
use liveforge.Gop.Trim.{
  limit_frames, byte_loop, limit_bytes, limit_duration, trim_limit, trim_gop, trim_rows,
  trim_gop_cache, update_gops,
}
use liveforge.Gop.Trim.Valid.{update_gops-IsValid}

abbrev two_gops : StreamConfig
two_gops = record {
  gop_cache = true;
  gop_cache_num = 2;
  gop_cache_max_frames = 3;
  gop_cache_max_duration = 0;
  gop_cache_max_bytes = 5;
  ring_buffer_size = 8;
  idle_timeout = 0;
  no_publisher_timeout = 0;
}

-- a policy that keeps one GOP of two frames
abbrev one_gop : StreamConfig
one_gop = record two_gops { gop_cache_num = 1; gop_cache_max_frames = 2 }

abbrev key : ℕ → Frame
key t = new_frame media_type_video Codec.h264 frame_type_keyframe (pos t) (pos t) (1 ∷ 2 ∷ [])

abbrev inter : ℕ → Frame
inter t = new_frame media_type_video Codec.h264 frame_type_interframe (pos t) (pos t) (3 ∷ [])

abbrev empty : Gops
empty = record {
  cache = [];
  starts = [];
  bytes = [];
  min_dts = [];
  max_dts = [];
  generation = 0;
  sealed = false;
}

abbrev started : Gops
started = cache_frame two_gops 0 (key 0) empty

abbrev extended : Gops
extended = cache_frame two_gops 1 (inter 40) started

extended_lem : extended ≡ record {
  cache = (key 0 ∷ inter 40 ∷ []) ∷ [];
  starts = 0 ∷ [];
  bytes = 3 ∷ [];
  min_dts = pos 0 ∷ [];
  max_dts = pos 40 ∷ [];
  generation = 1;
  sealed = false;
}
unfolding cache_frame start_gop evict append_gop_frame over_bound gop_over_bound
    current_gop_at_bound gop_at_bound extend_last new_frame
extended_lem = refl

-- the third frame reaches the bound and seals the GOP
third_seals : (cache_frame two_gops 2 (inter 80) extended).sealed ≡ true
unfolding cache_frame start_gop evict append_gop_frame over_bound gop_over_bound
    current_gop_at_bound gop_at_bound extend_last new_frame
third_seals = refl

-- the new policy drops nothing here and seals at two frames
trimmed : (update_gops one_gop extended).sealed ≡ true
unfolding update_gops trim_gop_cache trim_rows trim_gop trim_limit limit_duration limit_bytes
    limit_frames byte_loop cache_frame start_gop evict append_gop_frame over_bound gop_over_bound
    current_gop_at_bound gop_at_bound extend_last new_frame
trimmed = refl

span_saturates : dts_span_millis (negsuc 10) (pos 9223372036854775807) ≡ pos 9223372036854775807
unfolding dts_span_millis wrap_int64 ◌+ℤ◌
span_saturates = refl

empty-IsValid : IsValid two_gops empty
empty-IsValid = record { rows = tt; starts = refl; count = omega arith; off = λ _. refl }

started-IsValid : IsValid two_gops started
started-IsValid = cache_frame-IsValid two_gops 0 (key 0) empty empty-IsValid

cache_frame-IsValid_example : IsValid two_gops extended
cache_frame-IsValid_example = cache_frame-IsValid two_gops 1 (inter 40) started started-IsValid

update_gops-IsValid_example : IsValid one_gop (update_gops one_gop extended)
update_gops-IsValid_example =
    update_gops-IsValid two_gops one_gop extended
      (cache_frame-IsValid two_gops 1 (inter 40) started started-IsValid)

dts_span_millis_lem_example :
    dts_span_millis (negsuc 10) (pos 9223372036854775807)
    ≡ pos (min (distance (negsuc 10) (pos 9223372036854775807)) 9223372036854775807)
dts_span_millis_lem_example =
    dts_span_millis_lem (negsuc 10) (pos 9223372036854775807) (omega arith) (omega arith)
