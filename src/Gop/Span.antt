-- ===== src/Gop/Span.antt =====
-- core/stream.go: `dtsSpanMillis` on int64 times.
use liveforge.Base.{
  ℕ, ◌+◌, ◌-◌, ◌≡◌, arith, ℤ, pos, negsuc, ◌+ℤ◌, ◌-ℤ◌, min, wrap_int64, InInt64, pos_part, neg_part,
}
use liveforge.Gop.{dts_span_millis, max_int64}

-- |a - b|
abbrev pub distance : ℤ → ℤ → ℕ
distance a b =
    (pos_part a + neg_part b - (pos_part b + neg_part a))
    + (pos_part b + neg_part a - (pos_part a + neg_part b))

-- For any two int64 times the span is their distance, cut off at the largest int64: neither the
-- test nor the subtraction overflows.
pub dts_span_millis_lem :
    (a b : ℤ) → InInt64 a → InInt64 b → dts_span_millis a b ≡ pos (min (distance a b) max_int64)
unfolding dts_span_millis wrap_int64 ◌+ℤ◌ ◌-ℤ◌
dts_span_millis_lem (pos a) (pos b) ha hb = ground arith
dts_span_millis_lem (pos a) (negsuc b) ha hb = ground arith
dts_span_millis_lem (negsuc a) (pos b) ha hb = ground arith
dts_span_millis_lem (negsuc a) (negsuc b) ha hb = ground arith
