-- ===== src/Flv/Codes.antt =====
-- pkg/muxer/flv/types.go: the codes come back through the tables, and signed 24-bit numbers through
-- their bytes.
use liveforge.Base.{
  ℕ, ◌+◌, ◌-◌, ◌/◌, ◌%◌, ◌^◌, ◌≤◌, ◌<◌, ◌≡◌, refl, ℤ, pos, negsuc, ◌+ℤ◌, ◌-ℤ◌, wrap_int64, InInt64,
  +ℤ_parts, -ℤ_parts, true, false, List, arith, leb, leb→le, ◌==◌, if◌then◌else◌, Bool-cases, inl,
  inr,
}
use liveforge.Bytes.{ok, err, ok_unique, put24}
use liveforge.Flv.{
  si24_overflow, video_codec_to_four_cc, audio_codec_to_four_cc, video_four_cc_to_codec,
  audio_four_cc_to_codec, encode_si24,
}

pub video_four_cc_lem :
    (c : ℕ)
    → (video_codec_to_four_cc c == 0) ≡ false
    → (video_four_cc_to_codec (video_codec_to_four_cc c) ≡ c)
      × (video_codec_to_four_cc c < 2 ^ 32)
      × ((c == 0) ≡ false)
unfolding video_codec_to_four_cc video_four_cc_to_codec
video_four_cc_lem c h = ground arith

pub audio_four_cc_lem :
    (c : ℕ)
    → (audio_codec_to_four_cc c == 0) ≡ false
    → (audio_four_cc_to_codec (audio_codec_to_four_cc c) ≡ c)
      × (audio_codec_to_four_cc c < 2 ^ 32)
      × ((c == 0) ≡ false)
unfolding audio_codec_to_four_cc audio_four_cc_to_codec
audio_four_cc_lem c h = ground arith

-- the number that the three bytes of an encoded value hold, and the value
abbrev pub signed : ℕ → ℤ
signed n = if leb 128 (n / 65536 % 256) then negsuc (2 ^ 24 - n - 1) else pos n

pub encode_si24_lem :
    (c : ℤ) (bs : List ℕ)
    → encode_si24 c ≡ ok bs
    → (n : ℕ) × (n < 2 ^ 24) × (bs ≡ put24 n) × (signed n ≡ c)
unfolding encode_si24
encode_si24_lem (pos n) bs e = elim (Bool-cases (leb n 8388607)) [
  | inl h ↦
      let le : n ≤ 8388607 = leb→le n 8388607 h in
      let written : encode_si24 (pos n) ≡ ok (put24 n) = rw h refl in
      (n, omega arith, ok_unique _ e written, ground arith)
  | inr h ↦ let refused : encode_si24 (pos n) ≡ err si24_overflow = rw h refl in cc
]
encode_si24_lem (negsuc n) bs e = elim (Bool-cases (leb n 8388607)) [
  | inl h ↦
      let le : n ≤ 8388607 = leb→le n 8388607 h in
      let m : ℕ = 2 ^ 24 - (n + 1) in
      let high : leb 128 (m / 65536 % 256) ≡ true = ground arith in
      let back : 2 ^ 24 - m - 1 ≡ n = omega arith in
      let written : encode_si24 (negsuc n) ≡ ok (put24 m) = rw h refl in
      (m, omega arith, ok_unique _ e written, rw (high, back) refl)
  | inr h ↦ let refused : encode_si24 (negsuc n) ≡ err si24_overflow = rw h refl in cc
]

pub wrap_back : (d p : ℤ) → InInt64 p → wrap_int64 (d +ℤ wrap_int64 (p -ℤ d)) ≡ p
unfolding wrap_int64
wrap_back d p h = ground (arith, +ℤ_parts d (wrap_int64 (p -ℤ d)), -ℤ_parts p d)
