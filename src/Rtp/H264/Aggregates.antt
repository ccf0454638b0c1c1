-- ===== src/Rtp/H264/Aggregates.antt =====
-- pkg/rtp/h264_depacketize.go: the NAL units of an aggregate (RFC 6184, STAP-A).
use liveforge.Base.{
  ℕ, zero, suc, ◌+◌, ◌%◌, ◌^◌, ◌≤◌, ◌<◌, ◌≡◌, refl, ap, ◌∙◌, false, some, List, [], ◌∷◌, ◌++◌,
  arith, ltb, leb, ◌==◌, length, length-append, le→ltb_false,
}
use liveforge.Bytes.{
  ok, put16, put32, be16-put16, is_shorter, is_shorter-length, take-append, drop-append,
}
use liveforge.Rtp.{Packet}
use liveforge.Rtp.H264.{
  max_payload_bytes, H264Depacketizer, reset_fu, validate_nal, nal_to_avcc, measure_stap, copy_stap,
  parse_stap, depacketize_checked, depacketize_payload,
}

-- The NAL units pass the test on a single one, and their lengths fit into the aggregate.
abbrev pub AreParts : List (List ℕ) → Type 0
AreParts [] = Unit
AreParts (nal ∷ nals) =
    (validate_nal nal ≡ ok tt) × (0 < length nal) × (length nal < 2 ^ 16) × AreParts nals

-- the payload of an aggregate after its header
abbrev pub aggregate : List (List ℕ) → List ℕ
aggregate [] = []
aggregate (nal ∷ nals) = put16 (length nal) ++ (nal ++ aggregate nals)

-- the NAL units in the format of the frames
abbrev pub avcc : List (List ℕ) → List ℕ
avcc [] = []
avcc (nal ∷ nals) = nal_to_avcc nal ++ avcc nals

length-avcc :
    (nal : List ℕ) (nals : List (List ℕ))
    → length (avcc (nal ∷ nals)) ≡ 4 + length nal + length (avcc nals)
unfolding nal_to_avcc
length-avcc nal nals = omega (arith, length-append nal (avcc nals))

measure_lem :
    (fuel : ℕ) (nals : List (List ℕ)) (size : ℕ)
    → AreParts nals
    → length (aggregate nals) ≤ fuel
    → size + length (avcc nals) ≤ max_payload_bytes
    → measure_stap fuel (aggregate nals) size ≡ ok (size + length (avcc nals))
unfolding measure_stap
measure_lem fuel [] size parts enough fits = ap ok (omega arith)
measure_lem zero (nal ∷ nals) size parts enough fits = absurd (omega arith)
measure_lem (suc fuel) (nal ∷ nals) size (valid, some_byte, short, parts) enough fits =
    let n : ℕ = length nal in
    let total : length (avcc (nal ∷ nals)) ≡ 4 + n + length (avcc nals) = length-avcc nal nals in
    let both : length (nal ++ aggregate nals) ≡ n + length (aggregate nals) =
      length-append nal (aggregate nals) in
    let filled : (n == 0) ≡ false = ground arith in
    let there : ltb (length (nal ++ aggregate nals)) n ≡ false = le→ltb_false _ _ (omega arith) in
    let small : ltb max_payload_bytes (size + (n + 4)) ≡ false = le→ltb_false _ _ (omega arith) in
    rw
      (
        be16-put16 n short,
        filled,
        there,
        take-append nal (aggregate nals),
        valid,
        small,
        drop-append nal (aggregate nals),
      )
      (measure_lem fuel nals (size + (4 + n)) parts (omega arith) (omega arith)
        ∙ ap ok (omega arith))

copy_lem :
    (fuel : ℕ) (nals : List (List ℕ))
    → AreParts nals
    → length (aggregate nals) ≤ fuel
    → copy_stap fuel (aggregate nals) ≡ avcc nals
unfolding copy_stap nal_to_avcc
copy_lem fuel [] parts enough = refl
copy_lem zero (nal ∷ nals) parts enough = absurd (omega arith)
copy_lem (suc fuel) (nal ∷ nals) (valid, some_byte, short, parts) enough =
    let both : length (nal ++ aggregate nals) ≡ length nal + length (aggregate nals) =
      length-append nal (aggregate nals) in
    rw
      (
        be16-put16 (length nal) short,
        take-append nal (aggregate nals),
        drop-append nal (aggregate nals),
      )
      (ap (λ out. put32 (length nal) ++ (nal ++ out)) (copy_lem fuel nals parts (omega arith)))

parse_lem :
    (h : ℕ) (nal : List ℕ) (nals : List (List ℕ))
    → AreParts (nal ∷ nals)
    → length (avcc (nal ∷ nals)) ≤ max_payload_bytes
    → parse_stap (h ∷ aggregate (nal ∷ nals)) ≡ ok (avcc (nal ∷ nals))
unfolding parse_stap
parse_lem h nal nals parts fits =
    let whole : List ℕ = h ∷ aggregate (nal ∷ nals) in
    let long : is_shorter 4 whole ≡ false =
      is_shorter-length 4 whole
      ∙ le→ltb_false _ _ (omega (arith, parts.1, length-append nal (aggregate nals))) in
    rw (long, measure_lem (length whole) (nal ∷ nals) 0 parts (omega arith) (omega (arith, fits)))
      (ap ok (copy_lem (length whole) (nal ∷ nals) parts (omega arith)))

-- An aggregate of one NAL unit or more that each pass the test on a single one, whose lengths are above
-- zero and fit into two bytes and whose output is within the limit, gives exactly these NAL units in
-- their order, each with its length in four bytes, and any unfinished NAL unit is forgotten.
pub depacketize_payload-aggregate :
    (d : H264Depacketizer) (p : Packet) (h : ℕ) (nal : List ℕ) (nals : List (List ℕ))
    → h < 128
    → h % 32 ≡ 24
    → p.payload ≡ h ∷ aggregate (nal ∷ nals)
    → AreParts (nal ∷ nals)
    → length (avcc (nal ∷ nals)) ≤ max_payload_bytes
    → depacketize_payload d p ≡ (ok (some (avcc (nal ∷ nals))), reset_fu d)
unfolding depacketize_payload depacketize_checked
depacketize_payload-aggregate d p h nal nals small kind e parts fits =
    let high : leb 128 h ≡ false = ground (arith, small) in
    rw (e, high, kind, parse_lem h nal nals parts fits) refl
