-- ===== src/Rtmp/Amf0/Rounds.antt =====
-- module/rtmp/amf0.go: one round of each loop of the decoder on an encoded part.
use liveforge.Base.{
  ℕ, suc, ◌+◌, ◌^◌, ◌≤◌, ◌<◌, ◌≡◌, ◌≢◌, refl, ap, ◌∙◌, false, List, [], ◌∷◌, ◌++◌, arith, ltb,
  le→ltb_false, length, length-append, get_or,
}
use liveforge.Bytes.{
  ok, is_shorter, is_shorter-length, be32, put16, put32, be16-put16, be32-put32, take-append,
  drop-append,
}
use liveforge.Rtmp.Amf0.{Value, Items, item, Fields, no_fields, field, max_int32}
use liveforge.Rtmp.Amf0.Decode.{
  Decoded, is_end, is_invalid, check_count, decode_property, decode_item, decode_value,
  decode_properties, put_field,
}
use liveforge.Rtmp.Amf0.KeyOrder.{join}
use liveforge.Rtmp.Amf0.Pieces.{Starts}

pub check_count_ok :
    (n : ℕ) (bs : List ℕ)
    → n ≤ max_int32
    → n ≤ length bs
    → length bs ≤ max_int32
    → check_count (put32 n ++ bs) ≡ ok tt
check_count_ok n bs small le size =
    let word : be32 (put32 n) 0 ≡ n = be32-put32 n (omega (arith, small)) in
    rw (le→ltb_false max_int32 (length bs) size, word, le→ltb_false (length bs) n le) refl

not_end :
    (name left : List ℕ)
    → length name < 2 ^ 16
    → 1 ≤ length left
    → get_or left 0 0 ≢ 9
    → is_end (put16 (length name) ++ (name ++ left)) ≡ false
not_end [] left small long ne = ground (arith, ne)
not_end (b ∷ name) left small long ne = ground arith

-- A round of the loop on a property reads it and goes on behind it.
property_back :
    (value : List ℕ → Decoded Value) (again : List ℕ → ℕ → Fields → Decoded Fields)
    (name one rest : List ℕ) (v : Value) (offset : ℕ) (obj : Fields)
    → value (one ++ rest) ≡ ok (v, length one)
    → decode_property value again false (length name) (name ++ (one ++ rest)) offset obj
      ≡ again rest (offset + 2 + length name + length one) (put_field name v obj)
property_back value again name one rest v offset obj read =
    let long : ltb (length (name ++ (one ++ rest))) (length name) ≡ false =
      le→ltb_false _ _ (omega (arith, length-append name (one ++ rest))) in
    rw
      (
        long,
        drop-append name (one ++ rest),
        take-append name (one ++ rest),
        read,
        drop-append one rest,
      )
      refl

pub item_back :
    (value : List ℕ → Decoded Value) (again : List ℕ → ℕ → Decoded Items) (one rest : List ℕ)
    (v : Value) (vs : Items) (offset end : ℕ)
    → 1 ≤ length one
    → value (one ++ rest) ≡ ok (v, length one)
    → again rest (offset + length one) ≡ ok (vs, end)
    → decode_item value again (one ++ rest) offset ≡ ok (item v vs, end)
item_back value again one rest v vs offset end long read more =
    let size : length (one ++ rest) ≡ length one + length rest = length-append one rest in
    let some_left : is_shorter 1 (one ++ rest) ≡ false =
      is_shorter-length 1 (one ++ rest) ∙ le→ltb_false _ _ (omega (arith, size, long)) in
    let valid : is_invalid (length one) (one ++ rest) ≡ false = ground (arith, size, long) in
    rw (some_left, read, valid, drop-append one rest, more) refl

pub join_nil : (obj : Fields) → obj ≡ join obj no_fields
join_nil no_fields = refl
join_nil (field key v obj) = ap (field key v) (join_nil obj)

head_ne : (one rest : List ℕ) → 1 ≤ length one → get_or one 0 0 ≢ 9 → get_or (one ++ rest) 0 0 ≢ 9
head_ne [] rest long ne = absurd (omega arith)
head_ne (b ∷ one) rest long ne = ne

-- A round of the loop on an encoded property.
pub round_back :
    (fuel : ℕ) (name one rest : List ℕ) (v : Value) (offset : ℕ) (obj : Fields)
    → length name < 2 ^ 16
    → Starts one
    → decode_value fuel (one ++ rest) ≡ ok (v, length one)
    → decode_properties (suc fuel) (put16 (length name) ++ (name ++ (one ++ rest))) offset obj
      ≡ decode_properties fuel rest (offset + 2 + length name + length one) (put_field name v obj)
unfolding decode_value
round_back fuel name one rest v offset obj small (long, ne) read =
    let left : List ℕ = name ++ (one ++ rest) in
    let size : length left ≡ length name + (length one + length rest) =
      omega (arith, length-append name (one ++ rest), length-append one rest) in
    let some_left : is_shorter 1 left ≡ false =
      is_shorter-length 1 left ∙ le→ltb_false _ _ (omega (arith, size, long)) in
    let one_left : 1 ≤ length (one ++ rest) = omega (arith, length-append one rest, long) in
    let again : List ℕ → ℕ → Fields → Decoded Fields =
      λ more n o. decode_properties fuel more n o in
    rw
      (
        some_left,
        not_end name (one ++ rest) small one_left (head_ne one rest long ne),
        be16-put16 (length name) small,
      )
      (property_back (decode_value fuel) again name one rest v offset obj read)
