-- ===== src/Rtmp/Amf0/Decode.antt =====
-- module/rtmp/amf0.go: the decoder. A slice `data[offset:]` is the list of what is left, and each
-- function returns the number of bytes that it took beside the value, as in the code.
use liveforge.Base.{
  ℕ, zero, suc, ◌+◌, ◌*◌, Bool, true, false, not, ◌&&◌, ◌||◌, List, [], ◌∷◌, ltb, ◌==◌,
  if◌then◌else◌, length, take, drop, get_or,
}
use liveforge.Bytes.{Result, ok, err, ◌>>=◌, refuse, is_shorter, be16, be32}
use liveforge.Rtmp.Amf0.{
  Value, number, boolean, text, null, object, array, Items, no_items, item, Fields, no_fields,
  field, Error, unsupported, too_short, unexpected_end, name_overflow, count_too_large,
  invalid_length, out_of_fuel, max_int32,
}

-- the order of Go's strings, which compares bytes
abbrev pub key_lt : List ℕ → List ℕ → Bool
key_lt [] [] = false
key_lt [] (b ∷ bs) = true
key_lt (a ∷ more) [] = false
key_lt (a ∷ more) (b ∷ bs) = let rest = key_lt more bs in ltb a b || ((a == b) && rest)

-- `obj[name] = val`
unfoldable pub put_field : List ℕ → Value → Fields → Fields
put_field name v no_fields = field name v no_fields
put_field name v (field key w fs) =
    let rest = put_field name v fs in
    if key_lt name key
    then field name v (field key w fs)
    else if key_lt key name
    then field key w rest
    else field name v fs

abbrev pub be64 : List ℕ → ℕ → ℕ
be64 buf i = be32 buf i * 4294967296 + be32 buf (i + 4)

abbrev pub Decoded : Type 0 → Type 0
Decoded A = Result Error (A × ℕ)

-- the values that take a fixed number of bytes, and strings
abbrev pub decode_number : List ℕ → Decoded Value
decode_number bs = if is_shorter 9 bs then err too_short else ok (number (be64 bs 1), 9)

abbrev pub decode_boolean : List ℕ → Decoded Value
decode_boolean bs =
    if is_shorter 2 bs then err too_short else ok (boolean (not (get_or bs 1 0 == 0)), 2)

abbrev pub decode_text : List ℕ → Decoded Value
decode_text bs = do
  _ ← refuse (is_shorter 3 bs) too_short
  _ ← refuse (ltb (length bs) (3 + be16 bs 1)) too_short
  ok (text (take (be16 bs 1) (drop 3 bs)), 3 + be16 bs 1)

abbrev pub shifted : {A B : Type 0} → (A → B) → ℕ → Decoded A → Decoded B
shifted f k r = r >>= (λ (v, n). ok (f v, n + k))

-- The end marker of an object.
abbrev pub is_end : List ℕ → Bool
is_end left = (get_or left 0 0 == 0) && ((get_or left 1 0 == 0) && (get_or left 2 0 == 9))

-- the length that an element of an array must not have
abbrev pub is_invalid : ℕ → List ℕ → Bool
is_invalid n left = (n == 0) || ltb (length left) n

-- the marker of a value
pub data Marker : Type 0 where
  is_number is_boolean is_text is_null is_object is_ecma_array is_strict_array is_unknown : Marker

unfoldable pub marker_of : ℕ → Marker
marker_of m =
    if m == 0
    then is_number
    else if m == 1
    then is_boolean
    else if m == 2
    then is_text
    else if m == 5
    then is_null
    else if m == 3
    then is_object
    else if m == 8
    then is_ecma_array
    else if m == 10
    then is_strict_array
    else is_unknown

-- The count of a strict array fits what is left.
abbrev pub check_count : List ℕ → Result Error Unit
check_count bs = do
  _ ← refuse (is_shorter 4 bs) too_short
  refuse (ltb max_int32 (length (drop 4 bs)) || ltb (length (drop 4 bs)) (be32 bs 0))
      count_too_large

-- the switch of `amf0DecodeValue`, with the decoders of properties and of `k` elements that it calls
abbrev pub decode_marked :
    (List ℕ → Decoded Fields) → (ℕ → List ℕ → Decoded Items) → Marker → ℕ → List ℕ → Decoded Value
decode_marked properties items is_number m bs = decode_number (m ∷ bs)
decode_marked properties items is_boolean m bs = decode_boolean (m ∷ bs)
decode_marked properties items is_text m bs = decode_text (m ∷ bs)
decode_marked properties items is_null m bs = ok (null, 1)
decode_marked properties items is_object m bs = shifted object 1 (properties bs)
decode_marked properties items is_ecma_array m bs =
    refuse (is_shorter 4 bs) too_short >>= (λ _. shifted object 5 (properties (drop 4 bs)))
decode_marked properties items is_strict_array m bs =
    check_count bs >>= (λ _. shifted array 1 (items (be32 bs 0) (drop 4 bs)))
decode_marked properties items is_unknown m bs = err unsupported

-- a round of the loop of `amf0DecodeObjectProperties`, with the length of the name: `left` is what
-- follows that length
abbrev pub decode_property :
    (List ℕ → Decoded Value)
    → (List ℕ → ℕ → Fields → Decoded Fields)
    → Bool
    → ℕ
    → List ℕ
    → ℕ
    → Fields
    → Decoded Fields
decode_property value again true size left offset obj = ok (obj, offset + 3)
decode_property value again false size left offset obj =
    refuse (ltb (length left) size) name_overflow >>= (λ _. value (drop size left) >>= (λ (v, n).
      again (drop n (drop size left)) (offset + 2 + size + n) (put_field (take size left) v obj)))

-- a round of the loop of `amf0DecodeStrictArray`
abbrev pub decode_item :
    (List ℕ → Decoded Value) → (List ℕ → ℕ → Decoded Items) → List ℕ → ℕ → Decoded Items
decode_item value again left offset = do
  _ ← refuse (is_shorter 1 left) unexpected_end
  (v, n) ← value left
  _ ← refuse (is_invalid n left) invalid_length
  (vs, end) ← again (drop n left) (offset + n)
  ok (item v vs, end)

unfoldable mutual
  -- `amf0DecodeValue`
  pub decode_value : ℕ → List ℕ → Decoded Value
  decode_value zero bs = err out_of_fuel
  decode_value (suc fuel) [] = err too_short
  decode_value (suc fuel) (m ∷ bs) =
      decode_marked (λ left. decode_properties fuel left 0 no_fields)
        (λ k left. decode_items fuel k left 4) (marker_of m) m bs

  -- the loop of `amf0DecodeStrictArray`: `k` elements are to come, and `left` starts at `offset`
  pub decode_items : ℕ → ℕ → List ℕ → ℕ → Decoded Items
  decode_items fuel zero left offset = ok (no_items, offset)
  decode_items zero (suc k) left offset = err out_of_fuel
  decode_items (suc fuel) (suc k) left offset =
      decode_item (decode_value fuel) (λ more n. decode_items fuel k more n) left offset

  -- `amf0DecodeObjectProperties`: `left` starts at `offset`
  pub decode_properties : ℕ → List ℕ → ℕ → Fields → Decoded Fields
  decode_properties zero left offset obj = err out_of_fuel
  decode_properties (suc fuel) left offset obj = refuse (is_shorter 3 left) unexpected_end >>= (λ _.
      decode_property (decode_value fuel) (λ more n o. decode_properties fuel more n o)
        (is_end left) (be16 left 0) (drop 2 left) offset obj)

-- the loop of `AMF0Decode`
unfoldable pub decode_loop : ℕ → List ℕ → Result Error Items
decode_loop fuel [] = ok no_items
decode_loop zero (b ∷ bs) = err out_of_fuel
decode_loop (suc fuel) (b ∷ bs) = do
  (v, n) ← decode_value (2 + length (b ∷ bs)) (b ∷ bs)
  vs ← decode_loop fuel (drop n (b ∷ bs))
  ok (item v vs)

-- `AMF0Decode`. A value takes a byte at least, and so do the loops inside of it.
unfoldable pub amf0_decode : List ℕ → Result Error Items
amf0_decode bs = decode_loop (length bs) bs
