-- ===== src/Rtmp/Amf0/Tests.antt =====
-- module/rtmp/amf0.go at concrete inputs.
use liveforge.Base.{ℕ, ◌≡◌, ◌≢◌, refl, List, [], ◌∷◌, arith}
use liveforge.Bytes.{ok, err}
use liveforge.Rtmp.Amf0.{
  number, text, null, object, array, Items, no_items, item, no_fields, field, out_of_fuel,
  invalid_length, amf0_encode, encode_value,
}
use liveforge.Rtmp.Amf0.Decode.{amf0_decode}
use liveforge.Rtmp.Amf0.KeyOrder.{AreItems, IsValue}
use liveforge.Rtmp.Amf0.Safety.{amf0_decode_ends}
use liveforge.Rtmp.Amf0.RoundTrip.{amf0_decode-amf0_encode}

-- a name, an object with two properties and an array
abbrev command : Items
command = item (text (97 ∷ [])) (
    item (object (field (97 ∷ []) (number 5) (field (98 ∷ []) null no_fields)))
      (item (array (item null no_items)) no_items))

abbrev command_bytes : List ℕ
command_bytes =
    2 ∷ 0 ∷ 1 ∷ 97 ∷ 3 ∷ 0 ∷ 1 ∷ 97 ∷ 0 ∷ 0 ∷ 0 ∷ 0 ∷ 0 ∷ 0 ∷ 0 ∷ 0 ∷ 5 ∷ 0 ∷ 1 ∷ 98 ∷ 5 ∷ 0 ∷ 0 ∷ 9
    ∷ 10 ∷ 0 ∷ 0 ∷ 0 ∷ 1 ∷ 5 ∷ []

encodes : amf0_encode command ≡ ok command_bytes
unfolding amf0_encode encode_value
encodes = refl

command-AreItems : AreItems command
unfolding IsValue
command-AreItems = (
  omega arith,
  ((omega arith, omega arith, (refl, tt), (omega arith, tt, tt, tt)), ((tt, tt), tt)),
)

amf0_decode-amf0_encode_example : amf0_decode command_bytes ≡ ok command
amf0_decode-amf0_encode_example =
    amf0_decode-amf0_encode command command_bytes command-AreItems encodes (omega arith)

amf0_decode_ends_example :
    (amf0_decode (10 ∷ 255 ∷ []) ≢ err out_of_fuel)
    × (amf0_decode (10 ∷ 255 ∷ []) ≢ err invalid_length)
amf0_decode_ends_example = amf0_decode_ends (10 ∷ 255 ∷ [])
