-- ===== src/Rtmp/Amf0.antt =====
-- module/rtmp/amf0.go: the values of the commands and their bytes. A float64 is the number of its 64
-- bits, a string its bytes. A Go map is the list of its entries in the order of their keys, which is
-- the order in which the code writes them (sort.Strings); the decoder inserts in that order. `other`
-- stands for every value of a Go type that AMF0 has not.
pub mod Decode
pub mod Safety
pub mod KeyOrder
pub mod Pieces
pub mod Rounds
pub mod RoundTrip
mod Tests
use liveforge.Base.{
  ℕ, zero, suc, ◌+◌, ◌/◌, ◌%◌, ◌^◌, Bool, true, false, List, [], ◌∷◌, ◌++◌, ltb, ◌==◌,
  if◌then◌else◌, length,
}
use liveforge.Bytes.{Result, ok, err, ◌>>=◌, refuse, put16, put32}

mutual
  pub data Value : Type 0 where
    number : ℕ → Value
    boolean : Bool → Value
    text : List ℕ → Value
    null other : Value
    object : Fields → Value
    array : Items → Value

  pub data Items : Type 0 where
    no_items : Items
    item : Value → Items → Items

  pub data Fields : Type 0 where
    no_fields : Fields
    field : List ℕ → Value → Fields → Fields

-- `out_of_fuel` is no error of the code: the decoder of the model was cut.
pub data Error : Type 0 where
  unsupported too_many too_short unexpected_end name_overflow count_too_large invalid_length : Error
  out_of_fuel : Error

abbrev pub count : Items → ℕ
count no_items = 0
count (item v vs) = suc (count vs)

abbrev pub max_int32 : ℕ
max_int32 = 2147483647

abbrev pub put64 : ℕ → List ℕ
put64 v = put32 (v / 4294967296) ++ put32 v

unfoldable mutual
  -- `amf0EncodeValue`
  pub encode_value : Value → Result Error (List ℕ)
  encode_value (number n) = ok (0 ∷ put64 n)
  encode_value (boolean b) = ok (1 ∷ ((if b then 1 else 0) ∷ []))
  encode_value (text s) = ok (2 ∷ (put16 (length s) ++ s))
  encode_value null = ok (5 ∷ [])
  encode_value other = err unsupported
  encode_value (object fs) = encode_fields fs >>= (λ bs. ok (3 ∷ bs))
  encode_value (array vs) =
      let bytes : Result Error (List ℕ) = encode_items vs in
      if ltb max_int32 (count vs)
      then err too_many
      else (bytes >>= (λ bs. ok (10 ∷ (put32 (count vs) ++ bs))))

  -- the loop of `amf0EncodeStrictArray`
  pub encode_items : Items → Result Error (List ℕ)
  encode_items no_items = ok []
  encode_items (item v vs) =
      encode_value v >>= (λ bs. encode_items vs >>= (λ rest. ok (bs ++ rest)))

  -- the loop of `amf0EncodeObject`, with the end marker
  pub encode_fields : Fields → Result Error (List ℕ)
  encode_fields no_fields = ok (0 ∷ (0 ∷ (9 ∷ [])))
  encode_fields (field name v fs) =
      encode_value v
      >>= (λ bs. encode_fields fs >>= (λ rest. ok (put16 (length name) ++ (name ++ (bs ++ rest)))))

-- `AMF0Encode`
unfoldable pub amf0_encode : Items → Result Error (List ℕ)
amf0_encode vs = encode_items vs
