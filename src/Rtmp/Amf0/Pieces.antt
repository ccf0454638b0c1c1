-- ===== src/Rtmp/Amf0/Pieces.antt =====
-- module/rtmp/amf0.go: the parts of an encoding that are not values themselves.
use liveforge.Base.{
  ℕ, suc, ◌+◌, ◌^◌, ◌≤◌, ◌<◌, ◌≡◌, ◌≢◌, refl, sym, ap, ◌∙◌, subst, Bool, true, false, List, [], ◌∷◌,
  ◌++◌, arith, ltb, le→ltb_false, ltb_false→le, if◌then◌else◌, length, length-append, get_or,
  Bool-cases, inl, inr,
}
use liveforge.Bytes.{ok, err, ◌>>=◌, bind_ok, ok_unique, put16, put32, be16-put16, take-append}
use liveforge.Rtmp.Amf0.{
  Value, number, boolean, text, null, other, object, array, Items, no_items, item, Fields, field,
  too_many, count, max_int32, put64, encode_value, encode_items, encode_fields,
}
use liveforge.Rtmp.Amf0.Decode.{be64, decode_number, decode_boolean, decode_text}

be64-put64 : (v : ℕ) → v < 2 ^ 64 → be64 (put64 v) 0 ≡ v
be64-put64 v h = omega arith

pub number_back :
    (v : ℕ) (rest : List ℕ) → v < 2 ^ 64 → decode_number ((0 ∷ put64 v) ++ rest) ≡ ok (number v, 9)
number_back v rest h = ap (λ n. ok (number n, 9)) (be64-put64 v h)

pub boolean_back :
    (b : Bool) (rest : List ℕ)
    → decode_boolean ((1 ∷ ((if b then 1 else 0) ∷ [])) ++ rest) ≡ ok (boolean b, 2)
boolean_back true rest = refl
boolean_back false rest = refl

pub text_back :
    (s rest : List ℕ)
    → length s < 2 ^ 16
    → decode_text ((2 ∷ (put16 (length s) ++ s)) ++ rest) ≡ ok (text s, 3 + length s)
text_back s rest h =
    let long : ltb (suc (suc (suc (length (s ++ rest))))) (3 + length s) ≡ false =
      le→ltb_false _ _ (omega (arith, length-append s rest)) in
    rw (be16-put16 (length s) h, long, take-append s rest) refl

-- The encoding of a value starts with a marker that is not the end marker.
abbrev pub Starts : List ℕ → Type 0
Starts bs = (1 ≤ length bs) × (get_or bs 0 0 ≢ 9)

starts : (m : ℕ) (bs out : List ℕ) → m ≢ 9 → m ∷ bs ≡ out → Starts out
starts m bs out ne e = subst Starts e (omega arith, ne)

-- An array is written when its count is at most the largest int32.
pub array_written :
    (vs : Items) (bs : List ℕ)
    → encode_value (array vs) ≡ ok bs
    → (inner : List ℕ) × (encode_items vs ≡ ok inner)
      × (count vs ≤ max_int32)
      × (10 ∷ (put32 (count vs) ++ inner) ≡ bs)
unfolding encode_value
array_written vs bs e = elim (Bool-cases (ltb max_int32 (count vs))) [
  | inl h ↦ let refused : encode_value (array vs) ≡ err too_many = rw h refl in cc
  | inr h ↦
      let made : (encode_items vs >>= (λ inner. ok (10 ∷ (put32 (count vs) ++ inner)))) ≡ ok bs =
        ap
          (λ b.
            if b
            then err too_many
            else (encode_items vs >>= (λ inner. ok (10 ∷ (put32 (count vs) ++ inner)))))
          (sym h)
        ∙ e in
      let (inner, i, last) =
        bind_ok (encode_items vs) (λ inner. ok (10 ∷ (put32 (count vs) ++ inner))) bs made in
      (inner, i, ltb_false→le max_int32 (count vs) h, ok_unique _ refl last)
]

pub object_written :
    (fs : Fields) (bs : List ℕ)
    → encode_value (object fs) ≡ ok bs
    → (inner : List ℕ) × (encode_fields fs ≡ ok inner) × (3 ∷ inner ≡ bs)
unfolding encode_value
object_written fs bs e =
    let (inner, i, last) = bind_ok (encode_fields fs) (λ x. ok (3 ∷ x)) bs e in
    (inner, i, ok_unique _ refl last)

pub item_written :
    (v : Value) (vs : Items) (bs : List ℕ)
    → encode_items (item v vs) ≡ ok bs
    → (one : List ℕ) × (more : List ℕ) × (encode_value v ≡ ok one)
      × (encode_items vs ≡ ok more)
      × (one ++ more ≡ bs)
unfolding encode_value
item_written v vs bs e =
    let (one, o, rest) =
      bind_ok (encode_value v) (λ x. encode_items vs >>= (λ y. ok (x ++ y))) bs e in
    let (more, m, last) = bind_ok (encode_items vs) (λ y. ok (one ++ y)) bs rest in
    (one, more, o, m, ok_unique _ refl last)

pub field_written :
    (name : List ℕ) (v : Value) (fs : Fields) (bs : List ℕ)
    → encode_fields (field name v fs) ≡ ok bs
    → (one : List ℕ) × (more : List ℕ) × (encode_value v ≡ ok one)
      × (encode_fields fs ≡ ok more)
      × (put16 (length name) ++ (name ++ (one ++ more)) ≡ bs)
unfolding encode_value
field_written name v fs bs e =
    let (one, o, rest) =
      bind_ok (encode_value v)
        (λ x. encode_fields fs >>= (λ y. ok (put16 (length name) ++ (name ++ (x ++ y))))) bs e in
    let (more, m, last) =
      bind_ok (encode_fields fs) (λ y. ok (put16 (length name) ++ (name ++ (one ++ y)))) bs rest in
    (one, more, o, m, ok_unique _ refl last)

pub encode_value-Starts : (v : Value) (bs : List ℕ) → encode_value v ≡ ok bs → Starts bs
unfolding encode_value
encode_value-Starts (number n) bs e =
    starts 0 (put64 n) bs (λ p. omega (arith, p)) (ok_unique _ refl e)
encode_value-Starts (boolean b) bs e = starts 1 _ bs (λ p. omega (arith, p)) (ok_unique _ refl e)
encode_value-Starts (text s) bs e = starts 2 _ bs (λ p. omega (arith, p)) (ok_unique _ refl e)
encode_value-Starts null bs e = starts 5 _ bs (λ p. omega (arith, p)) (ok_unique _ refl e)
encode_value-Starts other bs e = cc
encode_value-Starts (object fs) bs e =
    let (inner, _, made) = object_written fs bs e in starts 3 inner bs (λ p. omega (arith, p)) made
encode_value-Starts (array vs) bs e =
    let (inner, _, _, made) = array_written vs bs e in starts 10 _ bs (λ p. omega (arith, p)) made

pub encode_items-count : (vs : Items) (bs : List ℕ) → encode_items vs ≡ ok bs → count vs ≤ length bs
encode_items-count no_items bs e = omega arith
encode_items-count (item v vs) bs e =
    let (one, more, o, m, made) = item_written v vs bs e in
    let (long, _) = encode_value-Starts v one o in
    omega (arith, long, encode_items-count vs more m, length-append one more, ap length made)
