-- ===== src/Rtmp/Amf0/RoundTrip.antt =====
-- module/rtmp/amf0.go: the decoder gives back the values that were encoded.
use liveforge.Base.{
  ℕ, zero, suc, ◌+◌, ◌≤◌, ◌<◌, ◌≡◌, refl, sym, ap, ◌∙◌, subst, List, [], ◌∷◌, ◌++◌, arith, length,
  length-append, append_assoc,
}
use liveforge.Bytes.{ok, ◌>>=◌, ok_unique, be32, put16, put32, be32-put32, drop-append}
use liveforge.Rtmp.Amf0.{
  Value, number, boolean, text, null, other, object, array, Items, no_items, item, Fields,
  no_fields, field, count, max_int32, encode_value, encode_items, encode_fields, amf0_encode,
}
use liveforge.Rtmp.Amf0.Decode.{
  shifted, marker_of, decode_value, decode_items, decode_properties, decode_loop, amf0_decode,
}
use liveforge.Rtmp.Amf0.KeyOrder.{
  Precedes, IsValue, AreItems, AreFields, join, put_field_last, Precedes-next, join_next,
}
use liveforge.Rtmp.Amf0.Pieces.{
  number_back, boolean_back, text_back, encode_value-Starts, array_written, object_written,
  item_written, field_written, encode_items-count,
}
use liveforge.Rtmp.Amf0.Rounds.{check_count_ok, item_back, join_nil, round_back}

mutual
  unfolding decode_value encode_value marker_of IsValue

  value_back :
      (v : Value) (bs rest : List ℕ) (fuel : ℕ)
      → IsValue v
      → encode_value v ≡ ok bs
      → length bs + length rest < fuel
      → length bs + length rest ≤ max_int32
      → decode_value fuel (bs ++ rest) ≡ ok (v, length bs)
  value_back v bs rest zero w e lt size = absurd (omega arith)
  value_back (number n) bs rest (suc fuel) w e lt size =
      subst (λ b. decode_value (suc fuel) (b ++ rest) ≡ ok (number n, length b))
        (ok_unique _ refl e) (number_back n rest w)
  value_back (boolean b) bs rest (suc fuel) w e lt size =
      subst (λ x. decode_value (suc fuel) (x ++ rest) ≡ ok (boolean b, length x))
        (ok_unique _ refl e) (boolean_back b rest)
  value_back (text s) bs rest (suc fuel) w e lt size =
      subst (λ x. decode_value (suc fuel) (x ++ rest) ≡ ok (text s, length x)) (ok_unique _ refl e)
        (text_back s rest w ∙ ap (λ n. ok (text s, n)) (omega arith))
  value_back null bs rest (suc fuel) w e lt size =
      subst (λ x. decode_value (suc fuel) (x ++ rest) ≡ ok (null, length x)) (ok_unique _ refl e)
        refl
  value_back other bs rest (suc fuel) w e lt size = elim w [ ]
  value_back (object fs) bs rest (suc fuel) w e lt size =
      let (inner, i, made) = object_written fs bs e in
      let long : suc (length inner) ≡ length bs = ap length made in
      subst (λ x. decode_value (suc fuel) (x ++ rest) ≡ ok (object fs, length x)) made
        (ap (shifted object 1) (
            fields_back fs inner rest fuel 0 no_fields w tt i (omega (arith, lt, long))
              (omega (arith, size, long)))
          ∙ ap (λ n. ok (object fs, n)) (omega arith))
  value_back (array vs) bs rest (suc fuel) w e lt size =
      let (inner, i, small, made) = array_written vs bs e in
      let long : 5 + length inner ≡ length bs = omega (arith, ap length made) in
      let whole : length (inner ++ rest) ≡ length inner + length rest = length-append inner rest in
      subst (λ x. decode_value (suc fuel) (x ++ rest) ≡ ok (array vs, length x)) made
        (ap
            (λ x. x >>= (λ _.
              shifted array 1 (decode_items fuel (be32 (put32 (count vs)) 0) (inner ++ rest) 4)))
            (check_count_ok (count vs) (inner ++ rest) small
              (omega (arith, whole, encode_items-count vs inner i))
              (omega (arith, whole, size, long)))
          ∙ ap (λ k. shifted array 1 (decode_items fuel k (inner ++ rest) 4))
              (be32-put32 (count vs) (omega (arith, small)))
          ∙ ap (shifted array 1) (
              items_back vs inner rest fuel 4 w i (omega (arith, lt, long))
                (omega (arith, size, long)))
          ∙ ap (λ n. ok (array vs, n)) (omega arith))

  items_back :
      (vs : Items) (bs rest : List ℕ) (fuel offset : ℕ)
      → AreItems vs
      → encode_items vs ≡ ok bs
      → suc (length bs + length rest) < fuel
      → length bs + length rest ≤ max_int32
      → decode_items fuel (count vs) (bs ++ rest) offset ≡ ok (vs, offset + length bs)
  items_back no_items bs rest fuel offset w e lt size =
      subst (λ x. decode_items fuel 0 (x ++ rest) offset ≡ ok (no_items, offset + length x))
        (ok_unique _ refl e) (ap (λ n. ok (no_items, n)) (omega arith))
  items_back (item v vs) bs rest zero offset w e lt size = absurd (omega arith)
  items_back (item v vs) bs rest (suc fuel) offset (wv, wvs) e lt size =
      let (one, more, o, m, made) = item_written v vs bs e in
      let (long, _) = encode_value-Starts v one o in
      let total : length bs ≡ length one + length more =
        sym (ap length made) ∙ length-append one more in
      let whole : length (more ++ rest) ≡ length more + length rest = length-append more rest in
      subst
        (λ x.
          decode_items (suc fuel) (suc (count vs)) (x ++ rest) offset
          ≡ ok (item v vs, offset + length x))
        made
        (ap (λ x. decode_items (suc fuel) (suc (count vs)) x offset) (append_assoc one more rest)
          ∙ item_back (decode_value fuel) (λ l n. decode_items fuel (count vs) l n) one
              (more ++ rest) v vs offset (offset + length one + length more) long
              (value_back v one (more ++ rest) fuel wv o (omega (arith, lt, total, whole))
                (omega (arith, size, total, whole)))
              (items_back vs more rest fuel (offset + length one) wvs m
                (omega (arith, lt, total, long)) (omega (arith, size, total)))
          ∙ ap (λ n. ok (item v vs, n)) (omega (arith, length-append one more)))

  fields_back :
      (fs : Fields) (bs rest : List ℕ) (fuel offset : ℕ) (obj : Fields)
      → AreFields fs
      → Precedes obj fs
      → encode_fields fs ≡ ok bs
      → length bs + length rest < fuel
      → length bs + length rest ≤ max_int32
      → decode_properties fuel (bs ++ rest) offset obj ≡ ok (join obj fs, offset + length bs)
  fields_back fs bs rest zero offset obj w p e lt size = absurd (omega arith)
  fields_back no_fields bs rest (suc fuel) offset obj w p e lt size =
      subst
        (λ x.
          decode_properties (suc fuel) (x ++ rest) offset obj
          ≡ ok (join obj no_fields, offset + length x))
        (ok_unique _ refl e) (ap (λ o. ok (o, offset + 3)) (join_nil obj))
  fields_back (field name v fs) bs rest (suc fuel) offset obj (small, wv, above, wfs) p e lt size =
      let (one, more, o, m, made) = field_written name v fs bs e in
      let st = encode_value-Starts v one o in
      let total : length bs ≡ 2 + length name + (length one + length more) =
        omega (arith, ap length made, length-append name (one ++ more), length-append one more) in
      let whole : length (more ++ rest) ≡ length more + length rest = length-append more rest in
      let obj1 : Fields = join obj (field name v no_fields) in
      let offset1 : ℕ = offset + 2 + length name + length one in
      subst
        (λ x.
          decode_properties (suc fuel) (x ++ rest) offset obj
          ≡ ok (join obj (field name v fs), offset + length x))
        made
        (ap (λ x. decode_properties (suc fuel) (put16 (length name) ++ x) offset obj)
            (append_assoc name (one ++ more) rest
              ∙ ap (λ x. name ++ x) (append_assoc one more rest))
          ∙ round_back fuel name one (more ++ rest) v offset obj small st (
              value_back v one (more ++ rest) fuel wv o (omega (arith, lt, total, whole))
                (omega (arith, size, total, whole)))
          ∙ ap (decode_properties fuel (more ++ rest) offset1) (put_field_last name v obj fs p)
          ∙ fields_back fs more rest fuel offset1 obj1 wfs (Precedes-next name v obj fs p above) m
              (omega (arith, lt, total)) (omega (arith, size, total))
          ∙ ap (λ o. ok (o, offset1 + length more)) (join_next name v obj fs)
          ∙ ap (λ n. ok (join obj (field name v fs), n))
              (omega (arith, length-append name (one ++ more), length-append one more)))

-- A round of the loop of `AMF0Decode`.
loop_round :
    (fuel : ℕ) (v : Value) (vs : Items) (one more : List ℕ)
    → 1 ≤ length one
    → length one + length more ≤ fuel
    → decode_value (2 + length (one ++ more)) (one ++ more) ≡ ok (v, length one)
    → ((f : ℕ) → length more ≤ f → decode_loop f more ≡ ok vs)
    → decode_loop fuel (one ++ more) ≡ ok (item v vs)
unfolding decode_loop
loop_round fuel v vs [] more long le read again = absurd (omega arith)
loop_round zero v vs (b ∷ one) more long le read again = absurd (omega arith)
loop_round (suc fuel) v vs (b ∷ one) more long le read again =
    rw (read, drop-append (b ∷ one) more, again fuel (omega (arith, le))) refl

loop_back :
    (vs : Items) (bs : List ℕ) (fuel : ℕ)
    → AreItems vs
    → encode_items vs ≡ ok bs
    → length bs ≤ fuel
    → length bs ≤ max_int32
    → decode_loop fuel bs ≡ ok vs
unfolding decode_loop encode_value IsValue
loop_back no_items bs fuel w e le size =
    subst (λ x. decode_loop fuel x ≡ ok no_items) (ok_unique _ refl e) refl
loop_back (item v vs) bs fuel (wv, wvs) e le size =
    let (one, more, o, m, made) = item_written v vs bs e in
    let (long, _) = encode_value-Starts v one o in
    let total : length bs ≡ length one + length more =
      sym (ap length made) ∙ length-append one more in
    subst (λ x. decode_loop fuel x ≡ ok (item v vs)) made
      (loop_round fuel v vs one more long (omega (arith, total, le))
        (value_back v one more (2 + length (one ++ more)) wv o
          (omega (arith, length-append one more)) (omega (arith, total, size)))
        (λ f l. loop_back vs more f wvs m l (omega (arith, total, size))))

-- AMF0Decode gives back the values that AMF0Encode wrote, when strings and keys are below 2 ^ 16 bytes,
-- each object has each key once and the bytes are at most the largest int32.
pub amf0_decode-amf0_encode :
    (vs : Items) (bs : List ℕ)
    → AreItems vs
    → amf0_encode vs ≡ ok bs
    → length bs ≤ max_int32
    → amf0_decode bs ≡ ok vs
unfolding amf0_decode amf0_encode
amf0_decode-amf0_encode vs bs w e size = loop_back vs bs (length bs) w e (omega arith) size
