-- ===== src/Rtmp/Amf0/Safety.antt =====
-- module/rtmp/amf0.go: the decoder on any bytes ends, stays within them, and takes some for each value.
use liveforge.Base.{
  ℕ, zero, suc, ◌+◌, ◌≤◌, ◌<◌, ◌≡◌, ◌≢◌, refl, sym, ◌∙◌, subst, Bool, true, false, List, [], ◌∷◌,
  arith, ltb, ltb_false→le, Bool-cases, inl, inr, length, drop, length-drop,
}
use liveforge.Bytes.{
  err, refuse, is_shorter, is_shorter-length, be16, be32, Ensures, ensured, refused, Ensures-bind,
  Ensures-weaken,
}
use liveforge.Rtmp.Amf0.{
  Value, object, array, Items, Fields, no_fields, Error, unsupported, too_many, too_short,
  unexpected_end, name_overflow, count_too_large, invalid_length, out_of_fuel,
}
use liveforge.Rtmp.Amf0.Decode.{
  Decoded, decode_number, decode_boolean, decode_text, shifted, is_end, is_invalid, Marker,
  is_number, is_boolean, is_text, is_null, is_object, is_ecma_array, is_strict_array, is_unknown,
  marker_of, check_count, decode_value, decode_marked, decode_items, decode_properties,
  decode_property, decode_item, decode_loop, amf0_decode,
}

-- the errors that the decoder can return
abbrev pub IsReal : Error → Type 0
IsReal unsupported = Unit
IsReal too_many = Unit
IsReal too_short = Unit
IsReal unexpected_end = Unit
IsReal name_overflow = Unit
IsReal count_too_large = Unit
IsReal invalid_length = ⊥
IsReal out_of_fuel = ⊥

-- what was taken, from `lo` to `hi` bytes
abbrev pub Took : {A : Type 0} → ℕ → ℕ → A × ℕ → Type 0
Took lo hi (a, n) = (lo ≤ n) × (n ≤ hi)

refuse_le : (b : Bool) (e : Error) → IsReal e → Ensures IsReal (λ _. b ≡ false) (refuse b e)
refuse_le true e r = refused r
refuse_le false e r = ensured refl

not_shorter : (n : ℕ) (bs : List ℕ) → is_shorter n bs ≡ false → n ≤ length bs
not_shorter n bs h = ltb_false→le (length bs) n (sym (is_shorter-length n bs) ∙ h)

shifted-Ensures :
    {A B : Type 0} {lo hi : ℕ} {r : Decoded A} (f : A → B) (k : ℕ)
    → Ensures IsReal (Took lo hi) r
    → Ensures IsReal (Took (lo + k) (hi + k)) (shifted f k r)
shifted-Ensures f k p =
    Ensures-bind p (λ (v, n) (l, h). ensured (omega (arith, l), omega (arith, h)))

number-Ensures : (bs : List ℕ) → Ensures IsReal (Took 1 (length bs)) (decode_number bs)
number-Ensures bs = elim (Bool-cases (is_shorter 9 bs)) [
  | inl h ↦ rw h (refused tt)
  | inr h ↦ rw h (ensured (omega arith, not_shorter 9 bs h))
]

boolean-Ensures : (bs : List ℕ) → Ensures IsReal (Took 1 (length bs)) (decode_boolean bs)
boolean-Ensures bs = elim (Bool-cases (is_shorter 2 bs)) [
  | inl h ↦ rw h (refused tt)
  | inr h ↦ rw h (ensured (omega arith, not_shorter 2 bs h))
]

text-Ensures : (bs : List ℕ) → Ensures IsReal (Took 1 (length bs)) (decode_text bs)
text-Ensures bs = Ensures-bind (refuse_le (is_shorter 3 bs) too_short tt) (λ _ _.
    Ensures-bind (refuse_le (ltb (length bs) (3 + be16 bs 1)) too_short tt)
      (λ _ h. ensured (omega arith, ltb_false→le (length bs) (3 + be16 bs 1) h)))

check_count-Ensures : (bs : List ℕ) → Ensures IsReal (λ _. 4 ≤ length bs) (check_count bs)
check_count-Ensures bs =
    Ensures-bind (refuse_le (is_shorter 4 bs) too_short tt)
      (λ _ h. Ensures-weaken (refuse_le _ count_too_large tt) (λ _ _. not_shorter 4 bs h))

marked-Ensures :
    (properties : List ℕ → Decoded Fields) (items : ℕ → List ℕ → Decoded Items) (kind : Marker)
    (m : ℕ) (bs : List ℕ)
    → ((left : List ℕ)
        → length left ≤ length bs
        → Ensures IsReal (Took 3 (length left)) (properties left))
    → ((k : ℕ) (left : List ℕ)
        → 4 + length left ≤ length bs
        → Ensures IsReal (Took 4 (4 + length left)) (items k left))
    → Ensures IsReal (Took 1 (length (m ∷ bs))) (decode_marked properties items kind m bs)
marked-Ensures properties items is_number m bs p i = number-Ensures (m ∷ bs)
marked-Ensures properties items is_boolean m bs p i = boolean-Ensures (m ∷ bs)
marked-Ensures properties items is_text m bs p i = text-Ensures (m ∷ bs)
marked-Ensures properties items is_null m bs p i = ensured (omega arith, omega arith)
marked-Ensures properties items is_object m bs p i =
    Ensures-weaken (shifted-Ensures object 1 (p bs (omega arith)))
      (λ (v, n) (l, h). (omega (arith, l), omega (arith, h)))
marked-Ensures properties items is_ecma_array m bs p i =
    Ensures-bind (refuse_le (is_shorter 4 bs) too_short tt) (λ _ e.
      let le = not_shorter 4 bs e in
      let size = length-drop 4 bs in
      Ensures-weaken (shifted-Ensures object 5 (p (drop 4 bs) (omega (arith, size))))
        (λ (v, n) (l, h). (omega (arith, l), omega (arith, h, size, le))))
marked-Ensures properties items is_strict_array m bs p i =
    Ensures-bind (check_count-Ensures bs) (λ _ le.
      let size = length-drop 4 bs in
      Ensures-weaken (shifted-Ensures array 1 (i (be32 bs 0) (drop 4 bs) (omega (arith, size, le))))
        (λ (v, n) (l, h). (omega (arith, l), omega (arith, h, size, le))))
marked-Ensures properties items is_unknown m bs p i = refused tt

property-Ensures :
    (value : List ℕ → Decoded Value) (again : List ℕ → ℕ → Fields → Decoded Fields) (last : Bool)
    (size : ℕ) (left : List ℕ) (offset : ℕ) (obj : Fields)
    → 1 ≤ length left
    → ((more : List ℕ)
        → length more ≤ length left
        → Ensures IsReal (Took 1 (length more)) (value more))
    → ((more : List ℕ) (n : ℕ) (o : Fields)
        → length more ≤ length left
        → Ensures IsReal (Took (n + 3) (n + length more)) (again more n o))
    → Ensures IsReal
        (Took (offset + 3) (offset + (2 + length left)))
        (decode_property value again last size left offset obj)
property-Ensures value again true size left offset obj long v a = ensured (omega arith, omega arith)
property-Ensures value again false size left offset obj long v a =
    Ensures-bind (refuse_le (ltb (length left) size) name_overflow tt) (λ _ e.
      let le = ltb_false→le (length left) size e in
      let l1 = length-drop size left in
      Ensures-bind (v (drop size left) (omega (arith, l1))) (λ (w, n) (lo, hi).
        let l2 = length-drop n (drop size left) in
        Ensures-weaken
          (a (drop n (drop size left)) (offset + 2 + size + n) _ (omega (arith, l1, l2)))
          (λ (o, m) (lo2, hi2). (omega (arith, lo2), omega (arith, hi2, l1, l2, hi, le)))))

item-Ensures :
    (value : List ℕ → Decoded Value) (again : List ℕ → ℕ → Decoded Items) (left : List ℕ)
    (offset : ℕ)
    → Ensures IsReal (Took 1 (length left)) (value left)
    → ((more : List ℕ) (n : ℕ)
        → length more < length left
        → Ensures IsReal (Took n (n + length more)) (again more n))
    → Ensures IsReal (Took offset (offset + length left)) (decode_item value again left offset)
item-Ensures value again left offset v a =
    Ensures-bind (refuse_le (is_shorter 1 left) unexpected_end tt) (λ _ e.
      Ensures-bind v (λ (w, n) (lo, hi).
        let size = length-drop n left in
        let valid : is_invalid n left ≡ false = ground (arith, lo, hi) in
        rw valid (
          Ensures-bind
            (a (drop n left) (offset + n) (omega (arith, size, lo, hi, not_shorter 1 left e)))
            (λ (vs, m) (lo2, hi2). ensured (omega (arith, lo2), omega (arith, hi2, size, hi))))))

mutual
  unfolding decode_value

  value-Ensures :
      (fuel : ℕ) (bs : List ℕ)
      → length bs < fuel
      → Ensures IsReal (Took 1 (length bs)) (decode_value fuel bs)
  value-Ensures zero bs lt = absurd (omega arith)
  value-Ensures (suc fuel) [] lt = refused tt
  value-Ensures (suc fuel) (m ∷ bs) lt =
      marked-Ensures (λ left. decode_properties fuel left 0 no_fields)
        (λ k left. decode_items fuel k left 4) (marker_of m) m bs
        (λ left le.
          Ensures-weaken (properties-Ensures fuel left 0 no_fields (omega (arith, le)))
            (λ (o, n) (lo, hi). (omega (arith, lo), omega (arith, hi))))
        (λ k left le. items-Ensures fuel k left 4 (omega (arith, le)))

  items-Ensures :
      (fuel k : ℕ) (left : List ℕ) (offset : ℕ)
      → suc (length left) < fuel
      → Ensures IsReal (Took offset (offset + length left)) (decode_items fuel k left offset)
  items-Ensures fuel zero left offset lt = ensured (omega arith, omega arith)
  items-Ensures zero (suc k) left offset lt = absurd (omega arith)
  items-Ensures (suc fuel) (suc k) left offset lt =
      item-Ensures (decode_value fuel) (λ more n. decode_items fuel k more n) left offset
        (value-Ensures fuel left (omega arith))
        (λ more n le. items-Ensures fuel k more n (omega (arith, le)))

  properties-Ensures :
      (fuel : ℕ) (left : List ℕ) (offset : ℕ) (obj : Fields)
      → length left < fuel
      → Ensures IsReal
          (Took (offset + 3) (offset + length left))
          (decode_properties fuel left offset obj)
  properties-Ensures zero left offset obj lt = absurd (omega arith)
  properties-Ensures (suc fuel) left offset obj lt =
      Ensures-bind (refuse_le (is_shorter 3 left) unexpected_end tt) (λ _ e.
        let le = not_shorter 3 left e in
        let size = length-drop 2 left in
        Ensures-weaken
          (property-Ensures (decode_value fuel) (λ more n o. decode_properties fuel more n o)
            (is_end left) (be16 left 0) (drop 2 left) offset obj (omega (arith, le, size))
            (λ more l. value-Ensures fuel more (omega (arith, l, size, le)))
            (λ more n o l. properties-Ensures fuel more n o (omega (arith, l, size, le))))
          (λ (o, n) (lo, hi). (lo, omega (arith, hi, size, le))))

loop-Ensures :
    (fuel : ℕ) (bs : List ℕ) → length bs ≤ fuel → Ensures IsReal (λ _. Unit) (decode_loop fuel bs)
unfolding decode_loop
loop-Ensures fuel [] le = ensured tt
loop-Ensures zero (b ∷ bs) le = absurd (omega arith)
loop-Ensures (suc fuel) (b ∷ bs) le =
    Ensures-bind (value-Ensures (2 + length (b ∷ bs)) (b ∷ bs) (omega arith)) (λ (v, n) (lo, hi).
      Ensures-bind
        (loop-Ensures fuel (drop n (b ∷ bs)) (omega (arith, length-drop n (b ∷ bs), lo, le)))
        (λ vs _. ensured tt))

error_lem : {A : Type 0} {P : A → Type 0} {e : Error} → Ensures IsReal P (err e) → IsReal e
error_lem (refused r) = r

-- On any bytes AMF0Decode ends, and never meets an element of an array with an invalid length.
pub amf0_decode_ends :
    (bs : List ℕ) → (amf0_decode bs ≢ err out_of_fuel) × (amf0_decode bs ≢ err invalid_length)
unfolding amf0_decode
amf0_decode_ends bs =
    let sound = loop-Ensures (length bs) bs (omega arith) in
    (
      λ e. error_lem (subst (Ensures IsReal (λ _. Unit)) e sound),
      λ e. error_lem (subst (Ensures IsReal (λ _. Unit)) e sound),
    )
