-- ===== src/Rtmp/Amf0/KeyOrder.antt =====
-- module/rtmp/amf0.go: maps, whose entries the encoder writes in the order of their keys.
use liveforge.Base.{ℕ, ◌^◌, ◌<◌, ◌≡◌, refl, ap, true, false, List, [], ◌∷◌, arith, length}
use liveforge.Rtmp.Amf0.{
  Value, number, boolean, text, null, other, object, array, Items, no_items, item, Fields,
  no_fields, field,
}
use liveforge.Rtmp.Amf0.Decode.{key_lt, put_field}

-- every key is above `name`
abbrev pub AllAbove : List ℕ → Fields → Type 0
AllAbove name no_fields = Unit
AllAbove name (field key v fs) = (key_lt name key ≡ true) × AllAbove name fs

-- every key of the first is below every key of the second
abbrev pub Precedes : Fields → Fields → Type 0
Precedes no_fields fs = Unit
Precedes (field key v more) fs = AllAbove key fs × Precedes more fs

-- A value that AMF0 can carry: strings and keys below 2 ^ 16 bytes, and each key once, in their order.
unfoldable mutual
  pub IsValue : Value → Type 0
  IsValue (number n) = n < 2 ^ 64
  IsValue (boolean b) = Unit
  IsValue (text s) = length s < 2 ^ 16
  IsValue null = Unit
  IsValue other = ⊥
  IsValue (object fs) = AreFields fs
  IsValue (array vs) = AreItems vs

  pub AreItems : Items → Type 0
  AreItems no_items = Unit
  AreItems (item v vs) = IsValue v × AreItems vs

  pub AreFields : Fields → Type 0
  AreFields no_fields = Unit
  AreFields (field name v fs) = (length name < 2 ^ 16) × IsValue v × AllAbove name fs × AreFields fs

abbrev pub join : Fields → Fields → Fields
join no_fields fs = fs
join (field key v more) fs = field key v (join more fs)

pub join_assoc : (a b c : Fields) → join (join a b) c ≡ join a (join b c)
join_assoc no_fields b c = refl
join_assoc (field key v a) b c = ap (field key v) (join_assoc a b c)

key_lt_asym : (a b : List ℕ) → key_lt a b ≡ true → key_lt b a ≡ false
key_lt_asym [] [] h = refl
key_lt_asym [] (y ∷ b) h = refl
key_lt_asym (x ∷ a) [] h = cc
key_lt_asym (x ∷ a) (y ∷ b) h = ground (arith, key_lt_asym a b)

-- A key above all others is put at the end.
pub put_field_last :
    (name : List ℕ) (v : Value) (obj fs : Fields)
    → Precedes obj (field name v fs)
    → put_field name v obj ≡ join obj (field name v no_fields)
unfolding put_field
put_field_last name v no_fields fs p = refl
put_field_last name v (field key w obj) fs ((lt, _), p) =
    rw (key_lt_asym key name lt, lt) (ap (field key w) (put_field_last name v obj fs p))

pub Precedes-next :
    (name : List ℕ) (v : Value) (obj fs : Fields)
    → Precedes obj (field name v fs)
    → AllAbove name fs
    → Precedes (join obj (field name v no_fields)) fs
Precedes-next name v no_fields fs p above = (above, tt)
Precedes-next name v (field key w obj) fs ((_, later), p) above =
    (later, Precedes-next name v obj fs p above)

pub join_next :
    (name : List ℕ) (v : Value) (obj fs : Fields)
    → join (join obj (field name v no_fields)) fs ≡ join obj (field name v fs)
join_next name v obj fs = join_assoc obj (field name v no_fields) fs
