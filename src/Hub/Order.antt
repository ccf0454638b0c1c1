-- ===== src/Hub/Order.antt =====
-- core/stream_hub.go: the map of the streams, the list of their order and the map into it agree.
use liveforge.Base.{
  ℕ, ◌+◌, ◌<◌, ◌≡◌, ◌≢◌, refl, sym, ◌∙◌, ap, ap₂, String, true, false, none, some, List, [], ◌∷◌,
  ◌++◌, ◌==◌, arith, Bool-cases, inl, inr, str_eq, subst,
}
use liveforge.Base.Assoc.{string_key, lookup, insert, delete, lookup-insert, lookup-delete}
use liveforge.Hub.{
  StreamHub, new_stream_hub, remove_element, remove_found, remove_ordered_stream, drop_stream,
  add_stream,
}

-- Every key and every object stands once, and the objects are below `next`.
abbrev pub Distinct : ℕ → List (String × ℕ) → Type 0
Distinct next [] = Unit
Distinct next ((k, s) ∷ m) =
    (s < next) × (lookup k m ≡ none) × ((j : String) → lookup j m ≢ some s) × Distinct next m

-- The order has just the streams of the map, in the order of their creation, and each is found in it
-- by its key.
pub record IsValid (h : StreamHub) : Type 0 where
  pub order : h.order ≡ h.streams
  pub by_key : h.order_by_key ≡ h.streams
  pub distinct : Distinct h.next_object h.streams

insert_missing :
    (k : String) (s : ℕ) (m : List (String × ℕ))
    → lookup k m ≡ none
    → insert k s m ≡ m ++ (k, s) ∷ []
unfolding lookup insert
insert_missing k s [] e = refl
insert_missing k s ((j, t) ∷ m) e = ground (arith, e, insert_missing k s m)

delete_missing : (k : String) (m : List (String × ℕ)) → lookup k m ≡ none → delete k m ≡ m
unfolding lookup delete
delete_missing k [] h = refl
delete_missing k ((j, w) ∷ m) h = ground (arith, delete_missing k m)

-- An object that stands under a key is the one that is removed with the key.
remove_element-delete :
    (next : ℕ) (k : String) (s : ℕ) (m : List (String × ℕ))
    → Distinct next m
    → lookup k m ≡ some s
    → remove_element s m ≡ delete k m
unfolding remove_element lookup delete
remove_element-delete next k s [] d e = refl
remove_element-delete next k s ((j, t) ∷ m) (lt, absent, alone, d) e = ground (
  arith,
  e,
  absent,
  alone k,
  delete_missing k m,
  remove_element-delete next k s m d,
  string_key.beq_iff j k,
)

missing-delete :
    (j k : String) (m : List (String × ℕ)) → lookup j m ≡ none → lookup j (delete k m) ≡ none
missing-delete j k m e = ground (arith, lookup-delete k j m, e)

alone-delete :
    (j k : String) (s : ℕ) (m : List (String × ℕ))
    → lookup j m ≢ some s
    → lookup j (delete k m) ≢ some s
alone-delete j k s m ne e = ground (arith, lookup-delete k j m, e, ne)

Distinct-delete :
    (next : ℕ) (k : String) (m : List (String × ℕ)) → Distinct next m → Distinct next (delete k m)
unfolding delete
Distinct-delete next k [] d = tt
Distinct-delete next k ((j, t) ∷ m) (lt, absent, alone, d) = elim (Bool-cases (str_eq j k)) [
  | inl same ↦ rw same (Distinct-delete next k m d)
  | inr differ ↦ rw differ (
    lt,
    missing-delete j k m absent,
    λ i. alone-delete i k t m (alone i),
    Distinct-delete next k m d,
  )
]

not_inserted :
    (j k : String) (s : ℕ) (m : List (String × ℕ))
    → str_eq j k ≡ false
    → lookup j m ≡ none
    → lookup j (insert k s m) ≡ none
not_inserted j k s m differ absent =
    ground
      (arith, lookup-insert k j s m, differ, absent, string_key.beq_iff j k, string_key.beq_iff k j)

still_alone :
    (i k : String) (s t : ℕ) (m : List (String × ℕ))
    → t < s
    → lookup i m ≢ some t
    → lookup i (insert k s m) ≢ some t
still_alone i k s t m lt ne e = ground (arith, lookup-insert k i s m, e, ne, lt)

Distinct-insert :
    (next : ℕ) (k : String) (m : List (String × ℕ))
    → Distinct next m
    → lookup k m ≡ none
    → Distinct (next + 1) (insert k next m)
unfolding insert
Distinct-insert next k [] d e =
    (omega arith, unfold lookup in refl, λ j e'. unfold lookup in cc e', tt)
Distinct-insert next k ((j, t) ∷ m) (lt, absent, alone, d) e =
    let (differ, rest) = head_differs j k t m e in
    rw differ (
      omega (arith, lt),
      not_inserted j k next m differ absent,
      λ i. still_alone i k next t m lt (alone i),
      Distinct-insert next k m d rest,
    )
  where
    head_differs :
        (j k : String) (t : ℕ) (m : List (String × ℕ))
        → lookup k ((j, t) ∷ m) ≡ none
        → (str_eq j k ≡ false) × (lookup k m ≡ none)
    head_differs j k t m e = unfold lookup in ground (arith, e)

pub new_stream_hub-IsValid : (max : ℕ) → IsValid (new_stream_hub max)
unfolding new_stream_hub
new_stream_hub-IsValid max = record { order = refl; by_key = refl; distinct = tt }

same_object : (s : ℕ) → (s == s) ≡ true
same_object s = ground arith

-- With its entry of the map, a stream leaves the order.
pub drop_stream_lem :
    (key : String) (s : ℕ) (h : StreamHub)
    → IsValid h
    → lookup key h.streams ≡ some s
    → drop_stream key s h ≡ record h {
      streams = delete key h.streams;
      order = delete key h.streams;
      order_by_key = delete key h.streams;
    }
unfolding remove_ordered_stream
drop_stream_lem key s h v e =
    let by_key : lookup key h.order_by_key ≡ some s = ap (lookup key) v.by_key ∙ e in
    ap (remove_found key s (record h { streams = delete key h.streams })) by_key
    ∙ rw (same_object s) (
        ap₂
          (λ order keys. record h {
            streams = delete key h.streams;
            order = order;
            order_by_key = keys;
          })
          (ap (remove_element s) v.order
            ∙ remove_element-delete h.next_object key s h.streams v.distinct e)
          (ap (delete key) v.by_key))

pub drop_stream-IsValid :
    (key : String) (s : ℕ) (h : StreamHub)
    → IsValid h
    → lookup key h.streams ≡ some s
    → IsValid (drop_stream key s h)
drop_stream-IsValid key s h v e = subst IsValid (sym (drop_stream_lem key s h v e)) (record {
  order = refl;
  by_key = refl;
  distinct = Distinct-delete h.next_object key h.streams v.distinct;
})

pub add_stream-IsValid :
    (key : String) (h : StreamHub)
    → IsValid h
    → lookup key h.streams ≡ none
    → IsValid (add_stream key h)
unfolding add_stream
add_stream-IsValid key h v e = record {
  order =
      ap (λ l. l ++ (key, h.next_object) ∷ []) v.order
      ∙ sym (insert_missing key h.next_object h.streams e);
  by_key = ap (insert key h.next_object) v.by_key;
  distinct = Distinct-insert h.next_object key h.streams v.distinct e;
}

pub object-lt :
    (next : ℕ) (k : String) (s : ℕ) (m : List (String × ℕ))
    → Distinct next m
    → lookup k m ≡ some s
    → s < next
unfolding lookup
object-lt next k s [] d e = cc e
object-lt next k s ((j, t) ∷ m) (lt, _, _, d) e = ground (arith, lt, e, object-lt next k s m d)
