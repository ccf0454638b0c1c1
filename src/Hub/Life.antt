-- ===== src/Hub/Life.antt =====
-- core/stream_hub.go: what holds of the hub in every run, and what its operations do.
use liveforge.Base.{
  ℕ, ◌≤◌, ◌<◌, ◌≡◌, ◌≢◌, refl, sym, ◌∙◌, ap, String, Bool, true, false, Option, none, some, [],
  ◌&&◌, ltb, leb, ◌==◌, if◌then◌else◌, length, arith, Bool-cases, inl, inr, str_eq, subst,
  ℕ_discrete,
}
use liveforge.Base.Assoc.{string_key, lookup, delete, lookup-insert, lookup-delete}
use liveforge.Hub.{
  StreamHub, limit_reached, new_stream_hub, drop_stream, add_stream, admit, get_or_create,
  get_current, remove_current, remove_same, remove, remove_if_current,
}
use liveforge.Hub.Order.{
  IsValid, new_stream_hub-IsValid, drop_stream_lem, drop_stream-IsValid, add_stream-IsValid,
  object-lt,
}

-- One call of a method that changes the hub; what streams are ending may differ from call to call.
pub data Step : StreamHub → StreamHub → Type 0 where
  creates :
      (is_ending : ℕ → Bool) (key : String) (h : StreamHub)
      → Step h (get_or_create is_ending key h).1
  removes : (key : String) (h : StreamHub) → Step h (remove key h).0
  expires : (key : String) (s : ℕ) (h : StreamHub) → Step h (remove_if_current key s h).0
  limits : (max : ℕ) (h : StreamHub) → Step h (record h { max_streams = max })

pub data Reach (h : StreamHub) : StreamHub → Type 0 where
  here : Reach h h
  next : {g k : StreamHub} → Reach h g → Step g k → Reach h k

admit-IsValid :
    (key : String) (r : Option ℕ) (h : StreamHub)
    → IsValid h
    → lookup key h.streams ≡ none
    → IsValid (admit key r h).1
unfolding admit
admit-IsValid key r h v e =
    elim (Bool-cases (ltb 0 h.max_streams && leb h.max_streams (length h.streams))) [
      | inl full ↦ rw full v
      | inr room ↦ rw room (add_stream-IsValid key h v e)
    ]

self_test : (A : Type 0) (x y : A) (key : String) → (if str_eq key key then x else y) ≡ x
self_test A x y key = rw ((string_key.beq_iff key key).1 refl) refl

gone :
    (key : String) (s : ℕ) (h : StreamHub)
    → IsValid h
    → lookup key h.streams ≡ some s
    → lookup key (drop_stream key s h).streams ≡ none
gone key s h v e =
    ap (λ x. lookup key x.streams) (drop_stream_lem key s h v e)
    ∙ lookup-delete key key h.streams
    ∙ self_test _ _ _ key

get_current-IsValid :
    (is_ending : ℕ → Bool) (key : String) (h : StreamHub) (current : Option ℕ)
    → IsValid h
    → lookup key h.streams ≡ current
    → IsValid (get_current is_ending key h current).1
get_current-IsValid is_ending key h none v e = admit-IsValid key none h v e
get_current-IsValid is_ending key h (some s) v e = elim (Bool-cases (is_ending s)) [
  | inl ends ↦ rw ends (
      admit-IsValid key (some s) (drop_stream key s h) (drop_stream-IsValid key s h v e)
        (gone key s h v e))
  | inr lives ↦ rw lives v
]

remove_current-IsValid :
    (key : String) (h : StreamHub) (current : Option ℕ)
    → IsValid h
    → lookup key h.streams ≡ current
    → IsValid (remove_current key h current).0
remove_current-IsValid key h none v e = v
remove_current-IsValid key h (some s) v e = drop_stream-IsValid key s h v e

other_object : (a b : ℕ) → a ≢ b → (a == b) ≡ false
other_object a b ne = ground (arith, ne)

same_object : (a : ℕ) → (a == a) ≡ true
same_object a = ground arith

remove_same-IsValid :
    (key : String) (stream : ℕ) (h : StreamHub) (current : Option ℕ)
    → IsValid h
    → lookup key h.streams ≡ current
    → IsValid (remove_same key stream h current).0
remove_same-IsValid key stream h none v e = v
remove_same-IsValid key stream h (some s) v e = elim (ℕ_discrete s stream) [
  | yes same ↦
      subst (λ x. IsValid (remove_same key x h (some s)).0) same
        (rw (same_object s) (drop_stream-IsValid key s h v e))
  | no differ ↦ rw (other_object s stream differ) v
]

Step-IsValid : {h g : StreamHub} → Step h g → IsValid h → IsValid g
unfolding get_or_create remove remove_if_current
Step-IsValid (creates is_ending key h) v = get_current-IsValid is_ending key h _ v refl
Step-IsValid (removes key h) v = remove_current-IsValid key h _ v refl
Step-IsValid (expires key s h) v = remove_same-IsValid key s h _ v refl
Step-IsValid (limits max h) v = record { order = v.order; by_key = v.by_key; distinct = v.distinct }

run_keeps : {h g : StreamHub} → Reach h g → IsValid h → IsValid g
run_keeps here v = v
run_keeps (next r step) v = Step-IsValid step (run_keeps r v)

-- In every run of a hub, the creation order holds exactly the streams of the map, each once and under
-- its key, whatever streams are created, replaced, removed or expire; and no two keys have one stream.
pub Reach-IsValid : (max : ℕ) {h : StreamHub} → Reach (new_stream_hub max) h → IsValid h
Reach-IsValid max r = run_keeps r (new_stream_hub-IsValid max)

not_admitted :
    (key : String) (r : Option ℕ) (g : StreamHub) (s : ℕ)
    → lookup key g.streams ≡ none
    → s < g.next_object
    → lookup key (admit key r g).1.streams ≢ some s
unfolding admit add_stream
not_admitted key r g s absent lt =
    elim (Bool-cases (ltb 0 g.max_streams && leb g.max_streams (length g.streams))) [
      | inl full ↦ rw full (λ e. cc (absent, e))
      | inr room ↦ rw room (λ e.
          ground (
            arith,
            lookup-insert key key g.next_object g.streams,
            string_key.beq_iff key key,
            e,
            lt,
          ))
    ]

not_same :
    (key : String) (s : ℕ) (g : StreamHub) (current : Option ℕ)
    → current ≢ some s
    → remove_same key s g current ≡ (g, [])
not_same key s g none ne = refl
not_same key s g (some t) ne = rw (other_object t s (λ e. ne (ap some e))) refl

not_current :
    (key : String) (s : ℕ) (g : StreamHub)
    → lookup key g.streams ≢ some s
    → remove_if_current key s g ≡ (g, [])
unfolding remove_if_current
not_current key s g ne = not_same key s g (lookup key g.streams) ne

-- A stream that ends late: once `GetOrCreate` has put another stream in its place, its callback
-- removes nothing, closes nothing and announces nothing.
pub replaced_expires :
    (is_ending : ℕ → Bool) (key : String) (s : ℕ) (h : StreamHub)
    → IsValid h
    → lookup key h.streams ≡ some s
    → is_ending s ≡ true
    → remove_if_current key s (get_or_create is_ending key h).1
      ≡ ((get_or_create is_ending key h).1, [])
unfolding get_or_create remove_if_current
replaced_expires is_ending key s h v e ends = not_current key s _ (
    subst (λ x. lookup key (get_current is_ending key h x).1.streams ≢ some s) (sym e)
      (rw ends (
        not_admitted key (some s) (drop_stream key s h) s (gone key s h v e) (
          rw (drop_stream_lem key s h v e)
            (object-lt h.next_object key s h.streams v.distinct e)))))

full_admit :
    (key : String) (r : Option ℕ) (g : StreamHub)
    → 0 < g.max_streams
    → g.max_streams ≤ length g.streams
    → admit key r g ≡ (limit_reached, g, [])
unfolding admit
full_admit key r g pos full = ground (arith, pos, full)

-- A stream that is ending when its key is asked for, in a hub whose limit has been lowered so far that
-- it is reached without this stream: the call returns the error of the limit and has removed the
-- stream, without closing it and without its destroy event; and the callback that the stream makes
-- when it has ended does nothing of this either.
pub lost_stream :
    (is_ending : ℕ → Bool) (key : String) (s : ℕ) (h : StreamHub)
    → IsValid h
    → lookup key h.streams ≡ some s
    → is_ending s ≡ true
    → 0 < h.max_streams
    → h.max_streams ≤ length (delete key h.streams)
    → (get_or_create is_ending key h ≡ (limit_reached, drop_stream key s h, []))
      × (lookup key (drop_stream key s h).streams ≡ none)
      × (remove_if_current key s (drop_stream key s h) ≡ (drop_stream key s h, []))
unfolding get_or_create
lost_stream is_ending key s h v e ends pos full = (
  ap (get_current is_ending key h) e
      ∙ rw ends (
          full_admit key (some s) (drop_stream key s h) (rw (drop_stream_lem key s h v e) pos)
            (rw (drop_stream_lem key s h v e) full)),
  gone key s h v e,
  not_current key s (drop_stream key s h) (λ e'. cc (gone key s h v e, e')),
)
