-- ===== src/Ring/History.antt =====
-- The ring of pkg/util/ringbuffer.go against its history, the list of all values ever written.
use liveforge.Base.{
  ℕ, ◌+◌, ◌%◌, ◌≤◌, ◌<◌, ◌≡◌, refl, sym, ◌∙◌, Bool, true, false, none, some, List, [], ◌∷◌, ◌++◌,
  arith, length, get_elem?, get_or, set, length-set, length-append, length-replicate,
  get_or-set_self, get_or-set_ne, get_elem?-append_left, get_elem?-append_end, mod-ne,
  if◌then◌else◌, inl, inr, dec_lt, Bool-cases, append-nil, append_assoc, subst,
}
use liveforge.Ring.{RingBuffer, new_ring_buffer, write, write_all}

module _ {ℓ} {A : Type ℓ} where
  -- The ring holds the last `size` values of the history.
  pub record Holds (h : List A) (rb : RingBuffer A) : Type ℓ where
    pub size_pos : 0 < rb.size
    pub storage : length rb.buf ≡ rb.size
    pub cursor : rb.write_cursor ≡ length h
    pub slot :
        (i : ℕ)
        → i < length h
        → length h ≤ i + rb.size
        → get_or rb.buf (i % rb.size) none ≡ get_elem? h i

  pub new_ring_buffer-Holds : (n : ℕ) → Holds [] (new_ring_buffer n)
  unfolding new_ring_buffer
  new_ring_buffer-Holds n = record {
    size_pos = ground arith;
    storage = length-replicate _ none;
    cursor = refl;
    slot = λ i h _. absurd (omega arith);
  }

  -- The slot that `Write` takes is the one whose value is `size` old: the others keep theirs.
  pub write-Holds :
      (h : List A) (rb : RingBuffer A) (x : A)
      → rb.closed ≡ false
      → Holds h rb
      → Holds (h ++ x ∷ []) (write x rb)
  unfolding write
  write-Holds h rb x open_ring v = rw open_ring (record {
    size_pos = v.size_pos;
    storage = length-set rb.buf _ (some x) ∙ v.storage;
    cursor = omega (arith, v.cursor, length-append h (x ∷ []));
    slot = λ i lt le.
        slot_write i (omega (arith, length-append h (x ∷ [])))
          (omega (arith, length-append h (x ∷ [])));
  })
    where
      slot_write :
          (i : ℕ)
          → i < length h + 1
          → length h + 1 ≤ i + rb.size
          → get_or (set rb.buf (rb.write_cursor % rb.size) (some x)) (i % rb.size) none
            ≡ get_elem? (h ++ x ∷ []) i
      slot_write i lt le = elim (dec_lt i (length h)) [
        | yes p ↦
            get_or-set_ne rb.buf (rb.write_cursor % rb.size) (i % rb.size) (some x) none
              (λ e. mod-ne rb.size i (length h) p (omega arith) (rw (← v.cursor) (sym e)))
            ∙ v.slot i p (omega arith)
            ∙ sym (get_elem?-append_left h (x ∷ []) i p)
        | no np ↦
            let here : i ≡ length h = omega arith in
            rw (here, v.cursor)
              (get_or-set_self rb.buf (length h % rb.size) (some x) none
                  (omega (arith, v.storage, v.size_pos))
                ∙ sym (get_elem?-append_end h x))
      ]

  -- What a list of writes adds to the history: on a closed ring they are dropped.
  unfoldable pub accepted : RingBuffer A → List A → List A
  accepted rb xs = if rb.closed then [] else xs

  pub accepted-empty : (rb : RingBuffer A) → accepted rb [] ≡ []
  unfolding accepted
  accepted-empty rb = ground arith

  closed-write : (rb : RingBuffer A) (x : A) → (write x rb).closed ≡ rb.closed
  unfolding write
  closed-write rb x = ground arith

  pub write_closed : (rb : RingBuffer A) (x : A) → rb.closed ≡ true → write x rb ≡ rb
  unfolding write
  write_closed rb x h = rw h

  write_all_closed : (xs : List A) (rb : RingBuffer A) → rb.closed ≡ true → write_all xs rb ≡ rb
  unfolding write_all
  write_all_closed [] rb h = refl
  write_all_closed (x ∷ xs) rb h = rw (write_closed rb x h) (write_all_closed xs rb h)

  write_all_open :
      (xs h : List A) (rb : RingBuffer A)
      → rb.closed ≡ false
      → Holds h rb
      → Holds (h ++ xs) (write_all xs rb)
  unfolding write_all
  write_all_open [] h rb c v = rw append-nil v
  write_all_open (x ∷ xs) h rb c v =
      subst (λ k. Holds k (write_all xs (write x rb))) (append_assoc h (x ∷ []) xs)
        (write_all_open xs (h ++ x ∷ []) (write x rb) (closed-write rb x ∙ c)
          (write-Holds h rb x c v))

  append-nil-of_closed :
      (h : List A) (rb : RingBuffer A) (xs : List A) → rb.closed ≡ true → h ++ accepted rb xs ≡ h
  unfolding accepted
  append-nil-of_closed h rb xs c = rw (c, append-nil)

  pub accepted_closed : (rb : RingBuffer A) (xs : List A) → rb.closed ≡ true → accepted rb xs ≡ []
  unfolding accepted
  accepted_closed rb xs c = rw c

  pub accepted_open : (rb : RingBuffer A) (xs : List A) → rb.closed ≡ false → accepted rb xs ≡ xs
  unfolding accepted
  accepted_open rb xs c = rw c

  -- After any writes, the ring holds the end of the history with the accepted ones at its end.
  pub write_all-Holds :
      (xs h : List A) (rb : RingBuffer A)
      → Holds h rb
      → Holds (h ++ accepted rb xs) (write_all xs rb)
  write_all-Holds xs h rb v = elim (Bool-cases rb.closed) [
    | inl c ↦ rw (write_all_closed xs rb c, append-nil-of_closed h rb xs c) v
    | inr c ↦ rw (accepted_open rb xs c) (write_all_open xs h rb c v)
  ]

  size-write : (rb : RingBuffer A) (x : A) → (write x rb).size ≡ rb.size
  unfolding write
  size-write rb x = ground arith

  pub size-write_all : (xs : List A) (rb : RingBuffer A) → (write_all xs rb).size ≡ rb.size
  unfolding write_all
  size-write_all [] rb = refl
  size-write_all (x ∷ xs) rb = size-write_all xs (write x rb) ∙ size-write rb x

  pub closed-write_all : (xs : List A) (rb : RingBuffer A) → (write_all xs rb).closed ≡ rb.closed
  unfolding write_all
  closed-write_all [] rb = refl
  closed-write_all (x ∷ xs) rb = closed-write_all xs (write x rb) ∙ closed-write rb x

  pub write_all-append :
      (xs ys : List A) (rb : RingBuffer A)
      → write_all (xs ++ ys) rb ≡ write_all ys (write_all xs rb)
  unfolding write_all
  write_all-append [] ys rb = refl
  write_all-append (x ∷ xs) ys rb = write_all-append xs ys (write x rb)

  pub accepted-append :
      (xs ys : List A) (rb : RingBuffer A)
      → accepted rb (xs ++ ys) ≡ accepted rb xs ++ accepted (write_all xs rb) ys
  unfolding accepted
  accepted-append xs ys rb = rw (closed-write_all xs rb) (by_test rb.closed)
    where
      by_test :
          (b : Bool)
          → (if b then [] else xs ++ ys) ≡ (if b then [] else xs) ++ (if b then [] else ys)
      by_test true = refl
      by_test false = refl
