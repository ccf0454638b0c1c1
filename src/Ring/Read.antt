-- ===== src/Ring/Read.antt =====
-- `TryReadResult` of pkg/util/ringbuffer.go against the history, whatever the writer does meanwhile.
use liveforge.Base.{
  ℕ, ◌+◌, ◌-◌, ◌%◌, ◌≤◌, ◌<◌, ◌≡◌, refl, ◌∙◌, ap, Bool, true, false, Option, none, some, List, [],
  ◌∷◌, ◌++◌, arith, length, get_elem?, get_or, max, length-append, append_assoc, if◌then◌else◌, ltb,
  Bool-cases, inl, inr, tests, lt→leb_false, le→leb, concat,
}
use liveforge.Ring.{
  RingBuffer, RingReader, RingReadResult, finished, lapped, write_all, round, after_round,
  try_read_loop, try_read_result,
}
use liveforge.Ring.History.{
  Holds, accepted, write_all-Holds, size-write_all, write_all-append, accepted-append,
}

jump_cursor : (rc oldest : ℕ) → (if ltb rc oldest then oldest else rc) ≡ max rc oldest
jump_cursor rc oldest = ground arith

jump_skipped :
    (rc oldest ow start : ℕ)
    → rc ≡ start + ow
    → (if ltb rc oldest then ow + (oldest - rc) else ow) ≡ max rc oldest - start
jump_skipped rc oldest ow start e = ground arith

module _ {ℓ} {A : Type ℓ} where
  -- The position that a read serves: the reader's, or the oldest one that the ring still holds.
  abbrev pub serving : List A → ℕ → ℕ → ℕ
  serving h size start = max start (length h - size)

  -- What a read returns that sees the history `h`, and the reader that it leaves.
  unfoldable pub read_of : List A → ℕ → ℕ → RingReadResult A
  read_of h size start = record {
    value = get_elem? h (serving h size start);
    is_ok = true;
    overwritten = serving h size start - start;
  }

  unfoldable pub reader_after : List A → ℕ → ℕ → Bool → RingReader
  reader_after h size start closed = record {
    read_cursor = serving h size start + 1;
    last_skipped = serving h size start - start;
    closed = closed;
  }

  round_step :
      (ws : List A) (ow start : ℕ) (r : RingReader) (rb : RingBuffer A)
      → r.read_cursor < rb.write_cursor
      → r.read_cursor ≡ start + ow
      → let at = max r.read_cursor (rb.write_cursor - rb.size) in
        let rb' = write_all ws rb in
        round ws ow r rb ≡ (
          if ltb at (rb'.write_cursor - rb'.size)
          then lapped (at - start) (record r { read_cursor = at }) rb'
          else finished
              (record {
                value = get_or rb'.buf (at % rb'.size) none;
                is_ok = true;
                overwritten = at - start;
              })
              (record r { read_cursor = at + 1; last_skipped = at - start })
              rb')
  unfolding round
  round_step ws ow start r rb h e =
      let rc = r.read_cursor in
      let oldest = rb.write_cursor - rb.size in
      rw (
        lt→leb_false rb.write_cursor rc h,
        jump_cursor rc oldest,
        jump_skipped rc oldest ow start e,
      )

  -- the state of the loop: `overwritten` positions behind `start` have been given up, and none of
  -- them is in the ring any more
  record Trailing (h : List A) (start ow : ℕ) (r : RingReader) (rb : RingBuffer A) : Type ℓ where
    holds : Holds h rb
    behind : r.read_cursor < length h
    cursor : r.read_cursor ≡ start + ow
    given_up : start + ow ≤ max start (length h - rb.size)

  -- the return of the loop, when it serves `start` from the history `h` and leaves the ring `rb`
  abbrev pub reply :
      List A → ℕ → ℕ → Bool → RingBuffer A → Option (RingReadResult A × RingReader × RingBuffer A)
  reply h size start closed rb = some (read_of h size start, reader_after h size start closed, rb)

  module _ (ws h : List A) (start ow : ℕ) (r : RingReader) (rb : RingBuffer A)
      (t : Trailing h start ow r rb) where
    at : ℕ
    at = max r.read_cursor (rb.write_cursor - rb.size)

    h' : List A
    h' = h ++ accepted rb ws

    rb' : RingBuffer A
    rb' = write_all ws rb

    after : Holds h' rb'
    unfolding h' rb'
    after = write_all-Holds ws h rb t.holds

    grown : length h ≤ length h'
    unfolding h'
    grown = omega (arith, length-append h (accepted rb ws))

    same_size : rb'.size ≡ rb.size
    unfolding rb'
    same_size = size-write_all ws rb

    -- not lapped: the position is the one that the new history makes the oldest
    settled : ltb at (rb'.write_cursor - rb'.size) ≡ false → at ≡ serving h' rb.size start
    unfolding at
    settled e = omega (
      tests, grown, same_size, after.cursor, t.holds.cursor, t.holds.size_pos, t.cursor, t.given_up,
      e, t.behind,
    )

    -- whether the writer has lapped the reader before it takes the lock
    abbrev lap : Bool
    lap = ltb at (rb'.write_cursor - rb'.size)

    at-lt-length : ltb at (rb'.write_cursor - rb'.size) ≡ false → at < length h'
    at-lt-length e = omega (tests, settled e, grown, t.behind, t.holds.size_pos, t.cursor)

    slot_at :
        ltb at (rb'.write_cursor - rb'.size) ≡ false
        → get_or rb'.buf (at % rb'.size) none ≡ get_elem? h' at
    slot_at e = after.slot at (at-lt-length e) (omega (tests, e, after.cursor))

    step : round ws ow r rb ≡ (
        if ltb at (rb'.write_cursor - rb'.size)
        then lapped (at - start) (record r { read_cursor = at }) rb'
        else finished
            (record {
              value = get_or rb'.buf (at % rb'.size) none;
              is_ok = true;
              overwritten = at - start;
            })
            (record r { read_cursor = at + 1; last_skipped = at - start })
            rb')
    unfolding at rb'
    step = round_step ws ow start r rb (omega (arith, t.behind, t.holds.cursor)) t.cursor

    -- the values that the last round returns
    round_finished :
        ltb at (rb'.write_cursor - rb'.size) ≡ false
        → round ws ow r rb
          ≡ finished (read_of h' rb.size start) (reader_after h' rb.size start r.closed) rb'
    unfolding read_of reader_after
    round_finished e = step ∙ rw (e, slot_at e, settled e)

    round_lapped :
        ltb at (rb'.write_cursor - rb'.size) ≡ true
        → round ws ow r rb ≡ lapped (at - start) (record r { read_cursor = at }) rb'
    round_lapped e = step ∙ rw e

    Trailing-lapped :
        ltb at (rb'.write_cursor - rb'.size) ≡ true
        → Trailing h' start (at - start) (record r { read_cursor = at }) rb'
    unfolding at
    Trailing-lapped e = record {
      holds = after;
      behind = omega (tests, e, after.cursor, after.size_pos);
      cursor = omega (arith, t.cursor);
      given_up = omega (
        tests, grown, same_size, after.cursor, t.holds.cursor, t.holds.size_pos, t.cursor,
        t.given_up, e, t.behind,
      );
    }

  one_more_round :
      (ws ws' h : List A) (start : ℕ) (c : Bool) (rb : RingBuffer A)
      → reply
          ((h ++ accepted rb ws) ++ accepted (write_all ws rb) ws')
          (write_all ws rb).size
          start
          c
          (write_all ws' (write_all ws rb))
        ≡ reply (h ++ accepted rb (ws ++ ws')) rb.size start c (write_all (ws ++ ws') rb)
  one_more_round ws ws' h start c rb = cc (
    accepted-append ws ws' rb,
    append_assoc h (accepted rb ws) (accepted (write_all ws rb) ws'),
    write_all-append ws ws' rb,
    size-write_all ws rb,
  )

  loop_finished :
      (ws : List A) (rest : List (List A)) (h : List A) (start ow : ℕ) (r : RingReader)
      (rb : RingBuffer A) (t : Trailing h start ow r rb)
      → lap ws h start ow r rb t ≡ false
      → try_read_loop (ws ∷ rest) ow r rb
        ≡ reply (h ++ accepted rb ws) rb.size start r.closed (write_all ws rb)
  unfolding try_read_loop h' rb'
  loop_finished ws rest h start ow r rb t e =
      ap (after_round (try_read_loop rest)) (round_finished ws h start ow r rb t e)

  loop_lapped :
      (ws : List A) (rest : List (List A)) (h : List A) (start ow : ℕ) (r : RingReader)
      (rb : RingBuffer A) (t : Trailing h start ow r rb)
      → lap ws h start ow r rb t ≡ true
      → let at = at ws h start ow r rb t in
        try_read_loop (ws ∷ rest) ow r rb
        ≡ try_read_loop rest (at - start) (record r { read_cursor = at }) (write_all ws rb)
  unfolding try_read_loop rb'
  loop_lapped ws rest h start ow r rb t e =
      ap (after_round (try_read_loop rest)) (round_lapped ws h start ow r rb t e)

  -- with no writes in between, the round after the load is the last
  loop_quiet :
      (h : List A) (start ow : ℕ) (r : RingReader) (rb : RingBuffer A)
      → Trailing h start ow r rb
      → try_read_loop [] ow r rb
        ≡ reply (h ++ accepted rb []) rb.size start r.closed (write_all [] rb)
  unfolding try_read_loop h' rb'
  loop_quiet h start ow r rb t =
      ap (after_round (λ _ _ _. none)) (round_finished [] h start ow r rb t not_lapped)
    where
      not_lapped : lap [] h start ow r rb t ≡ false
      not_lapped = unfold write_all at in omega (tests, t.behind)

  served :
      (schedule : List (List A)) (h : List A) (start ow : ℕ) (r : RingReader) (rb : RingBuffer A)
      → Trailing h start ow r rb
      → (ws : List A) × (later : List A) × (try_read_loop schedule ow r rb
          ≡ reply (h ++ accepted rb ws) rb.size start r.closed (write_all ws rb))
        × (ws ++ later ≡ concat schedule)
  unfolding h' rb'
  served [] h start ow r rb t = ([], [], loop_quiet h start ow r rb t, refl)
  served (ws ∷ rest) h start ow r rb t = elim (Bool-cases (lap ws h start ow r rb t)) [
    | inl e ↦
        let at = at ws h start ow r rb t in
        let (ws', later, p, q) =
          served rest (h ++ accepted rb ws) start (at - start) (record r { read_cursor = at })
            (write_all ws rb) (Trailing-lapped ws h start ow r rb t e) in
        (
          ws ++ ws',
          later,
          loop_lapped ws rest h start ow r rb t e ∙ p ∙ one_more_round ws ws' h start r.closed rb,
          append_assoc ws ws' later ∙ ap (λ l. ws ++ l) q,
        )
    | inr e ↦ (ws, concat rest, loop_finished ws rest h start ow r rb t e, refl)
  ]

  -- A call of `TryReadResult` returns: when it does the writer has written `ws`, a first part of what
  -- it is going to write, and the call has served the reader's position from the history up to then.
  abbrev pub IsServed : List (List A) → List A → RingReader → RingBuffer A → Type ℓ
  IsServed schedule h r rb =
      (ws : List A) × (later : List A) × (try_read_result schedule r rb
        ≡ reply (h ++ accepted rb ws) rb.size r.read_cursor r.closed (write_all ws rb))
      × (ws ++ later ≡ concat schedule)

  -- A read of a reader that is behind the writer. Whatever the writer does between the steps of the
  -- read, the call returns; the value is the one at the reader's position or, where that one has been
  -- overwritten when the slot is read, at the oldest position still in the ring; and the overwritten
  -- count, which `Skipped` then reports, is the number of positions in between.
  pub try_read_result_lem :
      (schedule : List (List A)) (h : List A) (r : RingReader) (rb : RingBuffer A)
      → Holds h rb
      → r.read_cursor < length h
      → IsServed schedule h r rb
  unfolding try_read_result
  try_read_result_lem schedule h r rb v lt =
      served schedule h r.read_cursor 0 (record r { last_skipped = 0 }) rb
        (record { holds = v; behind = lt; cursor = omega arith; given_up = omega arith })

  -- A read of a reader that has caught up returns not OK, no value and no overwritten position,
  -- resets `Skipped` and changes nothing else.
  try_read_result_empty :
      (schedule : List (List A)) (h : List A) (r : RingReader) (rb : RingBuffer A)
      → Holds h rb
      → length h ≤ r.read_cursor
      → try_read_result schedule r rb
        ≡ some (
          record { value = none; is_ok = false; overwritten = 0 },
          record r { last_skipped = 0 },
          rb,
        )
  unfolding try_read_result try_read_loop round
  try_read_result_empty [] h r rb v le =
      rw (le→leb rb.write_cursor r.read_cursor (omega (arith, v.cursor)))
  try_read_result_empty (ws ∷ rest) h r rb v le =
      rw (le→leb rb.write_cursor r.read_cursor (omega (arith, v.cursor)))
