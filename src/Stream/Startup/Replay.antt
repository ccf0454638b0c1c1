-- ===== src/Stream/Startup/Replay.antt =====
-- core/stream.go: what `retainedStartupReplayLocked` reads, against the history of the ring.
use liveforge.Base.{
  ℕ, zero, suc, ◌+◌, ◌-◌, ◌≤◌, ◌<◌, ◌≡◌, refl, sym, ◌∙◌, ap, true, none, some, List, [], ◌∷◌, ◌⊎◌,
  arith, length, get_elem?, drop,
}
use liveforge.AvFrame.{Frame, is_keyframe}
use liveforge.Ring.{RingBuffer, RingReader, new_reader_at}
use liveforge.Ring.History.{Holds}
use liveforge.Ring.Read.{read_of, reader_after}
use liveforge.Ring.Quiet.{try_read_quiet}
use liveforge.Gop.Placed.{IsKeyAt, IsKeyAt-lt, non_headers, key-not_header}
use liveforge.Stream.Startup.{
  exact, next_frame, with_frame, then_rest, read_rest, from_key, replay_from,
}

abbrev pub IsReplay : ℕ → List Frame → List Frame × ℕ → Type 0
IsReplay from h replay =
    (replay.0 ≡ non_headers (drop replay.1 h))
    × (from ≤ replay.1)
    × (replay.1 ≤ length h)
    × (replay.1 < length h → IsKeyAt h replay.1)

-- A start of the list is at most `size` positions behind the live one.
abbrev pub AnyHeld : ℕ → ℕ → List ℕ → Type 0
AnyHeld live_cursor size [] = ⊥
AnyHeld live_cursor size (start ∷ starts) =
    (live_cursor ≤ start + size) ⊎ AnyHeld live_cursor size starts

pub drop_end : (h : List Frame) (n : ℕ) → length h ≤ n → drop n h ≡ []
drop_end [] zero le = refl
drop_end [] (suc n) le = refl
drop_end (x ∷ h) zero le = absurd (omega arith)
drop_end (x ∷ h) (suc n) le = drop_end h n (omega arith)

at_drop :
    (h : List Frame) (i : ℕ)
    → i < length h
    → (f : Frame) × (get_elem? h i ≡ some f) × (drop i h ≡ f ∷ drop (suc i) h)
at_drop [] i lt = absurd (omega arith)
at_drop (x ∷ h) zero lt = (x, refl, refl)
at_drop (x ∷ h) (suc i) lt = at_drop h i (omega arith)

drop-cons :
    (h : List Frame) (i : ℕ) (f : Frame) → get_elem? h i ≡ some f → drop i h ≡ f ∷ drop (suc i) h
drop-cons [] i f e = cc e
drop-cons (x ∷ h) zero f e = cc e
drop-cons (x ∷ h) (suc i) f e = drop-cons h i f e

exact_held :
    (h : List Frame) (r : RingReader) (rb : RingBuffer Frame) (f : Frame) (start at : ℕ)
    → at ≡ start
    → get_elem? h start ≡ some f
    → exact
        (some (record { value = get_elem? h at; is_ok = true; overwritten = at - start }, r, rb))
      ≡ some (f, r, rb)
exact_held h r rb f start at same got = rw same (ground (arith, got))

with_frame_lem :
    (h : List Frame) (i j : ℕ) (f : Frame)
    → j ≡ suc i
    → drop i h ≡ f ∷ drop (suc i) h
    → with_frame f (some (non_headers (drop j h))) ≡ some (non_headers (drop i h))
unfolding non_headers
with_frame_lem h i j f next cons = rw (cons, next) refl

module _ (h : List Frame) (rb : RingBuffer Frame) (v : Holds h rb) where
  -- a frame that the ring still has
  next_frame_held :
      (r : RingReader) (f : Frame)
      → length h ≤ r.read_cursor + rb.size
      → get_elem? h r.read_cursor ≡ some f
      → r.read_cursor < length h
      → (r' : RingReader) × (next_frame r rb ≡ some (f, r', rb))
        × (r'.read_cursor ≡ suc r.read_cursor)
  unfolding next_frame read_of reader_after
  next_frame_held r f held at lt = (
    reader_after h rb.size r.read_cursor r.closed,
    ap exact (try_read_quiet h r rb v lt) ∙ exact_held h _ rb f r.read_cursor _ (omega arith) at,
    omega arith,
  )

  -- a position that is overwritten
  next_frame_lost : (r : RingReader) → r.read_cursor + rb.size < length h → next_frame r rb ≡ none
  unfolding next_frame read_of reader_after
  next_frame_lost r lost = ap exact (try_read_quiet h r rb v (omega arith)) ∙ ground arith

  read_rest_lem :
      (n : ℕ) (r : RingReader)
      → length h ≤ r.read_cursor + rb.size
      → r.read_cursor + n ≡ length h
      → read_rest n r rb ≡ some (non_headers (drop r.read_cursor h))
  unfolding read_rest
  read_rest_lem zero r held e = rw (drop_end h r.read_cursor (omega arith)) (sym no_frames)
    where
      no_frames : some (non_headers []) ≡ some []
      no_frames = unfold non_headers in refl
  read_rest_lem (suc n) r held e =
      let (f, at, cons) = at_drop h r.read_cursor (omega arith) in
      let (r', read, after) = next_frame_held r f held at (omega arith) in
      let rest = read_rest_lem n r' (omega (arith, after)) (omega (arith, after)) in
      ap (then_rest (read_rest n)) read
      ∙ ap (with_frame f) rest
      ∙ with_frame_lem h r.read_cursor r'.read_cursor f after cons

  from_key_lem :
      (n start : ℕ) (k : Frame) (r : RingReader)
      → r.read_cursor ≡ suc start
      → drop start h ≡ k ∷ drop (suc start) h
      → is_keyframe k.frame_type ≡ true
      → read_rest n r rb ≡ some (non_headers (drop r.read_cursor h))
      → from_key n (some (k, r, rb)) ≡ some (non_headers (drop start h))
  unfolding non_headers
  from_key_lem n start k r after cons key rest =
      rw (cons, rest, key, key-not_header k key, after) refl

  -- From a start that the ring still has, everything is read; a lost one is passed over.
  pub replay_from_held :
      (start : ℕ)
      → IsKeyAt h start
      → length h ≤ start + rb.size
      → replay_from (length h) start rb ≡ some (non_headers (drop start h))
  unfolding replay_from new_reader_at
  replay_from_held start (k, at, key) held =
      let lt = IsKeyAt-lt h start (k, at, key) in
      let (r', read, after) = next_frame_held (new_reader_at rb start) k held at lt in
      let rest =
        read_rest_lem (length h - (start + 1)) r' (omega (arith, after)) (omega (arith, after)) in
      ap (from_key (length h - (start + 1))) read
      ∙ from_key_lem (length h - (start + 1)) start k r' after (drop-cons h start k at) key rest

  pub replay_from_lost :
      (start : ℕ) → start + rb.size < length h → replay_from (length h) start rb ≡ none
  unfolding replay_from new_reader_at
  replay_from_lost start lost =
      ap (from_key (length h - (start + 1))) (next_frame_lost (new_reader_at rb start) lost)
