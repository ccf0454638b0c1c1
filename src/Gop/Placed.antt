-- ===== src/Gop/Placed.antt =====
-- The GOP cache of core/stream.go against the history of the ring: what it keeps of the frames.
pub mod Writes
use liveforge.Base.{
  ℕ, zero, suc, ◌+◌, ◌-◌, ◌≤◌, ◌<◌, ◌≡◌, refl, sym, ◌∙◌, ap, Bool, true, false, not, some, List, [],
  ◌∷◌, ◌++◌, arith, append-nil, append_assoc, length, get_elem?, get_or, set, drop, take, map,
  concat, length-append, get_elem?-append_left, get_elem?-append_end, ◌==◌, if◌then◌else◌,
  IsSublist, IsSublist-empty, IsSublist-self, IsSublist-append, IsSublist-append_left,
  IsSublist-trans, take-IsSublist, Bool-cases, inl, inr, subst,
}
use liveforge.AvFrame.{Frame, is_keyframe, is_header}

-- the frames that are no sequence headers
unfoldable pub non_headers : List Frame → List Frame
non_headers [] = []
non_headers (f ∷ fs) = if is_header f then non_headers fs else f ∷ non_headers fs

abbrev pub IsKeyAt : List Frame → ℕ → Type 0
IsKeyAt h i = (k : Frame) × (get_elem? h i ≡ some k) × (is_keyframe k.frame_type ≡ true)

-- Each GOP starts at a key frame of the history that is not before `from`, and from there to the
-- end of the cache, its frames are frames of the history in their order, without sequence headers.
abbrev pub Placed : ℕ → List Frame → List (List Frame) → List ℕ → Type 0
Placed from h [] [] = Unit
Placed from h (g ∷ gs) (s ∷ ss) =
    (from ≤ s)
    × IsKeyAt h s
    × IsSublist (concat (g ∷ gs)) (non_headers (drop s h))
    × Placed from h gs ss
Placed _ _ _ _ = ⊥

pub non_headers-append :
    (xs ys : List Frame) → non_headers (xs ++ ys) ≡ non_headers xs ++ non_headers ys
unfolding non_headers
non_headers-append [] ys = refl
non_headers-append (x ∷ xs) ys = elim (Bool-cases (is_header x)) [
  | inl e ↦ rw e (non_headers-append xs ys)
  | inr e ↦ rw e (ap (λ l. x ∷ l) (non_headers-append xs ys))
]

pub non_headers_cons :
    (f : Frame) (fs : List Frame) → is_header f ≡ false → non_headers (f ∷ fs) ≡ f ∷ non_headers fs
unfolding non_headers
non_headers_cons f fs e = rw e

pub length-non_headers : (xs : List Frame) → length (non_headers xs) ≤ length xs
unfolding non_headers
length-non_headers [] = omega arith
length-non_headers (x ∷ xs) = elim (Bool-cases (is_header x)) [
  | inl e ↦ rw e (omega (arith, length-non_headers xs))
  | inr e ↦ rw e (omega (arith, length-non_headers xs))
]

drop-append :
    (s : ℕ) (h : List Frame) (f : Frame) → s ≤ length h → drop s (h ++ f ∷ []) ≡ drop s h ++ f ∷ []
drop-append zero h f le = refl
drop-append (suc s) [] f le = absurd (omega arith)
drop-append (suc s) (x ∷ h) f le = drop-append s h f (omega arith)

pub IsKeyAt-lt : (h : List Frame) (i : ℕ) → IsKeyAt h i → i < length h
IsKeyAt-lt [] i (k, e, _) = cc e
IsKeyAt-lt (x ∷ h) zero p = omega arith
IsKeyAt-lt (x ∷ h) (suc i) p = omega (arith, IsKeyAt-lt h i p)

IsKeyAt-append : (h : List Frame) (i : ℕ) (f : Frame) → IsKeyAt h i → IsKeyAt (h ++ f ∷ []) i
IsKeyAt-append h i f (k, e, p) =
    (k, get_elem?-append_left h (f ∷ []) i (IsKeyAt-lt h i (k, e, p)) ∙ e, p)

-- what the history has from `s` on when a frame is written
grown :
    (h : List Frame) (s : ℕ) (f : Frame)
    → IsKeyAt h s
    → non_headers (drop s (h ++ f ∷ [])) ≡ non_headers (drop s h) ++ non_headers (f ∷ [])
grown h s f key =
    rw (drop-append s h f (omega (arith, IsKeyAt-lt h s key)))
      (non_headers-append (drop s h) (f ∷ []))

-- A frame that is not cached.
pub Placed-write :
    (from : ℕ) (h : List Frame) (f : Frame) (cache : List (List Frame)) (starts : List ℕ)
    → Placed from h cache starts
    → Placed from (h ++ f ∷ []) cache starts
Placed-write from h f [] [] p = tt
Placed-write from h f (g ∷ gs) (s ∷ ss) (lo, key, sub, p) = (
  lo,
  IsKeyAt-append h s f key,
  rw (grown h s f key) (IsSublist-append_left sub (non_headers (f ∷ []))),
  Placed-write from h f gs ss p,
)
Placed-write from h f [] (s ∷ ss) p = absurd p
Placed-write from h f (g ∷ gs) [] p = absurd p

-- the cache with a frame added to its last GOP
abbrev pub add_last : List (List Frame) → Frame → List (List Frame)
add_last [] f = []
add_last (g ∷ []) f = (g ++ f ∷ []) ∷ []
add_last (g ∷ g' ∷ gs) f = g ∷ add_last (g' ∷ gs) f

set_last :
    (g : List Frame) (gs : List (List Frame)) (f : Frame)
    → set (g ∷ gs) (length gs) (get_or (g ∷ gs) (length gs) [] ++ f ∷ []) ≡ add_last (g ∷ gs) f
set_last g [] f = refl
set_last g (g' ∷ gs) f = ap (λ l. g ∷ l) (set_last g' gs f)

pub set-add_last :
    (cache : List (List Frame)) (f : Frame)
    → set cache (length cache - 1) (get_or cache (length cache - 1) [] ++ f ∷ []) ≡ add_last cache f
set-add_last [] f = refl
set-add_last (g ∷ gs) f =
    let last : suc (length gs) - 1 ≡ length gs = omega arith in rw last (set_last g gs f)

concat-add_last :
    (g : List Frame) (gs : List (List Frame)) (f : Frame)
    → concat (add_last (g ∷ gs) f) ≡ concat (g ∷ gs) ++ f ∷ []
concat-add_last g [] f = append-nil _ ∙ ap (λ l. l ++ f ∷ []) (sym (append-nil g))
concat-add_last g (g' ∷ gs) f =
    ap (λ l. g ++ l) (concat-add_last g' gs f) ∙ sym (append_assoc g (concat (g' ∷ gs)) (f ∷ []))

concat-append :
    (gs : List (List Frame)) (f : Frame) → concat (gs ++ (f ∷ []) ∷ []) ≡ concat gs ++ f ∷ []
concat-append [] f = refl
concat-append (g ∷ gs) f =
    ap (λ l. g ++ l) (concat-append gs f) ∙ sym (append_assoc g (concat gs) (f ∷ []))

drop_all : (h : List Frame) (fs : List Frame) → drop (length h) (h ++ fs) ≡ fs
drop_all [] fs = refl
drop_all (x ∷ h) fs = drop_all h fs

pub key-not_header : (k : Frame) → is_keyframe k.frame_type ≡ true → is_header k ≡ false
key-not_header k e = ground arith

non_headers_one : (f : Frame) → is_header f ≡ false → non_headers (f ∷ []) ≡ f ∷ []
unfolding non_headers
non_headers_one f e = rw e

-- what the history has from a start on, and the cache, when a frame is added to both
added :
    (h : List Frame) (s : ℕ) (f : Frame) (fs : List Frame)
    → is_header f ≡ false
    → IsKeyAt h s
    → IsSublist fs (non_headers (drop s h))
    → IsSublist (fs ++ f ∷ []) (non_headers (drop s (h ++ f ∷ [])))
added h s f fs e key sub =
    rw (grown h s f key, non_headers_one f e) (IsSublist-append sub (IsSublist-self (f ∷ [])))

-- A frame that is added to the last GOP.
pub Placed-add_last :
    (from : ℕ) (h : List Frame) (f : Frame) (cache : List (List Frame)) (starts : List ℕ)
    → is_header f ≡ false
    → Placed from h cache starts
    → Placed from (h ++ f ∷ []) (add_last cache f) starts
Placed-add_last from h f [] [] e p = tt
Placed-add_last from h f (g ∷ []) (s ∷ []) e (lo, key, sub, p) = (
  lo,
  IsKeyAt-append h s f key,
  subst (λ l. IsSublist l (non_headers (drop s (h ++ f ∷ [])))) (sym (concat-add_last g [] f))
      (added h s f _ e key sub),
  tt,
)
Placed-add_last from h f (g ∷ g' ∷ gs) (s ∷ ss) e (lo, key, sub, p) = (
  lo,
  IsKeyAt-append h s f key,
  subst (λ l. IsSublist l (non_headers (drop s (h ++ f ∷ []))))
      (sym (concat-add_last g (g' ∷ gs) f)) (added h s f _ e key sub),
  Placed-add_last from h f (g' ∷ gs) ss e p,
)
Placed-add_last from h f [] (s ∷ ss) e p = absurd p
Placed-add_last from h f (g ∷ []) [] e p = absurd p
Placed-add_last from h f (g ∷ []) (s ∷ s' ∷ ss) e p = absurd p.3
Placed-add_last from h f (g ∷ g' ∷ gs) [] e p = absurd p

-- A key frame starts a GOP of its own.
pub Placed-start :
    (from : ℕ) (h : List Frame) (k : Frame) (cache : List (List Frame)) (starts : List ℕ)
    → is_keyframe k.frame_type ≡ true
    → from ≤ length h
    → Placed from h cache starts
    → Placed from (h ++ k ∷ []) (cache ++ (k ∷ []) ∷ []) (starts ++ length h ∷ [])
Placed-start from h k [] [] e lo p = (
  lo,
  (k, get_elem?-append_end h k, e),
  rw (drop_all h (k ∷ []), non_headers_one k (key-not_header k e)) (IsSublist-self (k ∷ [])),
  tt,
)
Placed-start from h k (g ∷ gs) (s ∷ ss) e lo (lo', key, sub, p) = (
  lo',
  IsKeyAt-append h s k key,
  subst (λ l. IsSublist l (non_headers (drop s (h ++ k ∷ [])))) (sym (concat-append (g ∷ gs) k))
      (added h s k _ (key-not_header k e) key sub),
  Placed-start from h k gs ss e lo p,
)
Placed-start from h k [] (s ∷ ss) e lo p = absurd p
Placed-start from h k (g ∷ gs) [] e lo p = absurd p

-- Eviction of the first GOPs.
pub Placed-drop :
    (n from : ℕ) (h : List Frame) (cache : List (List Frame)) (starts : List ℕ)
    → Placed from h cache starts
    → Placed from h (drop n cache) (drop n starts)
Placed-drop zero from h cache starts p = p
Placed-drop (suc n) from h [] [] p = tt
Placed-drop (suc n) from h (g ∷ gs) (s ∷ ss) p = Placed-drop n from h gs ss p.3
Placed-drop (suc n) from h [] (s ∷ ss) p = absurd p
Placed-drop (suc n) from h (g ∷ gs) [] p = absurd p

pub Placed-length :
    (from : ℕ) (h : List Frame) (cache : List (List Frame)) (starts : List ℕ)
    → Placed from h cache starts
    → length starts ≡ length cache
Placed-length from h [] [] p = refl
Placed-length from h (g ∷ gs) (s ∷ ss) p = ap suc (Placed-length from h gs ss p.3)
Placed-length from h [] (s ∷ ss) p = absurd p
Placed-length from h (g ∷ gs) [] p = absurd p

-- Cutting each GOP down.
module _ (cut : List Frame → List Frame)
    (cut-IsSublist : (g : List Frame) → IsSublist (cut g) g) where
  concat-cut : (gs : List (List Frame)) → IsSublist (concat (map cut gs)) (concat gs)
  concat-cut [] = IsSublist-self []
  concat-cut (g ∷ gs) = IsSublist-append (cut-IsSublist g) (concat-cut gs)

  pub Placed-cut :
      (from : ℕ) (h : List Frame) (cache : List (List Frame)) (starts : List ℕ)
      → Placed from h cache starts
      → Placed from h (map cut cache) starts
  Placed-cut from h [] [] p = tt
  Placed-cut from h (g ∷ gs) (s ∷ ss) (lo, key, sub, p) =
      (lo, key, IsSublist-trans sub (concat-cut (g ∷ gs)), Placed-cut from h gs ss p)
  Placed-cut from h [] (s ∷ ss) p = absurd p
  Placed-cut from h (g ∷ gs) [] p = absurd p
