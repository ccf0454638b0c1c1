-- ===== src/Gop/Rows.antt =====
-- The parallel slices of the GOP cache, read as rows.
use liveforge.Base.{
  ℕ, zero, suc, ◌<◌, ◌≡◌, refl, List, [], ◌∷◌, ◌++◌, arith, length, get_or, set, drop,
}

module _ {A B C D : Type 0} (P : A → B → C → D → Type 0) where
  -- Four slices have one length, and `P` holds of each row.
  abbrev pub Rows : List A → List B → List C → List D → Type 0
  Rows [] [] [] [] = Unit
  Rows (x ∷ xs) (y ∷ ys) (z ∷ zs) (w ∷ ws) = P x y z w × Rows xs ys zs ws
  Rows _ _ _ _ = ⊥

  pub Rows-append :
      (xs : List A) (ys : List B) (zs : List C) (ws : List D) {x : A} {y : B} {z : C} {w : D}
      → Rows xs ys zs ws
      → P x y z w
      → Rows (xs ++ x ∷ []) (ys ++ y ∷ []) (zs ++ z ∷ []) (ws ++ w ∷ [])
  Rows-append [] [] [] [] h p = (p, tt)
  Rows-append (x ∷ xs) (y ∷ ys) (z ∷ zs) (w ∷ ws) h p = (h.0, Rows-append xs ys zs ws h.1 p)
  Rows-append _ _ _ _ h p = absurd h

  pub Rows-drop :
      (n : ℕ) (xs : List A) (ys : List B) (zs : List C) (ws : List D)
      → Rows xs ys zs ws
      → Rows (drop n xs) (drop n ys) (drop n zs) (drop n ws)
  Rows-drop zero xs ys zs ws h = h
  Rows-drop (suc n) [] [] [] [] h = tt
  Rows-drop (suc n) (x ∷ xs) (y ∷ ys) (z ∷ zs) (w ∷ ws) h = Rows-drop n xs ys zs ws h.1
  Rows-drop (suc n) _ _ _ _ h = absurd h

  pub Rows-get :
      (i : ℕ) (xs : List A) (ys : List B) (zs : List C) (ws : List D) (x : A) (y : B) (z : C)
      (w : D)
      → Rows xs ys zs ws
      → i < length xs
      → P (get_or xs i x) (get_or ys i y) (get_or zs i z) (get_or ws i w)
  Rows-get i [] [] [] [] x y z w h lt = absurd (omega arith)
  Rows-get zero (a ∷ xs) (b ∷ ys) (c ∷ zs) (d ∷ ws) x y z w h lt = h.0
  Rows-get (suc i) (a ∷ xs) (b ∷ ys) (c ∷ zs) (d ∷ ws) x y z w h lt =
      Rows-get i xs ys zs ws x y z w h.1 (omega arith)
  Rows-get _ _ _ _ _ x y z w h lt = absurd h

  pub Rows-set :
      (i : ℕ) (xs : List A) (ys : List B) (zs : List C) (ws : List D) {x : A} {y : B} {z : C}
      {w : D}
      → Rows xs ys zs ws
      → P x y z w
      → Rows (set xs i x) (set ys i y) (set zs i z) (set ws i w)
  Rows-set i [] [] [] [] h p = tt
  Rows-set zero (a ∷ xs) (b ∷ ys) (c ∷ zs) (d ∷ ws) h p = (p, h.1)
  Rows-set (suc i) (a ∷ xs) (b ∷ ys) (c ∷ zs) (d ∷ ws) h p = (h.0, Rows-set i xs ys zs ws h.1 p)
  Rows-set _ _ _ _ _ h p = absurd h

  -- the slices have one length
  pub Rows-length :
      (xs : List A) (ys : List B) (zs : List C) (ws : List D)
      → Rows xs ys zs ws
      → (length ys ≡ length xs) × (length zs ≡ length xs) × (length ws ≡ length xs)
  Rows-length [] [] [] [] h = (refl, refl, refl)
  Rows-length (x ∷ xs) (y ∷ ys) (z ∷ zs) (w ∷ ws) h = omega (arith, Rows-length xs ys zs ws h.1)
  Rows-length _ _ _ _ h = absurd h
