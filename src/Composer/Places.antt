-- ===== src/Composer/Places.antt =====
-- Arrays with empty places: splices, assignments and reversals.
use mathlib.Core.List.{reverse, Perm, reverse-cons, perm_middle, append-nil}
use mathlib.Core.List.Perm
use composable_nouns_monorep.Common.{
  ℕ, zero, suc, ◌+◌, ◌<◌, ◌≡◌, refl, ap, ◌∙◌, Option, List, [], ◌∷◌, ◌++◌, ◌==◌, if◌then◌else◌,
  length, length-append, arith,
}
use composable_nouns_monorep.Composer.{place, set_place, splice_out, splice_in, reorder}

module _ {ℓ} {A : Type ℓ} where
  pub splice_in-perm : (v : A) (i : ℕ) (xs : List A) → Perm (splice_in i v xs) (v ∷ xs)
  splice_in-perm v zero xs = Perm.refl (v ∷ xs)
  splice_in-perm v (suc i) [] = Perm.refl (v ∷ [])
  splice_in-perm v (suc i) (x ∷ xs) =
      Perm.trans (Perm.cons x (splice_in-perm v i xs)) (Perm.swap v x xs)

  pub reverse-perm : (xs : List A) → Perm (reverse xs) xs
  reverse-perm [] = Perm.refl []
  reverse-perm (x ∷ xs) = rw (reverse-cons x xs) (
      Perm.trans (perm_middle (reverse xs) [])
        (Perm.cons x (rw (append-nil (reverse xs)) (reverse-perm xs))))

  pub length-perm_reverse : (xs : List A) → length (reverse xs) ≡ length xs
  length-perm_reverse [] = refl
  length-perm_reverse (x ∷ xs) =
      rw (reverse-cons x xs)
        (length-append (reverse xs) (x ∷ []) ∙ omega (arith, length-perm_reverse xs))

module _ {ℓ} {A : Type ℓ} where
  pub splice_out-perm :
      (i : ℕ) (xs : List (Option A)) → i < length xs → Perm (place xs i ∷ splice_out i xs) xs
  splice_out-perm i [] h = absurd (omega arith)
  splice_out-perm zero (x ∷ xs) h = Perm.refl (x ∷ xs)
  splice_out-perm (suc i) (x ∷ xs) h =
      Perm.trans (Perm.swap x (place xs i) (splice_out i xs))
        (Perm.cons x (splice_out-perm i xs (omega arith)))

  pub reorder-perm : (xs : List (Option A)) (i j : ℕ) → i < length xs → Perm (reorder xs i j) xs
  unfolding reorder
  reorder-perm xs i j h =
      Perm.trans (splice_in-perm (place xs i) j (splice_out i xs)) (splice_out-perm i xs h)

  length-splice_in : (v : A) (i : ℕ) (xs : List A) → length (splice_in i v xs) ≡ suc (length xs)
  length-splice_in v zero xs = refl
  length-splice_in v (suc i) [] = refl
  length-splice_in v (suc i) (x ∷ xs) = ap suc (length-splice_in v i xs)

  length-splice_out :
      (i : ℕ) (xs : List A) → i < length xs → suc (length (splice_out i xs)) ≡ length xs
  length-splice_out i [] h = absurd (omega arith)
  length-splice_out zero (x ∷ xs) h = refl
  length-splice_out (suc i) (x ∷ xs) h = ap suc (length-splice_out i xs (omega arith))

  pub length-set_place :
      (i : ℕ) (v : Option A) (xs : List (Option A))
      → i < length xs
      → length (set_place i v xs) ≡ length xs
  length-set_place i v [] h = absurd (omega arith)
  length-set_place zero v (x ∷ xs) h = refl
  length-set_place (suc i) v (x ∷ xs) h = ap suc (length-set_place i v xs (omega arith))

  pub place-set_place :
      (i j : ℕ) (v : Option A) (xs : List (Option A))
      → place (set_place i v xs) j ≡ (if i == j then v else place xs j)
  place-set_place zero zero v [] = refl
  place-set_place zero (suc j) v [] = ground arith
  place-set_place zero zero v (x ∷ xs) = refl
  place-set_place zero (suc j) v (x ∷ xs) = ground arith
  place-set_place (suc i) zero v [] = ground arith
  place-set_place (suc i) (suc j) v [] = ground (arith, place-set_place i j v [])
  place-set_place (suc i) zero v (x ∷ xs) = ground arith
  place-set_place (suc i) (suc j) v (x ∷ xs) = ground (arith, place-set_place i j v xs)

  pub place-last :
      (xs : List (Option A)) (v : Option A) (j : ℕ)
      → place (xs ++ v ∷ []) j ≡ (if j == length xs then v else place xs j)
  place-last [] v zero = refl
  place-last [] v (suc j) = ground arith
  place-last (x ∷ xs) v zero = ground arith
  place-last (x ∷ xs) v (suc j) = ground (arith, place-last xs v j)

  pub place-reverse :
      (xs : List (Option A)) (i j : ℕ) → i + suc j ≡ length xs → place (reverse xs) i ≡ place xs j
  place-reverse [] i j h = absurd (omega arith)
  place-reverse (x ∷ xs) i zero h =
      rw (reverse-cons x xs) (place-last (reverse xs) x i ∙ ground (arith, length-perm_reverse xs))
  place-reverse (x ∷ xs) i (suc j) h = rw (reverse-cons x xs) (
      place-last (reverse xs) x i
      ∙ ground (arith, length-perm_reverse xs, place-reverse xs i j (omega arith)))

pub length-reorder {ℓ} :
    {A : Type ℓ} (xs : List (Option A)) (i j : ℕ)
    → i < length xs
    → length (reorder xs i j) ≡ length xs
unfolding reorder
length-reorder xs i j h =
    length-splice_in (place xs i) j (splice_out i xs) ∙ length-splice_out i xs h
