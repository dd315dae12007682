-- ===== src/Webapp/Votes/Shuffle.antt =====
-- utils/pseudoRandomPredictableShuffle.ts: what the shuffled list has.
use mathlib.Core.List.{Perm}
use mathlib.Core.List.Perm
use composable_nouns_monorep.Common.{
  ℕ, zero, suc, ◌+◌, ◌<◌, ◌≡◌, refl, ap, sym, ◌∙◌, Option, some, List, [], ◌∷◌, ◌++◌, map, length,
  get_elem?, arith,
}
use composable_nouns_monorep.Composer.{splice_out}
use composable_nouns_monorep.Webapp.Votes.{
  shuffle_from, pseudo_random_predictable_shuffle, nonzero, or_empty,
}

-- The index of a random number that is at least 0 and below 1.
abbrev pub IsIndex : (ℕ → ℕ → ℕ) → Type 0
IsIndex index = (seed n : ℕ) → index seed (suc n) < suc n

module _ {ℓ} {A : Type ℓ} where
  -- An element taken out, and the others.
  taken :
      (i : ℕ) (xs : List A)
      → i < length xs
      → (x : A) × (get_elem? xs i ≡ some x)
        × Perm (x ∷ splice_out i xs) xs
        × (suc (length (splice_out i xs)) ≡ length xs)
  taken i [] h = absurd (omega arith)
  taken zero (x ∷ xs) h = (x, refl, Perm.refl (x ∷ xs), refl)
  taken (suc i) (x ∷ xs) h =
      let (y, e, p, l) = taken i xs (omega arith) in
      (y, e, Perm.trans (Perm.swap x y (splice_out i xs)) (Perm.cons x p), ap suc l)

  append_some :
      (out : List A) (x : A) (ys : List A)
      → map some (out ++ (x ∷ ys)) ≡ map some ((out ++ (x ∷ [])) ++ ys)
  append_some [] x ys = refl
  append_some (o ∷ out) x ys = ap (λ l. some o ∷ l) (append_some out x ys)

  map_append : (out : List A) (x : A) → map some out ++ (some x ∷ []) ≡ map some (out ++ (x ∷ []))
  map_append [] x = refl
  map_append (o ∷ out) x = ap (λ l. some o ∷ l) (map_append out x)

  map_append_nil : (out : List A) → map some out ≡ map some (out ++ [])
  map_append_nil [] = refl
  map_append_nil (o ∷ out) = ap (λ l. some o ∷ l) (map_append_nil out)

  shuffle_from-perm :
      (index : ℕ → ℕ → ℕ) (fuel seed : ℕ) (xs out : List A)
      → IsIndex index
      → fuel ≡ length xs
      → (ys : List A) × (shuffle_from index fuel seed xs (map some out)
          ≡ some (map some (out ++ ys)))
        × Perm ys xs
  unfolding shuffle_from
  shuffle_from-perm index fuel seed [] out lawful h =
      ([], ap some (map_append_nil out), Perm.refl [])
  shuffle_from-perm index zero seed (x ∷ xs) out lawful h = absurd (omega arith)
  shuffle_from-perm index (suc fuel) seed (x ∷ xs) out lawful h =
      let i = index (nonzero seed) (length (x ∷ xs)) in
      let (y, e, p, l) = taken i (x ∷ xs) (lawful (nonzero seed) (length xs)) in
      let (ys, f, q) =
        shuffle_from-perm index fuel (nonzero seed + 1) (splice_out i (x ∷ xs)) (out ++ (y ∷ []))
          lawful (omega arith) in
      (
        y ∷ ys,
        rw (shuffle_from, e, map_append out y) (f ∙ ap some (sym (append_some out y ys))),
        Perm.trans (Perm.cons y q) p,
      )

  -- With an index within the list, the loop ends after a pass for each element, and gives them all,
  -- each as often as the input has it and none undefined.
  pub pseudo_random_predictable_shuffle-perm :
      (index : ℕ → ℕ → ℕ) (input : Option (List A)) (seed : ℕ)
      → IsIndex index
      → (ys : List A) × (pseudo_random_predictable_shuffle index input seed ≡ some (map some ys))
        × Perm ys (or_empty input)
  unfolding pseudo_random_predictable_shuffle
  pseudo_random_predictable_shuffle-perm index input seed lawful =
      shuffle_from-perm index (length (or_empty input)) seed (or_empty input) [] lawful refl
