-- ===== src/Composables/Items/Palettes.antt =====
-- The palette of a collection, from the contract to the encoder and back.
use composable_nouns_monorep.Common.{
  ℕ, zero, suc, ◌≤◌, ◌≡◌, refl, ap, some, List, [], ◌∷◌, ◌++◌, length, length-append, take, drop,
  arith,
}
use composable_nouns_monorep.Sdk.Hex.{Text}
use composable_nouns_monorep.Composables.Items.{
  chunks, match_chunks, palette_of, join, spacer, clear_spacer, palette_string,
}

-- Colors of six digits.
abbrev pub AreColors : List Text → Type 0
AreColors [] = Unit
AreColors (c ∷ cs) = (length c ≡ 6) × AreColors cs

take-append : (n : ℕ) (xs ys : Text) → length xs ≡ n → take n (xs ++ ys) ≡ xs
take-append zero [] ys h = refl
take-append (suc n) [] ys h = absurd (omega arith)
take-append zero (x ∷ xs) ys h = absurd (omega arith)
take-append (suc n) (x ∷ xs) ys h = ap (λ zs. x ∷ zs) (take-append n xs ys (omega arith))

drop-append : (n : ℕ) (xs ys : Text) → length xs ≡ n → drop n (xs ++ ys) ≡ ys
drop-append zero [] ys h = refl
drop-append (suc n) [] ys h = absurd (omega arith)
drop-append zero (x ∷ xs) ys h = absurd (omega arith)
drop-append (suc n) (x ∷ xs) ys h = drop-append n xs ys (omega arith)

-- Six characters at a time, the colors come back.
chunks-join :
    (cs : List Text) (fuel : ℕ) → AreColors cs → length cs ≤ fuel → chunks fuel (join cs) ≡ cs
chunks-join [] zero h l = refl
chunks-join [] (suc fuel) h l = refl
chunks-join (c ∷ cs) zero h l = absurd (omega arith)
chunks-join ([] ∷ cs) (suc fuel) h l = absurd (omega (arith, h.0))
chunks-join ((x ∷ c) ∷ cs) (suc fuel) h l =
    rw
      (
        take-append 6 (x ∷ c) (join cs) h.0,
        drop-append 6 (x ∷ c) (join cs) h.0,
        chunks-join cs fuel h.1 (omega arith),
      )
      refl

length-join : (cs : List Text) → AreColors cs → length cs ≤ length (join cs)
length-join [] h = omega arith
length-join (c ∷ cs) h = omega (arith, h.0, length-append c (join cs), length-join cs h.1)

match_chunks-join :
    (c : Text) (cs : List Text) → AreColors (c ∷ cs) → match_chunks (join (c ∷ cs)) ≡ some (c ∷ cs)
match_chunks-join [] cs h = absurd (omega (arith, h.0))
match_chunks-join (x ∷ c) cs h =
    ap some (chunks-join ((x ∷ c) ∷ cs) _ h (length-join ((x ∷ c) ∷ cs) h))

-- A palette that is read from the contract, extended with new colors on top of the cleared
-- transparent one and saved, is read back as it was with the new colors after it, so that the color
-- numbers of the items that are on-chain keep their meaning.
pub palette_of-palette_string :
    (cs new : List Text)
    → AreColors cs
    → AreColors new
    → palette_of (palette_string (clear_spacer (spacer ∷ cs) ++ new)) ≡ some ((spacer ∷ cs) ++ new)
unfolding palette_of palette_string clear_spacer
palette_of-palette_string cs new h k =
    match_chunks-join spacer (cs ++ new) (refl, AreColors-append cs h)
  where
    AreColors-append : (cs : List Text) → AreColors cs → AreColors (cs ++ new)
    AreColors-append [] h = k
    AreColors-append (c ∷ cs) h = (h.0, AreColors-append cs h.1)
