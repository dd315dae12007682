-- ===== src/Common/Lists.antt =====
-- Lists measured and indexed by native numbers, under the library's names, and lists of texts.
use Prim.Native.Nat.{ℕ, zero, suc, ◌+◌, ◌*◌, ◌<◌}
use Prim.Native.String.{String}
use mathlib.Core.Path.{◌≡◌, refl, ap}
use mathlib.Core.Bool.{Bool, true, false, not, ◌||◌}
use mathlib.Core.List.{List, [], ◌∷◌, ◌++◌}
use mathlib.Core.Option.{Option, none, some}
use native.Mathlib.Omega.{arith}
use text.Mathlib.Text.{◌==◌ as str_eq}
use text.Mathlib.TextEquality.{eq_iff}
use composable_nouns_monorep.Common.Tests.{if◌then◌else◌}

module _ {ℓ} {A : Type ℓ} where
  abbrev pub length : List A → ℕ
  length [] = 0
  length (x ∷ xs) = suc (length xs)

  abbrev pub get_elem? : List A → ℕ → Option A
  get_elem? [] i = none
  get_elem? (x ∷ xs) zero = some x
  get_elem? (x ∷ xs) (suc i) = get_elem? xs i

  abbrev pub take : ℕ → List A → List A
  take zero xs = []
  take (suc n) [] = []
  take (suc n) (x ∷ xs) = x ∷ take n xs

  abbrev pub drop : ℕ → List A → List A
  drop zero xs = xs
  drop (suc n) [] = []
  drop (suc n) (x ∷ xs) = drop n xs

  abbrev pub replicate : ℕ → A → List A
  replicate zero a = []
  replicate (suc n) a = a ∷ replicate n a

  -- Array.prototype.filter.
  abbrev pub filter : (A → Bool) → List A → List A
  filter p [] = []
  filter p (x ∷ xs) = let rest = filter p xs in if p x then x ∷ rest else rest

  pub length-append : (xs ys : List A) → length (xs ++ ys) ≡ length xs + length ys
  length-append [] ys = omega arith
  length-append (x ∷ xs) ys = omega (arith, length-append xs ys)

pub get_elem?-take {ℓ} :
    {A : Type ℓ} (n j : ℕ) (xs : List A) → j < n → get_elem? (take n xs) j ≡ get_elem? xs j
get_elem?-take zero j xs h = absurd (omega arith)
get_elem?-take (suc n) j [] h = refl
get_elem?-take (suc n) zero (x ∷ xs) h = refl
get_elem?-take (suc n) (suc j) (x ∷ xs) h = get_elem?-take n j xs (omega arith)

pub get_elem?-drop {ℓ} :
    {A : Type ℓ} (n j : ℕ) (xs : List A) → get_elem? (drop n xs) j ≡ get_elem? xs (n + j)
get_elem?-drop zero j xs = ap (get_elem? xs) (omega arith)
get_elem?-drop (suc n) j [] = refl
get_elem?-drop (suc n) j (x ∷ xs) =
    let step : suc n + j ≡ suc (n + j) = omega arith in rw step (get_elem?-drop n j xs)

-- Array.prototype.includes, on texts.
abbrev pub includes : List String → String → Bool
includes [] a = false
includes (x ∷ xs) a = str_eq x a || includes xs a

-- How often a text occurs.
abbrev pub count : String → List String → ℕ
count a [] = 0
count a (x ∷ xs) = (if str_eq x a then 1 else 0) + count a xs

pub count-append : (a : String) (xs ys : List String) → count a (xs ++ ys) ≡ count a xs + count a ys
count-append a [] ys = omega arith
count-append a (x ∷ xs) ys = ground (arith, count-append a xs ys)

-- Filtering by a test counts an item as before where the test keeps it, and never otherwise.
pub count-filter :
    (p : String → Bool) (a : String) (xs : List String)
    → count a (filter p xs) ≡ (if p a then count a xs else 0)
count-filter p a [] = ground arith
count-filter p a (x ∷ xs) = ground (arith, eq_iff x a, count-filter p a xs)

pub includes-count : (a : String) (xs : List String) → includes xs a ≡ false → count a xs ≡ 0
includes-count a [] h = refl
includes-count a (x ∷ xs) h = ground (arith, includes-count a xs)

pub count-includes : (a : String) (xs : List String) → includes xs a ≡ true → 0 < count a xs
count-includes a [] h = absurd (cc)
count-includes a (x ∷ xs) h = ground (arith, count-includes a xs)

pub length-filter_out :
    (a : String) (xs : List String)
    → length (filter (λ n. not (str_eq n a)) xs) + count a xs ≡ length xs
length-filter_out a [] = refl
length-filter_out a (x ∷ xs) = ground (arith, length-filter_out a xs)

abbrev pub sum_of : (String → ℕ) → List String → ℕ
sum_of w [] = 0
sum_of w (x ∷ xs) = w x + sum_of w xs

-- Two functions that agree but at one text have sums that differ by its change.
pub sum_of-update :
    (w v : String → ℕ) (f : String)
    → ((a : String) → str_eq f a ≡ false → v a ≡ w a)
    → (xs : List String) → sum_of v xs + count f xs * w f ≡ sum_of w xs + count f xs * v f
sum_of-update w v f h [] = omega arith
sum_of-update w v f h (x ∷ xs) =
    ground (arith, h x, eq_iff f x, eq_iff x f, sum_of-update w v f h xs)

-- The same at two texts.
pub sum_of-update_two :
    (w v : String → ℕ) (f r : String)
    → str_eq f r ≡ false
    → ((a : String) → str_eq f a ≡ false → str_eq r a ≡ false → v a ≡ w a)
    → (xs : List String)
    → sum_of v xs + count f xs * w f + count r xs * w r
      ≡ sum_of w xs + count f xs * v f + count r xs * v r
sum_of-update_two w v f r d h [] = omega arith
sum_of-update_two w v f r d h (x ∷ xs) = ground (
  arith,
  h x,
  d,
  eq_iff f r,
  eq_iff f x,
  eq_iff x f,
  eq_iff r x,
  eq_iff x r,
  sum_of-update_two w v f r d h xs,
)
