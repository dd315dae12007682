-- ===== src/Sdk/Image/Bounds.antt =====
-- The bounds hold every opaque pixel.
use composable_nouns_monorep.Common.{
  ℕ, zero, suc, ◌-◌, ◌<◌, ◌≤◌, ◌≡◌, refl, Bool, true, false, ◌&&◌, ◌==◌, arith, ◌⊎◌, inl, inr,
  Bool-cases,
}
use composable_nouns_monorep.Sdk.Image.{
  Image, calc_bounds, is_transparent_row, is_transparent_column, all_below, lower, trim, raise,
}

le_cases : (a b : ℕ) → a ≤ b → (a ≡ b) ⊎ (a < b)
le_cases a b h = elim (Bool-cases (a == b)) [
  | inl e ↦ inl (ground arith)
  | inr d ↦ inr (ground arith)
]

and_false : (b : Bool) → (b && false) ≡ false
and_false true = refl
and_false false = refl

all_below_lem : (n : ℕ) (p : ℕ → Bool) (k : ℕ) → k < n → p k ≡ false → all_below n p ≡ false
all_below_lem zero p k h f = absurd (omega arith)
all_below_lem (suc n) p k h f = elim (le_cases k n (omega arith)) [
  | inl e ↦ rw (rw e at f) (and_false (all_below n p))
  | inr l ↦ rw (all_below_lem n p k l f) refl
]

lower_lem : (blank : ℕ → Bool) (b y : ℕ) → blank y ≡ false → y ≤ b → y ≤ lower blank b
lower_lem blank zero y f h = h
lower_lem blank (suc b) y f h = elim (le_cases y (suc b) h) [
  | inl e ↦ rw (rw e at f) h
  | inr l ↦ elim (Bool-cases (blank (suc b))) [
    | inl t ↦ rw t (lower_lem blank b y f (omega arith))
    | inr n ↦ rw n h
  ]
]

trim_lem : (blank : ℕ → Bool) (n x : ℕ) → blank x ≡ false → x < n → x < trim blank n
trim_lem blank zero x f h = h
trim_lem blank (suc n) x f h = elim (le_cases x n (omega arith)) [
  | inl e ↦ rw (rw e at f) h
  | inr l ↦ elim (Bool-cases (blank n)) [ inl t ↦ rw t (trim_lem blank n x f l) | inr k ↦ rw k h ]
]

raise_lem : (blank : ℕ → Bool) (passes t y : ℕ) → blank y ≡ false → t ≤ y → raise blank passes t ≤ y
raise_lem blank zero t y f h = h
raise_lem blank (suc passes) t y f h = elim (le_cases t y h) [
  | inl e ↦ let at_t : blank t ≡ false = rw e f in rw at_t h
  | inr l ↦ elim (Bool-cases (blank t)) [
    | inl b ↦ rw b (raise_lem blank passes (suc t) y f l)
    | inr n ↦ rw n h
  ]
]

lower_bound : (blank : ℕ → Bool) (b : ℕ) → lower blank b ≤ b
lower_bound blank zero = omega arith
lower_bound blank (suc b) = ground (arith, lower_bound blank b)

trim_bound : (blank : ℕ → Bool) (n : ℕ) → trim blank n ≤ n
trim_bound blank zero = omega arith
trim_bound blank (suc n) = ground (arith, trim_bound blank n)

not_blank : (a : ℕ) → 0 < a → (a == 0) ≡ false
not_blank a h = ground arith

-- A pixel that is not fully transparent lies inside the computed bounds, whose bottom row is
-- inside and whose right column is outside, and the bounds lie inside the image.
pub calc_bounds_lem :
    (i : Image) (x y : ℕ)
    → x < i.width
    → y < i.height
    → 0 < (i.get_rgba_at x y).a
    → let b = calc_bounds i in
      (b.top ≤ y)
      × (y ≤ b.bottom)
      × (b.bottom < i.height)
      × (b.left ≤ x)
      × (x < b.right)
      × (b.right ≤ i.width)
unfolding calc_bounds is_transparent_row is_transparent_column
calc_bounds_lem i x y hx hy opaque =
    let rows = is_transparent_row i in
    let columns = is_transparent_column i in
    let row : rows y ≡ false =
      all_below_lem i.width (λ c. (i.get_rgba_at c y).a == 0) x hx (not_blank _ opaque) in
    let column : columns x ≡ false =
      all_below_lem i.height (λ r. (i.get_rgba_at x r).a == 0) y hy (not_blank _ opaque) in
    let low = lower_bound rows (i.height - 1) in
    let last : y ≤ i.height - 1 = omega arith in
    (
      raise_lem rows (lower rows (i.height - 1)) 0 y row (omega arith),
      lower_lem rows (i.height - 1) y row last,
      omega arith,
      raise_lem columns (trim columns i.width - 1) 0 x column (omega arith),
      trim_lem columns i.width x column hx,
      trim_bound columns i.width,
    )
