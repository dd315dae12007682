-- ===== src/Sdk/Hex.antt =====
-- packages/nouns-sdk/src/image/utils.ts, on texts as lists of character codes, and what the
-- package uses of JavaScript's base 16.
use composable_nouns_monorep.Common.{
  ℕ, zero, suc, ◌+◌, ◌-◌, ◌*◌, ◌/◌, ◌%◌, ◌<◌, ◌≤◌, ◌≡◌, refl, ap, ◌∙◌, ◌&&◌, Option, none, some,
  List, [], ◌∷◌, ◌++◌, leb, ltb, if◌then◌else◌, arith, length, replicate, Bool-cases, inl, inr,
}

abbrev pub Text : Type 0
Text = List ℕ

-- A digit below 16, in lower case.
abbrev pub digit : ℕ → ℕ
digit d = if ltb d 10 then b'0' + d else b'a' + (d - 10)

-- `n.toString(16)`. A digit more than the number has is never needed: the fuel is the number.
abbrev pub digits : ℕ → ℕ → Text
digits zero n = digit n ∷ []
digits (suc fuel) n =
    let front = digits fuel (n / 16) in
    if ltb n 16 then digit n ∷ [] else front ++ (digit (n % 16) ∷ [])

-- `text.padStart(pad, '0')`.
abbrev pub pad_start : ℕ → Text → Text
pad_start pad text = replicate (pad - length text) b'0' ++ text

unfoldable pub to_padded_hex : ℕ → Text
to_padded_hex c = pad_start 2 (digits c c)

unfoldable pub rgb_to_hex : ℕ → ℕ → ℕ → Text
unfolding to_padded_hex
rgb_to_hex r g b = to_padded_hex r ++ to_padded_hex g ++ to_padded_hex b

-- The value of a digit, upper or lower case.
abbrev pub digit_value : ℕ → Option ℕ
digit_value c =
    if leb b'0' c && leb c b'9'
    then some (c - b'0')
    else if leb b'a' c && leb c b'f'
    then some (c - b'a' + 10)
    else if leb b'A' c && leb c b'F'
    then some (c - b'A' + 10)
    else none

-- `parseInt(text, 16)` of a text without blanks, sign or prefix in front: the value of the digits
-- that it starts with, or NaN without any.
abbrev parse_more : ℕ → Text → ℕ
parse_more n [] = n
parse_more n (c ∷ text) = elim (digit_value c) [ none ↦ n | some d ↦ parse_more (n * 16 + d) text ]

unfoldable pub parse_int : Text → Option ℕ
parse_int [] = none
parse_int (c ∷ text) = elim (digit_value c) [ none ↦ none | some d ↦ some (parse_more d text) ]

digits_small : (fuel n : ℕ) → n < 16 → digits fuel n ≡ digit n ∷ []
digits_small zero n h = refl
digits_small (suc fuel) n h = ground arith

digits_two :
    (fuel n : ℕ) → 16 ≤ n → n < 256 → digits (suc fuel) n ≡ digit (n / 16) ∷ digit (n % 16) ∷ []
digits_two fuel n h k = ground (arith, digits_small fuel (n / 16))

-- A byte has two digits.
pub to_padded_hex-two_digits :
    (c : ℕ) → c < 256 → to_padded_hex c ≡ digit (c / 16) ∷ digit (c % 16) ∷ []
unfolding to_padded_hex
to_padded_hex-two_digits zero h = refl
to_padded_hex-two_digits (suc k) h =
    ground (arith, digits_small (suc k) (suc k), digits_two k (suc k))

digit_value-digit : (d : ℕ) → d < 16 → digit_value (digit d) ≡ some d
digit_value-digit d h = ground arith

parse_two :
    (x y a b : ℕ)
    → digit_value x ≡ some a
    → digit_value y ≡ some b
    → parse_int (x ∷ y ∷ []) ≡ some (a * 16 + b)
unfolding parse_int
parse_two x y a b h k = ground (arith, h, k)

-- Reading the two digits of a byte gives the byte.
pub parse_int-to_padded_hex : (c : ℕ) → c < 256 → parse_int (to_padded_hex c) ≡ some c
parse_int-to_padded_hex c h =
    let high = digit_value-digit (c / 16) (omega arith) in
    let low = digit_value-digit (c % 16) (omega arith) in
    let whole : c / 16 * 16 + c % 16 ≡ c = omega arith in
    ap parse_int (to_padded_hex-two_digits c h) ∙ parse_two _ _ _ _ high low ∙ ap some whole

append-nonempty : (s t : Text) → (t ≡ [] → ⊥) → s ++ t ≡ [] → ⊥
append-nonempty [] t h = h
append-nonempty (c ∷ s) t h = λ e. cc

digits-nonempty : (fuel n : ℕ) → digits fuel n ≡ [] → ⊥
digits-nonempty zero n = λ e. cc
digits-nonempty (suc fuel) n = elim (Bool-cases (ltb n 16)) [
  | inl t ↦ rw t (λ e. cc)
  | inr f ↦ rw f (append-nonempty (digits fuel (n / 16)) (digit (n % 16) ∷ []) (λ e. cc))
]

pub rgb_to_hex-nonempty : (r g b : ℕ) → rgb_to_hex r g b ≡ [] → ⊥
unfolding rgb_to_hex to_padded_hex
rgb_to_hex-nonempty r g b =
    append-nonempty (to_padded_hex r ++ to_padded_hex g) (to_padded_hex b) (
      append-nonempty (replicate (2 - length (digits b b)) b'0') (digits b b) (digits-nonempty b b))
