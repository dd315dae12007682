-- ===== src/Sdk/Svg/Opaque.antt =====
-- The opaque pixels of an image, and the color indexes that `toRLE` gives them.
use composable_nouns_monorep.Common.{
  ℕ, ◌<◌, ◌≡◌, refl, ap, sym, ◌∙◌, true, false, Option, none, some, List, [], ◌∷◌, ◌==◌,
  if◌then◌else◌, length, arith, inl, inr, Bool-cases, Option-cases, some_path,
}
use composable_nouns_monorep.Sdk.Hex.{Text, rgb_to_hex}
use composable_nouns_monorep.Sdk.Image.{
  Image, RgbaColor, Colors, text_eq, get_color, set_color, color_index, scan,
}

text_eq-path : (s t : Text) → text_eq s t ≡ true → s ≡ t
text_eq-path [] [] = λ h. refl
text_eq-path [] (d ∷ t) = λ h. absurd (cc)
text_eq-path (c ∷ s) [] = λ h. absurd (cc)
text_eq-path (c ∷ s) (d ∷ t) = elim (Bool-cases (c == d)) [
  | inl e ↦ rw e (λ h. let head : c ≡ d = ground (arith, e) in let tail = text_eq-path s t h in cc)
  | inr n ↦ rw n (λ h. absurd (cc))
]

text_eq_refl : (s : Text) → text_eq s s ≡ true
text_eq_refl [] = refl
text_eq_refl (c ∷ s) = let same : (c == c) ≡ true = ground arith in rw (same, text_eq_refl s) refl

true-false : true ≡ false → ⊥
true-false h = cc

none-some : {n : ℕ} → ◌≡◌ {A = Option ℕ} none (some n) → ⊥
none-some h = cc

unequal : (i k j : Text) → text_eq i k ≡ false → i ≡ j → text_eq k j ≡ false
unequal i k j n p = elim (Bool-cases (text_eq k j)) [
  | inl e ↦
      let same : k ≡ i = text_eq-path k j e ∙ sym p in
      absurd (true-false (sym (text_eq_refl i) ∙ sym (ap (text_eq i) same) ∙ n))
  | inr f ↦ f
]

get_color-set_color :
    (m : Colors) (k : Text) (v : ℕ) (j : Text)
    → get_color (set_color m k v) j ≡ (if text_eq k j then some v else get_color m j)
unfolding get_color set_color
get_color-set_color [] k v j = refl
get_color-set_color ((i, w) ∷ m) k v j = elim (Bool-cases (text_eq i k)) [
  | inl e ↦
      let same = text_eq-path i k e in
      rw (e, same) (elim (Bool-cases (text_eq k j)) [ inl t ↦ rw t refl | inr n ↦ rw n refl ])
  | inr n ↦ rw n (elim (Bool-cases (text_eq i j)) [
    | inl t ↦ rw t (
        let differs : text_eq k j ≡ false = unequal i k j n (text_eq-path i j t) in rw differs refl)
    | inr f ↦ rw f (get_color-set_color m k v j)
  ])
]

-- Index 0 is given to the empty text alone, the key of the transparent color, and is taken.
abbrev pub HasTransparent : Colors → Type 0
HasTransparent colors = (0 < length colors) × ((k : Text) → get_color colors k ≡ some 0 → k ≡ [])

abbrev hex_of : RgbaColor → Text
hex_of c = rgb_to_hex c.r c.g c.b

set_color-taken : (m : Colors) (k : Text) (v : ℕ) → 0 < length (set_color m k v)
unfolding set_color
set_color-taken [] k v = omega arith
set_color-taken ((j, w) ∷ m) k v = elim (Bool-cases (text_eq j k)) [
  | inl e ↦ rw e (omega arith)
  | inr n ↦ rw n (omega arith)
]

pub HasTransparent-color_index :
    (c : RgbaColor) (colors : Colors)
    → HasTransparent colors
    → HasTransparent (color_index c colors).1
unfolding color_index
HasTransparent-color_index c colors h = elim (Option-cases (get_color colors (hex_of c))) [
  | inl e ↦
      rw (color_index, e)
        (
          set_color-taken colors (hex_of c) (length colors),
          λ k.
              rw (get_color-set_color colors (hex_of c) (length colors) k)
                (elim (Bool-cases (text_eq (hex_of c) k)) [
                  | inl t ↦ rw t (λ p.
                      let taken = h.0 in
                      let nothing : length colors ≡ 0 = some_path p in
                      absurd (omega (arith, taken, nothing)))
                  | inr f ↦ rw f (h.1 k)
                ]),
        )
  | inr (n, e) ↦ rw (color_index, e) h
]

-- A color keeps its index.
color_index-keeps :
    (c : RgbaColor) (colors : Colors) (k : Text) (n : ℕ)
    → get_color colors k ≡ some n
    → get_color (color_index c colors).1 k ≡ some n
unfolding color_index
color_index-keeps c colors k n h = elim (Option-cases (get_color colors (hex_of c))) [
  | inl e ↦
      rw (color_index, e, get_color-set_color colors (hex_of c) (length colors) k)
        (elim (Bool-cases (text_eq (hex_of c) k)) [
          | inl t ↦
              let same = text_eq-path (hex_of c) k t in
              absurd (none-some (sym e ∙ ap (get_color colors) same ∙ h))
          | inr f ↦ rw f h
        ])
  | inr (m, e) ↦ rw (color_index, e) h
]

pub scan-keeps :
    (i : Image) (ps : List (ℕ × ℕ)) (colors : Colors) (k : Text) (n : ℕ)
    → get_color colors k ≡ some n
    → get_color (scan i ps colors).1 k ≡ some n
unfolding scan
scan-keeps i [] colors k n h = h
scan-keeps i ((x, y) ∷ ps) colors k n h =
    let c = i.get_rgba_at x y in
    scan-keeps i ps (color_index c colors).1 k n (color_index-keeps c colors k n h)

-- An opaque pixel gets the index of its color.
pub color_index-opaque :
    (c : RgbaColor) (colors : Colors)
    → (c.a == 0) ≡ false
    → get_color (color_index c colors).1 (hex_of c) ≡ some (color_index c colors).0
unfolding color_index
color_index-opaque c colors h = elim (Option-cases (get_color colors (hex_of c))) [
  | inl e ↦
      rw
        (
          color_index,
          e,
          h,
          get_color-set_color colors (hex_of c) (length colors) (hex_of c),
          text_eq_refl (hex_of c),
        )
        refl
  | inr (n, e) ↦ rw (color_index, e, h) (rw e refl)
]

pub color_index-clear :
    (c : RgbaColor) (colors : Colors) → (c.a == 0) ≡ true → (color_index c colors).0 ≡ 0
unfolding color_index
color_index-clear c colors h = elim (Option-cases (get_color colors (hex_of c))) [
  | inl e ↦ rw (color_index, e, h) refl
  | inr (n, e) ↦ rw (color_index, e, h) refl
]
