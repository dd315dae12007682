-- ===== src/Sdk/Svg/Spots.antt =====
-- The pixels that a palette paints, against those of the image.
use composable_nouns_monorep.Common.{
  ℕ, zero, suc, ◌+◌, ◌-◌, ◌<◌, ◌≡◌, refl, ap, sym, ◌∙◌, true, false, some, List, [], ◌∷◌, ◌++◌, map,
  ◌==◌, if◌then◌else◌, get_elem?, String, arith, inl, inr, Bool-cases,
}
use composable_nouns_monorep.Sdk.Hex.{Text, rgb_to_hex, rgb_to_hex-nonempty}
use composable_nouns_monorep.Sdk.Image.{
  Image, ImageBounds, Colors, get_color, color_index, scan, count_up, row_all, row_positions,
  positions,
}
use composable_nouns_monorep.Sdk.Svg.Rows.{Pixel, step_x, step_y, spot, paint, append_assoc}
use composable_nouns_monorep.Sdk.Svg.Opaque.{
  HasTransparent, HasTransparent-color_index, scan-keeps, color_index-opaque, color_index-clear,
}

-- A pixel of the image in its color, or nothing where it is transparent.
abbrev pub image_spot : Image → (Text → String) → ℕ → ℕ → List Pixel
image_spot i name x y =
    let c = i.get_rgba_at x y in
    if c.a == 0 then [] else (x, y, some (name (rgb_to_hex c.r c.g c.b))) ∷ []

-- The opaque pixels of a row of an image, as many columns as given, and of as many rows as given.
abbrev pub image_row : Image → (Text → String) → ℕ → ℕ → ℕ → List Pixel
image_row i name x y zero = []
image_row i name x y (suc n) = image_spot i name x y ++ image_row i name (suc x) y n

abbrev pub image_rows : Image → (Text → String) → ℕ → ℕ → ℕ → ℕ → List Pixel
image_rows i name x y columns zero = []
image_rows i name x y columns (suc n) =
    image_row i name x y columns ++ image_rows i name x (suc y) columns n

-- Each color of the palette stands at its index.
abbrev pub Lists : List String → (Text → String) → Colors → Type 0
Lists palette name colors =
    (k : Text) (n : ℕ) → get_color colors k ≡ some n → get_elem? palette n ≡ some (name k)

abbrev spots_at : Image → (Text → String) → List (ℕ × ℕ) → List Pixel
spots_at i name [] = []
spots_at i name ((x, y) ∷ ps) = image_spot i name x y ++ spots_at i name ps

-- Places in the order in which `paint` goes.
abbrev Follows : ℕ → ℕ → ℕ → ℕ → List (ℕ × ℕ) → Type 0
Follows left right x y [] = Unit {0}
Follows left right x y ((u, v) ∷ ps) =
    (u ≡ x) × (v ≡ y) × Follows left right (step_x left right (suc x)) (step_y right (suc x) y) ps

spot-color_index :
    (i : Image) (name : Text → String) (palette : List String) (colors later : Colors) (x y : ℕ)
    → HasTransparent colors
    → ((k : Text) (n : ℕ)
        → get_color (color_index (i.get_rgba_at x y) colors).1 k ≡ some n
        → get_color later k ≡ some n)
    → Lists palette name later
    → let index = (color_index (i.get_rgba_at x y) colors).0 in
      spot index (get_elem? palette index) x y ≡ image_spot i name x y
spot-color_index i name palette colors later x y taken keeps lists =
    let c = i.get_rgba_at x y in
    let hex = rgb_to_hex c.r c.g c.b in
    let index = (color_index c colors).0 in
    elim (Bool-cases (c.a == 0)) [
      | inl t ↦ rw (t, color_index-clear c colors t) refl
      | inr f ↦
          let found = color_index-opaque c colors f in
          let fill : get_elem? palette index ≡ some (name hex) =
            lists hex index (keeps hex index found) in
          let opaque : (index == 0) ≡ false = elim (Bool-cases (index == 0)) [
            | inl z ↦
                let none_left : index ≡ 0 = ground arith in
                absurd (
                  rgb_to_hex-nonempty c.r c.g c.b
                    ((HasTransparent-color_index c colors taken).1 hex (found ∙ ap some none_left)))
            | inr o ↦ o
          ] in
          rw (f, opaque, fill) refl
    ]

paint-scan :
    (left right : ℕ) (i : Image) (name : Text → String) (palette : List String) (ps : List (ℕ × ℕ))
    (colors : Colors) (x y : ℕ)
    → HasTransparent colors
    → Lists palette name (scan i ps colors).1
    → Follows left right x y ps
    → paint left right palette (scan i ps colors).0 x y ≡ spots_at i name ps
unfolding scan
paint-scan left right i name palette [] colors x y taken lists follows = refl
paint-scan left right i name palette ((u, v) ∷ ps) colors x y taken lists (p, q, follows) =
    let colors' = (color_index (i.get_rgba_at u v) colors).1 in
    let index = (color_index (i.get_rgba_at u v) colors).0 in
    let first =
      spot-color_index i name palette colors (scan i ps colors').1 u v taken
        (scan-keeps i ps colors') lists in
    let first' : spot index (get_elem? palette index) x y ≡ image_spot i name u v =
      ap (spot index (get_elem? palette index) x) (sym q)
      ∙ ap (λ z. spot index (get_elem? palette index) z v) (sym p)
      ∙ first in
    let rest =
      paint-scan left right i name palette ps colors' (step_x left right (suc x))
        (step_y right (suc x) y) (HasTransparent-color_index (i.get_rgba_at u v) colors taken) lists
        follows in
    ap
      (λ l.
        l
        ++ paint left right palette (scan i ps colors').0 (step_x left right (suc x))
            (step_y right (suc x) y))
      first'
    ∙ ap (λ l. image_spot i name u v ++ l) rest

spots_at-append :
    (i : Image) (name : Text → String) (ps qs : List (ℕ × ℕ))
    → spots_at i name (ps ++ qs) ≡ spots_at i name ps ++ spots_at i name qs
spots_at-append i name [] qs = refl
spots_at-append i name ((x, y) ∷ ps) qs =
    ap (λ l. image_spot i name x y ++ l) (spots_at-append i name ps qs)
    ∙ sym (append_assoc (image_spot i name x y) (spots_at i name ps) (spots_at i name qs))

spots_at-row :
    (i : Image) (name : Text → String) (x y n : ℕ)
    → spots_at i name (map (λ u. (u, y)) (count_up x n)) ≡ image_row i name x y n
spots_at-row i name x y zero = refl
spots_at-row i name x y (suc n) =
    ap (λ l. image_spot i name x y ++ l) (spots_at-row i name (suc x) y n)

spots_at-rows :
    (i : Image) (name : Text → String) (b : ImageBounds) (y n : ℕ)
    → spots_at i name (row_all b (count_up y n)) ≡ image_rows i name b.left y (b.right - b.left) n
spots_at-rows i name b y zero = refl
spots_at-rows i name b y (suc n) =
    spots_at-append i name (row_positions b y) (row_all b (count_up (suc y) n))
    ∙ ap (λ l. l ++ spots_at i name (row_all b (count_up (suc y) n)))
        (spots_at-row i name b.left y (b.right - b.left))
    ∙ ap (λ l. image_row i name b.left y (b.right - b.left) ++ l) (spots_at-rows i name b (suc y) n)

Follows-row :
    (left right n x y : ℕ) (rest : List (ℕ × ℕ))
    → x + suc n ≡ right
    → Follows left right left (suc y) rest
    → Follows left right x y (map (λ u. (u, y)) (count_up x (suc n)) ++ rest)
Follows-row left right zero x y rest h k =
    let ends : (suc x == right) ≡ true = ground arith in (refl, refl, rw ends k)
Follows-row left right (suc n) x y rest h k =
    let inner : (suc x == right) ≡ false = ground arith in
    (refl, refl, rw inner (Follows-row left right n (suc x) y rest (omega arith) k))

Follows-rows :
    (b : ImageBounds) (y n : ℕ)
    → b.left < b.right
    → Follows b.left b.right b.left y (row_all b (count_up y n))
Follows-rows b y zero h = tt
Follows-rows b y (suc n) h =
    let k = b.right - b.left - 1 in
    let columns : b.right - b.left ≡ suc k = omega arith in
    rw columns (Follows-row b.left b.right k b.left y _ (omega arith) (Follows-rows b (suc y) n h))

-- The indexes that the loops of `toRLE` give, painted row by row, are the image's opaque pixels
-- inside bounds that are not empty.
pub paint-positions :
    (i : Image) (name : Text → String) (palette : List String) (b : ImageBounds) (colors : Colors)
    → HasTransparent colors
    → Lists palette name (scan i (positions b) colors).1
    → b.left < b.right
    → paint b.left b.right palette (scan i (positions b) colors).0 b.left b.top
      ≡ image_rows i name b.left b.top (b.right - b.left) (suc b.bottom - b.top)
paint-positions i name palette b colors taken lists wide =
    paint-scan b.left b.right i name palette (positions b) colors b.left b.top taken lists
      (Follows-rows b b.top (suc b.bottom - b.top) wide)
    ∙ spots_at-rows i name b b.top (suc b.bottom - b.top)
