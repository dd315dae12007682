-- ===== src/Sdk/Svg/Rows.antt =====
-- Pixels row by row, and rows of one color.
use composable_nouns_monorep.Common.{
  ℕ, zero, suc, ◌+◌, ◌≤◌, ◌≡◌, refl, sym, ap, ◌∙◌, subst, true, false, Option, List, [], ◌∷◌, ◌++◌,
  ◌==◌, if◌then◌else◌, get_elem?, String, replicate, arith,
}
use composable_nouns_monorep.Sdk.Svg.{SvgRect}

-- A pixel and its color.
abbrev pub Pixel : Type 0
Pixel = ℕ × ℕ × Option String

abbrev pub step_x : ℕ → ℕ → ℕ → ℕ
step_x left right x = if x == right then left else x

abbrev pub step_y : ℕ → ℕ → ℕ → ℕ
step_y right x y = if x == right then suc y else y

abbrev pub spot : ℕ → Option String → ℕ → ℕ → List Pixel
spot color fill x y = if color == 0 then [] else (x, y, fill) ∷ []

-- The pixels of an image as a list of color indexes, row by row from a position; index 0 is
-- transparent.
abbrev pub paint : ℕ → ℕ → List String → List ℕ → ℕ → ℕ → List Pixel
paint left right palette [] x y = []
paint left right palette (c ∷ cs) x y =
    spot c (get_elem? palette c) x y
    ++ paint left right palette cs (step_x left right (suc x)) (step_y right (suc x) y)

abbrev pub row_pixels : ℕ → ℕ → ℕ → Option String → List Pixel
row_pixels zero x y fill = []
row_pixels (suc n) x y fill = (x, y, fill) ∷ row_pixels n (suc x) y fill

-- The pixels that rectangles cover.
abbrev pub pixels_of : List SvgRect → List Pixel
pixels_of [] = []
pixels_of (r ∷ rects) = row_pixels r.length r.x r.y r.fill ++ pixels_of rects

pub append_assoc {ℓ} : {A : Type ℓ} (a b c : List A) → (a ++ b) ++ c ≡ a ++ (b ++ c)
append_assoc [] b c = refl
append_assoc (x ∷ a) b c = ap (◌∷◌ x) (append_assoc a b c)

pub pixels_of-append : (a b : List SvgRect) → pixels_of (a ++ b) ≡ pixels_of a ++ pixels_of b
pixels_of-append [] b = refl
pixels_of-append (r ∷ a) b =
    ap (λ l. row_pixels r.length r.x r.y r.fill ++ l) (pixels_of-append a b)
    ∙ sym (append_assoc (row_pixels r.length r.x r.y r.fill) (pixels_of a) (pixels_of b))

-- A row of one color.
abbrev pub row_spots : ℕ → ℕ → Option String → ℕ → ℕ → List Pixel
row_spots zero color fill x y = []
row_spots (suc n) color fill x y = spot color fill x y ++ row_spots n color fill (suc x) y

pub row_spots-clear :
    (n : ℕ) (color : ℕ) (fill : Option String) (x y : ℕ)
    → (color == 0) ≡ true
    → row_spots n color fill x y ≡ []
row_spots-clear zero color fill x y h = refl
row_spots-clear (suc n) color fill x y h = rw (h, row_spots-clear n color fill (suc x) y h) refl

pub row_spots-opaque :
    (n : ℕ) (color : ℕ) (fill : Option String) (x y : ℕ)
    → (color == 0) ≡ false
    → row_spots n color fill x y ≡ row_pixels n x y fill
row_spots-opaque zero color fill x y h = refl
row_spots-opaque (suc n) color fill x y h =
    rw h (ap (◌∷◌ (x, y, fill)) (row_spots-opaque n color fill (suc x) y h))

module _ (left right : ℕ) (palette : List String) where
  -- A run within the row is painted in the row.
  pub paint-row :
      (n color : ℕ) (cs : List ℕ) (x y : ℕ)
      → x + suc n ≤ right
      → paint left right palette (replicate (suc n) color ++ cs) x y
        ≡ row_spots (suc n) color (get_elem? palette color) x y
          ++ paint left right palette cs
              (step_x left right (x + suc n))
              (step_y right (x + suc n) y)
  paint-row zero color cs x y h =
      let next : x + 1 ≡ suc x = omega arith in
      let first = spot color (get_elem? palette color) x y in
      rw next (sym (append_assoc first [] _))
  paint-row (suc n) color cs x y h =
      let fill = get_elem? palette color in
      let inner : (suc x == right) ≡ false = ground arith in
      let next : suc x + suc n ≡ x + suc (suc n) = omega arith in
      let more = paint-row n color cs (suc x) y (omega arith) in
      let rest : List Pixel =
        paint left right palette cs (step_x left right (x + suc (suc n)))
          (step_y right (x + suc (suc n)) y) in
      let more' : paint left right palette (replicate (suc n) color ++ cs) (suc x) y
          ≡ row_spots (suc n) color fill (suc x) y ++ rest =
        subst
          (λ k.
            paint left right palette (replicate (suc n) color ++ cs) (suc x) y
            ≡ row_spots (suc n) color fill (suc x) y
              ++ paint left right palette cs (step_x left right k) (step_y right k y))
          next more in
      let opened : paint left right palette (replicate (suc (suc n)) color ++ cs) x y
          ≡ spot color fill x y
            ++ paint left right palette (replicate (suc n) color ++ cs) (suc x) y =
        rw (paint, inner) refl in
      opened
      ∙ ap (λ l. spot color fill x y ++ l) more'
      ∙ sym (append_assoc (spot color fill x y) (row_spots (suc n) color fill (suc x) y) rest)
