-- ===== src/Sdk/Svg/Painting.antt =====
-- The rectangles of an image cover its pixels, row by row, in the colors of the runs.
use composable_nouns_monorep.Common.{
  ℕ, zero, suc, ◌+◌, ◌-◌, ◌<◌, ◌≤◌, ◌≡◌, refl, sym, ap, ◌∙◌, true, Option, some, List, [], ◌∷◌,
  ◌++◌, ltb, leb, ◌==◌, if◌then◌else◌, get_elem?, String, replicate, Bool-cases, inl, inr, arith,
}
use composable_nouns_monorep.Sdk.Image.Runs.{expand}
use composable_nouns_monorep.Sdk.Svg.{SvgRect, get_rect_length, draw_run, draw_runs}
use composable_nouns_monorep.Sdk.Svg.Rows.{
  step_x, step_y, paint, pixels_of, row_spots, append_assoc, pixels_of-append, row_spots-clear,
  row_spots-opaque, paint-row,
}

module _ (left right : ℕ) (palette : List String) where
  get_rect_length-zero : (x : ℕ) → get_rect_length x 0 right ≡ 0
  unfolding get_rect_length
  get_rect_length-zero x = ground arith

  -- Left of the bound, a run that is not over has a rectangle of a pixel at least.
  get_rect_length-suc :
      (x draw : ℕ)
      → x < right
      → (k m : ℕ) × (get_rect_length x (suc draw) right ≡ suc k)
        × (x + suc k ≤ right)
        × (suc draw ≡ suc k + m)
  unfolding get_rect_length
  get_rect_length-suc x draw h = elim (Bool-cases (leb (suc draw) (right - x))) [
    | inl t ↦ (draw, 0, rw t refl, ground arith, omega arith)
    | inr f ↦
        let over : right - x < suc draw = ground arith in
        (right - x - 1, suc draw - (right - x), rw f (omega arith), omega arith, omega arith)
  ]

  draw_run-stop :
      (fuel color draw x y : ℕ) (fill : Option String)
      → get_rect_length x draw right ≡ 0
      → draw_run (suc fuel) left right color fill draw x y ≡ some ([], x, y)
  unfolding draw_run
  draw_run-stop fuel color draw x y fill h = rw h refl

  draw_run-go :
      (fuel color draw x y k m : ℕ) (fill : Option String) (rects : List SvgRect) (x' y' : ℕ)
      → get_rect_length x draw right ≡ suc k
      → draw - suc k ≡ m
      → draw_run fuel left right color fill m
          (step_x left right (x + suc k))
          (step_y right (x + suc k) y)
        ≡ some (rects, x', y')
      → draw_run (suc fuel) left right color fill draw x y
        ≡ some (
          if color == 0
              then rects
              else record { length = suc k; x = x; y = y; fill = fill } ∷ rects,
          x',
          y',
        )
  unfolding draw_run
  draw_run-go fuel color draw x y k m fill rects x' y' h e rest =
      let positive : ltb 0 (suc k) ≡ true = ground arith in rw (h, e, rest, positive, h) refl

  -- A run that is drawn from one position to another, with what it paints in front of any pixels.
  pub record IsDrawn (draw color x y : ℕ) (drawn : Option (List SvgRect × ℕ × ℕ)) : Type 0 where
    pub rects : List SvgRect
    pub end_x : ℕ
    pub end_y : ℕ
    pub same : drawn ≡ some (rects, end_x, end_y)
    pub inside : end_x < right
    pub painted :
        (cs : List ℕ)
        → paint left right palette (replicate draw color ++ cs) x y
          ≡ pixels_of rects ++ paint left right palette cs end_x end_y

  step_x-inside : (x : ℕ) → left < right → x ≤ right → step_x left right x < right
  step_x-inside x h k = ground arith

  replicate-split :
      (k m color : ℕ) (cs : List ℕ)
      → replicate (k + m) color ++ cs ≡ replicate k color ++ (replicate m color ++ cs)
  replicate-split zero m color cs = let none_more : 0 + m ≡ m = omega arith in rw none_more refl
  replicate-split (suc k) m color cs =
      let one_more : suc k + m ≡ suc (k + m) = omega arith in
      rw one_more (ap (◌∷◌ color) (replicate-split k m color cs))

  -- A rectangle covers its row, or is left out when it is transparent.
  pixels_of-rectangle :
      (n color x y : ℕ) (fill : Option String) (rects : List SvgRect)
      → row_spots n color fill x y ++ pixels_of rects
        ≡ pixels_of
            (if color == 0 then rects else record { length = n; x = x; y = y; fill = fill } ∷ rects)
  pixels_of-rectangle n color x y fill rects = elim (Bool-cases (color == 0)) [
    | inl t ↦ rw (row_spots-clear n color fill x y t, t) refl
    | inr f ↦ rw (row_spots-opaque n color fill x y f, f) refl
  ]

  draw_run-IsDrawn :
      (fuel draw color x y : ℕ)
      → left < right
      → x < right
      → draw < fuel
      → IsDrawn draw color x y (draw_run fuel left right color (get_elem? palette color) draw x y)
  draw_run-IsDrawn zero draw color x y h k enough = absurd (omega arith)
  draw_run-IsDrawn (suc fuel) zero color x y h k enough = record {
    rects = [];
    end_x = x;
    end_y = y;
    same = draw_run-stop fuel color 0 x y _ (get_rect_length-zero x);
    inside = k;
    painted = λ cs. refl;
  }
  draw_run-IsDrawn (suc fuel) (suc draw) color x y h k enough =
      let fill = get_elem? palette color in
      let (n, m, length_eq, fits, split) = get_rect_length-suc x draw k in
      let x1 = step_x left right (x + suc n) in
      let y1 = step_y right (x + suc n) y in
      let left_over : suc draw - suc n ≡ m = omega arith in
      let rest =
        draw_run-IsDrawn fuel m color x1 y1 h (step_x-inside (x + suc n) h fits) (omega arith) in
      let rects =
        if color == 0
        then rest.rects
        else record { length = suc n; x = x; y = y; fill = fill } ∷ rest.rects in
      record {
        rects = rects;
        end_x = rest.end_x;
        end_y = rest.end_y;
        same =
            draw_run-go fuel color (suc draw) x y n m fill rest.rects rest.end_x rest.end_y
              length_eq left_over rest.same;
        inside = rest.inside;
        painted = λ cs.
            let after = paint left right palette cs rest.end_x rest.end_y in
            let row = row_spots (suc n) color fill x y in
            ap (λ l. paint left right palette l x y)
              (ap (λ k. replicate k color ++ cs) split ∙ replicate-split (suc n) m color cs)
            ∙ paint-row left right palette n color (replicate m color ++ cs) x y fits
            ∙ ap (λ l. row ++ l) (rest.painted cs)
            ∙ sym (append_assoc row (pixels_of rest.rects) after)
            ∙ ap (λ l. l ++ after) (pixels_of-rectangle (suc n) color x y fill rest.rects);
      }

  draw_runs-cons :
      (draw color : ℕ) (runs : List (ℕ × ℕ)) (x y : ℕ) (a b : List SvgRect) (x1 y1 x2 y2 : ℕ)
      → draw_run (suc draw) left right color (get_elem? palette color) draw x y ≡ some (a, x1, y1)
      → draw_runs left right palette runs x1 y1 ≡ some (b, x2, y2)
      → draw_runs left right palette ((draw, color) ∷ runs) x y ≡ some (a ++ b, x2, y2)
  unfolding draw_runs
  draw_runs-cons draw color runs x y a b x1 y1 x2 y2 h k = rw (h, k, draw_runs) refl

  -- Runs from a position inside the bounds are always drawn, in the fuel that their lengths give,
  -- and the rectangles cover, row by row, the pixels that the runs expand to, each in its color,
  -- without the transparent ones.
  pub draw_runs_lem :
      (runs : List (ℕ × ℕ)) (x y : ℕ)
      → left < right
      → x < right
      → (rects : List SvgRect) × (end_x end_y : ℕ) × (draw_runs left right palette runs x y
          ≡ some (rects, end_x, end_y))
        × (pixels_of rects ≡ paint left right palette (expand runs) x y)
  unfolding draw_runs
  draw_runs_lem [] x y h k = ([], x, y, refl, refl)
  draw_runs_lem ((draw, color) ∷ runs) x y h k =
      let first = draw_run-IsDrawn (suc draw) draw color x y h k (omega arith) in
      let (rects, x', y', drawn, same) =
        draw_runs_lem runs first.end_x first.end_y h first.inside in
      (
        first.rects ++ rects,
        x',
        y',
        draw_runs-cons draw color runs x y first.rects rects _ _ x' y' first.same drawn,
        pixels_of-append first.rects rects
            ∙ ap (λ l. pixels_of first.rects ++ l) same
            ∙ sym (first.painted (expand runs)),
      )
