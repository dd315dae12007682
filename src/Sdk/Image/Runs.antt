-- ===== src/Sdk/Image/Runs.antt =====
-- The run-length encoding keeps the image.
use composable_nouns_monorep.Common.{
  ℕ, zero, suc, ◌/◌, ◌%◌, ◌<◌, ◌≡◌, refl, ap, sym, ◌∙◌, not, ◌||◌, Option, some, List, [], ◌∷◌,
  ◌++◌, ◌==◌, arith, if◌then◌else◌, inl, inr, Bool-cases, replicate,
}
use composable_nouns_monorep.Sdk.Hex.{
  digit, Text, parse_int, to_padded_hex-two_digits, parse_int-to_padded_hex,
}
use composable_nouns_monorep.Sdk.Image.{
  Colors, Image, encode_from, encode, hex_pair, to_rle, calc_bounds, scan, positions,
}
use composable_nouns_monorep.Sdk.Svg.{DecodedBounds, decode_image, rects_of}

-- The runs of a row of pixels, each of 255 at most.
abbrev pub runs_from : ℕ → ℕ → List ℕ → List (ℕ × ℕ)
runs_from count previous [] = (count, previous) ∷ []
runs_from count previous (d ∷ rest) =
    let ends = not (d == previous) || (count == 255) in
    let more = runs_from (if ends then 1 else suc count) (if ends then d else previous) rest in
    if ends then (count, previous) ∷ more else more

abbrev pub runs : List ℕ → List (ℕ × ℕ)
runs [] = []
runs (d ∷ rest) = runs_from 1 d rest

-- The pixels that runs stand for.
abbrev pub expand : List (ℕ × ℕ) → List ℕ
expand [] = []
expand ((count, color) ∷ rest) = replicate count color ++ expand rest

replicate_more :
    (n a : ℕ) (rest : List ℕ) → replicate n a ++ (a ∷ rest) ≡ replicate (suc n) a ++ rest
replicate_more zero a rest = refl
replicate_more (suc n) a rest = ap (◌∷◌ a) (replicate_more n a rest)

expand-runs_from :
    (count previous : ℕ) (rest : List ℕ)
    → expand (runs_from count previous rest) ≡ replicate count previous ++ rest
expand-runs_from count previous [] = refl
expand-runs_from count previous (d ∷ rest) =
    elim (Bool-cases (not (d == previous) || (count == 255))) [
      | inl t ↦ rw (t, expand-runs_from 1 d rest) refl
      | inr f ↦
          let same : d ≡ previous = ground arith in
          rw (f, expand-runs_from (suc count) previous rest, same)
            (sym (replicate_more count previous rest))
    ]

-- A test of every run.
abbrev pub AreShort : List (ℕ × ℕ) → Type 0
AreShort [] = Unit {0}
AreShort ((count, color) ∷ rest) = (0 < count) × (count < 256) × AreShort rest

AreShort-runs_from :
    (count previous : ℕ) (rest : List ℕ)
    → 0 < count
    → count < 256
    → AreShort (runs_from count previous rest)
AreShort-runs_from count previous [] h k = (h, k, tt)
AreShort-runs_from count previous (d ∷ rest) h k =
    elim (Bool-cases (not (d == previous) || (count == 255))) [
      | inl t ↦ rw t (h, k, AreShort-runs_from 1 d rest (omega arith) (omega arith))
      | inr f ↦
          let below : suc count < 256 = ground arith in
          rw f (AreShort-runs_from (suc count) previous rest (omega arith) below)
    ]

-- Bytes alone.
abbrev pub AreBytes : List ℕ → Type 0
AreBytes [] = Unit {0}
AreBytes (d ∷ rest) = (d < 256) × AreBytes rest

-- The runs as `decodeImage` gives them.
abbrev pub numbers : List (ℕ × ℕ) → List (Option ℕ × Option ℕ)
numbers [] = []
numbers ((count, color) ∷ rest) = (some count, some color) ∷ numbers rest

rects_of-hex_pair :
    (count color : ℕ) (text : Text)
    → count < 256
    → color < 256
    → rects_of (hex_pair count color ++ text) ≡ (some count, some color) ∷ rects_of text
rects_of-hex_pair count color text h k =
    let a = sym (to_padded_hex-two_digits count h) in
    let b = sym (to_padded_hex-two_digits color k) in
    rw (to_padded_hex-two_digits count h, to_padded_hex-two_digits color k)
      (cc (
        ap parse_int a ∙ parse_int-to_padded_hex count h,
        ap parse_int b ∙ parse_int-to_padded_hex color k,
      ))

rects_of-encode_from :
    (count previous : ℕ) (rest : List ℕ)
    → count < 256
    → previous < 256
    → AreBytes rest
    → rects_of (encode_from count previous rest).0 ≡ numbers (runs_from count previous rest)
unfolding encode_from
rects_of-encode_from count previous [] h k bytes =
    rw (to_padded_hex-two_digits count h, to_padded_hex-two_digits previous k)
      (rw (to_padded_hex-two_digits count h, to_padded_hex-two_digits previous k) at
        (rects_of-hex_pair count previous [] h k))
rects_of-encode_from count previous (d ∷ rest) h k (byte, bytes) =
    elim (Bool-cases (not (d == previous) || (count == 255))) [
      | inl t ↦
          let more = rects_of-encode_from 1 d rest (omega arith) byte bytes in
          rw t (rects_of-hex_pair count previous _ h k ∙ ap (◌∷◌ (some count, some previous)) more)
      | inr f ↦
          let below : suc count < 256 = ground arith in
          rw f (rects_of-encode_from (suc count) previous rest below k bytes)
    ]

-- What is pushed to `tuples` lacks the last run.
tuples-encode_from :
    (count previous : ℕ) (rest : List ℕ)
    → (last : ℕ × ℕ) × (runs_from count previous rest
        ≡ (encode_from count previous rest).1 ++ (last ∷ []))
unfolding encode_from
tuples-encode_from count previous [] = ((count, previous), refl)
tuples-encode_from count previous (d ∷ rest) =
    elim (Bool-cases (not (d == previous) || (count == 255))) [
      | inl t ↦
          let (last, same) = tuples-encode_from 1 d rest in
          (last, rw t (ap (◌∷◌ (count, previous)) same))
      | inr f ↦ let (last, same) = tuples-encode_from (suc count) previous rest in (last, rw f same)
    ]

-- Of the runs of an image that has a pixel, `tuples` gets all but the last.
pub tuples-encode :
    (d : ℕ) (rest : List ℕ)
    → (last : ℕ × ℕ) × (runs (d ∷ rest) ≡ (encode (d ∷ rest)).1 ++ (last ∷ []))
unfolding encode
tuples-encode d rest = tuples-encode_from 1 d rest

-- The encoding of bytes decodes to runs of 1 to 255 pixels that expand to the bytes.
pub rects_of-encode :
    (pixels : List ℕ)
    → AreBytes pixels
    → (rects_of (encode pixels).0 ≡ numbers (runs pixels))
      × (expand (runs pixels) ≡ pixels)
      × AreShort (runs pixels)
unfolding encode
rects_of-encode [] bytes = (refl, refl, tt)
rects_of-encode (d ∷ rest) (byte, bytes) = (
  rects_of-encode_from 1 d rest (omega arith) byte bytes,
  expand-runs_from 1 d rest,
  AreShort-runs_from 1 d rest (omega arith) (omega arith),
)

two_back : (c : ℕ) → c < 256 → parse_int (digit (c / 16) ∷ digit (c % 16) ∷ []) ≡ some c
two_back c h = ap parse_int (sym (to_padded_hex-two_digits c h)) ∙ parse_int-to_padded_hex c h

same_bounds :
    {t r b l t' r' b' l' : Option ℕ}
    → t ≡ t'
    → r ≡ r'
    → b ≡ b'
    → l ≡ l'
    → ◌≡◌ {A = DecodedBounds}
        (record { top = t; right = r; bottom = b; left = l })
        (record { top = t'; right = r'; bottom = b'; left = l' })
same_bounds p q r s = cc

-- The bytes that an encoded image is made of.
pub record IsEncodable (i : Image) (colors : Colors) : Type 0 where
  pub top : (calc_bounds i).top < 256
  pub right : (calc_bounds i).right < 256
  pub bottom : (calc_bounds i).bottom < 256
  pub left : (calc_bounds i).left < 256
  pub pixels : AreBytes (scan i (positions (calc_bounds i)) colors).0

-- An image whose bounds and color indexes are bytes, encoded by `toRLE`, decodes to palette 0,
-- its bounds, and runs that expand to the color indexes of its pixels inside the bounds.
pub decode_image-to_rle :
    (i : Image) (colors : Colors)
    → IsEncodable i colors
    → let decoded = decode_image (to_rle i colors).0 in
      let b = calc_bounds i in
      let pixels = (scan i (positions b) colors).0 in
      (decoded.palette_index ≡ some 0)
      × (decoded.bounds ≡ record {
        top = some b.top;
        right = some b.right;
        bottom = some b.bottom;
        left = some b.left;
      })
      × (decoded.rects ≡ numbers (runs pixels))
      × (expand (runs pixels) ≡ pixels)
unfolding decode_image to_rle
decode_image-to_rle i colors h =
    let b = calc_bounds i in
    let pixels = (scan i (positions b) colors).0 in
    let (text, back, short) = rects_of-encode pixels h.pixels in
    rw
      (
        to_padded_hex-two_digits 0 (omega arith),
        to_padded_hex-two_digits b.top h.top,
        to_padded_hex-two_digits b.right h.right,
        to_padded_hex-two_digits b.bottom h.bottom,
        to_padded_hex-two_digits b.left h.left,
      )
      (
        two_back 0 (omega arith),
        same_bounds (two_back b.top h.top) (two_back b.right h.right) (two_back b.bottom h.bottom)
            (two_back b.left h.left),
        text,
        back,
      )
