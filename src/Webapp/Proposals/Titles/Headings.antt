-- ===== src/Webapp/Proposals/Titles/Headings.antt =====
-- Titles of descriptions that begin with a heading.
use composable_nouns_monorep.Common.{
  ℕ, zero, suc, ◌≤◌, ◌≡◌, refl, ap, ◌∙◌, true, false, ◌||◌, none, some, [], ◌∷◌, ◌++◌, ◌==◌,
  replicate, arith,
}
use composable_nouns_monorep.Sdk.Hex.{Text}
use composable_nouns_monorep.Webapp.Proposals.Titles.{
  Matcher, is_space, newline, or_else, some_spaces, hashes, line, after_line, nonempty,
  capture_line, extract_hash_title, is_underlined, capture_underlined, extract_equal_title,
  extract_title, remove_pairs, remove_markdown_style, title_of,
}

-- A text without line breaks.
abbrev pub IsLine : Text → Type 0
IsLine [] = Unit
IsLine (c ∷ cs) = ((c == newline) ≡ false) × IsLine cs

line-append : (t rest : Text) → IsLine t → line (t ++ newline ∷ rest) ≡ t
line-append [] rest h = refl
line-append (c ∷ cs) rest h = rw h.0 (ap (λ xs. c ∷ xs) (line-append cs rest h.1))

after_line-append : (t rest : Text) → IsLine t → after_line (t ++ newline ∷ rest) ≡ newline ∷ rest
after_line-append [] rest h = refl
after_line-append (c ∷ cs) rest h = rw h.0 (after_line-append cs rest h.1)

-- A run of #, no longer than what the pattern takes.
hashes-replicate :
    (m : Matcher) (n k : ℕ) (cs t : Text)
    → n ≤ k
    → m (32 ∷ cs) ≡ some t
    → hashes k m (replicate n b'#' ++ 32 ∷ cs) ≡ some t
hashes-replicate m zero zero cs t l h = h
hashes-replicate m zero (suc k) cs t l h = h
hashes-replicate m (suc n) zero cs t l h = absurd (omega arith)
hashes-replicate m (suc n) (suc k) cs t l h = rw (hashes-replicate m n k cs t (omega arith) h) refl

-- A title is shown without the pairs of * and _.
shown :
    (body t : Text)
    → extract_title (some body) ≡ some t
    → title_of (some body) ≡ remove_pairs b'*' (remove_pairs b'_' t)
unfolding title_of remove_markdown_style
shown body t h = rw (title_of, h) refl

hash_title-heading :
    (n c : ℕ) (t rest : Text)
    → n ≤ 5
    → is_space c ≡ false
    → IsLine (c ∷ t)
    → extract_hash_title (replicate (suc n) b'#' ++ (32 ∷ c ∷ (t ++ newline ∷ rest))) ≡ some (c ∷ t)
unfolding extract_hash_title
hash_title-heading n c t rest l s h =
    let body : Text = c ∷ t ++ newline ∷ rest in
    let one : capture_line body ≡ some (c ∷ t) = ap nonempty (line-append (c ∷ t) rest h) in
    let two : some_spaces capture_line (32 ∷ body) ≡ some (c ∷ t) = rw s one in
    hashes-replicate (some_spaces capture_line) n 5 body (c ∷ t) l two

-- The title of a heading of one to six #, without the pairs of * and _.
pub title_of-heading :
    (n c : ℕ) (t rest : Text)
    → n ≤ 5
    → is_space c ≡ false
    → IsLine (c ∷ t)
    → title_of (some (replicate (suc n) b'#' ++ (32 ∷ c ∷ (t ++ newline ∷ rest))))
      ≡ remove_pairs b'*' (remove_pairs b'_' (c ∷ t))
unfolding extract_title
title_of-heading n c t rest l s h =
    let body : Text = replicate (suc n) b'#' ++ (32 ∷ c ∷ (t ++ newline ∷ rest)) in
    shown body (c ∷ t)
      (ap (λ x. or_else x (extract_equal_title body)) (hash_title-heading n c t rest l s h))

no_hash_title :
    (c : ℕ) (cs : Text)
    → is_space c ≡ false
    → (c == b'#') ≡ false
    → extract_hash_title (c ∷ cs) ≡ none
unfolding extract_hash_title
no_hash_title c cs s k = rw (extract_hash_title, s, k) refl

equal_title-underlined :
    (d c : ℕ) (t rest : Text)
    → ((d == b'=') || (d == b'-')) ≡ true
    → is_space c ≡ false
    → IsLine (c ∷ t)
    → extract_equal_title (c ∷ t ++ newline ∷ d ∷ d ∷ d ∷ rest) ≡ some (c ∷ t)
unfolding extract_equal_title
equal_title-underlined d c t rest u s h =
    let ends = after_line-append (c ∷ t) (d ∷ d ∷ d ∷ rest) h in
    let starts = line-append (c ∷ t) (d ∷ d ∷ d ∷ rest) h in
    let under : is_underlined (newline ∷ d ∷ d ∷ d ∷ rest) ≡ true = ground (arith, u) in
    let found : capture_underlined (c ∷ t ++ newline ∷ d ∷ d ∷ d ∷ rest) ≡ some (c ∷ t) =
      rw (capture_underlined, ends, starts, under) refl in
    rw (extract_equal_title, s) found

-- The title of a line that is underlined by = or -, where the line does not begin with a #.
pub title_of-underlined :
    (d c : ℕ) (t rest : Text)
    → ((d == b'=') || (d == b'-')) ≡ true
    → is_space c ≡ false
    → (c == b'#') ≡ false
    → IsLine (c ∷ t)
    → title_of (some (c ∷ t ++ newline ∷ d ∷ d ∷ d ∷ rest))
      ≡ remove_pairs b'*' (remove_pairs b'_' (c ∷ t))
unfolding extract_title
title_of-underlined d c t rest u s k h = shown (c ∷ t ++ newline ∷ d ∷ d ∷ d ∷ rest) (c ∷ t) (
    ap (λ x. or_else x (extract_equal_title (c ∷ t ++ newline ∷ d ∷ d ∷ d ∷ rest)))
      (no_hash_title c (t ++ newline ∷ d ∷ d ∷ d ∷ rest) s k)
    ∙ equal_title-underlined d c t rest u s h)
