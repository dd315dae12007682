-- ===== src/Webapp/Proposals/Titles/Shown.antt =====
-- What a heading is shown as: the title without the marks of bold and italics.
use composable_nouns_monorep.Common.{
  ℕ, suc, ◌≤◌, ◌≡◌, refl, ap, ◌∙◌, true, false, some, [], ◌∷◌, ◌++◌, ◌==◌, replicate, arith, sym,
}
use composable_nouns_monorep.Sdk.Hex.{Text}
use composable_nouns_monorep.Webapp.Proposals.Details.{Lacks}
use composable_nouns_monorep.Webapp.Proposals.Titles.{
  is_space, newline, remove_pairs, title_of, unescape, is_quote, strip_last, strip_quotes,
  description_of,
}
use composable_nouns_monorep.Webapp.Proposals.Titles.Headings.{IsLine, title_of-heading}

-- How a part of a title is marked.
pub data Mark : Type 0 where
  plain bold underscored : Mark

abbrev pub mark_text : Mark → Text
mark_text plain = []
mark_text bold = b'*' ∷ b'*' ∷ []
mark_text underscored = b'_' ∷ b'_' ∷ []

-- A title of which the middle part is marked.
abbrev pub marked : Mark → Text → Text → Text → Text
marked m pre mid post = pre ++ (mark_text m ++ (mid ++ (mark_text m ++ post)))

remove_pairs-append :
    (d : ℕ) (t rest : Text) → Lacks d t → remove_pairs d (t ++ rest) ≡ t ++ remove_pairs d rest
remove_pairs-append d [] rest h = refl
remove_pairs-append d (a ∷ []) [] h = refl
remove_pairs-append d (a ∷ []) (b ∷ rest) h = rw h.0 refl
remove_pairs-append d (a ∷ b ∷ t) rest h =
    rw h.0 (ap (λ l. a ∷ l) (remove_pairs-append d (b ∷ t) rest h.1))

remove_pairs-all : (d : ℕ) (t : Text) → Lacks d t → remove_pairs d t ≡ t
remove_pairs-all d [] h = refl
remove_pairs-all d (a ∷ []) h = refl
remove_pairs-all d (a ∷ b ∷ t) h = rw h.0 (ap (λ l. a ∷ l) (remove_pairs-all d (b ∷ t) h.1))

-- The pairs of d around the middle part.
remove_pairs-pairs :
    (d : ℕ) (pre mid post : Text)
    → Lacks d pre
    → Lacks d mid
    → Lacks d post
    → remove_pairs d (pre ++ (d ∷ d ∷ (mid ++ (d ∷ d ∷ post)))) ≡ pre ++ (mid ++ post)
remove_pairs-pairs d pre mid post h k l =
    let own : (d == d) ≡ true = ground arith in
    remove_pairs-append d pre (d ∷ d ∷ (mid ++ (d ∷ d ∷ post))) h
    ∙ ap (λ t. pre ++ t)
        (rw own (
          remove_pairs-append d mid (d ∷ d ∷ post) k
          ∙ ap (λ t. mid ++ t) (rw own (remove_pairs-all d post l))))

Lacks-append : (d : ℕ) (t u : Text) → Lacks d t → Lacks d u → Lacks d (t ++ u)
Lacks-append d [] u h k = k
Lacks-append d (c ∷ t) u h k = (h.0, Lacks-append d t u h.1 k)

-- The parts have no marks of their own.
pub record IsUnmarked (pre mid post : Text) : Type 0 where
  pub stars : Lacks b'*' pre × Lacks b'*' mid × Lacks b'*' post
  pub underscores : Lacks b'_' pre × Lacks b'_' mid × Lacks b'_' post

parts :
    (d : ℕ) (pre mid post : Text)
    → Lacks d pre × Lacks d mid × Lacks d post
    → Lacks d (pre ++ (mid ++ post))
parts d pre mid post h = Lacks-append d pre (mid ++ post) h.0 (Lacks-append d mid post h.1 h.2)

without_marks :
    (m : Mark) (pre mid post : Text)
    → IsUnmarked pre mid post
    → remove_pairs b'*' (remove_pairs b'_' (marked m pre mid post)) ≡ pre ++ (mid ++ post)
without_marks plain pre mid post h =
    rw (remove_pairs-all b'_' (pre ++ (mid ++ post)) (parts b'_' pre mid post h.underscores))
      (remove_pairs-all b'*' (pre ++ (mid ++ post)) (parts b'*' pre mid post h.stars))
without_marks bold pre mid post h =
    let (a, b, c) = h.underscores in
    let all =
      Lacks-append b'_' pre (b'*' ∷ b'*' ∷ (mid ++ (b'*' ∷ b'*' ∷ post))) a
        (refl, (refl, Lacks-append b'_' mid (b'*' ∷ b'*' ∷ post) b (refl, (refl, c)))) in
    rw (remove_pairs-all b'_' (pre ++ (b'*' ∷ b'*' ∷ (mid ++ (b'*' ∷ b'*' ∷ post)))) all)
      (remove_pairs-pairs b'*' pre mid post h.stars.0 h.stars.1 h.stars.2)
without_marks underscored pre mid post h =
    ap (remove_pairs b'*')
      (remove_pairs-pairs b'_' pre mid post h.underscores.0 h.underscores.1 h.underscores.2)
    ∙ remove_pairs-all b'*' (pre ++ (mid ++ post)) (parts b'*' pre mid post h.stars)

-- A heading of one to six #, then one space, then a title that does not begin with a space and ends
-- with the line, is shown without the pairs of * or of _ around its middle part; the parts have
-- neither character.
pub title_of-marked :
    (n c : ℕ) (m : Mark) (pre mid post t rest : Text)
    → n ≤ 5
    → marked m pre mid post ≡ c ∷ t
    → is_space c ≡ false
    → IsLine (c ∷ t)
    → IsUnmarked pre mid post
    → title_of (some (replicate (suc n) b'#' ++ (32 ∷ (marked m pre mid post ++ newline ∷ rest))))
      ≡ pre ++ (mid ++ post)
title_of-marked n c m pre mid post t rest l e s h u =
    rw e (title_of-heading n c t rest l s h)
    ∙ ap (λ t. remove_pairs b'*' (remove_pairs b'_' t)) (sym e)
    ∙ without_marks m pre mid post u

unescape-append : (t rest : Text) → Lacks 92 t → unescape (t ++ rest) ≡ t ++ unescape rest
unescape-append [] rest h = refl
unescape-append (a ∷ []) [] h = refl
unescape-append (a ∷ []) (b ∷ rest) h = rw h.0 refl
unescape-append (a ∷ b ∷ t) rest h = rw h.0 (ap (λ l. a ∷ l) (unescape-append (b ∷ t) rest h.1))

-- A quote at the end of a text is not among what comes up to another character.
strip_last-append :
    (t : Text) (c : ℕ) (rest : Text)
    → is_quote c ≡ false
    → (kept : Text) × (strip_last (t ++ (c ∷ rest)) ≡ t ++ (c ∷ kept))
strip_last-append [] c [] q = ([], rw q refl)
strip_last-append [] c (d ∷ rest) q = (strip_last (d ∷ rest), refl)
strip_last-append (a ∷ []) c rest q =
    let (kept, e) = strip_last-append [] c rest q in (kept, ap (λ l. a ∷ l) e)
strip_last-append (a ∷ b ∷ t) c rest q =
    let (kept, e) = strip_last-append (b ∷ t) c rest q in (kept, ap (λ l. a ∷ l) e)

-- The same title, in a description that the application reads: it has no backslash, and an empty line
-- and a text come after it.
pub title_of-description_of :
    (c : ℕ) (m : Mark) (pre mid post t body : Text)
    → marked m pre mid post ≡ c ∷ t
    → is_space c ≡ false
    → IsLine (c ∷ t)
    → Lacks 92 (c ∷ t)
    → IsUnmarked pre mid post
    → title_of (description_of (some (b'#' ∷ 32 ∷ (c ∷ t) ++ newline ∷ newline ∷ body)))
      ≡ pre ++ (mid ++ post)
unfolding description_of
title_of-description_of c m pre mid post t body e s l b u =
    let read = unescape-append (b'#' ∷ 32 ∷ c ∷ t) (newline ∷ newline ∷ body) (refl, (refl, b)) in
    let (kept, k) = strip_last-append (32 ∷ c ∷ t) newline (unescape (newline ∷ body)) refl in
    let stripped = ap (λ l. b'#' ∷ l) k in
    ap (λ x. title_of (some x)) (ap strip_quotes read ∙ stripped)
    ∙ ap (λ x. title_of (some (b'#' ∷ 32 ∷ (x ++ newline ∷ kept)))) (sym e)
    ∙ title_of-marked 0 c m pre mid post t kept (omega arith) e s l u
