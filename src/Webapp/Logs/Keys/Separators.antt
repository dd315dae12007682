-- ===== src/Webapp/Logs/Keys/Separators.antt =====
-- Texts that a separator joins, and that it splits again.
use composable_nouns_monorep.Common.{
  ℕ, ◌≡◌, refl, ap, ◌∙◌, true, false, List, [], ◌∷◌, ◌++◌, ◌==◌, arith,
}
use composable_nouns_monorep.Sdk.Hex.{Text}
use composable_nouns_monorep.Webapp.Proposals.Details.{split, Lacks}
use composable_nouns_monorep.Webapp.Logs.Keys.{join}

abbrev pub AllLack : ℕ → List Text → Type 0
AllLack d [] = Unit
AllLack d (t ∷ ts) = Lacks d t × AllLack d ts

pub split-append : (d : ℕ) (t rest : Text) → Lacks d t → split d (t ++ d ∷ rest) ≡ t ∷ split d rest
split-append d [] rest h = let same : (d == d) ≡ true = ground arith in rw same refl
split-append d (c ∷ t) rest h = rw (h.0, split-append d t rest h.1) refl

pub split-all : (d : ℕ) (t : Text) → Lacks d t → split d t ≡ t ∷ []
split-all d [] h = refl
split-all d (c ∷ t) h = rw (h.0, split-all d t h.1) refl

pub split-join :
    (d : ℕ) (t : Text) (ts : List Text) → AllLack d (t ∷ ts) → split d (join d (t ∷ ts)) ≡ t ∷ ts
split-join d t [] h = split-all d t h.0
split-join d t (u ∷ ts) h =
    split-append d t (join d (u ∷ ts)) h.0 ∙ ap (λ l. t ∷ l) (split-join d u ts h.1)

pub Lacks-append : (d : ℕ) (t u : Text) → Lacks d t → Lacks d u → Lacks d (t ++ u)
Lacks-append d [] u h k = k
Lacks-append d (c ∷ t) u h k = (h.0, Lacks-append d t u h.1 k)

pub Lacks-join : (d e : ℕ) (ts : List Text) → (d == e) ≡ false → AllLack e ts → Lacks e (join d ts)
Lacks-join d e [] n h = tt
Lacks-join d e (t ∷ []) n h = h.0
Lacks-join d e (t ∷ u ∷ ts) n h =
    Lacks-append e t (d ∷ join d (u ∷ ts)) h.0 (n, Lacks-join d e (u ∷ ts) n h.1)
