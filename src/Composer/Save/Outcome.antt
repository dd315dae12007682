-- ===== src/Composer/Save/Outcome.antt =====
-- Where the children of a Noun are after the transaction of the modal.
use composable_nouns_monorep.Common.{
  ℕ, zero, suc, ◌+◌, ◌≤◌, ◌≡◌, refl, ap, ◌∙◌, Bool, true, false, ◌||◌, Option, none, some, List, [],
  ◌∷◌, ◌==◌, if◌then◌else◌, get_elem?, map, filter, arith, Bool-cases, Option-cases, inl, inr,
}
use composable_nouns_monorep.Composables.{TokenItem}
use composable_nouns_monorep.Composables.Items.{ComposableItem}
use composable_nouns_monorep.Composer.{Part, Layers, item_of, place, has_token}
use composable_nouns_monorep.Composer.Save.{is_token, draft, empty_draft, draft_items}
use composable_nouns_monorep.Composer.Save.Composition.{
  ChildToken, no_child, child_eq, is_child, Composition, compose_child, compose_child_batch,
  IsConsistent,
}
use composable_nouns_monorep.Composer.Save.Moves.{
  child_eq-eq, child_eq_refl, child_eq-sym, position-child_at, child_at-compose_child,
  compose_child-IsConsistent,
}
use composable_nouns_monorep.Composer.Save.Batch.{
  token_of, child_of, move_item, move_all, batch-draft_items, batch-draft_removals,
}

-- Whether one of the layers has a child.
abbrev pub is_at : Option ComposableItem → ChildToken → Bool
is_at none c = false
is_at (some x) c = child_eq (token_of x) c

abbrev pub is_composed : Layers → ChildToken → Bool
is_composed [] c = false
is_composed (x ∷ xs) c = is_at x c || is_composed xs c

-- Items of real collections, each on one layer.
abbrev pub IsFresh : Option ComposableItem → Layers → Type 0
IsFresh none xs = Unit
IsFresh (some x) xs = (is_child (token_of x) ≡ true) × (is_composed xs (token_of x) ≡ false)

abbrev pub AreDistinct : Layers → Type 0
AreDistinct [] = Unit
AreDistinct (x ∷ xs) = IsFresh x xs × AreDistinct xs

-- The item of position q among the layers, the first of which is the i-th.
abbrev wanted : Layers → ℕ → ℕ → Option ComposableItem
wanted [] i q = none
wanted (x ∷ xs) i q = if q == i + 1 then x else wanted xs (i + 1) q

-- Where a layer has an item, its position gets that; where it has none, a child that is composed
-- somewhere leaves, and another one stays.
abbrev settle : Option ComposableItem → Bool → ChildToken → ChildToken
settle none moves c = if moves then no_child else c
settle (some x) moves c = token_of x

-- The items that the modal takes for unmoved are where it takes them to be.
abbrev IsKept : List TokenItem → ℕ → Option ComposableItem → Composition → Type 0
IsKept previous i none s = Unit
IsKept previous i (some x) s =
    is_token (get_elem? previous i) x ≡ true → s.child_at (i + 1) ≡ token_of x

abbrev AreKept : List TokenItem → ℕ → Layers → Composition → Type 0
AreKept previous i [] s = Unit
AreKept previous i (x ∷ xs) s = IsKept previous i x s × AreKept previous (i + 1) xs s

-- A move to a lower position disturbs none of them.
AreKept-compose_child :
    (previous : List TokenItem) (c : ChildToken) (p i : ℕ) (xs : Layers) (s : Composition)
    → IsConsistent s
    → is_child c ≡ true
    → (p == 0) ≡ false
    → p ≤ i
    → is_composed xs c ≡ false
    → AreKept previous i xs s
    → AreKept previous i xs (compose_child c p s)
AreKept-compose_child previous c p i [] s S h z l f k = tt
AreKept-compose_child previous c p i (none ∷ xs) s S h z l f k =
    (tt, AreKept-compose_child previous c p (i + 1) xs s S h z (omega (arith, l)) f k.1)
AreKept-compose_child previous c p i (some x ∷ xs) s S h z l f k = (
  λ t.
      let at = k.0 t in
      let here : (i + 1 == p) ≡ false = ground (arith, l) in
      let other : child_eq c (token_of x) ≡ false =
        child_eq-sym c (token_of x) ∙ ground (arith, f) in
      child_at-compose_child s S c p (i + 1) h z ∙ rw (here, at, other) refl,
  AreKept-compose_child previous c p (i + 1) xs s S h z (omega (arith, l)) (ground (arith, f)) k.1,
)

wanted-below : (xs : Layers) (i q : ℕ) → q ≤ i → wanted xs i q ≡ none
wanted-below [] i q h = refl
wanted-below (x ∷ xs) i q h =
    let other : (q == i + 1) ≡ false = ground arith in
    rw other (wanted-below xs (i + 1) q (omega arith))

settle-left :
    (w : Option ComposableItem) (b : Bool) (c : ChildToken) → settle w b no_child ≡ settle w true c
settle-left none true c = refl
settle-left none false c = refl
settle-left (some x) b c = refl

-- One layer with an item, for what the layers above it do.
module _ (previous : List TokenItem) (i : ℕ) (x : ComposableItem) (xs : Layers) (s : Composition)
    (q : ℕ) (S : IsConsistent s) (d : IsFresh (some x) xs) where
  abbrev Settled : Composition → Layers → ℕ → Type 0
  Settled s' ys j =
      (move_all previous (i + 1) xs s').child_at q
      ≡ settle (wanted ys j q) (is_composed ys (s.child_at q)) (s.child_at q)

  elsewhere :
      s.child_at (i + 1) ≡ token_of x
      → (q == i + 1) ≡ false
      → child_eq (token_of x) (s.child_at q) ≡ false
  elsewhere at e = elim (Bool-cases (child_eq (token_of x) (s.child_at q))) [
    | inr f ↦ f
    | inl f ↦
        let one = position-child_at s S (token_of x) q d.0 f in
        let two =
          position-child_at s S (token_of x) (i + 1) d.0
            (ap (child_eq (token_of x)) at ∙ child_eq_refl (token_of x)) in
        absurd (ground (arith, one, two, e))
  ]

  unmoved : s.child_at (i + 1) ≡ token_of x → Settled s xs (i + 1) → Settled s (some x ∷ xs) i
  unmoved at rest = elim (Bool-cases (q == i + 1)) [
    | inl e ↦
        let here : s.child_at q ≡ token_of x = ap s.child_at (ground (arith, e)) ∙ at in
        rw e (rest ∙ rw (wanted-below xs (i + 1) q (ground (arith, e)), here, d.1) refl)
    | inr e ↦ rw (e, elsewhere at e) rest
  ]

  moved :
      (move_all previous (i + 1) xs (compose_child (token_of x) (i + 1) s)).child_at q
        ≡ settle
            (wanted xs (i + 1) q)
            (is_composed xs ((compose_child (token_of x) (i + 1) s).child_at q))
            ((compose_child (token_of x) (i + 1) s).child_at q)
      → Settled (compose_child (token_of x) (i + 1) s) (some x ∷ xs) i
  moved rest =
      let at = child_at-compose_child s S (token_of x) (i + 1) q d.0 (ground arith) in
      elim (Bool-cases (q == i + 1)) [
        | inl e ↦ rw e (rest ∙ rw (at, e, wanted-below xs (i + 1) q (ground (arith, e)), d.1) refl)
        | inr e ↦ elim (Bool-cases (child_eq (token_of x) (s.child_at q))) [
          | inl f ↦
              rw (e, f)
                (rest
                  ∙ rw (at, e, f)
                      (settle-left (wanted xs (i + 1) q) (is_composed xs no_child) (s.child_at q)))
          | inr f ↦ rw (e, f) (rest ∙ rw (at, e, f) refl)
        ]
      ]

child_at-move_all :
    (previous : List TokenItem) (i : ℕ) (xs : Layers) (s : Composition) (q : ℕ)
    → IsConsistent s
    → AreDistinct xs
    → AreKept previous i xs s
    → (q == 0) ≡ false
    → (move_all previous i xs s).child_at q
      ≡ settle (wanted xs i q) (is_composed xs (s.child_at q)) (s.child_at q)
child_at-move_all previous i [] s q S d k z = refl
child_at-move_all previous i (none ∷ xs) s q S d k z =
    let rest = child_at-move_all previous (i + 1) xs s q S d.1 k.1 z in
    elim (Bool-cases (q == i + 1)) [
      | inl e ↦ rw e (rest ∙ rw (wanted-below xs (i + 1) q (ground (arith, e))) refl)
      | inr e ↦ rw e rest
    ]
child_at-move_all previous i (some x ∷ xs) s q S d k z =
    let real : (i + 1 == 0) ≡ false = ground arith in
    let kept =
      AreKept-compose_child previous (token_of x) (i + 1) (i + 1) xs s S d.0.0 real (omega arith)
        d.0.1 k.1 in
    elim (Bool-cases (is_token (get_elem? previous i) x)) [
      | inl t ↦
          rw (move_all, move_item, t)
            (unmoved previous i x xs s q S d.0 (k.0 t)
              (child_at-move_all previous (i + 1) xs s q S d.1 k.1 z))
      | inr t ↦
          rw (move_all, move_item, t)
            (moved previous i x xs s q S d.0 (
              child_at-move_all previous (i + 1) xs (compose_child (token_of x) (i + 1) s) q
                (compose_child-IsConsistent s S (token_of x) (i + 1) d.0.0 real) d.1 kept z))
    ]

-- The tokens that the page had read for the layers are those of the contract.
abbrev pub IsShown : List TokenItem → Composition → Type 0
IsShown previous s =
    (i : ℕ) (t : TokenItem) → get_elem? previous i ≡ some t → s.child_at (i + 1) ≡ child_of t

is_token-eq :
    (t : TokenItem) (x : ComposableItem) → is_token (some t) x ≡ true → child_of t ≡ token_of x
is_token-eq t x h = child_eq-eq (child_of t) (token_of x) h

IsShown-AreKept :
    (previous : List TokenItem) (s : Composition) (i : ℕ) (xs : Layers)
    → IsShown previous s
    → AreKept previous i xs s
IsShown-AreKept previous s i [] h = tt
IsShown-AreKept previous s i (none ∷ xs) h = (tt, IsShown-AreKept previous s (i + 1) xs h)
IsShown-AreKept previous s i (some x ∷ xs) h = (
  elim (Option-cases (get_elem? previous i)) [
    | inl e ↦ rw e (λ t. absurd (cc t))
    | inr (t, e) ↦ rw e (λ f. h i t e ∙ is_token-eq t x f)
  ],
  IsShown-AreKept previous s (i + 1) xs h,
)

wanted-place : (xs : Layers) (j i q : ℕ) → q ≡ j + suc i → wanted xs j q ≡ place xs i
wanted-place [] j i q h = refl
wanted-place (x ∷ xs) j zero q h = let here : (q == j + 1) ≡ true = ground arith in rw here refl
wanted-place (x ∷ xs) j (suc i) q h =
    let other : (q == j + 1) ≡ false = ground arith in
    rw other (wanted-place xs (j + 1) i q (omega arith))

module _ (children previous : List TokenItem) (collection_items : List ComposableItem)
    (composed : List (Option Part)) (s : Composition) (S : IsConsistent s) (h : IsShown previous s)
    (d : AreDistinct (map item_of composed)) where
  abbrev pub saved : Composition
  saved =
      compose_child_batch (draft children previous collection_items composed).token_position_params
        s

  child_at-saved :
      (i : ℕ)
      → saved.child_at (i + 1)
        ≡ settle
            (place (map item_of composed) i)
            (is_composed (map item_of composed) (s.child_at (i + 1)))
            (s.child_at (i + 1))
  unfolding draft compose_child_batch
  child_at-saved i =
      let real : (i + 1 == 0) ≡ false = ground arith in
      batch-draft_removals composed
        (filter (λ x. has_token previous x.token_address x.token_id) collection_items)
        (draft_items children previous 0 composed empty_draft) (i + 1) s real
      ∙ ap (λ s. s.child_at (i + 1)) (batch-draft_items children previous 0 composed empty_draft s)
      ∙ child_at-move_all previous 0 (map item_of composed) s (i + 1) S d
          (IsShown-AreKept previous s 0 (map item_of composed) h) real
      ∙ rw (wanted-place (map item_of composed) 0 i (i + 1) (omega arith)) refl

  -- After the transaction of the modal, each composed item is at the position of its layer, the
  -- layers of the page read from the contract and each item composed once.
  pub draft-composes :
      (i : ℕ) (x : ComposableItem)
      → place (map item_of composed) i ≡ some x
      → saved.child_at (i + 1) ≡ token_of x
  draft-composes i x e = child_at-saved i ∙ rw e refl

  -- A child on a layer without an item, which is on no other layer, stays where it was, although the
  -- modal asks for its removal.
  pub draft-keeps :
      (i : ℕ)
      → place (map item_of composed) i ≡ none
      → is_composed (map item_of composed) (s.child_at (i + 1)) ≡ false
      → saved.child_at (i + 1) ≡ s.child_at (i + 1)
  draft-keeps i e f = child_at-saved i ∙ rw (e, f) refl
