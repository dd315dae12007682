-- ===== src/Composer/Save/Batch.antt =====
-- The position parameters of the transaction as moves, layer by layer.
use composable_nouns_monorep.Common.{
  ℕ, ◌+◌, ◌≡◌, refl, ap, ◌∙◌, false, Option, none, some, List, [], ◌∷◌, ◌++◌, ◌==◌, if◌then◌else◌,
  get_elem?, map, Bool-cases, inl, inr,
}
use composable_nouns_monorep.Composables.{TokenItem}
use composable_nouns_monorep.Composables.Items.{ComposableItem}
use composable_nouns_monorep.Composer.{Part, Layers, item_of, has_token}
use composable_nouns_monorep.Composer.Save.{
  PositionParams, Draft, is_token, add_item, draft_items, draft_removals, has_item,
}
use composable_nouns_monorep.Composer.Save.Composition.{
  ChildToken, Composition, remove_composed_child, compose_child, compose_child_batch,
}

abbrev pub token_of : ComposableItem → ChildToken
token_of x = record { token_address = x.token_address; token_id = x.token_id }

abbrev pub child_of : TokenItem → ChildToken
child_of t = record { token_address = t.token_address; token_id = t.token_id }

-- A layer's move.
abbrev pub move_item : List TokenItem → ℕ → Option ComposableItem → Composition → Composition
move_item previous i none s = s
move_item previous i (some x) s =
    if is_token (get_elem? previous i) x then s else compose_child (token_of x) (i + 1) s

abbrev pub move_all : List TokenItem → ℕ → Layers → Composition → Composition
move_all previous i [] s = s
move_all previous i (x ∷ xs) s = move_all previous (i + 1) xs (move_item previous i x s)

batch-append :
    (xs ys : List PositionParams) (s : Composition)
    → compose_child_batch (xs ++ ys) s ≡ compose_child_batch ys (compose_child_batch xs s)
unfolding compose_child_batch
batch-append [] ys s = refl
batch-append (x ∷ xs) ys s = batch-append xs ys _

abbrev params_of : ComposableItem → ℕ → PositionParams
params_of x p = record { token_address = x.token_address; token_id = x.token_id; position1 = p }

-- The moves into the Noun leave the positions alone.
params-add_item :
    (children previous : List TokenItem) (i : ℕ) (x : ComposableItem) (d : Draft)
    → (add_item children previous i (some x) d).token_position_params ≡ (
        if is_token (get_elem? previous i) x
        then d.token_position_params
        else d.token_position_params ++ params_of x (i + 1) ∷ [])
params-add_item children previous i x d = elim (Bool-cases (is_token (get_elem? previous i) x)) [
  | inl k ↦ elim (Bool-cases (has_token children x.token_address x.token_id)) [
    | inl h ↦ rw (k, h) refl
    | inr h ↦ rw (k, h) refl
  ]
  | inr k ↦ elim (Bool-cases (has_token children x.token_address x.token_id)) [
    | inl h ↦ rw (k, h) refl
    | inr h ↦ rw (k, h) refl
  ]
]

batch-add_item :
    (children previous : List TokenItem) (i : ℕ) (x : Option ComposableItem) (d : Draft)
    (s : Composition)
    → compose_child_batch (add_item children previous i x d).token_position_params s
      ≡ move_item previous i x (compose_child_batch d.token_position_params s)
unfolding compose_child_batch
batch-add_item children previous i none d s = refl
batch-add_item children previous i (some x) d s =
    rw (params-add_item children previous i x d)
      (elim (Bool-cases (is_token (get_elem? previous i) x)) [
        | inl k ↦ rw k refl
        | inr k ↦ rw k (batch-append d.token_position_params (params_of x (i + 1) ∷ []) s)
      ])

pub batch-draft_items :
    (children previous : List TokenItem) (i : ℕ) (xs : List (Option Part)) (d : Draft)
    (s : Composition)
    → compose_child_batch (draft_items children previous i xs d).token_position_params s
      ≡ move_all previous i (map item_of xs) (compose_child_batch d.token_position_params s)
unfolding draft_items
batch-draft_items children previous i [] d s = refl
batch-draft_items children previous i (x ∷ xs) d s =
    batch-draft_items children previous (i + 1) xs (add_item children previous i (item_of x) d) s
    ∙ ap (move_all previous (i + 1) (map item_of xs))
        (batch-add_item children previous i (item_of x) d s)

-- A removal asks for position 0, where there is no child: every other position stays as it is.
remove-position :
    (c : ChildToken) (q : ℕ) (s : Composition)
    → (q == 0) ≡ false
    → (compose_child c 0 s).child_at q ≡ s.child_at q
unfolding compose_child remove_composed_child
remove-position c q s h = rw h refl

pub batch-draft_removals :
    (composed : List (Option Part)) (cs : List ComposableItem) (d : Draft) (q : ℕ) (s : Composition)
    → (q == 0) ≡ false
    → (compose_child_batch (draft_removals composed cs d).token_position_params s).child_at q
      ≡ (compose_child_batch d.token_position_params s).child_at q
unfolding draft_removals compose_child_batch
batch-draft_removals composed [] d q s h = refl
batch-draft_removals composed (c ∷ cs) d q s h = elim (Bool-cases (has_item composed c)) [
  | inl e ↦ rw (e, draft_removals) (batch-draft_removals composed cs d q s h)
  | inr e ↦
      rw (e, draft_removals)
        (batch-draft_removals composed cs _ q s h
          ∙ ap (λ s. s.child_at q) (batch-append d.token_position_params (params_of c 0 ∷ []) s)
          ∙ remove-position (token_of c) q (compose_child_batch d.token_position_params s) h)
]
