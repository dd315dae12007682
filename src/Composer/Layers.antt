-- ===== src/Composer/Layers.antt =====
-- What clicks, removals and drags do to the layers.
use mathlib.Core.List.{reverse, Perm}
use mathlib.Core.List.Perm
use composable_nouns_monorep.Common.{
  ℕ, zero, suc, ◌+◌, ◌-◌, ◌≤◌, ◌<◌, ◌≡◌, refl, ap, subst, ◌∙◌, sym, false, Option, none, some, List,
  [], ◌∷◌, ◌==◌, if◌then◌else◌, length, arith, Bool-cases, Option-cases, inl, inr,
}
use composable_nouns_monorep.Composables.Items.{ComposableItem}
use composable_nouns_monorep.Composer.{
  Layers, place, set_place, reorder, DropResult, reorder_reversed, on_drag_end_simple,
  on_remove_item_click, Part, on_item_click, get_top_composed_items_index, top_used, is_used,
  compose_parts, compose_from, NounParts, compose_layer,
}
use composable_nouns_monorep.Composer.Places.{
  length-reorder, reverse-perm, length-perm_reverse, reorder-perm, length-set_place,
  place-set_place, place-reverse,
}

-- A drag from one of the layers moves items only: none is lost, and none appears twice.
pub on_drag_end_simple-perm :
    (r : DropResult) (layers : Layers)
    → r.source < length layers
    → Perm (on_drag_end_simple r layers) layers
unfolding on_drag_end_simple
on_drag_end_simple-perm r layers h = elim (Option-cases r.destination) [
  | inr (d, e) ↦ rw e (moved d)
  | inl e ↦ rw e (elim (Option-cases r.combine) [
    | inr (c, f) ↦ rw f (moved c)
    | inl f ↦ rw f (Perm.refl layers)
  ])
]
  where
    moved : (d : ℕ) → Perm (reorder_reversed layers r.source d) layers
    moved d = Perm.trans (reverse-perm (reorder (reverse layers) r.source d)) (
        Perm.trans
          (reorder-perm (reverse layers) r.source d (omega (arith, h, length-perm_reverse layers)))
          (reverse-perm layers))

-- A click on the bin of the i-th row shown empties its layer, the i-th from the top, and no other.
pub on_remove_item_click_lem :
    (layers : Layers) (i j k : ℕ)
    → i + suc j ≡ length layers
    → k < length layers
    → place (on_remove_item_click i layers) k ≡ (if j == k then none else place layers k)
unfolding on_remove_item_click
on_remove_item_click_lem layers i j k h l =
    let m = length layers - 1 - k in
    let rows = length-perm_reverse layers in
    let kept = length-set_place i none (reverse layers) (omega (arith, h, rows)) in
    place-reverse (set_place i none (reverse layers)) k m (omega (arith, l, rows, kept))
    ∙ place-set_place i m none (reverse layers)
    ∙ ground (arith, h, place-reverse layers m k (omega (arith, l)))

length-compose_from :
    (p : NounParts) (layers : Layers) (n i : ℕ) → length (compose_from p layers n i) ≡ n
unfolding compose_from
length-compose_from p layers zero i = refl
length-compose_from p layers (suc n) i = ap suc (length-compose_from p layers n (i + 1))

place-compose_from :
    (p : NounParts) (layers : Layers) (n i j : ℕ)
    → j < n
    → place (compose_from p layers n i) j ≡ compose_layer p (i + j) (place layers (i + j))
unfolding compose_from
place-compose_from p layers zero i j h = absurd (omega arith)
place-compose_from p layers (suc n) i zero h = let e : i ≡ i + 0 = omega arith in rw (← e) refl
place-compose_from p layers (suc n) i (suc j) h =
    let e : i + 1 + j ≡ i + suc j = omega arith in
    rw (← e) (place-compose_from p layers n (i + 1) j (omega arith))

-- The first layer above the one found.
abbrev above : Option ℕ → ℕ
above none = 0
above (some t) = suc t

above-top_used {ℓ} : {A : Type ℓ} (xs : List (Option A)) (n : ℕ) → above (top_used xs n) ≤ n
above-top_used xs zero = omega arith
above-top_used xs (suc n) = elim (Bool-cases (is_used (place xs n))) [
  | inl u ↦ rw u (omega arith)
  | inr u ↦ rw u (omega (arith, above-top_used xs n))
]

unused {ℓ} : {A : Type ℓ} (x : Option A) → is_used x ≡ false → x ≡ none
unused none h = refl
unused (some a) h = absurd (cc h)

length-compose_parts : (p : NounParts) (layers : Layers) → length (compose_parts p layers) ≡ 16
unfolding compose_parts
length-compose_parts p layers = length-compose_from p layers 16 0

-- No layer above the one found is in use.
place-above {ℓ} :
    {A : Type ℓ} (xs : List (Option A)) (n j : ℕ)
    → above (top_used xs n) ≤ j
    → j < n
    → is_used (place xs j) ≡ false
place-above xs zero j = λ h l. absurd (omega (arith, l))
place-above xs (suc n) j = elim (Bool-cases (is_used (place xs n))) [
  | inl u ↦ rw u (λ h l. absurd (omega (arith, h, l)))
  | inr u ↦ rw u (λ h l. elim (Bool-cases (j == n)) [
    | inl e ↦ let same : j ≡ n = ground (arith, e) in rw same u
    | inr e ↦ place-above xs n j h (ground (arith, e, l))
  ])
]

compose_layer-empty :
    (p : NounParts) (i : ℕ) (x : Option ComposableItem)
    → is_used (compose_layer p i x) ≡ false
    → x ≡ none
compose_layer-empty p i none h = refl
compose_layer-empty p i (some x) h = absurd (cc h)

place-compose_parts :
    (p : NounParts) (layers : Layers) (j : ℕ)
    → j < 16
    → is_used (place (compose_parts p layers) j) ≡ false
    → place layers j ≡ none
unfolding compose_parts
place-compose_parts p layers j h u = compose_layer-empty p j (place layers j) (
    let e : 0 + j ≡ j = omega arith in
    ap is_used (sym (place-compose_from p layers 16 0 j h ∙ rw e refl)) ∙ u)

-- While the top layer is free, the layer of a click lies above all that are in use.
above-get_top :
    (composed : List (Option Part))
    → length composed ≡ 16
    → is_used (place composed 15) ≡ false
    → (get_top_composed_items_index composed ≤ 15)
      × (above (top_used composed 16) ≤ get_top_composed_items_index composed)
unfolding get_top_composed_items_index
above-get_top composed n free =
    let low : above (top_used composed 16) ≤ 15 = rw free (above-top_used composed 15) in
    rw (get_top_composed_items_index, n)
      (elim (Option-cases (top_used composed 16)) [
        | inl e ↦ rw e (omega arith)
        | inr (t, e) ↦
            let below : suc t ≤ 15 = subst (λ u. above u ≤ 15) e low in rw e (ground (arith, below))
      ])

-- While the top layer is free, a clicked item goes to a layer where there was none, and neither that
-- layer nor one above it had a part of the picture before, of an item or of the Noun itself.
pub on_item_click_lem :
    (p : NounParts) (layers : Layers) (x : ComposableItem)
    → is_used (place (compose_parts p layers) 15) ≡ false
    → let i = get_top_composed_items_index (compose_parts p layers) in
      (place (on_item_click x (compose_parts p layers) layers) i ≡ some x)
      × (place layers i ≡ none)
      × ((j : ℕ) → i ≤ j → j < 16 → place (compose_parts p layers) j ≡ none)
unfolding on_item_click
on_item_click_lem p layers x free =
    let composed = compose_parts p layers in
    let i = get_top_composed_items_index composed in
    let found = above-get_top composed (length-compose_parts p layers) free in
    let empty : (j : ℕ) → i ≤ j → j < 16 → is_used (place composed j) ≡ false =
      λ j h l. place-above composed 16 j (omega (arith, found.1, h)) l in
    (
      place-set_place i i (some x) layers ∙ ground arith,
      place-compose_parts p layers i (omega (arith, found.0))
          (empty i (omega arith) (omega (arith, found.0))),
      λ j h l. unused (place composed j) (empty j h l),
    )

-- What happens to the layers: a click on an item, with the parts of the Noun that is shown, a click
-- on a bin and a drop. An index is one of a row that is shown.
pub data Edit : Type 0 where
  click : NounParts → ComposableItem → Edit
  bin : (i : ℕ) → i < 16 → Edit
  drop_at : (r : DropResult) → r.source < 16 → Edit

abbrev pub edit : Edit → Layers → Layers
edit (click p x) layers = on_item_click x (compose_parts p layers) layers
edit (bin i h) layers = on_remove_item_click i layers
edit (drop_at r h) layers = on_drag_end_simple r layers

unfoldable pub edit_all : List Edit → Layers → Layers
edit_all [] layers = layers
edit_all (e ∷ es) layers = edit_all es (edit e layers)

get_top-bound :
    (composed : List (Option Part))
    → length composed ≡ 16
    → get_top_composed_items_index composed ≤ 15
unfolding get_top_composed_items_index
get_top-bound composed n =
    rw (get_top_composed_items_index, n)
      (elim (Option-cases (top_used composed 16)) [
        | inl e ↦ rw e (omega arith)
        | inr (t, e) ↦
            let below : suc t ≤ 16 = subst (λ u. above u ≤ 16) e (above-top_used composed 16) in
            rw e (ground (arith, below))
      ])

length-reorder_reversed :
    (layers : Layers) (i j : ℕ)
    → i < length layers
    → length (reorder_reversed layers i j) ≡ length layers
length-reorder_reversed layers i j h =
    let rows = length-perm_reverse layers in
    length-perm_reverse (reorder (reverse layers) i j)
    ∙ length-reorder (reverse layers) i j (omega (arith, h, rows))
    ∙ rows

length-edit : (e : Edit) (layers : Layers) → length layers ≡ 16 → length (edit e layers) ≡ 16
unfolding on_item_click on_remove_item_click on_drag_end_simple compose_parts
length-edit (click p x) layers h =
    let low = get_top-bound (compose_parts p layers) (length-compose_from p layers 16 0) in
    length-set_place _ (some x) layers (omega (arith, low, h)) ∙ h
length-edit (bin i l) layers h =
    let rows = length-perm_reverse layers in
    length-perm_reverse (set_place i none (reverse layers))
    ∙ length-set_place i none (reverse layers) (omega (arith, l, h, rows))
    ∙ rows
    ∙ h
length-edit (drop_at r l) layers h = elim (Option-cases r.destination) [
  | inr (d, e) ↦ rw e (length-reorder_reversed layers r.source d (omega (arith, h, l)) ∙ h)
  | inl e ↦ rw e (elim (Option-cases r.combine) [
    | inr (c, f) ↦ rw f (length-reorder_reversed layers r.source c (omega (arith, h, l)) ∙ h)
    | inl f ↦ rw f h
  ])
]

-- Whatever is clicked and dragged, there are 16 layers.
pub length-edit_all :
    (es : List Edit) (layers : Layers) → length layers ≡ 16 → length (edit_all es layers) ≡ 16
unfolding edit_all
length-edit_all [] layers h = h
length-edit_all (e ∷ es) layers h = length-edit_all es (edit e layers) (length-edit e layers h)
