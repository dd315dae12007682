-- ===== src/Composer/Tests.antt =====
-- The theorems on the layers of a Noun at concrete layers.
use mathlib.Core.List.{Perm}
use composable_nouns_monorep.Common.{
  ℕ, zero, suc, ◌<◌, ◌≤◌, ◌≡◌, refl, ap, sym, true, false, Option, none, some, List, [], ◌∷◌, ◌==◌,
  if◌then◌else◌, String, pos, arith, Bool-cases, inl, inr, none_some, some_path,
}
use composable_nouns_monorep.Composables.{TokenItem}
use composable_nouns_monorep.Composables.Items.{ComposableItem}
use composable_nouns_monorep.Composer.{
  compose_from, Layers, initial_layers, DropResult, on_drag_end_simple, EncodedImage, NounParts,
  Part, item, compose_parts, get_top_composed_items_index, on_item_click, place, set_place,
}
use composable_nouns_monorep.Composer.Layers.{on_drag_end_simple-perm, on_item_click_lem}
use composable_nouns_monorep.Composer.Save.Composition.{
  ChildToken, no_child, child_eq, is_child, Composition, IsConsistent,
}
use composable_nouns_monorep.Composer.Save.Moves.{child_eq-eq}
use composable_nouns_monorep.Composer.Save.Batch.{token_of, child_of}
use composable_nouns_monorep.Composer.Save.Outcome.{saved, IsShown, draft-composes}

abbrev an_item : String → ComposableItem
an_item address = record {
  collection = "Hats";
  meta = record { name = "Hat"; category = "Head"; creator = "Me" };
  image = record { filename = "hat"; image_data = "0x00"; palette = [] };
  token_address = address;
  token_id = 3;
}

abbrev hat : ComposableItem
hat = an_item "0x1"

abbrev scarf : ComposableItem
scarf = an_item "0x2"

abbrev some_layers : Layers
some_layers = set_place 2 (some hat) initial_layers

abbrev a_drop : DropResult
a_drop = record { source = 13; combine = none; destination = some 0 }

on_drag_end_simple-perm_example : Perm (on_drag_end_simple a_drop some_layers) some_layers
on_drag_end_simple-perm_example = on_drag_end_simple-perm a_drop some_layers (omega arith)

abbrev a_trait : EncodedImage
a_trait = record { filename = "body"; image_data = "0x00" }

abbrev parts : NounParts
parts = record { body = a_trait; accessory = a_trait; head = a_trait; glasses = a_trait }

on_item_click_example :
    let i = get_top_composed_items_index (compose_parts parts some_layers) in
    (place (on_item_click scarf (compose_parts parts some_layers) some_layers) i ≡ some scarf)
    × (place some_layers i ≡ none)
    × ((j : ℕ) → i ≤ j → j < 16 → place (compose_parts parts some_layers) j ≡ none)
unfolding compose_parts compose_from
on_item_click_example = on_item_click_lem parts some_layers scarf refl

-- The hat is at the first position, and the scarf is put on the second layer.
abbrev tokens : List TokenItem
tokens = record { token_address = "0x1"; token_id = 3; balance = pos 1 } ∷ []

abbrev composed : List (Option Part)
composed = none ∷ some (item scarf) ∷ []

abbrev with_hat : Composition
with_hat = record {
  child_at = λ q. if q == 1 then token_of hat else no_child;
  position_of = λ c. if child_eq c (token_of hat) then 1 else 0;
}

with_hat-IsConsistent : IsConsistent with_hat
with_hat-IsConsistent = record { placed = placed'; found = found'; bare = refl }
  where
    placed' :
        (q : ℕ)
        → is_child (with_hat.child_at q) ≡ true
        → with_hat.position_of (with_hat.child_at q) ≡ q
    placed' q = elim (Bool-cases (q == 1)) [
      | inl e ↦ rw e (λ h. ground (arith, e))
      | inr e ↦ rw e (λ h. absurd (cc h))
    ]

    found' :
        (c : ChildToken)
        → is_child c ≡ true
        → (with_hat.position_of c == 0) ≡ false
        → with_hat.child_at (with_hat.position_of c) ≡ c
    found' c l = elim (Bool-cases (child_eq c (token_of hat))) [
      | inl e ↦ rw e (λ h. sym (child_eq-eq c (token_of hat) e))
      | inr e ↦ rw e (λ h. absurd (cc h))
    ]

tokens-IsShown : IsShown tokens with_hat
tokens-IsShown zero t e = ap child_of (some_path e)
tokens-IsShown (suc i) t e = absurd (none_some e)

draft-composes_example :
    (saved tokens tokens
        (hat ∷ scarf ∷ [])
        composed
        with_hat
        with_hat-IsConsistent
        tokens-IsShown
        (tt, ((refl, refl), tt))).child_at
      2
    ≡ token_of scarf
draft-composes_example =
    draft-composes tokens tokens (hat ∷ scarf ∷ []) composed with_hat with_hat-IsConsistent
      tokens-IsShown (tt, ((refl, refl), tt)) 1 scarf refl
