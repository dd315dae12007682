-- ===== src/Composer.antt =====
-- packages/nouns-webapp/src/pages/Composer/index.tsx: the layers of items that a Noun is composed
-- of. The page shows the layers in reverse order, the top one first.
pub mod Places
pub mod Layers
pub mod Save
mod Tests
use mathlib.Core.List.{reverse}
use composable_nouns_monorep.Common.{
  ℕ, zero, suc, ◌+◌, ◌-◌, ◌≡◌, Bool, true, false, not, ◌&&◌, ◌||◌, Option, none, some, List, [],
  ◌∷◌, ◌++◌, ◌==◌, ltb, if◌then◌else◌, String, str_eq, get_elem?, length, replicate,
}
use composable_nouns_monorep.Composables.{TokenItem}
use composable_nouns_monorep.Composables.Items.{ComposableItem}
use composable_nouns_monorep.Subgraph.Store.{zero_address}

-- An array with empty places.
abbrev pub Layers : Type 0
Layers = List (Option ComposableItem)

-- `stateItems.length = 16` on the empty array.
abbrev pub initial_layers : Layers
initial_layers = replicate 16 none

-- A place of an array; undefined out of range.
abbrev pub place {ℓ} : {A : Type ℓ} → List (Option A) → ℕ → Option A
place [] i = none
place (x ∷ xs) zero = x
place (x ∷ xs) (suc i) = place xs i

-- `array[i] = value`, which makes the array longer where it has to.
abbrev pub set_place {ℓ} : {A : Type ℓ} → ℕ → Option A → List (Option A) → List (Option A)
set_place zero v [] = v ∷ []
set_place zero v (x ∷ xs) = v ∷ xs
set_place (suc i) v [] = none ∷ set_place i v []
set_place (suc i) v (x ∷ xs) = x ∷ set_place i v xs

-- `splice(i, 1)` and `splice(i, 0, value)`.
abbrev pub splice_out {ℓ} : {A : Type ℓ} → ℕ → List A → List A
splice_out i [] = []
splice_out zero (x ∷ xs) = xs
splice_out (suc i) (x ∷ xs) = x ∷ splice_out i xs

abbrev pub splice_in {ℓ} : {A : Type ℓ} → ℕ → A → List A → List A
splice_in zero v xs = v ∷ xs
splice_in (suc i) v [] = v ∷ []
splice_in (suc i) v (x ∷ xs) = x ∷ splice_in i v xs

unfoldable pub reorder {ℓ} : {A : Type ℓ} → List (Option A) → ℕ → ℕ → List (Option A)
reorder list start_index end_index =
    splice_in end_index (place list start_index) (splice_out start_index list)

-- A drop: the indexes of the item, of the item that it is combined with, and of the place where it
-- is dropped, if any. There is one list.
pub record DropResult : Type 0 where
  pub source : ℕ
  pub combine : Option ℕ
  pub destination : Option ℕ

abbrev pub reorder_reversed : Layers → ℕ → ℕ → Layers
reorder_reversed layers start_index end_index =
    reverse (reorder (reverse layers) start_index end_index)

-- The later of two updates of the state is the one that stays; both start from `state_items`.
unfoldable pub on_drag_end_simple : DropResult → Layers → Layers
on_drag_end_simple r layers = elim r.destination [
  | some d ↦ reorder_reversed layers r.source d
  | none ↦ elim r.combine [ none ↦ layers | some c ↦ reorder_reversed layers r.source c ]
]

unfoldable pub on_remove_item_click : ℕ → Layers → Layers
on_remove_item_click index layers = reverse (set_place index none (reverse layers))

-- A part that is drawn: an item, or a trait of the Noun itself.
pub record EncodedImage : Type 0 where
  pub filename : String
  -- The name `data` is a keyword.
  pub image_data : String

pub data Part : Type 0 where
  item : ComposableItem → Part
  trait : EncodedImage → Part

-- The parts of a Noun, in the order of `getNounData`.
pub record NounParts : Type 0 where
  pub body : EncodedImage
  pub accessory : EncodedImage
  pub head : EncodedImage
  pub glasses : EncodedImage

-- The trait of a layer.
abbrev pub trait_at : NounParts → ℕ → Option Part
trait_at p i =
    if i == 4
    then some (trait p.body)
    else if i == 6
    then some (trait p.accessory)
    else if i == 8
    then some (trait p.head)
    else if i == 10
    then some (trait p.glasses)
    else none

abbrev pub compose_layer : NounParts → ℕ → Option ComposableItem → Option Part
compose_layer p i none = trait_at p i
compose_layer p i (some x) = some (item x)

-- The 16 assignments to `partsComposed`, from the i-th on.
unfoldable pub compose_from : NounParts → Layers → ℕ → ℕ → List (Option Part)
compose_from p layers zero i = []
compose_from p layers (suc n) i =
    compose_layer p i (place layers i) ∷ compose_from p layers n (i + 1)

unfoldable pub compose_parts : NounParts → Layers → List (Option Part)
unfolding compose_from
compose_parts p layers = compose_from p layers 16 0

-- The loop from the last layer down: the highest layer in use among the first n, if any.
abbrev pub is_used {ℓ} : {A : Type ℓ} → Option A → Bool
is_used none = false
is_used (some x) = true

abbrev pub top_used {ℓ} : {A : Type ℓ} → List (Option A) → ℕ → Option ℕ
top_used xs zero = none
top_used xs (suc n) = let lower = top_used xs n in if is_used (place xs n) then some n else lower

unfoldable pub get_top_composed_items_index : List (Option Part) → ℕ
get_top_composed_items_index composed = elim (top_used composed (length composed)) [
  | none ↦ 15
  | some i ↦ if ltb i 15 then i + 1 else i
]

unfoldable pub on_item_click : ComposableItem → List (Option Part) → Layers → Layers
unfolding get_top_composed_items_index
on_item_click x composed layers = set_place (get_top_composed_items_index composed) (some x) layers

-- `filterTokenItem` finds the token.
abbrev pub has_token : List TokenItem → String → ℕ → Bool
has_token [] a i = false
has_token (t ∷ ts) a i = str_eq t.token_address a && t.token_id == i || has_token ts a i

abbrev pub is_owned : List TokenItem → Option Part → Bool
is_owned holdings none = true
is_owned holdings (some (trait t)) = true
is_owned holdings (some (item x)) = has_token holdings x.token_address x.token_id

-- `setHasOwnedComposedItems`.
unfoldable pub has_owned_composed_items : List TokenItem → List (Option Part) → Bool
has_owned_composed_items holdings [] = true
has_owned_composed_items holdings (x ∷ xs) =
    is_owned holdings x && has_owned_composed_items holdings xs

-- The item of a layer, where it is one.
abbrev pub item_of : Option Part → Option ComposableItem
item_of none = none
item_of (some (trait t)) = none
item_of (some (item x)) = some x

abbrev pub is_different : TokenItem → Option ComposableItem → Bool
is_different child none = not (str_eq child.token_address zero_address)
is_different child (some x) =
    str_eq child.token_address zero_address
    || not (str_eq child.token_address x.token_address)
    || not (child.token_id == x.token_id)

-- `setHasDifferentComposedItems`, from the i-th token on.
unfoldable pub different_from : List (Option Part) → ℕ → List TokenItem → Bool
different_from composed i [] = false
different_from composed i (child ∷ children) =
    is_different child (item_of (place composed i)) || different_from composed (i + 1) children

unfoldable pub has_different_composed_items : List (Option Part) → List TokenItem → Bool
unfolding different_from
has_different_composed_items composed previous = different_from composed 0 previous
