-- ===== src/Composer/Save.antt =====
-- packages/nouns-webapp/src/pages/Composer/SaveModal/index.tsx: the transaction that saves the layers
-- of a Noun, and the instructions that the modal shows.
pub mod Composition
pub mod Moves
pub mod Batch
pub mod Outcome
use composable_nouns_monorep.Common.{
  ℕ, ◌+◌, Bool, true, false, not, ◌&&◌, ◌||◌, Option, none, some, List, [], ◌∷◌, ◌++◌, ◌==◌, ℤ, pos,
  negsuc, if◌then◌else◌, String, str_eq, get_elem?, includes, filter,
}
use composable_nouns_monorep.Composables.{TokenItem}
use composable_nouns_monorep.Composables.Items.{ComposableItem}
use composable_nouns_monorep.Composer.{Part, item_of, has_token}

pub record TransferParams : Type 0 where
  pub token_address : String
  pub token_id : ℕ
  pub amount : ℕ

-- The bounds, which are always 0, are left out.
pub record PositionParams : Type 0 where
  pub token_address : String
  pub token_id : ℕ
  pub position1 : ℕ

pub data InstructionType : Type 0 where
  move position_type : InstructionType

pub record Instruction : Type 0 where
  pub item : ComposableItem
  pub type_of : InstructionType
  pub movement : ℕ
  pub position : ℤ

pub record Draft : Type 0 where
  pub token_transfer_params : List TransferParams
  pub token_position_params : List PositionParams
  pub token_instructions : List Instruction
  pub token_approvals : List String

-- An item that the Noun does not hold yet is moved into it.
abbrev pub add_transfer : List TokenItem → ComposableItem → Draft → Draft
add_transfer children x d = if has_token children x.token_address x.token_id then d else record d {
  token_transfer_params =
      d.token_transfer_params
      ++ record { token_address = x.token_address; token_id = x.token_id; amount = 1 } ∷ [];
  token_approvals =
      if includes d.token_approvals x.token_address
      then d.token_approvals
      else d.token_approvals ++ x.token_address ∷ [];
  token_instructions =
      d.token_instructions
      ++ record { item = x; type_of = move; movement = 1; position = negsuc 0 } ∷ [];
}

abbrev pub is_token : Option TokenItem → ComposableItem → Bool
is_token none x = false
is_token (some t) x = str_eq t.token_address x.token_address && t.token_id == x.token_id

abbrev pub put_at : ComposableItem → ℕ → Draft → Draft
put_at x p d = record d {
  token_position_params =
      d.token_position_params
      ++ record { token_address = x.token_address; token_id = x.token_id; position1 = p } ∷ [];
  token_instructions =
      d.token_instructions
      ++ record { item = x; type_of = position_type; movement = 0; position = pos p } ∷ [];
}

-- An item that was not at its layer before is put there.
abbrev pub add_position : List TokenItem → ℕ → ComposableItem → Draft → Draft
add_position previous i x d = if is_token (get_elem? previous i) x then d else put_at x (i + 1) d

-- A pass for a layer with an item, or without one.
abbrev pub add_item : List TokenItem → List TokenItem → ℕ → Option ComposableItem → Draft → Draft
add_item children previous i none d = d
add_item children previous i (some x) d = add_position previous i x (add_transfer children x d)

-- The loop over the composed items, from the i-th on.
unfoldable pub draft_items :
    List TokenItem → List TokenItem → ℕ → List (Option Part) → Draft → Draft
draft_items children previous i [] d = d
draft_items children previous i (x ∷ xs) d =
    draft_items children previous (i + 1) xs (add_item children previous i (item_of x) d)

abbrev pub is_item : Option ComposableItem → ComposableItem → Bool
is_item none c = false
is_item (some x) c = str_eq x.token_address c.token_address && x.token_id == c.token_id

-- `composedItems.filter(…).findIndex(…)`.
abbrev pub has_item : List (Option Part) → ComposableItem → Bool
has_item [] c = false
has_item (x ∷ xs) c = is_item (item_of x) c || has_item xs c

-- The loop over the items that were composed before.
unfoldable pub draft_removals : List (Option Part) → List ComposableItem → Draft → Draft
draft_removals composed [] d = d
draft_removals composed (c ∷ cs) d =
    draft_removals composed cs (if has_item composed c then d else put_at c 0 d)

abbrev pub empty_draft : Draft
empty_draft = record {
  token_transfer_params = [];
  token_position_params = [];
  token_instructions = [];
  token_approvals = [];
}

-- `collection_items` are the items that the page has loaded.
unfoldable pub draft :
    List TokenItem → List TokenItem → List ComposableItem → List (Option Part) → Draft
unfolding draft_items draft_removals
draft children previous collection_items composed =
    draft_removals composed
      (filter (λ x. has_token previous x.token_address x.token_id) collection_items)
      (draft_items children previous 0 composed empty_draft)

-- What the button does: nothing, a request to approve a collection, or the transaction.
pub data SaveAction : Type 0 where
  nothing : SaveAction
  set_approval : String → SaveAction
  receive_and_compose : List TransferParams → List PositionParams → SaveAction

-- The first collection that is not approved.
abbrev pub first_unapproved : (String → Bool) → List String → Option String
first_unapproved is_approved [] = none
first_unapproved is_approved (a ∷ rest) =
    if is_approved a then first_unapproved is_approved rest else some a

unfoldable pub save_handler : Option String → (String → Bool) → Draft → SaveAction
save_handler none is_approved d = nothing
save_handler (some account) is_approved d = elim (first_unapproved is_approved d.token_approvals) [
  | some a ↦ set_approval a
  | none ↦ receive_and_compose d.token_transfer_params d.token_position_params
]
