-- ===== src/Composer/Save/Composition.antt =====
-- packages/nouns-contracts/contracts/composables/composer/NounsComposer.sol: the positions of the
-- children of one Noun.
use composable_nouns_monorep.Common.{
  ℕ, ◌≡◌, Bool, true, false, not, ◌&&◌, List, [], ◌∷◌, ◌==◌, if◌then◌else◌, String, str_eq,
}
use composable_nouns_monorep.Subgraph.Store.{zero_address}
use composable_nouns_monorep.Composer.Save.{PositionParams}

pub record ChildToken : Type 0 where
  pub token_address : String
  pub token_id : ℕ

abbrev pub no_child : ChildToken
no_child = record { token_address = zero_address; token_id = 0 }

abbrev pub child_eq : ChildToken → ChildToken → Bool
child_eq c d = str_eq c.token_address d.token_address && c.token_id == d.token_id

abbrev pub is_child : ChildToken → Bool
is_child c = not (str_eq c.token_address zero_address)

-- `composedChildTokens` and the `position1` of `childTokenState`.
pub record Composition : Type 0 where
  pub child_at : ℕ → ChildToken
  pub position_of : ChildToken → ℕ

-- `_removeComposedChild`.
unfoldable pub remove_composed_child : ℕ → Composition → Composition
remove_composed_child p s = record {
  child_at = λ q. if q == p then no_child else s.child_at q;
  position_of = λ c. if child_eq c (s.child_at p) then 0 else s.position_of c;
}

abbrev pub clear_position : ℕ → Composition → Composition
clear_position p s = if is_child (s.child_at p) then remove_composed_child p s else s

abbrev pub leave_position : ChildToken → Composition → Composition
leave_position c s = if s.position_of c == 0 then s else remove_composed_child (s.position_of c) s

-- `_composeChild`. Position 0 stands for a removal.
unfoldable pub compose_child : ChildToken → ℕ → Composition → Composition
unfolding remove_composed_child
compose_child c p s =
    let s' = leave_position c (clear_position p s) in
    if p == 0 then remove_composed_child p s else record {
      child_at = λ q. if q == p then c else s'.child_at q;
      position_of = λ d. if child_eq d c then p else s'.position_of d;
    }

-- `_composeChildBatch`, for children that the Noun holds.
unfoldable pub compose_child_batch : List PositionParams → Composition → Composition
compose_child_batch [] s = s
compose_child_batch (x ∷ xs) s = compose_child_batch xs (
    compose_child (record { token_address = x.token_address; token_id = x.token_id }) x.position1 s)

-- Positions and children agree, and the children are real ones.
pub record IsConsistent (s : Composition) : Type 0 where
  pub placed : (q : ℕ) → is_child (s.child_at q) ≡ true → s.position_of (s.child_at q) ≡ q
  pub found :
      (c : ChildToken)
      → is_child c ≡ true
      → (s.position_of c == 0) ≡ false
      → s.child_at (s.position_of c) ≡ c
  pub bare : is_child (s.child_at 0) ≡ false
