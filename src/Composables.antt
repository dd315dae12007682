-- ===== src/Composables.antt =====
-- packages/nouns-webapp/src/utils/composables: the items of the composables contracts, what an
-- address and a Noun hold of them, the market and the index of their events. A BigNumber that
-- comes from an unsigned number of a contract is a natural number.
pub mod Database
pub mod Filters
pub mod Tallies
pub mod Holdings
pub mod Indexer
pub mod Items
pub mod Ledger
pub mod Market
pub mod Search
mod Tests
mod FilterTests
use composable_nouns_monorep.Common.{
  ℕ, ◌+◌, ◌≡◌, Bool, true, false, ◌&&◌, List, [], ◌∷◌, ◌==◌, if◌then◌else◌, String, str_eq, ℤ, pos,
  ◌+ℤ◌, ◌-ℤ◌, ltb_ℤ, filter, map,
}

-- composablesContracts.ts.
pub record TransferSingleEvent : Type 0 where
  pub operator : String
  pub from : String
  pub to : String
  pub id : ℕ
  pub value : ℕ

pub record ChildReceivedEvent : Type 0 where
  pub token_id : ℕ
  pub from : String
  pub child_token_address : String
  pub child_token_id : ℕ
  pub amount : ℕ

pub record ChildTransferredEvent : Type 0 where
  pub token_id : ℕ
  pub to : String
  pub child_token_address : String
  pub child_token_id : ℕ
  pub amount : ℕ

-- composablesWrapper.ts. An item with its balance, which the functions below always set; a balance
-- can be negative.
pub record TokenItem : Type 0 where
  pub token_address : String
  pub token_id : ℕ
  pub balance : ℤ

-- Whether an item is the one under an address and a number.
abbrev pub SameToken : Type 0
SameToken = TokenItem → TokenItem → Bool

abbrev pub same_id : SameToken
same_id t h = h.token_id == t.token_id

abbrev pub same_child : SameToken
same_child t h = str_eq h.token_address t.token_address && h.token_id == t.token_id

-- A pass of the first loop: `findIndex`, and an addition or a push.
unfoldable pub credit : SameToken → TokenItem → List TokenItem → List TokenItem
credit same t [] = t ∷ []
credit same t (h ∷ hs) =
    let rest = credit same t hs in
    if same t h then record h { balance = h.balance +ℤ t.balance } ∷ hs else h ∷ rest

-- A pass of the second loop: `findIndex`, and a subtraction or a message on the console.
unfoldable pub debit : SameToken → TokenItem → List TokenItem → List TokenItem
debit same t [] = []
debit same t (h ∷ hs) =
    let rest = debit same t hs in
    if same t h then record h { balance = h.balance -ℤ t.balance } ∷ hs else h ∷ rest

unfoldable pub credit_all : SameToken → List TokenItem → List TokenItem → List TokenItem
credit_all same [] hs = hs
credit_all same (t ∷ ts) hs = credit_all same ts (credit same t hs)

unfoldable pub debit_all : SameToken → List TokenItem → List TokenItem → List TokenItem
debit_all same [] hs = hs
debit_all same (t ∷ ts) hs = debit_all same ts (debit same t hs)

abbrev pub is_held : TokenItem → Bool
is_held h = ltb_ℤ (pos 0) h.balance

abbrev pub item_of_transfer : String → TransferSingleEvent → TokenItem
item_of_transfer address e = record {
  token_address = address;
  token_id = e.id;
  balance = pos e.value;
}

-- The arguments are the events of the token that come to the holder and those that leave it.
unfoldable pub get_token_holdings :
    String → List TransferSingleEvent → List TransferSingleEvent → List TokenItem
get_token_holdings address transfer_in transfer_out = filter is_held (
    debit_all same_id (map (item_of_transfer address) transfer_out)
      (credit_all same_id (map (item_of_transfer address) transfer_in) []))

abbrev pub item_of_received : ChildReceivedEvent → TokenItem
item_of_received e = record {
  token_address = e.child_token_address;
  token_id = e.child_token_id;
  balance = pos e.amount;
}

abbrev pub item_of_transferred : ChildTransferredEvent → TokenItem
item_of_transferred e = record {
  token_address = e.child_token_address;
  token_id = e.child_token_id;
  balance = pos e.amount;
}

-- The arguments are the events of the Noun at the composer.
unfoldable pub get_child_tokens :
    List ChildReceivedEvent → List ChildTransferredEvent → List TokenItem
get_child_tokens received transferred = filter is_held (
    debit_all same_child (map item_of_transferred transferred)
      (credit_all same_child (map item_of_received received) []))
