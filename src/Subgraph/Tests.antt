-- ===== src/Subgraph/Tests.antt =====
-- The theorems on the subgraph at concrete events, in the store in memory.
use composable_nouns_monorep.Common.{
  none_some, ◌+◌, ◌≡◌, refl, some, List, [], ◌∷◌, pos, arith, eq_iff, ◌+ℤ◌, count, includes,
  if◌then◌else◌,
}
use composable_nouns_monorep.Subgraph.Schema.{Account, Delegate}
use composable_nouns_monorep.Subgraph.Store.{
  Store, zero_address, get_or_create_delegate, get_or_create_account, get_governance_entity,
}
use composable_nouns_monorep.Subgraph.Events.{
  Origin, Transfer, DelegateChanged, DelegateVotesChanged,
}
use composable_nouns_monorep.Subgraph.Transfer.{handle_transfer}
use composable_nouns_monorep.Subgraph.Transfer.Accounts.{account_of}
use composable_nouns_monorep.Subgraph.Transfer.Ownership.{
  Tracks, Ownership, owner_after, Tracks-handle_transfer,
}
use composable_nouns_monorep.Subgraph.Index.{
  Event, transfer, auction_settled, proposal_canceled, index, index_all,
}
use composable_nouns_monorep.Subgraph.Index.Tracking.{owners_after_all, Tracks-index_all}
use composable_nouns_monorep.Subgraph.Auctions.{handle_auction_settled}
use composable_nouns_monorep.Subgraph.Dao.{handle_proposal_canceled}
use composable_nouns_monorep.Subgraph.Transfer.Aggregates.{HasGovernanceId}
use composable_nouns_monorep.Subgraph.Transfer.Holders.{
  holders, current_token_holders-handle_transfer,
}
use composable_nouns_monorep.Subgraph.Token.{handle_delegate_changed, handle_delegate_votes_changed}
use composable_nouns_monorep.Subgraph.Token.Delegation.{
  delegate_of, HasDelegateIds, handle_delegate_changed_lem,
}
use composable_nouns_monorep.Subgraph.Token.Votes.{
  delegated, delegated_votes-handle_delegate_votes_changed,
}
use composable_nouns_monorep.Subgraph.Memory.{memory, memory-IsLawful, defaults, no_entities}

abbrev origin : Origin memory
origin = record {
  block_number = 20;
  block_timestamp = 1700000000;
  transaction_hash = "0xf00d";
  transaction_index = 0;
}

-- Noun 2 is minted to one account, which then sends it to another.
abbrev mint : Transfer memory
mint = record { origin = origin; sender = zero_address; receiver = "0xaa"; token_id = 2 }

abbrev move : Transfer memory
move = record { origin = origin; sender = "0xaa"; receiver = "0xbb"; token_id = 2 }

abbrev unminted : Ownership
unminted n = zero_address

no_entities-Tracks : Tracks memory defaults memory-IsLawful no_entities unminted
unfolding get_or_create_account
no_entities-Tracks = record {
  ids = λ a x h. none_some h;
  noun_ids = λ n x h. none_some h;
  owners = λ n. refl;
  held = λ a n h. ground (arith, h, eq_iff zero_address a, eq_iff a zero_address);
  balances = λ a. refl;
}

Tracks-handle_transfer_example :
    Tracks memory defaults memory-IsLawful
      (handle_transfer memory defaults mint no_entities)
      (owner_after memory mint unminted)
Tracks-handle_transfer_example =
    Tracks-handle_transfer memory defaults memory-IsLawful mint no_entities unminted
      no_entities-Tracks (record { from_holder = refl; moves = refl })

abbrev history : List (Event memory)
history = transfer mint ∷ proposal_canceled 7 ∷ transfer move ∷ auction_settled origin 2 ∷ []

abbrev after_history : Store memory
after_history = handle_auction_settled memory defaults origin 2 (
    handle_transfer memory defaults move (
      handle_proposal_canceled memory defaults 7
        (handle_transfer memory defaults mint no_entities)))

history-runs : index_all memory defaults history no_entities ≡ some after_history
unfolding index_all index
history-runs = refl

Tracks-index_all_example :
    Tracks memory defaults memory-IsLawful after_history (owners_after_all memory history unminted)
Tracks-index_all_example =
    Tracks-index_all memory defaults memory-IsLawful history no_entities after_history unminted
      no_entities-Tracks
      (
        record { from_holder = refl; moves = refl },
        (tt, (record { from_holder = refl; moves = refl }, (tt, tt))),
      )
      history-runs

no_governance : HasGovernanceId memory defaults no_entities
unfolding get_governance_entity
no_governance = refl

current_token_holders-handle_transfer_example :
    (get_governance_entity memory defaults
        (handle_transfer memory defaults mint no_entities)).current_token_holders
      +ℤ pos (holders memory defaults no_entities (zero_address ∷ "0xaa" ∷ []))
    ≡ (get_governance_entity memory defaults no_entities).current_token_holders
      +ℤ pos (
          holders memory defaults
            (handle_transfer memory defaults mint no_entities)
            (zero_address ∷ "0xaa" ∷ []))
current_token_holders-handle_transfer_example =
    current_token_holders-handle_transfer memory defaults memory-IsLawful mint no_entities
      (zero_address ∷ "0xaa" ∷ []) (λ a x h. none_some h) no_governance refl refl refl

-- An account that holds a Noun and delegates from one delegate to another.
abbrev a_holder : Account
a_holder = record {
  id = "0xaa";
  delegate = some "0xaa";
  token_balance_raw = pos 1;
  token_balance = pos 1;
  total_tokens_held_raw = pos 1;
  total_tokens_held = pos 1;
  nouns = "11" ∷ [];
}

abbrev a_delegate : Delegate
a_delegate = record {
  id = "0xaa";
  delegated_votes_raw = 1;
  delegated_votes = 1;
  token_holders_represented_amount = pos 1;
  nouns_represented = "11" ∷ [];
}

abbrev delegated_store : Store memory
delegated_store = record no_entities {
  accounts = ("0xaa", a_holder) ∷ [];
  delegates = ("0xaa", a_delegate) ∷ [];
}

delegated_store-ids : HasDelegateIds memory defaults delegated_store
delegated_store-ids d x h = ground (arith, eq_iff "0xaa" d, h)

abbrev change : DelegateChanged memory
change = record {
  origin = origin;
  delegator = "0xaa";
  from_delegate = "0xaa";
  to_delegate = "0xbb";
}

handle_delegate_changed_example :
    let s' = handle_delegate_changed memory defaults change delegated_store in
    (count "11" (delegate_of memory defaults s' "0xbb").nouns_represented
      ≡ count "11" (delegate_of memory defaults delegated_store "0xbb").nouns_represented
        + count "11" (account_of memory defaults delegated_store "0xaa").nouns)
    × (count "11" (delegate_of memory defaults s' "0xaa").nouns_represented ≡ (
        if includes (account_of memory defaults delegated_store "0xaa").nouns "11"
        then 0
        else count "11" (delegate_of memory defaults delegated_store "0xaa").nouns_represented))
    × (delegate_of memory defaults s' "0xcc" ≡ delegate_of memory defaults delegated_store "0xcc")
handle_delegate_changed_example =
    handle_delegate_changed_lem memory defaults memory-IsLawful change delegated_store "11" "0xcc"
      delegated_store-ids refl refl refl

abbrev votes_change : DelegateVotesChanged memory
votes_change = record { delegate = "0xaa"; previous_balance = 1; new_balance = 0 }

votes_change-previous : (delegate_of memory defaults delegated_store "0xaa").delegated_votes_raw ≡ 1
unfolding get_or_create_delegate
votes_change-previous = refl

delegated_store-governance : HasGovernanceId memory defaults delegated_store
unfolding get_governance_entity
delegated_store-governance = refl

delegated_votes_example :
    let s' = handle_delegate_votes_changed memory defaults votes_change delegated_store in
    (get_governance_entity memory defaults s').delegated_votes_raw
      +ℤ pos (delegated memory defaults delegated_store ("0xaa" ∷ []))
    ≡ (get_governance_entity memory defaults delegated_store).delegated_votes_raw
      +ℤ pos (delegated memory defaults s' ("0xaa" ∷ []))
delegated_votes_example =
    delegated_votes-handle_delegate_votes_changed memory defaults memory-IsLawful votes_change
      delegated_store ("0xaa" ∷ []) delegated_store-ids delegated_store-governance
      votes_change-previous refl
