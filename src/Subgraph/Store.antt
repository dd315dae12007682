-- ===== src/Subgraph/Store.antt =====
-- The entities that graph-node keeps for the subgraph, src/utils/constants.ts and
-- src/utils/helpers.ts. An entity that is loaded is a copy: it is written back by `save` alone.
use composable_nouns_monorep.Common.{
  ℕ, Option, none, some, String, str_eq, List, [], ◌∷◌, Bool, true, if◌then◌else◌, pos, ◌+ℤ◌,
}
use composable_nouns_monorep.Subgraph.Host.{GraphNode}
use composable_nouns_monorep.Subgraph.Schema.{
  Account, Delegate, Noun, Seed, DelegationEvent, TransferEvent, Bid, Auction, Proposal, Vote,
  Governance, DynamicQuorumParams, Generated,
}

abbrev pub zero_address : String
zero_address = "0x0000000000000000000000000000000000000000"

-- A line of `log.error`: the format and its arguments.
pub record LogLine : Type 0 where
  pub format : String
  pub args : List String

pub record Store (G : GraphNode) : Type 0 where
  pub accounts : G.Table Account
  pub delegates : G.Table Delegate
  pub nouns : G.Table Noun
  pub seeds : G.Table Seed
  pub delegation_events : G.Table DelegationEvent
  pub transfer_events : G.Table TransferEvent
  pub bids : G.Table Bid
  pub auctions : G.Table Auction
  pub proposals : G.Table (Proposal G)
  pub votes : G.Table Vote
  pub governances : G.Table Governance
  pub dynamic_quorum_params : G.Table DynamicQuorumParams
  pub errors : List LogLine

module _ (G : GraphNode) where
  abbrev pub save_account : Account → Store G → Store G
  save_account a s = record s { accounts = G.save s.accounts a.id a }

  abbrev pub save_delegate : Delegate → Store G → Store G
  save_delegate d s = record s { delegates = G.save s.delegates d.id d }

  abbrev pub save_noun : Noun → Store G → Store G
  save_noun n s = record s { nouns = G.save s.nouns n.id n }

  abbrev pub save_seed : Seed → Store G → Store G
  save_seed x s = record s { seeds = G.save s.seeds x.id x }

  abbrev pub save_delegation_event : DelegationEvent → Store G → Store G
  save_delegation_event x s = record s { delegation_events = G.save s.delegation_events x.id x }

  abbrev pub save_transfer_event : TransferEvent → Store G → Store G
  save_transfer_event x s = record s { transfer_events = G.save s.transfer_events x.id x }

  abbrev pub save_bid : Bid → Store G → Store G
  save_bid b s = record s { bids = G.save s.bids b.id b }

  abbrev pub save_auction : Auction → Store G → Store G
  save_auction a s = record s { auctions = G.save s.auctions a.id a }

  abbrev pub save_proposal : Proposal G → Store G → Store G
  save_proposal p s = record s { proposals = G.save s.proposals p.id p }

  abbrev pub save_vote : Vote → Store G → Store G
  save_vote v s = record s { votes = G.save s.votes v.id v }

  abbrev pub save_governance : Governance → Store G → Store G
  save_governance g s = record s { governances = G.save s.governances g.id g }

  abbrev pub save_params : DynamicQuorumParams → Store G → Store G
  save_params p s = record s { dynamic_quorum_params = G.save s.dynamic_quorum_params p.id p }

  abbrev pub log_error : String → List String → Store G → Store G
  log_error format args s = record s { errors = record { format = format; args = args } ∷ s.errors }

module _ (G : GraphNode) (N : Generated G) where
  pub fresh_account : String → Account
  fresh_account id = record (N.new_account id) {
    id = id;
    token_balance_raw = pos 0;
    token_balance = pos 0;
    total_tokens_held_raw = pos 0;
    total_tokens_held = pos 0;
    nouns = [];
  }

  -- Every caller leaves `createIfNotFound` and `save` at their default, true.
  unfoldable pub get_or_create_account : String → Store G → Account × Store G
  unfolding fresh_account
  get_or_create_account id s = elim (G.load s.accounts id) [
    | some a ↦ (a, s)
    | none ↦ (fresh_account id, save_account G (fresh_account id) s)
  ]

  -- The entity of the aggregates. It is not saved here.
  unfoldable pub get_governance_entity : Store G → Governance
  get_governance_entity s = elim (G.load s.governances "GOVERNANCE") [
    | some g ↦ g
    | none ↦ record (N.new_governance "GOVERNANCE") {
      id = "GOVERNANCE";
      proposals = pos 0;
      total_token_holders = pos 0;
      current_token_holders = pos 0;
      current_delegates = pos 0;
      total_delegates = pos 0;
      delegated_votes_raw = pos 0;
      delegated_votes = pos 0;
      proposals_queued = pos 0;
    }
  ]

  pub fresh_delegate : String → Delegate
  fresh_delegate id = record (N.new_delegate id) {
    id = id;
    delegated_votes_raw = 0;
    delegated_votes = 0;
    token_holders_represented_amount = pos 0;
    nouns_represented = [];
  }

  -- A new delegate other than the zero address is counted, in the stored aggregates.
  unfoldable pub count_delegate : String → Store G → Store G
  unfolding get_governance_entity
  count_delegate id s =
      let g = get_governance_entity s in
      if str_eq id zero_address
      then s
      else save_governance G (record g { total_delegates = g.total_delegates +ℤ pos 1 }) s

  unfoldable pub get_or_create_delegate_with_null_option :
      String → Bool → Bool → Store G → Option Delegate × Store G
  unfolding fresh_delegate count_delegate
  get_or_create_delegate_with_null_option id create save s = elim (G.load s.delegates id) [
    | some d ↦ (some d, s)
    | none ↦
        if create
        then (
          some (fresh_delegate id),
          if save
              then save_delegate G (fresh_delegate id) (count_delegate id s)
              else count_delegate id s,
        )
        else (none, s)
  ]

  -- The cast of a `Delegate | null` that is never null here.
  abbrev as_delegate : String → Option Delegate → Delegate
  as_delegate id none = fresh_delegate id
  as_delegate id (some d) = d

  unfoldable pub get_or_create_delegate : String → Store G → Delegate × Store G
  unfolding get_or_create_delegate_with_null_option
  get_or_create_delegate id s =
      let (d, s') = get_or_create_delegate_with_null_option id true true s in (as_delegate id d, s')

  -- Every caller leaves `createIfNotFound` at true and `save` at false.
  unfoldable pub get_or_create_vote : String → Store G → Vote
  get_or_create_vote id s = elim (G.load s.votes id) [
    | some v ↦ v
    | none ↦ record (N.new_vote id) { id = id }
  ]

  unfoldable pub get_or_create_proposal : String → Store G → Proposal G × Store G
  unfolding get_governance_entity
  get_or_create_proposal id s = elim (G.load s.proposals id) [
    | some p ↦ (p, s)
    | none ↦
        let g = get_governance_entity s in
        (
          record (N.new_proposal id) { id = id },
          save_governance G (record g { proposals = g.proposals +ℤ pos 1 }) s,
        )
  ]

  abbrev first_params : Option ℕ → DynamicQuorumParams
  first_params block = record (N.new_dynamic_quorum_params "LATEST") {
    id = "LATEST";
    min_quorum_votes_bps = pos 0;
    max_quorum_votes_bps = pos 0;
    quorum_coefficient = 0;
    dynamic_quorum_start_block = block;
  }

  -- The second test of the function: the start block is set once, by the first call with a block.
  abbrev start_dynamic_quorum :
      Option ℕ → Option ℕ → DynamicQuorumParams × Store G → DynamicQuorumParams × Store G
  start_dynamic_quorum none (some b) (p, s) =
      let p' = record p { dynamic_quorum_start_block = some b } in (p', save_params G p' s)
  start_dynamic_quorum _ _ r = r

  unfoldable pub get_or_create_dynamic_quorum_params :
      Option ℕ → Store G → DynamicQuorumParams × Store G
  get_or_create_dynamic_quorum_params block s = elim (G.load s.dynamic_quorum_params "LATEST") [
    | some p ↦ start_dynamic_quorum p.dynamic_quorum_start_block block (p, s)
    | none ↦
        let p = first_params block in
        start_dynamic_quorum p.dynamic_quorum_start_block block (p, save_params G p s)
  ]
