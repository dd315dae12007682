-- ===== src/Subgraph/Schema.antt =====
-- packages/nouns-subgraph/schema.graphql: one record for each entity type, without the fields
-- that are derived from others. A BigInt that the mappings subtract from is an integer; the
-- others only ever hold unsigned event parameters and sums of them.
use composable_nouns_monorep.Common.{ℕ, ℤ, String, Option, List, Bool}
use composable_nouns_monorep.Subgraph.Host.{GraphNode}

pub record Account : Type 0 where
  pub id : String
  pub delegate : Option String
  pub token_balance_raw : ℤ
  pub token_balance : ℤ
  pub total_tokens_held_raw : ℤ
  pub total_tokens_held : ℤ
  pub nouns : List String

pub record Delegate : Type 0 where
  pub id : String
  pub delegated_votes_raw : ℕ
  pub delegated_votes : ℕ
  pub token_holders_represented_amount : ℤ
  pub nouns_represented : List String

pub record Noun : Type 0 where
  pub id : String
  pub seed : Option String
  pub owner : String

pub record Seed : Type 0 where
  pub id : String
  pub background : ℕ
  pub body : ℕ
  pub accessory : ℕ
  pub head : ℕ
  pub glasses : ℕ

pub record DelegationEvent : Type 0 where
  pub id : String
  pub noun : String
  pub previous_delegate : String
  pub new_delegate : String
  pub block_number : ℕ
  pub block_timestamp : ℕ

pub record TransferEvent : Type 0 where
  pub id : String
  pub noun : String
  pub previous_holder : String
  pub new_holder : String
  pub block_number : ℕ
  pub block_timestamp : ℕ

pub record Bid : Type 0 where
  pub id : String
  pub noun : String
  pub amount : ℕ
  pub bidder : Option String
  pub block_number : ℕ
  pub tx_index : ℕ
  pub auction : String
  pub block_timestamp : ℕ

pub record Auction : Type 0 where
  pub id : String
  pub noun : String
  pub amount : ℕ
  pub start_time : ℕ
  pub end_time : ℕ
  pub bidder : Option String
  pub settled : Bool

-- `enum ProposalStatus`, the STATUS_ constants of src/utils/constants.ts.
pub data ProposalStatus : Type 0 where
  pending active cancelled vetoed queued executed : ProposalStatus

pub record Vote : Type 0 where
  pub id : String
  pub support : Bool
  pub support_detailed : ℕ
  pub votes_raw : ℕ
  pub votes : ℕ
  pub reason : Option String
  pub voter : String
  pub nouns : List String
  pub proposal : String
  pub block_number : ℕ

pub record Governance : Type 0 where
  pub id : String
  pub proposals : ℤ
  pub current_token_holders : ℤ
  pub current_delegates : ℤ
  pub total_token_holders : ℤ
  pub total_delegates : ℤ
  pub delegated_votes_raw : ℤ
  pub delegated_votes : ℤ
  pub proposals_queued : ℤ

pub record DynamicQuorumParams : Type 0 where
  pub id : String
  pub min_quorum_votes_bps : ℤ
  pub max_quorum_votes_bps : ℤ
  pub quorum_coefficient : ℕ
  pub dynamic_quorum_start_block : Option ℕ

module _ (G : GraphNode) where
  pub record Proposal : Type 0 where
    pub id : String
    pub proposer : String
    pub targets : List G.Bytes
    pub values : List ℕ
    pub signatures : List String
    pub calldatas : List G.Bytes
    pub created_timestamp : ℕ
    pub created_block : ℕ
    pub created_transaction_hash : G.Bytes
    pub start_block : ℕ
    pub end_block : ℕ
    pub proposal_threshold : ℕ
    pub quorum_votes : ℤ
    pub for_votes : ℕ
    pub against_votes : ℕ
    pub abstain_votes : ℕ
    pub description : String
    pub status : ProposalStatus
    pub execution_eta : Option ℕ
    pub total_supply : ℤ
    pub min_quorum_votes_bps : ℤ
    pub max_quorum_votes_bps : ℤ
    pub quorum_coefficient : ℕ

  -- The constructors that `graph codegen` generates from the schema: an entity with the defaults
  -- of its required fields.
  pub record Generated : Type 0 where
    pub new_account : String → Account
    pub new_delegate : String → Delegate
    pub new_noun : String → Noun
    pub new_seed : String → Seed
    pub new_delegation_event : String → DelegationEvent
    pub new_transfer_event : String → TransferEvent
    pub new_bid : String → Bid
    pub new_auction : String → Auction
    pub new_proposal : String → Proposal
    pub new_vote : String → Vote
    pub new_governance : String → Governance
    pub new_dynamic_quorum_params : String → DynamicQuorumParams
