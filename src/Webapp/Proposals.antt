-- ===== src/Webapp/Proposals.antt =====
-- packages/nouns-webapp/src/wrappers/nounsDao.ts: proposals as the application shows them. The numbers
-- of the subgraph's answers, which are decimal texts, stand for themselves.
pub mod Titles
pub mod States
pub mod Details
mod Tests
use composable_nouns_monorep.Common.{
  ℕ, zero, suc, ◌+◌, ◌*◌, Bool, true, false, not, ◌&&◌, ◌||◌, Option, none, some, List, [], ◌∷◌,
  ◌++◌, ◌==◌, ltb, leb, if◌then◌else◌, String, str_eq, map,
}
use composable_nouns_monorep.Subgraph.Schema.{
  ProposalStatus, pending as status_pending, active as status_active, cancelled as status_cancelled,
  vetoed as status_vetoed, queued as status_queued, executed as status_executed,
}

pub data ProposalState : Type 0 where
  undetermined pending active cancelled defeated succeeded queued expired executed vetoed :
      ProposalState

pub record ProposalSubgraphEntity : Type 0 where
  pub id : String
  pub description : Option String
  pub status : ProposalStatus
  pub for_votes : ℕ
  pub against_votes : ℕ
  pub abstain_votes : ℕ
  pub created_block : ℕ
  pub created_transaction_hash : String
  pub start_block : ℕ
  pub end_block : ℕ
  pub execution_eta : Option ℕ
  pub proposer : String
  pub proposal_threshold : ℕ
  pub quorum_votes : ℕ

-- `ProposalState[status]`.
abbrev pub state_of_status : ProposalStatus → ProposalState
state_of_status status_pending = pending
state_of_status status_active = active
state_of_status status_cancelled = cancelled
state_of_status status_vetoed = vetoed
state_of_status status_queued = queued
state_of_status status_executed = executed

-- A block number that is missing, or 0, is none.
abbrev pub block_or_none : Option ℕ → Option ℕ
block_or_none none = none
block_or_none (some b) = if b == 0 then none else some b

abbrev pub grace_period : ℕ
grace_period = 14 * 60 * 60 * 24

abbrev pub pending_state : Option ℕ → ProposalSubgraphEntity → ProposalState
pending_state none p = undetermined
pending_state (some b) p = if leb b p.start_block then pending else active

abbrev pub ended_state : ProposalSubgraphEntity → ProposalState
ended_state p =
    if leb p.for_votes p.against_votes || ltb p.for_votes p.quorum_votes
    then defeated
    else elim p.execution_eta [ none ↦ succeeded | some eta ↦ active ]

abbrev pub active_state : Option ℕ → ProposalSubgraphEntity → ProposalState
active_state none p = undetermined
active_state (some b) p = if ltb p.end_block b then ended_state p else active

abbrev pub queued_state : Option ℕ → Option ℕ → ProposalState
queued_state none eta = undetermined
queued_state (some t) none = undetermined
queued_state (some t) (some eta) = if leb (eta + grace_period) t then expired else queued

-- The time is in seconds.
unfoldable pub get_proposal_state : Option ℕ → Option ℕ → ProposalSubgraphEntity → ProposalState
get_proposal_state block_number block_timestamp p = elim p.status [
  | status_pending ↦ pending_state (block_or_none block_number) p
  | status_active ↦ active_state (block_or_none block_number) p
  | status_queued ↦ queued_state block_timestamp p.execution_eta
  | status_cancelled ↦ cancelled
  | status_vetoed ↦ vetoed
  | status_executed ↦ executed
]

-- `countToIndices`: the arguments of the calls for the proposals.
abbrev pub indices_from : ℕ → ℕ → List (List ℕ)
indices_from zero i = []
indices_from (suc n) i = ((i + 1) ∷ []) ∷ indices_from n (i + 1)

unfoldable pub count_to_indices : Option ℕ → List (List ℕ)
count_to_indices none = []
count_to_indices (some count) = indices_from count 0

-- The word for the support in a voting receipt.
unfoldable pub use_proposal_vote : Option ℕ → String
use_proposal_vote none = ""
use_proposal_vote (some support) =
    if support == 0
    then "Against"
    else if support == 1
    then "For"
    else if support == 2
    then "Abstain"
    else ""

-- The answer of a query: its proposals, an error, or nothing yet.
pub record ProposalData (P : Type 0) : Type 0 where
  pub proposals : List P
  pub has_error : Bool
  pub is_loading : Bool

-- The chain is asked when the subgraph fails.
unfoldable pub use_all_proposals : {P : Type 0} → ProposalData P → ProposalData P → ProposalData P
use_all_proposals subgraph onchain = if subgraph.has_error then onchain else subgraph
