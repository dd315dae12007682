-- ===== src/Subgraph/Dao.antt =====
-- packages/nouns-subgraph/src/nouns-dao.ts: the handlers of proposals, votes and quorum settings.
pub mod Votes
pub mod Counting
pub mod Creation
pub mod Queue
mod Tests
use Prim.Native.Char.{code}
use composable_nouns_monorep.Common.{
  ℕ, ◌+◌, Option, none, some, String, ◌<>◌, str_eq, List, [], ◌∷◌, Bool, true, false, ◌&&◌,
  if◌then◌else◌, pos, ◌+ℤ◌, ◌-ℤ◌, ltb, leb, ◌==◌,
}
use composable_nouns_monorep.Subgraph.Host.{GraphNode}
use composable_nouns_monorep.Subgraph.Events.{Origin}
use composable_nouns_monorep.Subgraph.Quorum.{◌>>=◌, dynamic_quorum_votes}
use composable_nouns_monorep.Subgraph.Schema.{
  Proposal, ProposalStatus, pending, active, cancelled, vetoed, queued, executed, Vote, Delegate,
  Generated, DynamicQuorumParams,
}
use composable_nouns_monorep.Subgraph.Store.{
  Store, save_proposal, save_vote, save_governance, save_params, log_error, get_or_create_delegate,
  get_or_create_delegate_with_null_option, get_governance_entity, get_or_create_proposal,
  get_or_create_vote, get_or_create_dynamic_quorum_params,
}

module _ (G : GraphNode) where
  pub record ProposalCreated : Type 0 where
    pub origin : Origin G
    pub id : ℕ
    pub proposer : G.Bytes
    pub targets : List G.Bytes
    pub values : List ℕ
    pub signatures : List String
    pub calldatas : List G.Bytes
    pub start_block : ℕ
    pub end_block : ℕ
    pub proposal_threshold : ℕ
    pub quorum_votes : ℕ
    pub description : String

  pub record VoteCast : Type 0 where
    pub origin : Origin G
    pub voter : G.Bytes
    pub proposal_id : ℕ
    pub support : ℕ
    pub votes : ℕ
    pub reason : String

-- `description.split('\\n').join('\n')`: each backslash with an n behind it becomes a line feed.
unfoldable pub unescape_newlines : String → String
unescape_newlines String.[] = String.[]
unescape_newlines (String.◌∷◌ c String.[]) = String.◌∷◌ c String.[]
unescape_newlines (String.◌∷◌ c (String.◌∷◌ d s)) =
    let joined = "\n" <> unescape_newlines s in
    let kept = String.◌∷◌ c (unescape_newlines (String.◌∷◌ d s)) in
    if (code c == 92) && (code d == 110) then joined else kept

module _ (G : GraphNode) (N : Generated G) where
  abbrev pub log_unknown_delegate :
      String → Option Delegate → G.Bytes → Origin G → Store G → Store G
  log_unknown_delegate format none who origin s =
      log_error G format (G.to_hex who ∷ G.to_hex origin.transaction_hash ∷ []) s
  log_unknown_delegate format (some d) who origin s = s

  unfoldable pub handle_proposal_created : ProposalCreated G → Store G → Store G
  handle_proposal_created e s =
      let (proposal, s1) = get_or_create_proposal G N (G.to_string (pos e.id)) s in
      let found =
        (get_or_create_delegate_with_null_option G N (G.to_hex e.proposer) false true s1).0 in
      let s2 =
        log_unknown_delegate "Delegate {} not found on ProposalCreated. tx_hash: {}" found
          e.proposer e.origin s1 in
      let (proposer, s3) = get_or_create_delegate G N (G.to_hex e.proposer) s2 in
      let governance = get_governance_entity G N s3 in
      let (params, s4) = get_or_create_dynamic_quorum_params G N none s3 in
      save_proposal G
        (record proposal {
          proposer = proposer.id;
          targets = e.targets;
          values = e.values;
          signatures = e.signatures;
          calldatas = e.calldatas;
          created_timestamp = e.origin.block_timestamp;
          created_block = e.origin.block_number;
          created_transaction_hash = e.origin.transaction_hash;
          start_block = e.start_block;
          end_block = e.end_block;
          proposal_threshold = e.proposal_threshold;
          quorum_votes = pos e.quorum_votes;
          for_votes = 0;
          against_votes = 0;
          abstain_votes = 0;
          description = unescape_newlines e.description;
          status = if leb e.start_block e.origin.block_number then active else pending;
          total_supply = governance.total_token_holders;
          min_quorum_votes_bps = params.min_quorum_votes_bps;
          max_quorum_votes_bps = params.max_quorum_votes_bps;
          quorum_coefficient = params.quorum_coefficient;
        })
        s4

  unfoldable pub handle_proposal_canceled : ℕ → Store G → Store G
  unfolding get_or_create_proposal
  handle_proposal_canceled id s =
      let (proposal, s1) = get_or_create_proposal G N (G.to_string (pos id)) s in
      save_proposal G (record proposal { status = cancelled }) s1

  unfoldable pub handle_proposal_vetoed : ℕ → Store G → Store G
  unfolding get_or_create_proposal
  handle_proposal_vetoed id s =
      let (proposal, s1) = get_or_create_proposal G N (G.to_string (pos id)) s in
      save_proposal G (record proposal { status = vetoed }) s1

  -- The aggregates are read before the proposal is looked up, and written last.
  unfoldable pub handle_proposal_queued : ℕ → ℕ → Store G → Store G
  unfolding get_or_create_proposal get_governance_entity
  handle_proposal_queued id eta s =
      let g = get_governance_entity G N s in
      let (proposal, s1) = get_or_create_proposal G N (G.to_string (pos id)) s in
      let s2 = save_proposal G (record proposal { status = queued; execution_eta = some eta }) s1 in
      save_governance G (record g { proposals_queued = g.proposals_queued +ℤ pos 1 }) s2

  unfoldable pub handle_proposal_executed : ℕ → Store G → Store G
  unfolding get_or_create_proposal get_governance_entity
  handle_proposal_executed id s =
      let g = get_governance_entity G N s in
      let (proposal, s1) = get_or_create_proposal G N (G.to_string (pos id)) s in
      let s2 = save_proposal G (record proposal { status = executed; execution_eta = none }) s1 in
      save_governance G (record g { proposals_queued = g.proposals_queued -ℤ pos 1 }) s2

  -- The tally of `event.params.support`: against (0), for (1), abstain (2).
  unfoldable pub tally : ℕ → ℕ → Proposal G → Proposal G
  tally support votes p =
      if support == 0
      then record p { against_votes = p.against_votes + votes }
      else if support == 1
      then record p { for_votes = p.for_votes + votes }
      else if support == 2
      then record p { abstain_votes = p.abstain_votes + votes }
      else p

  abbrev using_dynamic_quorum : Option ℕ → ℕ → Bool
  using_dynamic_quorum none created = false
  using_dynamic_quorum (some start) created = ltb start created

  unfoldable pub update_quorum : DynamicQuorumParams → Proposal G → Option (Proposal G)
  update_quorum params p =
      if using_dynamic_quorum params.dynamic_quorum_start_block p.created_block
      then (dynamic_quorum_votes G p.against_votes p.total_supply p.min_quorum_votes_bps
            p.max_quorum_votes_bps p.quorum_coefficient
          >>= λ quorum. some (record p { quorum_votes = quorum }))
      else some p

  abbrev activate : ProposalStatus → ProposalStatus
  activate pending = active
  activate status = status

  abbrev vote_of : VoteCast G → String → String → List String → Vote → Vote
  vote_of e proposal voter nouns v = record v {
    proposal = proposal;
    voter = voter;
    votes_raw = e.votes;
    votes = e.votes;
    support = e.support == 1;
    support_detailed = e.support;
    nouns = nouns;
    block_number = e.origin.block_number;
    reason = if str_eq e.reason "" then v.reason else some e.reason;
  }

  -- `handleVoteCast` up to the call of `getOrCreateDynamicQuorumParams`: the vote is saved.
  unfoldable pub record_vote : VoteCast G → Store G → Proposal G × DynamicQuorumParams × Store G
  record_vote e s =
      let (proposal, s1) = get_or_create_proposal G N (G.to_string (pos e.proposal_id)) s in
      let vote_id = G.to_hex e.voter <> "-" <> G.to_string (pos e.proposal_id) in
      let vote = get_or_create_vote G N vote_id s1 in
      let found =
        (get_or_create_delegate_with_null_option G N (G.to_hex e.voter) false true s1).0 in
      let s2 =
        log_unknown_delegate "Delegate {} not found on VoteCast. tx_hash: {}" found e.voter e.origin
          s1 in
      let (voter, s3) = get_or_create_delegate G N (G.to_hex e.voter) s2 in
      let s4 = save_vote G (vote_of e proposal.id voter.id voter.nouns_represented vote) s3 in
      let (params, s5) = get_or_create_dynamic_quorum_params G N none s4 in (proposal, params, s5)

  -- `none`: the computation of the quorum aborts, and graph-node drops what the handler wrote.
  unfoldable pub handle_vote_cast : VoteCast G → Store G → Option (Store G)
  handle_vote_cast e s =
      let (proposal, params, s') = record_vote e s in
      update_quorum params (tally e.support e.votes proposal) >>= λ p.
      some (save_proposal G (record p { status = activate p.status }) s')

  unfoldable pub handle_min_quorum_votes_bps_set : ℕ → ℕ → Store G → Store G
  unfolding get_or_create_dynamic_quorum_params
  handle_min_quorum_votes_bps_set block value s =
      let (params, s1) = get_or_create_dynamic_quorum_params G N (some block) s in
      save_params G (record params { min_quorum_votes_bps = pos value }) s1

  unfoldable pub handle_max_quorum_votes_bps_set : ℕ → ℕ → Store G → Store G
  unfolding get_or_create_dynamic_quorum_params
  handle_max_quorum_votes_bps_set block value s =
      let (params, s1) = get_or_create_dynamic_quorum_params G N (some block) s in
      save_params G (record params { max_quorum_votes_bps = pos value }) s1

  unfoldable pub handle_quorum_coefficient_set : ℕ → ℕ → Store G → Store G
  unfolding get_or_create_dynamic_quorum_params
  handle_quorum_coefficient_set block value s =
      let (params, s1) = get_or_create_dynamic_quorum_params G N (some block) s in
      save_params G (record params { quorum_coefficient = value }) s1
