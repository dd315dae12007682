-- ===== src/Subgraph/Dao/Tests.antt =====
-- The theorems on proposals and votes at concrete events, in the store in memory.
use composable_nouns_monorep.Common.{
  ◌<◌, ◌^◌, ◌≡◌, refl, none, some, [], ◌∷◌, pos, arith, true, ◌+ℤ◌, ◌*ℤ◌,
}
use composable_nouns_monorep.Subgraph.Schema.{Proposal, pending}
use composable_nouns_monorep.Subgraph.Store.{
  Store, get_governance_entity, get_or_create_proposal, get_or_create_dynamic_quorum_params,
  get_or_create_delegate,
}
use composable_nouns_monorep.Subgraph.Events.{Origin}
use composable_nouns_monorep.Subgraph.Transfer.Aggregates.{HasGovernanceId}
use composable_nouns_monorep.Subgraph.Quorum.{dynamic_quorum_votes}
use composable_nouns_monorep.Subgraph.Quorum.Bounds.{
  adjusted_bps, quorum_value, dynamic_quorum_votes-eq-quorum_value,
}
use composable_nouns_monorep.Subgraph.Dao.{
  ProposalCreated, VoteCast, update_quorum, tally, record_vote, handle_vote_cast,
  handle_proposal_created,
}
use composable_nouns_monorep.Subgraph.Dao.Votes.{proposal_of, IsTallied, handle_vote_cast-IsTallied}
use composable_nouns_monorep.Subgraph.Dao.Counting.{
  IsCounted, counts_dynamically, against_after, handle_vote_cast-dynamic,
}
use composable_nouns_monorep.Subgraph.Dao.Creation.{
  proposals, IsAsProposed, handle_proposal_created_lem,
}
use composable_nouns_monorep.Subgraph.Memory.{memory, memory-IsLawful, defaults, no_entities}

quorum_example :
    dynamic_quorum_votes memory 3 (pos 100) (pos 1000) (pos 4000) 1000000
    ≡ some (pos (quorum_value 3 100 1000 4000 1000000))
quorum_example =
    dynamic_quorum_votes-eq-quorum_value memory memory-IsLawful 3 99 1000 4000 1000000 (omega arith)

abbrev a_proposal : Proposal memory
a_proposal = record (defaults.new_proposal "1") {
  created_block = 5;
  status = pending;
  against_votes = 1;
  total_supply = pos 100;
  min_quorum_votes_bps = pos 1000;
  max_quorum_votes_bps = pos 4000;
  quorum_coefficient = 1000000;
}

abbrev proposal_store : Store memory
proposal_store = record no_entities { proposals = ("1", a_proposal) ∷ [] }

abbrev dynamic_store : Store memory
dynamic_store = record proposal_store {
  dynamic_quorum_params =
      (
        "LATEST",
        record (defaults.new_dynamic_quorum_params "LATEST") {
          dynamic_quorum_start_block = some 4;
        },
      )
      ∷ [];
}

abbrev origin : Origin memory
origin = record {
  block_number = 20;
  block_timestamp = 1700000000;
  transaction_hash = "0xf00d";
  transaction_index = 0;
}

abbrev a_vote : VoteCast memory
a_vote = record {
  origin = origin;
  voter = "0xaa";
  proposal_id = 1;
  support = 0;
  votes = 2;
  reason = "";
}

dynamic_vote : counts_dynamically memory defaults memory-IsLawful a_vote dynamic_store ≡ true
unfolding record_vote get_or_create_proposal get_or_create_dynamic_quorum_params
    get_or_create_delegate
dynamic_vote = refl

dynamic_supply : (proposal_of memory defaults dynamic_store 1).total_supply ≡ pos 100
unfolding get_or_create_proposal
dynamic_supply = refl

dynamic_minimum : (proposal_of memory defaults dynamic_store 1).min_quorum_votes_bps ≡ pos 1000
unfolding get_or_create_proposal
dynamic_minimum = refl

dynamic_maximum : (proposal_of memory defaults dynamic_store 1).max_quorum_votes_bps ≡ pos 4000
unfolding get_or_create_proposal
dynamic_maximum = refl

dynamic_fits :
    adjusted_bps
      (against_after memory defaults memory-IsLawful a_vote dynamic_store)
      100
      1000
      (proposal_of memory defaults dynamic_store 1).quorum_coefficient
    < 2 ^ 31
unfolding get_or_create_proposal
dynamic_fits = omega arith

proposal_store-governance : HasGovernanceId memory defaults proposal_store
unfolding get_governance_entity
proposal_store-governance = refl

abbrev handled : VoteCast memory → Store memory → Store memory
handled e s = elim (handle_vote_cast memory defaults e s) [ none ↦ s | some t ↦ t ]

dynamic_vote-handled :
    handle_vote_cast memory defaults a_vote dynamic_store ≡ some (handled a_vote dynamic_store)
unfolding handle_vote_cast update_quorum tally dynamic_quorum_votes ◌*ℤ◌ ◌+ℤ◌ record_vote
    get_or_create_proposal get_or_create_dynamic_quorum_params get_or_create_delegate
dynamic_vote-handled = refl

handle_vote_cast-IsTallied_example :
    (q : Proposal memory) × (memory.load
        (handled a_vote dynamic_store).proposals
        (proposal_of memory defaults dynamic_store 1).id
      ≡ some q)
    × IsTallied memory defaults (proposal_of memory defaults dynamic_store 1) q a_vote
handle_vote_cast-IsTallied_example =
    handle_vote_cast-IsTallied memory defaults memory-IsLawful a_vote dynamic_store
      (handled a_vote dynamic_store) dynamic_vote-handled

handle_vote_cast-dynamic_example : IsCounted memory defaults memory-IsLawful a_vote dynamic_store (
    pos (
      quorum_value
        (against_after memory defaults memory-IsLawful a_vote dynamic_store)
        100
        1000
        4000
        (proposal_of memory defaults dynamic_store 1).quorum_coefficient))
handle_vote_cast-dynamic_example =
    handle_vote_cast-dynamic memory defaults memory-IsLawful a_vote dynamic_store 99 1000 4000
      dynamic_vote dynamic_supply dynamic_minimum dynamic_maximum dynamic_fits

abbrev creation : ProposalCreated memory
creation = record {
  origin = origin;
  id = 2;
  proposer = "0xaa";
  targets = "0xcc" ∷ [];
  values = 5 ∷ [];
  signatures = "" ∷ [];
  calldatas = "0x" ∷ [];
  start_block = 30;
  end_block = 90;
  proposal_threshold = 1;
  quorum_votes = 10;
  description = "# One";
}

handle_proposal_created_example :
    let s' = handle_proposal_created memory defaults creation proposal_store in
    (proposals memory defaults memory-IsLawful s'
      ≡ proposals memory defaults memory-IsLawful proposal_store +ℤ pos 1)
    × (p : Proposal memory) × (memory.load s'.proposals (memory.to_string (pos 2)) ≡ some p)
    × IsAsProposed memory defaults memory-IsLawful creation p
handle_proposal_created_example =
    handle_proposal_created_lem memory defaults memory-IsLawful creation proposal_store
      proposal_store-governance refl
