-- ===== src/Webapp/Proposals/Tests.antt =====
-- The theorems on proposals at concrete proposals.
use composable_nouns_monorep.Common.{
  Bool, ◌⊎◌, ◌≡◌, refl, inl, none, some, [], ◌∷◌, ◌++◌, replicate, true, false, arith, none_some,
}
use composable_nouns_monorep.Subgraph.Schema.{active as status_active}
use composable_nouns_monorep.Webapp.Proposals.{
  ProposalSubgraphEntity, get_proposal_state, cancelled, vetoed,
}
use composable_nouns_monorep.Webapp.Proposals.States.{
  ChainProposal, state, Reflects, get_proposal_state-state,
}
use composable_nouns_monorep.Webapp.Proposals.Titles.{newline, title_of}
use composable_nouns_monorep.Webapp.Proposals.Titles.Shown.{marked, bold, title_of-marked}

abbrev on_chain : ChainProposal
on_chain = record {
  start_block = 10;
  end_block = 20;
  for_votes = 7;
  against_votes = 2;
  quorum_votes = 5;
  eta = none;
  canceled = false;
  vetoed_flag = false;
  executed_flag = false;
}

abbrev entity : ProposalSubgraphEntity
entity = record {
  id = "1";
  description = some "# One";
  status = status_active;
  for_votes = 7;
  against_votes = 2;
  abstain_votes = 0;
  created_block = 5;
  created_transaction_hash = "0x1";
  start_block = 10;
  end_block = 20;
  execution_eta = none;
  proposer = "0xaa";
  proposal_threshold = 1;
  quorum_votes = 5;
}

entity-Reflects : Reflects 25 true false on_chain entity
entity-Reflects = record {
  status = refl;
  start = refl;
  end = refl;
  for = refl;
  against = refl;
  quorum = refl;
  eta = refl;
  mined = refl;
  ordered = omega arith;
  voted = λ h. omega arith;
  succeeded = λ t h. absurd (none_some h);
  canceled_vetoed = λ h. absurd (cc h);
  executed_queued = λ h. absurd (cc h);
}

abbrev no : Bool
no = false

get_proposal_state-state_example :
    ((no ≡ false) × (get_proposal_state (some 25) (some 1000) entity ≡ state 25 1000 on_chain))
    ⊎ ((no ≡ true)
        × (get_proposal_state (some 25) (some 1000) entity ≡ cancelled)
        × (state 25 1000 on_chain ≡ vetoed))
get_proposal_state-state_example =
    get_proposal_state-state 25 1000 true no on_chain entity entity-Reflects (inl refl)

-- "## **O**n", with a line after it.
title_of-marked_example :
    title_of (
      some (
        replicate 2 b'#' ++ (32 ∷ (marked bold [] (b'O' ∷ []) (b'n' ∷ []) ++ newline ∷ b'x' ∷ []))))
    ≡ [] ++ ((b'O' ∷ []) ++ (b'n' ∷ []))
title_of-marked_example =
    title_of-marked 1 b'*' bold [] (b'O' ∷ []) (b'n' ∷ []) (b'*' ∷ b'O' ∷ b'*' ∷ b'*' ∷ b'n' ∷ [])
      (b'x' ∷ []) (omega arith) refl refl (refl, (refl, (refl, (refl, (refl, (refl, tt))))))
      (record { stars = (tt, (refl, tt), (refl, tt)); underscores = (tt, (refl, tt), (refl, tt)) })
