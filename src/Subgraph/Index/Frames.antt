-- ===== src/Subgraph/Index/Frames.antt =====
-- Handlers that leave the tables of accounts and Nouns alone.
use composable_nouns_monorep.Common.{
  ℕ, ◌≡◌, refl, ◌∙◌, ap, Option, none, some, String, pos, arith, List, [], ◌∷◌,
}
use composable_nouns_monorep.Subgraph.Host.{GraphNode}
use composable_nouns_monorep.Subgraph.Schema.{Delegate, Generated}
use composable_nouns_monorep.Subgraph.Store.{
  Store, get_or_create_delegate, get_or_create_proposal, get_or_create_dynamic_quorum_params,
}
use composable_nouns_monorep.Subgraph.Events.{Origin, DelegateChanged, DelegateVotesChanged}
use composable_nouns_monorep.Subgraph.Token.{handle_delegate_votes_changed, log_delegations}
use composable_nouns_monorep.Subgraph.Transfer.Accounts.{
  SameHoldings, get_or_create_delegate-SameHoldings, SameHoldings-trans,
}
use composable_nouns_monorep.Subgraph.Dao.{
  ProposalCreated, VoteCast, log_unknown_delegate, handle_proposal_created,
  handle_proposal_canceled, handle_proposal_vetoed, handle_proposal_queued,
  handle_proposal_executed, record_vote, handle_vote_cast, handle_min_quorum_votes_bps_set,
  handle_max_quorum_votes_bps_set, handle_quorum_coefficient_set,
}
use composable_nouns_monorep.Subgraph.Auctions.{
  AuctionCreated, handle_auction_created, handle_auction_extended, handle_auction_settled,
}
use composable_nouns_monorep.Subgraph.Quorum.{>>=-some}

module _ (G : GraphNode) (N : Generated G) where
  pub get_or_create_proposal-SameHoldings :
      (id : String) (s : Store G) → SameHoldings G N s (get_or_create_proposal G N id s).1
  unfolding get_or_create_proposal
  get_or_create_proposal-SameHoldings id s = ground arith

  pub params-SameHoldings :
      (b : Option ℕ) (s : Store G)
      → SameHoldings G N s (get_or_create_dynamic_quorum_params G N b s).1
  unfolding get_or_create_dynamic_quorum_params
  params-SameHoldings b s = ground arith

  pub logged-SameHoldings :
      (format : String) (d : Option Delegate) (who : G.Bytes) (o : Origin G) (s : Store G)
      → SameHoldings G N s (log_unknown_delegate G N format d who o s)
  logged-SameHoldings format none who o s = record { accounts = refl; nouns = refl }
  logged-SameHoldings format (some d) who o s = record { accounts = refl; nouns = refl }

  -- The start of both handlers that look up a delegate.
  pub looked_up-SameHoldings :
      (format : String) (d : Option Delegate) (id delegate : String) (who : G.Bytes) (o : Origin G)
      (s : Store G)
      → SameHoldings G N s
          (get_or_create_delegate G N delegate
            (log_unknown_delegate G N format d who o (get_or_create_proposal G N id s).1)).1
  looked_up-SameHoldings format d id delegate who o s =
      SameHoldings-trans G N (get_or_create_proposal-SameHoldings id s) (
        SameHoldings-trans G N (logged-SameHoldings format d who o _)
          (get_or_create_delegate-SameHoldings G N delegate _))

  pub proposal_created-SameHoldings :
      (e : ProposalCreated G) (s : Store G) → SameHoldings G N s (handle_proposal_created G N e s)
  unfolding handle_proposal_created
  proposal_created-SameHoldings e s =
      let before =
        looked_up-SameHoldings "Delegate {} not found on ProposalCreated. tx_hash: {}" _
          (G.to_string (pos e.id)) (G.to_hex e.proposer) e.proposer e.origin s in
      let after = SameHoldings-trans G N before (params-SameHoldings none _) in
      record { accounts = after.accounts; nouns = after.nouns }

  pub record_vote-SameHoldings :
      (e : VoteCast G) (s : Store G) → SameHoldings G N s (record_vote G N e s).2
  unfolding record_vote
  record_vote-SameHoldings e s =
      let before =
        looked_up-SameHoldings "Delegate {} not found on VoteCast. tx_hash: {}" _
          (G.to_string (pos e.proposal_id)) (G.to_hex e.voter) e.voter e.origin s in
      let voted = params-SameHoldings none _ in
      SameHoldings-trans G N before (record { accounts = voted.accounts; nouns = voted.nouns })

  pub vote_cast-SameHoldings :
      (e : VoteCast G) (s t : Store G) → handle_vote_cast G N e s ≡ some t → SameHoldings G N s t
  unfolding handle_vote_cast
  vote_cast-SameHoldings e s t h =
      let before = record_vote-SameHoldings e s in
      let (p, _, done) = >>=-some _ _ h in
      record {
        accounts = ap (λ (x : Store G). x.accounts) done ∙ before.accounts;
        nouns = ap (λ (x : Store G). x.nouns) done ∙ before.nouns;
      }

  pub log_delegations-SameHoldings :
      (e : DelegateChanged G) (p n : String) (ns : List String) (s : Store G)
      → SameHoldings G N s (log_delegations G N e p n ns s)
  unfolding log_delegations
  log_delegations-SameHoldings e p n [] s = record { accounts = refl; nouns = refl }
  log_delegations-SameHoldings e p n (x ∷ ns) s =
      let rest = log_delegations-SameHoldings e p n ns _ in
      record { accounts = rest.accounts; nouns = rest.nouns }

  pub proposal_canceled-SameHoldings :
      (id : ℕ) (s : Store G) → SameHoldings G N s (handle_proposal_canceled G N id s)
  unfolding handle_proposal_canceled
  proposal_canceled-SameHoldings id s = ground arith

  pub proposal_vetoed-SameHoldings :
      (id : ℕ) (s : Store G) → SameHoldings G N s (handle_proposal_vetoed G N id s)
  unfolding handle_proposal_vetoed
  proposal_vetoed-SameHoldings id s = ground arith

  pub proposal_queued-SameHoldings :
      (id eta : ℕ) (s : Store G) → SameHoldings G N s (handle_proposal_queued G N id eta s)
  unfolding handle_proposal_queued
  proposal_queued-SameHoldings id eta s = ground arith

  pub proposal_executed-SameHoldings :
      (id : ℕ) (s : Store G) → SameHoldings G N s (handle_proposal_executed G N id s)
  unfolding handle_proposal_executed
  proposal_executed-SameHoldings id s = ground arith

  pub min_quorum-SameHoldings :
      (b v : ℕ) (s : Store G) → SameHoldings G N s (handle_min_quorum_votes_bps_set G N b v s)
  unfolding handle_min_quorum_votes_bps_set
  min_quorum-SameHoldings b v s = ground arith

  pub max_quorum-SameHoldings :
      (b v : ℕ) (s : Store G) → SameHoldings G N s (handle_max_quorum_votes_bps_set G N b v s)
  unfolding handle_max_quorum_votes_bps_set
  max_quorum-SameHoldings b v s = ground arith

  pub coefficient-SameHoldings :
      (b v : ℕ) (s : Store G) → SameHoldings G N s (handle_quorum_coefficient_set G N b v s)
  unfolding handle_quorum_coefficient_set
  coefficient-SameHoldings b v s = ground arith

  pub votes_changed-SameHoldings :
      (e : DelegateVotesChanged G) (s : Store G)
      → SameHoldings G N s (handle_delegate_votes_changed G N e s)
  unfolding handle_delegate_votes_changed
  votes_changed-SameHoldings e s =
      let d = get_or_create_delegate-SameHoldings G N (G.to_hex e.delegate) s in
      record { accounts = d.accounts; nouns = d.nouns }

  pub auction_created-SameHoldings :
      (e : AuctionCreated G) (s : Store G) → SameHoldings G N s (handle_auction_created G N e s)
  unfolding handle_auction_created
  auction_created-SameHoldings e s = ground arith

  pub auction_extended-SameHoldings :
      (o : Origin G) (id t : ℕ) (s : Store G)
      → SameHoldings G N s (handle_auction_extended G N o id t s)
  unfolding handle_auction_extended
  auction_extended-SameHoldings o id t s = ground arith

  pub auction_settled-SameHoldings :
      (o : Origin G) (id : ℕ) (s : Store G) → SameHoldings G N s (handle_auction_settled G N o id s)
  unfolding handle_auction_settled
  auction_settled-SameHoldings o id s = ground arith
