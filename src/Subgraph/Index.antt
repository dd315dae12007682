-- ===== src/Subgraph/Index.antt =====
-- packages/nouns-subgraph/subgraph.yaml.mustache: which handler an event goes to, and the run of
-- the subgraph over a history of events.
pub mod View
pub mod Frames
pub mod Tracking
use composable_nouns_monorep.Common.{ℕ, Option, none, some, List, [], ◌∷◌}
use composable_nouns_monorep.Subgraph.Host.{GraphNode}
use composable_nouns_monorep.Subgraph.Schema.{Generated}
use composable_nouns_monorep.Subgraph.Store.{Store}
use composable_nouns_monorep.Subgraph.Events.{
  Origin, NounCreated, DelegateChanged, DelegateVotesChanged, Transfer,
}
use composable_nouns_monorep.Subgraph.Token.{
  handle_noun_created, handle_delegate_changed, handle_delegate_votes_changed,
}
use composable_nouns_monorep.Subgraph.Transfer.{handle_transfer}
use composable_nouns_monorep.Subgraph.Dao.{
  ProposalCreated, VoteCast, handle_proposal_created, handle_proposal_canceled,
  handle_proposal_vetoed, handle_proposal_queued, handle_proposal_executed, handle_vote_cast,
  handle_min_quorum_votes_bps_set, handle_max_quorum_votes_bps_set, handle_quorum_coefficient_set,
}
use composable_nouns_monorep.Subgraph.Auctions.{
  AuctionCreated, AuctionBid, handle_auction_created, handle_auction_bid, handle_auction_extended,
  handle_auction_settled,
}
use composable_nouns_monorep.Subgraph.Quorum.{◌>>=◌}

module _ (G : GraphNode) where
  pub data Event : Type 0 where
    noun_created : NounCreated G → Event
    delegate_changed : DelegateChanged G → Event
    delegate_votes_changed : DelegateVotesChanged G → Event
    transfer : Transfer G → Event
    proposal_created : ProposalCreated G → Event
    proposal_canceled proposal_vetoed proposal_executed : ℕ → Event
    proposal_queued : ℕ → ℕ → Event
    vote_cast : VoteCast G → Event
    min_quorum_votes_bps_set max_quorum_votes_bps_set quorum_coefficient_set : ℕ → ℕ → Event
    auction_created : AuctionCreated G → Event
    auction_bid : AuctionBid G → Event
    auction_extended : Origin G → ℕ → ℕ → Event
    auction_settled : Origin G → ℕ → Event

module _ (G : GraphNode) (N : Generated G) where
  -- `none`: the handler aborts, and indexing stops.
  unfoldable pub index : Event G → Store G → Option (Store G)
  index (noun_created e) s = some (handle_noun_created G N e s)
  index (delegate_changed e) s = some (handle_delegate_changed G N e s)
  index (delegate_votes_changed e) s = some (handle_delegate_votes_changed G N e s)
  index (transfer e) s = some (handle_transfer G N e s)
  index (proposal_created e) s = some (handle_proposal_created G N e s)
  index (proposal_canceled id) s = some (handle_proposal_canceled G N id s)
  index (proposal_vetoed id) s = some (handle_proposal_vetoed G N id s)
  index (proposal_executed id) s = some (handle_proposal_executed G N id s)
  index (proposal_queued id eta) s = some (handle_proposal_queued G N id eta s)
  index (vote_cast e) s = handle_vote_cast G N e s
  index (min_quorum_votes_bps_set block v) s = some (handle_min_quorum_votes_bps_set G N block v s)
  index (max_quorum_votes_bps_set block v) s = some (handle_max_quorum_votes_bps_set G N block v s)
  index (quorum_coefficient_set block v) s = some (handle_quorum_coefficient_set G N block v s)
  index (auction_created e) s = some (handle_auction_created G N e s)
  index (auction_bid e) s = some (handle_auction_bid G N e s)
  index (auction_extended origin id t) s = some (handle_auction_extended G N origin id t s)
  index (auction_settled origin id) s = some (handle_auction_settled G N origin id s)

  unfoldable pub index_all : List (Event G) → Store G → Option (Store G)
  index_all [] s = some s
  index_all (e ∷ es) s = index e s >>= index_all es
