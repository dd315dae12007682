-- ===== src/Subgraph/Auctions.antt =====
-- packages/nouns-subgraph/src/nouns-auction-house.ts.
pub mod Lots
mod Tests
use composable_nouns_monorep.Common.{ℕ, none, some, [], ◌∷◌, true, false}
use composable_nouns_monorep.Subgraph.Host.{GraphNode}
use composable_nouns_monorep.Subgraph.Events.{Origin, noun_key}
use composable_nouns_monorep.Subgraph.Schema.{Auction, Bid, Account, Generated}
use composable_nouns_monorep.Subgraph.Store.{
  Store, save_auction, save_bid, log_error, get_or_create_account,
}

module _ (G : GraphNode) where
  pub record AuctionCreated : Type 0 where
    pub origin : Origin G
    pub noun_id : ℕ
    pub start_time : ℕ
    pub end_time : ℕ

  pub record AuctionBid : Type 0 where
    pub origin : Origin G
    pub noun_id : ℕ
    pub sender : G.Bytes
    pub value : ℕ

module _ (G : GraphNode) (N : Generated G) where
  unfoldable pub handle_auction_created : AuctionCreated G → Store G → Store G
  handle_auction_created e s = elim (G.load s.nouns (noun_key G e.noun_id)) [
    | none ↦
        log_error G "[handleAuctionCreated] Noun #{} not found. Hash: {}"
          (noun_key G e.noun_id ∷ G.to_hex e.origin.transaction_hash ∷ []) s
    | some noun ↦
        save_auction G
          (record (N.new_auction (noun_key G e.noun_id)) {
            id = noun_key G e.noun_id;
            noun = noun.id;
            amount = 0;
            start_time = e.start_time;
            end_time = e.end_time;
            settled = false;
          })
          s
  ]

  abbrev bid_of : AuctionBid G → Account → Auction → Bid
  bid_of e bidder auction = record (N.new_bid (G.to_hex e.origin.transaction_hash)) {
    id = G.to_hex e.origin.transaction_hash;
    bidder = some bidder.id;
    amount = auction.amount;
    noun = auction.noun;
    tx_index = e.origin.transaction_index;
    block_number = e.origin.block_number;
    block_timestamp = e.origin.block_timestamp;
    auction = auction.id;
  }

  unfoldable pub handle_auction_bid : AuctionBid G → Store G → Store G
  handle_auction_bid e s =
      let (bidder, s1) = get_or_create_account G N (G.to_hex e.sender) s in
      elim (G.load s1.auctions (noun_key G e.noun_id)) [
        | none ↦
            log_error G "[handleAuctionBid] Auction not found for Noun #{}. Hash: {}"
              (noun_key G e.noun_id ∷ G.to_hex e.origin.transaction_hash ∷ []) s1
        | some auction ↦
            let auction' = record auction { amount = e.value; bidder = some bidder.id } in
            save_bid G (bid_of e bidder auction') (save_auction G auction' s1)
      ]

  unfoldable pub handle_auction_extended : Origin G → ℕ → ℕ → Store G → Store G
  handle_auction_extended origin noun_id end_time s =
      elim (G.load s.auctions (noun_key G noun_id)) [
        | none ↦
            log_error G "[handleAuctionExtended] Auction not found for Noun #{}. Hash: {}"
              (noun_key G noun_id ∷ G.to_hex origin.transaction_hash ∷ []) s
        | some auction ↦ save_auction G (record auction { end_time = end_time }) s
      ]

  unfoldable pub handle_auction_settled : Origin G → ℕ → Store G → Store G
  handle_auction_settled origin noun_id s = elim (G.load s.auctions (noun_key G noun_id)) [
    | none ↦
        log_error G "[handleAuctionSettled] Auction not found for Noun #{}. Hash: {}"
          (noun_key G noun_id ∷ G.to_hex origin.transaction_hash ∷ []) s
    | some auction ↦ save_auction G (record auction { settled = true }) s
  ]
