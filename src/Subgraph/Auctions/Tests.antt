-- ===== src/Subgraph/Auctions/Tests.antt =====
-- The theorems on auctions at concrete events, in the store in memory.
use composable_nouns_monorep.Common.{
  none_some, ◌≡◌, refl, some, String, List, [], ◌∷◌, str_eq, false,
}
use composable_nouns_monorep.Subgraph.Schema.{Auction}
use composable_nouns_monorep.Subgraph.Store.{Store}
use composable_nouns_monorep.Subgraph.Events.{Origin, noun_key}
use composable_nouns_monorep.Subgraph.Auctions.{AuctionBid}
use composable_nouns_monorep.Subgraph.Auctions.Lots.{
  AuctionEvent, bid, extended, settled, handle_all, after_all, handle_all_lem,
}
use composable_nouns_monorep.Subgraph.Memory.{memory, memory-IsLawful, defaults, no_entities}

abbrev origin : Origin memory
origin = record {
  block_number = 20;
  block_timestamp = 1700000000;
  transaction_hash = "0xf00d";
  transaction_index = 3;
}

abbrev lot : Auction
lot = record (defaults.new_auction "11") { noun = "11"; start_time = 100; end_time = 200 }

abbrev auction_store : Store memory
auction_store = record no_entities { auctions = ("11", lot) ∷ [] }

abbrev a_bid : AuctionBid memory
a_bid = record { origin = origin; noun_id = 2; sender = "0xaa"; value = 7 }

abbrev events : List (AuctionEvent memory defaults)
events = bid a_bid ∷ extended origin 300 ∷ settled origin ∷ []

handle_all_example :
    (memory.load (handle_all memory defaults 2 events auction_store).auctions "11"
      ≡ some (after_all memory defaults events lot))
    × ((k : String)
        → str_eq (noun_key memory 2) k ≡ false
        → memory.load (handle_all memory defaults 2 events auction_store).auctions k
          ≡ memory.load auction_store.auctions k)
handle_all_example =
    handle_all_lem memory defaults memory-IsLawful 2 events auction_store lot (λ a x h. none_some h)
      refl refl
