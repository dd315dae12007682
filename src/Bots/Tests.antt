-- ===== src/Bots/Tests.antt =====
-- The theorems on the bots at concrete answers of the subgraph.
use composable_nouns_monorep.Common.{ℕ, List, [], ◌∷◌}
use composable_nouns_monorep.Bots.{AuctionBids, Cache}
use composable_nouns_monorep.Bots.Ticks.{announced, run, AreAbove, AreAbove-run}

abbrev no_cache : Cache
no_cache = record {
  auction = 0;
  bid = "";
  auction_ending_soon = 0;
  proposals = [];
  warned_of_expiry = [];
}

abbrev noun_7 : AuctionBids
noun_7 = record {
  id = 7;
  end_time = 1000;
  bids = record { id = "0x1"; amount = "5"; bidder_id = "0xaa" } ∷ [];
}

abbrev ticks : List (AuctionBids × ℕ)
ticks = (noun_7, 900) ∷ (noun_7, 930) ∷ (record noun_7 { id = 8; bids = [] }, 1200) ∷ []

AreAbove-run_example : AreAbove 0 (announced (run ticks no_cache))
AreAbove-run_example = AreAbove-run ticks no_cache
