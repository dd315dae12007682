-- ===== src/Webapp/Display.antt =====
-- packages/nouns-webapp/src: state/slices/{onDisplayAuction,pastAuctions,account}.ts,
-- wrappers/onDisplayAuction.ts, utils/nounderNoun.ts and useNounCanVoteTimestamp of
-- wrappers/nounsAuction.ts: which auction is on display. A hook is a function of the slices that it
-- selects; a BigNumber is the number it holds.
pub mod Navigation
pub mod Bids
use composable_nouns_monorep.Common.{
  ℕ, zero, suc, ◌+◌, ◌-◌, ◌%◌, ◌≡◌, refl, Bool, true, false, ◌&&◌, ◌||◌, Option, none, some, List,
  [], ◌∷◌, map, ltb, leb, ◌==◌, if◌then◌else◌, String,
}
use composable_nouns_monorep.Webapp.Auction.{Auction, BidEvent, AuctionState}

pub record OnDisplayAuctionState : Type 0 where
  pub last_auction_noun_id : Option ℕ
  pub on_display_auction_noun_id : Option ℕ

abbrev pub nothing_on_display : OnDisplayAuctionState
nothing_on_display = record { last_auction_noun_id = none; on_display_auction_noun_id = none }

abbrev pub set_last_auction_noun_id : ℕ → OnDisplayAuctionState → OnDisplayAuctionState
set_last_auction_noun_id id s = record s { last_auction_noun_id = some id }

abbrev pub set_on_display_auction_noun_id : ℕ → OnDisplayAuctionState → OnDisplayAuctionState
set_on_display_auction_noun_id id s = record s { on_display_auction_noun_id = some id }

-- The first guard is `!id`, of undefined and of 0; the second is never reached.
abbrev pub previous_id : ℕ → ℕ
previous_id id = if id == 0 then id else id - 1

unfoldable pub set_prev_on_display_auction_noun_id : OnDisplayAuctionState → OnDisplayAuctionState
set_prev_on_display_auction_noun_id s = elim s.on_display_auction_noun_id [
  | none ↦ s
  | some id ↦ record s { on_display_auction_noun_id = some (previous_id id) }
]

-- `lastAuctionNounId === onDisplayAuctionNounId`, of an id on display.
abbrev pub is_last : Option ℕ → ℕ → Bool
is_last none id = false
is_last (some last) id = last == id

unfoldable pub set_next_on_display_auction_noun_id : OnDisplayAuctionState → OnDisplayAuctionState
set_next_on_display_auction_noun_id s = elim s.on_display_auction_noun_id [
  | none ↦ s
  | some id ↦
      if is_last s.last_auction_noun_id id
      then s
      else record s { on_display_auction_noun_id = some (suc id) }
]

-- An auction as the subgraph gives it.
pub record QueriedBid : Type 0 where
  pub id : String
  pub amount : ℕ
  pub block_timestamp : ℕ
  pub bidder_id : String

pub record QueriedAuction : Type 0 where
  pub id : ℕ
  pub amount : ℕ
  pub start_time : ℕ
  pub end_time : ℕ
  pub bidder_id : Option String
  pub bids : List QueriedBid

abbrev past_bid : ℕ → QueriedBid → BidEvent
past_bid noun_id b = record {
  noun_id = noun_id;
  sender = b.bidder_id;
  value = b.amount;
  extended = false;
  transaction_hash = b.id;
  timestamp = b.block_timestamp;
}

abbrev past_auction : QueriedAuction → AuctionState
past_auction a = record {
  active_auction = some (record {
    amount = a.amount;
    bidder = elim a.bidder_id [ none ↦ "" | some id ↦ id ];
    start_time = a.start_time;
    end_time = a.end_time;
    noun_id = a.id;
    settled = false;
  });
  bids = map (past_bid a.id) a.bids;
}

-- The guard `auctions.length < 0` never holds.
unfoldable pub redux_safe_past_auctions : List QueriedAuction → List AuctionState
redux_safe_past_auctions auctions = map past_auction auctions

abbrev pub set_active_account : Option String → Option String → Option String
set_active_account account s = account

abbrev pub is_nounder_noun : ℕ → Bool
is_nounder_noun id = (id % 10 == 0) || (id == 0)

-- `auctions.find(...)`, the first state whose auction is of the Noun; a past auction has one.
unfoldable pub find_auction : ℕ → List AuctionState → Option AuctionState
find_auction id [] = none
find_auction id (s ∷ rest) =
    let more = find_auction id rest in
    elim s.active_auction [ none ↦ more | some a ↦ if a.noun_id == id then some s else more ]

abbrev pub auction_of : Option AuctionState → Option Auction
auction_of none = none
auction_of (some s) = s.active_auction

unfoldable pub generate_empty_nounder_auction : ℕ → List AuctionState → Auction
unfolding find_auction
generate_empty_nounder_auction id past = record {
  amount = 0;
  bidder = "";
  start_time = elim (auction_of (find_auction (suc id) past)) [ none ↦ 0 | some a ↦ a.start_time ];
  end_time = 0;
  noun_id = id;
  settled = false;
}

abbrev pub deserialize_auction : Auction → Auction
deserialize_auction a = record a { settled = false }

-- `bids.sort((a, b) => b.timestamp - a.timestamp)`, which is stable: latest first.
unfoldable pub insert_bid : BidEvent → List BidEvent → List BidEvent
insert_bid b [] = b ∷ []
insert_bid b (c ∷ bids) =
    let rest = insert_bid b bids in if ltb b.timestamp c.timestamp then c ∷ rest else b ∷ c ∷ bids

unfoldable pub deserialize_bids : List BidEvent → List BidEvent
unfolding insert_bid
deserialize_bids [] = []
deserialize_bids (b ∷ bids) = insert_bid b (deserialize_bids bids)

unfoldable pub use_on_display_auction :
    AuctionState → OnDisplayAuctionState → List AuctionState → Option Auction
use_on_display_auction current display past = elim display.on_display_auction_noun_id [
  | none ↦ none
  | some id ↦ elim current.active_auction [
    | none ↦ none
    | some auction ↦
        if id == auction.noun_id
        then some (deserialize_auction auction)
        else if is_nounder_noun id
        then some (deserialize_auction (generate_empty_nounder_auction id past))
        else elim (auction_of (find_auction id past)) [
          | none ↦ none
          | some a ↦ some (deserialize_auction a)
        ]
  ]
]

unfoldable pub use_auction_bids :
    ℕ → AuctionState → OnDisplayAuctionState → List AuctionState → Option (List BidEvent)
use_auction_bids id current display past =
    if is_last display.last_auction_noun_id id
    then some (deserialize_bids current.bids)
    else elim (find_auction id past) [ none ↦ none | some s ↦ some (deserialize_bids s.bids) ]

-- The time from which a Noun can vote: the start of the next auction that is no Nounder's.
unfoldable pub use_noun_can_vote_timestamp : ℕ → List AuctionState → ℕ
use_noun_can_vote_timestamp id past =
    let next = if is_nounder_noun (suc id) then suc (suc id) else suc id in
    elim (auction_of (find_auction next past)) [ none ↦ 0 | some a ↦ a.start_time ]
