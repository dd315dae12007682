-- ===== src/Webapp/Auction.antt =====
-- packages/nouns-webapp/src/state/slices/auction.ts: the auction that runs, from the events of the
-- websocket. A BigNumber is the number it holds, in its JSON form too.
pub mod Bids
use composable_nouns_monorep.Common.{
  ℕ, ◌≡◌, refl, Bool, true, false, not, ◌&&◌, Option, none, some, List, [], ◌∷◌, map, ltb, ◌==◌,
  if◌then◌else◌, String, str_eq, includes,
}

-- wrappers/nounsAuction.ts.
pub record Auction : Type 0 where
  pub amount : ℕ
  pub bidder : String
  pub start_time : ℕ
  pub end_time : ℕ
  pub noun_id : ℕ
  pub settled : Bool

-- utils/types.ts.
pub record BidEvent : Type 0 where
  pub noun_id : ℕ
  pub sender : String
  pub value : ℕ
  pub extended : Bool
  pub transaction_hash : String
  pub timestamp : ℕ

pub record AuctionCreateEvent : Type 0 where
  pub noun_id : ℕ
  pub start_time : ℕ
  pub end_time : ℕ
  pub settled : Bool

pub record AuctionSettledEvent : Type 0 where
  pub noun_id : ℕ
  pub winner : String
  pub amount : ℕ

pub record AuctionExtendedEvent : Type 0 where
  pub noun_id : ℕ
  pub end_time : ℕ

pub record AuctionState : Type 0 where
  pub active_auction : Option Auction
  pub bids : List BidEvent

abbrev pub initial_state : AuctionState
initial_state = record { active_auction = none; bids = [] }

unfoldable pub redux_safe_new_auction : AuctionCreateEvent → Auction
redux_safe_new_auction e = record {
  amount = 0;
  bidder = "";
  start_time = e.start_time;
  end_time = e.end_time;
  noun_id = e.noun_id;
  settled = false;
}

abbrev pub redux_safe_auction : Auction → Auction
redux_safe_auction a = record {
  amount = a.amount;
  bidder = a.bidder;
  start_time = a.start_time;
  end_time = a.end_time;
  noun_id = a.noun_id;
  settled = a.settled;
}

abbrev pub redux_safe_bid : BidEvent → BidEvent
redux_safe_bid b = record {
  noun_id = b.noun_id;
  sender = b.sender;
  value = b.value;
  extended = b.extended;
  transaction_hash = b.transaction_hash;
  timestamp = b.timestamp;
}

-- The reduction of `maxBid` from the left: of equal bids the later in the list stays.
unfoldable pub max_bid : BidEvent → List BidEvent → BidEvent
max_bid prev [] = prev
max_bid prev (current ∷ rest) =
    max_bid (if ltb current.value prev.value then prev else current) rest

abbrev pub hashes : List BidEvent → List String
hashes bids = map (λ b. b.transaction_hash) bids

abbrev pub contains_bid : List BidEvent → BidEvent → Bool
contains_bid bids b = includes (hashes bids) b.transaction_hash

abbrev pub auctions_equal : Auction → ℕ → Bool
auctions_equal a noun_id = a.noun_id == noun_id

-- The guard of three reducers, and what they do to the auction that it lets through.
abbrev pub on_active : ℕ → (Auction → AuctionState → AuctionState) → AuctionState → AuctionState
on_active noun_id f s = elim s.active_auction [
  | none ↦ s
  | some a ↦ if auctions_equal a noun_id then f a s else s
]

unfoldable pub set_active_auction : AuctionCreateEvent → AuctionState → AuctionState
unfolding redux_safe_new_auction
set_active_auction e s = record { active_auction = some (redux_safe_new_auction e); bids = [] }

unfoldable pub set_full_auction : Auction → AuctionState → AuctionState
set_full_auction a s = record s { active_auction = some (redux_safe_auction a) }

unfoldable pub append_bid : BidEvent → AuctionState → AuctionState
append_bid b = on_active b.noun_id (λ a s.
    let highest = max_bid (redux_safe_bid b) s.bids in
    if contains_bid s.bids b then s else record {
      active_auction = some (record a { amount = highest.value; bidder = highest.sender });
      bids = redux_safe_bid b ∷ s.bids;
    })

unfoldable pub set_auction_settled : AuctionSettledEvent → AuctionState → AuctionState
set_auction_settled e = on_active e.noun_id (λ a s. record s {
  active_auction = some (record a { settled = true; bidder = e.winner; amount = e.amount });
})

unfoldable pub set_auction_extended : AuctionExtendedEvent → AuctionState → AuctionState
set_auction_extended e =
    on_active e.noun_id
      (λ a s. record s { active_auction = some (record a { end_time = e.end_time }) })
