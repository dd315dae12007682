-- ===== src/Webapp/Bid.antt =====
-- packages/nouns-webapp/src/components/Bid/index.tsx: the least bid that the form takes, and that it
-- proposes. Amounts are in wei; a percentage that is not loaded is none.
use composable_nouns_monorep.Common.{
  ℕ, ◌+◌, ◌-◌, ◌*◌, ◌/◌, ◌≡◌, Bool, true, false, ◌&&◌, Option, none, some, ◌==◌, leb, if◌then◌else◌,
  arith,
}

-- The quotient, rounded up.
abbrev pub ceil_div : ℕ → ℕ → ℕ
ceil_div a b = (a + (b - 1)) / b

-- `currentBid.times(percentage.div(100).plus(1)).decimalPlaces(0, ROUND_UP)`.
unfoldable pub compute_minimum_next_bid : ℕ → Option ℕ → ℕ
compute_minimum_next_bid current none = 0
compute_minimum_next_bid current (some percentage) = ceil_div (current * (100 + percentage)) 100

abbrev pub wei_per_cent : ℕ
wei_per_cent = 10000000000000000

-- The proposal of the form, in hundredths of an ether: `toFixed(2, ROUND_CEIL)`, and 0.01 for nothing.
unfoldable pub min_bid_eth : ℕ → ℕ
min_bid_eth min_bid = if min_bid == 0 then 1 else ceil_div min_bid wei_per_cent

-- The test of `placeBidHandler`; `none` is an empty input.
unfoldable pub is_placed : ℕ → Option ℕ → Bool
is_placed min_bid none = false
is_placed min_bid (some value) = leb min_bid value

-- packages/nouns-contracts/contracts/NounsAuctionHouse.sol: the tests on the amount in `createBid`.
abbrev pub is_high_enough : ℕ → ℕ → ℕ → ℕ → Bool
is_high_enough reserve_price amount percentage value =
    leb reserve_price value && leb (amount + amount * percentage / 100) value

-- The bid that the form proposes after a bid that is too low is one that it places.
pub min_bid_eth-is_placed :
    (min_bid : ℕ) → is_placed min_bid (some (min_bid_eth min_bid * wei_per_cent)) ≡ true
unfolding is_placed min_bid_eth
min_bid_eth-is_placed min_bid = ground arith
