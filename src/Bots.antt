-- ===== src/Bots.antt =====
-- packages/nouns-bots/src: index.ts, cache.ts and utils/proposals.ts, what is sent at each tick.
-- The cache in Redis is a record; an answer of the subgraph and the time are arguments. A message
-- stands for the calls of all handlers. The steps of one tick are in order; the counters are left
-- out, and the proposals of one answer, which differ in their keys, are taken one after the other.
pub mod Ticks
mod Tests
use composable_nouns_monorep.Common.{
  ℕ, suc, ◌+◌, ◌*◌, ◌≡◌, refl, Bool, true, false, not, ◌&&◌, ◌||◌, Option, none, some, List, [],
  ◌∷◌, ◌++◌, map, ltb, leb, ◌==◌, if◌then◌else◌, String, str_eq, includes,
}

pub record Bid : Type 0 where
  pub id : String
  pub amount : String
  pub bidder_id : String

pub record AuctionBids : Type 0 where
  pub id : ℕ
  pub end_time : ℕ
  pub bids : List Bid

pub record Vote : Type 0 where
  pub id : String
  pub voter_id : String
  pub votes : ℕ
  pub support_detailed : ℕ
  pub reason : Option String

pub record Proposal : Type 0 where
  pub id : ℕ
  pub proposer_id : String
  pub description : String
  pub status : String
  pub quorum_votes : ℕ
  pub proposal_threshold : ℕ
  pub start_block : ℕ
  pub end_block : ℕ
  pub execution_eta : ℕ
  pub votes : List Vote

pub data Message : Type 0 where
  new_auction : ℕ → Message
  new_bid : ℕ → Bid → Message
  auction_ending_soon : ℕ → Message
  new_proposal : Proposal → Message
  updated_proposal_status : Proposal → Message
  governance_vote : Proposal → Vote → Message
  proposal_at_risk_of_expiry : Proposal → Message

-- A missing number reads as 0 and a missing bid as the empty text.
pub record Cache : Type 0 where
  pub auction : ℕ
  pub bid : String
  pub auction_ending_soon : ℕ
  pub proposals : List (ℕ × Proposal)
  pub warned_of_expiry : List ℕ

abbrev pub get_proposal_cache : ℕ → List (ℕ × Proposal) → Option Proposal
get_proposal_cache id [] = none
get_proposal_cache id ((j, p) ∷ cache) = if j == id then some p else get_proposal_cache id cache

-- A new value stands in front of the one that it replaces.
abbrev pub update_proposal_cache : Proposal → Cache → Cache
update_proposal_cache p c = record c { proposals = (p.id, p) ∷ c.proposals }

abbrev pub has_warned_of_expiry : ℕ → List ℕ → Bool
has_warned_of_expiry id [] = false
has_warned_of_expiry id (j ∷ warned) = (j == id) || has_warned_of_expiry id warned

abbrev pub setup_auction : AuctionBids → Cache → Cache
setup_auction last c = record c { auction = last.id }

abbrev pub setup_governance : List Proposal → Cache → Cache
setup_governance [] c = c
setup_governance (p ∷ proposals) c = setup_governance proposals (update_proposal_cache p c)

unfoldable pub check_auction : AuctionBids → Cache → List Message × Cache
check_auction last c =
    if ltb c.auction last.id
    then (new_auction last.id ∷ [], record c { auction = last.id })
    else ([], c)

-- The test of the latest bid.
unfoldable pub check_bid : AuctionBids → Cache → List Message × Cache
check_bid last c = elim last.bids [
  | [] ↦ ([], c)
  | b ∷ bids ↦
      if str_eq c.bid b.id then ([], c) else (new_bid last.id b ∷ [], record c { bid = b.id })
]

-- `endTime - now < 20 * 60`, without the subtraction.
unfoldable pub check_ending_soon : AuctionBids → ℕ → Cache → List Message × Cache
check_ending_soon last now c =
    if ltb last.end_time (now + 20 * 60) && ltb c.auction_ending_soon last.id
    then (auction_ending_soon last.id ∷ [], record c { auction_ending_soon = last.id })
    else ([], c)

-- The three tests read the cache before any of them writes; each has an entry of its own.
unfoldable pub process_auction_tick : AuctionBids → ℕ → Cache → List Message × Cache
unfolding check_auction check_bid check_ending_soon
process_auction_tick last now c =
    let (auctions, c1) = check_auction last c in
    let (bids, c2) = check_bid last c1 in
    let (endings, c3) = check_ending_soon last now c2 in (auctions ++ bids ++ endings, c3)

abbrev pub vote_ids : List Vote → List String
vote_ids votes = map (λ v. v.id) votes

-- The votes with an id that is not among the given ones, and with a weight.
unfoldable pub new_votes : List String → List Vote → List Vote
new_votes before [] = []
new_votes before (v ∷ votes) =
    let rest = new_votes before votes in
    if not (includes before v.id) && ltb 0 v.votes then v ∷ rest else rest

abbrev pub extract_new_votes : Proposal → Proposal → List Vote
extract_new_votes before now = new_votes (vote_ids before.votes) now.votes

abbrev pub seconds_in_day : ℕ
seconds_in_day = 60 * 60 * 24

-- Two days before the limit of 14 days, and not after it; without the subtraction.
unfoldable pub is_at_risk_of_expiry : ℕ → Proposal → Bool
is_at_risk_of_expiry now p =
    let expires_at = p.execution_eta + seconds_in_day * 14 in
    str_eq p.status "QUEUED" && (ltb now expires_at && leb expires_at (now + seconds_in_day * 2))

abbrev pub warns : ℕ → Proposal → Cache → Bool
warns now p c = is_at_risk_of_expiry now p && not (has_warned_of_expiry p.id c.warned_of_expiry)

abbrev pub status_messages : Proposal → Proposal → List Message
status_messages before p =
    if str_eq before.status p.status then [] else updated_proposal_status p ∷ []

unfoldable pub process_proposal : ℕ → Proposal → Cache → List Message × Cache
process_proposal now p c = elim (get_proposal_cache p.id c.proposals) [
  | none ↦ (new_proposal p ∷ [], update_proposal_cache p c)
  | some before ↦ (
    status_messages before p
        ++ map (governance_vote p) (extract_new_votes before p)
        ++ (if warns now p c then proposal_at_risk_of_expiry p ∷ [] else []),
    update_proposal_cache p
        (if warns now p c then record c { warned_of_expiry = p.id ∷ c.warned_of_expiry } else c),
  )
]

unfoldable pub process_governance_tick : ℕ → List Proposal → Cache → List Message × Cache
unfolding process_proposal
process_governance_tick now [] c = ([], c)
process_governance_tick now (p ∷ proposals) c =
    let (messages, c1) = process_proposal now p c in
    let (rest, c2) = process_governance_tick now proposals c1 in (messages ++ rest, c2)
