-- ===== src/Bots/Ticks.antt =====
-- What is sent once is not sent again.
use composable_nouns_monorep.Common.{
  ℕ, ◌<◌, ◌≡◌, refl, sym, subst, Bool, true, false, ◌&&◌, some, List, [], ◌∷◌, ◌++◌, ◌⊎◌, inl, inr,
  Bool-cases, arith, ◌==◌, String, eq_refl, includes,
}
use composable_nouns_monorep.Bots.{
  AuctionBids, Bid, Vote, Proposal, Message, new_auction, Cache, check_auction, check_bid,
  check_ending_soon, process_auction_tick, process_proposal, new_votes, vote_ids,
  is_at_risk_of_expiry, warns, update_proposal_cache, get_proposal_cache,
}

bids-cases : (l : List Bid) → (l ≡ []) ⊎ ((b : Bid) × (rest : List Bid) × (l ≡ b ∷ rest))
bids-cases [] = inl refl
bids-cases (b ∷ rest) = inr (b, rest, refl)

check_bid-again : (last : AuctionBids) (c : Cache) → (check_bid last (check_bid last c).1).0 ≡ []
unfolding check_bid
check_bid-again last c = elim (bids-cases last.bids) [
  | inl e ↦ ground (arith, e)
  | inr (b, rest, e) ↦ ground (arith, e, eq_refl b.id)
]

-- A tick with the answer and at the time of the tick before sends nothing.
pub process_auction_tick_again :
    (last : AuctionBids) (now : ℕ) (c : Cache)
    → (process_auction_tick last now (process_auction_tick last now c).1).0 ≡ []
unfolding process_auction_tick check_auction check_bid check_ending_soon
process_auction_tick_again last now c = ground (arith, check_bid-again last c)

-- The auctions that messages announce.
abbrev pub announced : List Message → List ℕ
announced [] = []
announced (new_auction id ∷ messages) = id ∷ announced messages
announced (m ∷ messages) = announced messages

-- Each number is above the ones before it, and above a bound.
abbrev pub AreAbove : ℕ → List ℕ → Type 0
AreAbove n [] = Unit {0}
AreAbove n (m ∷ ms) = (n < m) × AreAbove m ms

-- A run over the answers and the times of ticks, each of which ends before the next one begins. The
-- timer of `setInterval` does not wait for that: ticks that overlap are no run.
abbrev pub run : List (AuctionBids × ℕ) → Cache → List Message
run [] c = []
run ((last, now) ∷ ticks) c =
    let (messages, c1) = process_auction_tick last now c in messages ++ run ticks c1

AreAbove-tick :
    (last : AuctionBids) (now : ℕ) (c : Cache) (rest : List Message)
    → AreAbove (process_auction_tick last now c).1.auction (announced rest)
    → AreAbove c.auction (announced ((process_auction_tick last now c).0 ++ rest))
unfolding process_auction_tick check_auction check_bid check_ending_soon
AreAbove-tick last now c rest h = ground arith

-- Where each tick ends before the next one begins, then, whatever the subgraph answers, the auctions
-- that are announced are each above the one before, and above the one in the cache: none is announced
-- twice.
pub AreAbove-run :
    (ticks : List (AuctionBids × ℕ)) (c : Cache) → AreAbove c.auction (announced (run ticks c))
AreAbove-run [] c = tt
AreAbove-run ((last, now) ∷ ticks) c =
    AreAbove-tick last now c (run ticks (process_auction_tick last now c).1)
      (AreAbove-run ticks (process_auction_tick last now c).1)

-- The ids of the votes are among the given ones.
abbrev AllAmong : List String → List Vote → Type 0
AllAmong ids [] = Unit {0}
AllAmong ids (v ∷ votes) = (includes ids v.id ≡ true) × AllAmong ids votes

AllAmong-more :
    (id : String) (ids : List String) (votes : List Vote)
    → AllAmong ids votes
    → AllAmong (id ∷ ids) votes
AllAmong-more id ids [] h = tt
AllAmong-more id ids (v ∷ votes) (h, rest) = (ground (arith, h), AllAmong-more id ids votes rest)

AllAmong-self : (votes : List Vote) → AllAmong (vote_ids votes) votes
AllAmong-self [] = tt
AllAmong-self (v ∷ votes) =
    (ground (arith, eq_refl v.id), AllAmong-more v.id (vote_ids votes) votes (AllAmong-self votes))

new_votes-AllAmong :
    (ids : List String) (votes : List Vote) → AllAmong ids votes → new_votes ids votes ≡ []
unfolding new_votes
new_votes-AllAmong ids [] h = refl
new_votes-AllAmong ids (v ∷ votes) (h, rest) = rw (h, new_votes-AllAmong ids votes rest) refl

-- A cached proposal that has not changed, and whose expiry is no risk or has been warned of, sends
-- nothing.
abbrev pub IsSettled : ℕ → Proposal → Cache → Type 0
IsSettled now p c = (get_proposal_cache p.id c.proposals ≡ some p) × (warns now p c ≡ false)

process_proposal-settled :
    (now : ℕ) (p : Proposal) (c : Cache) → IsSettled now p c → (process_proposal now p c).0 ≡ []
unfolding process_proposal
process_proposal-settled now p c (cached, quiet) =
    rw
      (
        cached,
        process_proposal,
        quiet,
        eq_refl p.status,
        new_votes-AllAmong (vote_ids p.votes) p.votes (AllAmong-self p.votes),
      )
      refl

and_false : (b : Bool) → (b && false) ≡ false
and_false true = refl
and_false false = refl

-- Once it has been processed, a cached proposal is settled.
process_proposal-IsSettled :
    (now : ℕ) (p old : Proposal) (c : Cache)
    → get_proposal_cache p.id c.proposals ≡ some old
    → IsSettled now p (process_proposal now p c).1
unfolding process_proposal
process_proposal-IsSettled now p old c cached =
    let same : (p.id == p.id) ≡ true = ground arith in
    elim (Bool-cases (warns now p c)) [
      | inl t ↦
          let warned : Cache = record c { warned_of_expiry = p.id ∷ c.warned_of_expiry } in
          let stored : (process_proposal now p c).1 ≡ update_proposal_cache p warned =
            rw (cached, process_proposal, t) refl in
          subst (IsSettled now p) (sym stored)
            (rw same refl, rw same (and_false (is_at_risk_of_expiry now p)))
      | inr f ↦
          let stored : (process_proposal now p c).1 ≡ update_proposal_cache p c =
            rw (cached, process_proposal, f) refl in
          subst (IsSettled now p) (sym stored) (rw same refl, f)
    ]

-- A proposal that is in the cache, processed twice at one time, sends nothing the second time: no
-- status, no vote and no warning is sent again.
pub process_proposal_again :
    (now : ℕ) (p old : Proposal) (c : Cache)
    → get_proposal_cache p.id c.proposals ≡ some old
    → (process_proposal now p (process_proposal now p c).1).0 ≡ []
process_proposal_again now p old c cached =
    process_proposal-settled now p (process_proposal now p c).1
      (process_proposal-IsSettled now p old c cached)
