-- ===== src/Webapp/Auction/Bids.antt =====
-- While an auction runs, the slice shows its highest bid.
use composable_nouns_monorep.Common.{
  some_path, ℕ, ◌≤◌, ◌≡◌, refl, sym, ap, subst, true, false, ◌⊎◌, inl, inr, Option, none, some,
  List, [], ◌∷◌, ltb, String, count, includes-count, Bool-cases, arith, eq_iff, eq_refl,
}
use composable_nouns_monorep.Webapp.Auction.{
  Auction, BidEvent, AuctionCreateEvent, AuctionExtendedEvent, AuctionState, max_bid, hashes,
  contains_bid, auctions_equal, set_active_auction, append_bid, set_auction_extended,
}

-- The events of an auction that runs.
pub data RunningEvent : Type 0 where
  created : AuctionCreateEvent → RunningEvent
  bid : BidEvent → RunningEvent
  extended : AuctionExtendedEvent → RunningEvent

abbrev pub reduce : RunningEvent → AuctionState → AuctionState
reduce (created e) s = set_active_auction e s
reduce (bid b) s = append_bid b s
reduce (extended e) s = set_auction_extended e s

unfoldable pub reduce_all : List RunningEvent → AuctionState → AuctionState
reduce_all [] s = s
reduce_all (e ∷ es) s = reduce_all es (reduce e s)

-- No bid is above an amount.
abbrev pub AtMost : ℕ → List BidEvent → Type 0
AtMost n [] = Unit {0}
AtMost n (b ∷ bids) = (b.value ≤ n) × AtMost n bids

-- A bid has the amount, by the bidder.
abbrev pub IsBid : ℕ → String → List BidEvent → Type 0
IsBid n who [] = ⊥
IsBid n who (b ∷ bids) = ((b.value ≡ n) × (b.sender ≡ who)) ⊎ IsBid n who bids

-- The auction shows a bid of the list that no other is above.
abbrev pub Leads : Auction → List BidEvent → Type 0
Leads a [] = Unit {0}
Leads a (b ∷ bids) = AtMost a.amount (b ∷ bids) × IsBid a.amount a.bidder (b ∷ bids)

pub record IsRunning (s : AuctionState) : Type 0 where
  pub leads : (a : Auction) → s.active_auction ≡ some a → Leads a s.bids
  pub once : (h : String) → count h (hashes s.bids) ≤ 1

max_bid-kept :
    (b c : BidEvent) (bids : List BidEvent)
    → ltb c.value b.value ≡ true
    → max_bid b (c ∷ bids) ≡ max_bid b bids
unfolding max_bid
max_bid-kept b c bids t = rw t refl

max_bid-passed :
    (b c : BidEvent) (bids : List BidEvent)
    → ltb c.value b.value ≡ false
    → max_bid b (c ∷ bids) ≡ max_bid c bids
unfolding max_bid
max_bid-passed b c bids f = rw f refl

max_bid-first : (b : BidEvent) (bids : List BidEvent) → b.value ≤ (max_bid b bids).value
unfolding max_bid
max_bid-first b [] = omega arith
max_bid-first b (c ∷ bids) = elim (Bool-cases (ltb c.value b.value)) [
  | inl t ↦ rw (max_bid-kept b c bids t) (max_bid-first b bids)
  | inr f ↦ rw (max_bid-passed b c bids f) (let above = max_bid-first c bids in ground arith)
]

max_bid-rest : (b : BidEvent) (bids : List BidEvent) → AtMost (max_bid b bids).value bids
unfolding max_bid
max_bid-rest b [] = tt
max_bid-rest b (c ∷ bids) = elim (Bool-cases (ltb c.value b.value)) [
  | inl t ↦
      subst (λ (m : BidEvent). AtMost m.value (c ∷ bids)) (sym (max_bid-kept b c bids t))
        (let above = max_bid-first b bids in (ground arith, max_bid-rest b bids))
  | inr f ↦
      subst (λ (m : BidEvent). AtMost m.value (c ∷ bids)) (sym (max_bid-passed b c bids f))
        (max_bid-first c bids, max_bid-rest c bids)
]

max_bid-IsBid :
    (b : BidEvent) (bids : List BidEvent)
    → IsBid (max_bid b bids).value (max_bid b bids).sender (b ∷ bids)
unfolding max_bid
max_bid-IsBid b [] = inl (refl, refl)
max_bid-IsBid b (c ∷ bids) = elim (Bool-cases (ltb c.value b.value)) [
  | inl t ↦
      subst (λ (m : BidEvent). IsBid m.value m.sender (b ∷ c ∷ bids))
        (sym (max_bid-kept b c bids t))
        (elim (max_bid-IsBid b bids) [ inl p ↦ inl p | inr q ↦ inr (inr q) ])
  | inr f ↦
      subst (λ (m : BidEvent). IsBid m.value m.sender (b ∷ c ∷ bids))
        (sym (max_bid-passed b c bids f)) (inr (max_bid-IsBid c bids))
]

Leads-same :
    (a a' : Auction) (bids : List BidEvent)
    → a.amount ≡ a'.amount
    → a.bidder ≡ a'.bidder
    → Leads a bids
    → Leads a' bids
Leads-same a a' [] p q h = tt
Leads-same a a' (b ∷ bids) p q h =
    subst (λ n. AtMost n (b ∷ bids) × IsBid n a'.bidder (b ∷ bids)) p
      (subst (λ w. AtMost a.amount (b ∷ bids) × IsBid a.amount w (b ∷ bids)) q h)

-- The bid that `appendBid` takes up, and the state then.
abbrev pub IsNew : BidEvent → Auction → AuctionState → Type 0
IsNew b a s =
    (s.active_auction ≡ some a)
    × (auctions_equal a b.noun_id ≡ true)
    × (contains_bid s.bids b ≡ false)

abbrev pub with_bid : BidEvent → Auction → AuctionState → AuctionState
with_bid b a s = record {
  active_auction =
      some (record a { amount = (max_bid b s.bids).value; bidder = (max_bid b s.bids).sender });
  bids = b ∷ s.bids;
}

append_bid-cases_of :
    (b : BidEvent) (o : Option Auction) (bids : List BidEvent)
    → let s : AuctionState = record { active_auction = o; bids = bids } in
      (append_bid b s ≡ s) ⊎ ((a : Auction) × IsNew b a s × (append_bid b s ≡ with_bid b a s))
unfolding append_bid
append_bid-cases_of b none bids = inl refl
append_bid-cases_of b (some a) bids = elim (Bool-cases (auctions_equal a b.noun_id)) [
  | inr f ↦ inl (rw f refl)
  | inl t ↦ elim (Bool-cases (contains_bid bids b)) [
    | inl i ↦ inl (rw (t, i) refl)
    | inr n ↦ inr (a, (refl, t, n), rw (t, n) refl)
  ]
]

append_bid-cases :
    (b : BidEvent) (s : AuctionState)
    → (append_bid b s ≡ s) ⊎ ((a : Auction) × IsNew b a s × (append_bid b s ≡ with_bid b a s))
append_bid-cases b s = append_bid-cases_of b s.active_auction s.bids

IsRunning-with_bid :
    (b : BidEvent) (a : Auction) (s : AuctionState)
    → IsNew b a s
    → IsRunning s
    → IsRunning (with_bid b a s)
IsRunning-with_bid b a s new r = record {
  leads = λ a' e.
      subst (λ x. Leads x (b ∷ s.bids)) (some_path e)
        ((max_bid-first b s.bids, max_bid-rest b s.bids), max_bid-IsBid b s.bids);
  once = λ h.
      let fresh = includes-count b.transaction_hash (hashes s.bids) new.2 in
      ground (arith, r.once h, eq_iff b.transaction_hash h, eq_iff h b.transaction_hash, fresh);
}

IsRunning-extended :
    (e : AuctionExtendedEvent) (o : Option Auction) (bids : List BidEvent)
    → IsRunning (record { active_auction = o; bids = bids })
    → IsRunning (set_auction_extended e (record { active_auction = o; bids = bids }))
unfolding set_auction_extended
IsRunning-extended e none bids r = r
IsRunning-extended e (some a) bids r = elim (Bool-cases (auctions_equal a e.noun_id)) [
  | inr f ↦ rw f r
  | inl t ↦ rw t (record {
    leads = λ a' p.
        let a_e : Auction = record a { end_time = e.end_time } in
        subst (λ x. Leads x bids) (some_path p) (Leads-same a a_e bids refl refl (r.leads a refl));
    once = r.once;
  })
]

IsRunning-reduce : (e : RunningEvent) (s : AuctionState) → IsRunning s → IsRunning (reduce e s)
unfolding set_active_auction
IsRunning-reduce (created e) s r = record { leads = λ a p. tt; once = λ h. omega arith }
IsRunning-reduce (bid b) s r = elim (append_bid-cases b s) [
  | inl same ↦ rw same r
  | inr (a, new, added) ↦ rw added (IsRunning-with_bid b a s new r)
]
IsRunning-reduce (extended e) s r = IsRunning-extended e s.active_auction s.bids r

-- From a state in which the auction shows the amount and the bidder of a listed bid that none is
-- above, if any is listed, and no transaction is listed twice, any creations, bids and extensions,
-- in any order and any number of times, lead to such a state.
pub IsRunning-reduce_all :
    (es : List RunningEvent) (s : AuctionState) → IsRunning s → IsRunning (reduce_all es s)
unfolding reduce_all
IsRunning-reduce_all [] s r = r
IsRunning-reduce_all (e ∷ es) s r = IsRunning-reduce_all es (reduce e s) (IsRunning-reduce e s r)

listed-append_bid :
    (b : BidEvent) (o : Option Auction) (bids : List BidEvent)
    → contains_bid bids b ≡ true
    → let s : AuctionState = record { active_auction = o; bids = bids } in append_bid b s ≡ s
unfolding append_bid
listed-append_bid b none bids h = refl
listed-append_bid b (some a) bids h = elim (Bool-cases (auctions_equal a b.noun_id)) [
  | inr f ↦ rw f refl
  | inl t ↦ rw (t, h) refl
]

-- A bid that arrives again at once changes nothing.
pub append_bid_idem :
    (b : BidEvent) (s : AuctionState) → append_bid b (append_bid b s) ≡ append_bid b s
append_bid_idem b s = elim (append_bid-cases b s) [
  | inl same ↦ ap (append_bid b) same
  | inr (a, new, added) ↦
      rw added (listed-append_bid b _ (with_bid b a s).bids (rw (eq_refl b.transaction_hash) refl))
]
