-- ===== src/Subgraph/Auctions/Lots.antt =====
-- An auction from its creation to its settlement, as the handlers store it.
use composable_nouns_monorep.Common.{
  ℕ, ◌≡◌, refl, ap, ◌∙◌, some, String, str_eq, eq_iff, eq_refl, arith, true, false, List, [], ◌∷◌,
}
use composable_nouns_monorep.Subgraph.Host.{GraphNode, IsLawful}
use composable_nouns_monorep.Subgraph.Schema.{Auction, Bid, Generated}
use composable_nouns_monorep.Subgraph.Events.{Origin, noun_key}
use composable_nouns_monorep.Subgraph.Store.{Store, get_or_create_account}
use composable_nouns_monorep.Subgraph.Transfer.Accounts.{
  account_of-id, HasIds, load-get_or_create_account,
}
use composable_nouns_monorep.Subgraph.Auctions.{
  AuctionBid, bid_of, handle_auction_bid, handle_auction_extended, handle_auction_settled,
}

module _ (G : GraphNode) (N : Generated G) where
  -- The events of one auction after its creation.
  pub data AuctionEvent : Type 0 where
    bid : AuctionBid G → AuctionEvent
    extended : Origin G → ℕ → AuctionEvent
    settled : Origin G → AuctionEvent

  -- The events as the handlers see them, all on the auction of one Noun.
  abbrev pub handle : ℕ → AuctionEvent → Store G → Store G
  handle id (bid e) s = handle_auction_bid G N (record e { noun_id = id }) s
  handle id (extended r t) s = handle_auction_extended G N r id t s
  handle id (settled r) s = handle_auction_settled G N r id s

  unfoldable pub handle_all : ℕ → List AuctionEvent → Store G → Store G
  handle_all id [] s = s
  handle_all id (e ∷ es) s = handle_all id es (handle id e s)

  -- What an auction comes to by an event: the last bid and its bidder, the last end, settled for good.
  abbrev pub after : Auction → AuctionEvent → Auction
  after a (bid e) = record a { amount = e.value; bidder = some (G.to_hex e.sender) }
  after a (extended r t) = record a { end_time = t }
  after a (settled r) = record a { settled = true }

  abbrev pub after_all : List AuctionEvent → Auction → Auction
  after_all [] a = a
  after_all (e ∷ es) a = after_all es (after a e)

  module _ (L : IsLawful G) where
    account-auctions :
        (k : String) (s : Store G) → (get_or_create_account G N k s).1.auctions ≡ s.auctions
    unfolding get_or_create_account
    account-auctions k s = ground arith

    HasIds-get_or_create_account :
        (k : String) (s : Store G) → HasIds G N L s → HasIds G N L (get_or_create_account G N k s).1
    HasIds-get_or_create_account k s h a x p = ground (
      arith,
      load-get_or_create_account G N L k a s (account_of-id G N L s h k),
      account_of-id G N L s h k,
      eq_iff k a,
      h a x,
    )

    -- The auctions after an event, as one write of the auction's new state.
    abbrev Writes : Store G → Store G → Auction → Type 0
    Writes s t a = HasIds G N L t × (t.auctions ≡ G.save s.auctions a.id a)

    handle-Writes :
        (id : ℕ) (e : AuctionEvent) (s : Store G) (a : Auction)
        → HasIds G N L s
        → G.load s.auctions (noun_key G id) ≡ some a
        → Writes s (handle id e s) (after a e)
    unfolding handle_auction_bid handle_auction_extended handle_auction_settled
    handle-Writes id (bid e) s a h k =
        let b = G.to_hex e.sender in
        let s1 = (get_or_create_account G N b s).1 in
        let same = account-auctions b s in
        let found : G.load s1.auctions (noun_key G id) ≡ some a =
          ap (λ t. G.load t (noun_key G id)) same ∙ k in
        rw (found, handle_auction_bid)
          (HasIds-get_or_create_account b s h, rw (same, account_of-id G N L s h b) refl)
    handle-Writes id (extended r t) s a h k = rw (k, handle_auction_extended) (h, refl)
    handle-Writes id (settled r) s a h k = rw (k, handle_auction_settled) (h, refl)

    after-id : (a : Auction) (e : AuctionEvent) → (after a e).id ≡ a.id
    after-id a (bid e) = refl
    after-id a (extended r t) = refl
    after-id a (settled r) = refl

    -- Where accounts and the auction are stored under their ids, the auction's entity is, after
    -- any bids, extensions and settlements of it, what they come to one after the other, and the
    -- other auctions' entities are as they were.
    pub handle_all_lem :
        (id : ℕ) (es : List AuctionEvent) (s : Store G) (a : Auction)
        → HasIds G N L s
        → G.load s.auctions (noun_key G id) ≡ some a
        → a.id ≡ noun_key G id
        → (G.load (handle_all id es s).auctions (noun_key G id) ≡ some (after_all es a))
          × ((k : String)
              → str_eq (noun_key G id) k ≡ false
              → G.load (handle_all id es s).auctions k ≡ G.load s.auctions k)
    unfolding handle_all
    handle_all_lem id [] s a h k same = (k, λ j other. refl)
    handle_all_lem id (e ∷ es) s a h k same =
        let key = noun_key G id in
        let (h', written) = handle-Writes id e s a h k in
        let same' = after-id a e ∙ same in
        let here : G.load (handle id e s).auctions key ≡ some (after a e) =
          rw (written, L.load-save, same', eq_refl key) refl in
        let (there, others) = handle_all_lem id es (handle id e s) (after a e) h' here same' in
        (there, λ j other. others j other ∙ rw (written, L.load-save, same', other) refl)

    -- Where accounts are stored under their ids, a bid on a stored auction stores a bid entity
    -- under the transaction's hash, with the value and the bidder, for the auction and its Noun.
    pub load_bids-handle_auction_bid :
        (e : AuctionBid G) (s : Store G) (a : Auction)
        → HasIds G N L s
        → G.load s.auctions (noun_key G e.noun_id) ≡ some a
        → let t = handle_auction_bid G N e s in
          (b : Bid) × (G.load t.bids (G.to_hex e.origin.transaction_hash) ≡ some b)
          × (b.amount ≡ e.value)
          × (b.bidder ≡ some (G.to_hex e.sender))
          × (b.auction ≡ a.id)
          × (b.noun ≡ a.noun)
    unfolding handle_auction_bid
    load_bids-handle_auction_bid e s a h k =
        let (bidder, s1) = get_or_create_account G N (G.to_hex e.sender) s in
        let a' = record a { amount = e.value; bidder = some bidder.id } in
        let b = bid_of G N e bidder a' in
        let found : G.load s1.auctions (noun_key G e.noun_id) ≡ some a =
          ap (λ t. G.load t (noun_key G e.noun_id)) (account-auctions (G.to_hex e.sender) s) ∙ k in
        (
          b,
          rw (found, handle_auction_bid, L.load-save, eq_refl (G.to_hex e.origin.transaction_hash))
              refl,
          refl,
          ap some (account_of-id G N L s h (G.to_hex e.sender)),
          refl,
          refl,
        )
