-- ===== src/Webapp/Display/Bids.antt =====
-- The bids of an auction are shown latest first.
use composable_nouns_monorep.Common.{
  ℕ, ◌≤◌, ◌≡◌, refl, inl, inr, List, [], ◌∷◌, ltb, String, Bool-cases, arith, count,
}
use composable_nouns_monorep.Webapp.Auction.{BidEvent, hashes}
use composable_nouns_monorep.Webapp.Display.{insert_bid, deserialize_bids}

-- No bid is later than a time.
abbrev pub NotAfter : ℕ → List BidEvent → Type 0
NotAfter t [] = Unit {0}
NotAfter t (b ∷ bids) = (b.timestamp ≤ t) × NotAfter t bids

abbrev pub IsLatestFirst : List BidEvent → Type 0
IsLatestFirst [] = Unit {0}
IsLatestFirst (b ∷ bids) = NotAfter b.timestamp bids × IsLatestFirst bids

NotAfter-later : (t u : ℕ) (bids : List BidEvent) → t ≤ u → NotAfter t bids → NotAfter u bids
NotAfter-later t u [] h k = tt
NotAfter-later t u (b ∷ bids) h (k, rest) = (omega arith, NotAfter-later t u bids h rest)

NotAfter-insert_bid :
    (t : ℕ) (b : BidEvent) (bids : List BidEvent)
    → b.timestamp ≤ t
    → NotAfter t bids
    → NotAfter t (insert_bid b bids)
unfolding insert_bid
NotAfter-insert_bid t b [] h k = (h, tt)
NotAfter-insert_bid t b (c ∷ bids) h (k, rest) = elim (Bool-cases (ltb b.timestamp c.timestamp)) [
  | inl e ↦ rw (e, insert_bid) (k, NotAfter-insert_bid t b bids h rest)
  | inr e ↦ rw (e, insert_bid) (h, (k, rest))
]

IsLatestFirst-insert_bid :
    (b : BidEvent) (bids : List BidEvent) → IsLatestFirst bids → IsLatestFirst (insert_bid b bids)
unfolding insert_bid
IsLatestFirst-insert_bid b [] h = (tt, tt)
IsLatestFirst-insert_bid b (c ∷ bids) (h, rest) = elim (Bool-cases (ltb b.timestamp c.timestamp)) [
  | inl e ↦
      let earlier : b.timestamp ≤ c.timestamp = ground arith in
      rw (e, insert_bid)
        (NotAfter-insert_bid c.timestamp b bids earlier h, IsLatestFirst-insert_bid b bids rest)
  | inr e ↦
      let later : c.timestamp ≤ b.timestamp = ground arith in
      rw (e, insert_bid) ((later, NotAfter-later _ _ bids later h), (h, rest))
]

count-insert_bid :
    (h : String) (b : BidEvent) (bids : List BidEvent)
    → count h (hashes (insert_bid b bids)) ≡ count h (hashes (b ∷ bids))
unfolding insert_bid
count-insert_bid h b [] = refl
count-insert_bid h b (c ∷ bids) = elim (Bool-cases (ltb b.timestamp c.timestamp)) [
  | inl e ↦ rw (e, insert_bid) (let rest = count-insert_bid h b bids in omega (arith, rest))
  | inr e ↦ rw (e, insert_bid) refl
]

-- The bids as they are shown are the latest first, and each transaction is among them as often as
-- among the stored ones.
pub deserialize_bids_lem :
    (bids : List BidEvent) (h : String)
    → IsLatestFirst (deserialize_bids bids)
      × (count h (hashes (deserialize_bids bids)) ≡ count h (hashes bids))
unfolding deserialize_bids
deserialize_bids_lem [] h = (tt, refl)
deserialize_bids_lem (b ∷ bids) h =
    let (ordered, same) = deserialize_bids_lem bids h in
    let added = count-insert_bid h b (deserialize_bids bids) in
    (IsLatestFirst-insert_bid b _ ordered, omega (arith, same, added))
