-- ===== src/Webapp/Display/Navigation.antt =====
-- The display stays within the auctions, and a bid list is ordered by time.
use composable_nouns_monorep.Common.{
  some_path, ℕ, suc, ◌≤◌, ◌<◌, ◌≡◌, refl, sym, ap, ◌∙◌, false, inl, inr, Option, none, some, List,
  [], ◌∷◌, ◌==◌, if◌then◌else◌, Bool-cases, Option-cases, arith,
}
use composable_nouns_monorep.Webapp.Auction.{Auction, AuctionState}
use composable_nouns_monorep.Webapp.Display.{
  OnDisplayAuctionState, set_prev_on_display_auction_noun_id, set_next_on_display_auction_noun_id,
  previous_id, find_auction, generate_empty_nounder_auction, use_on_display_auction,
  is_nounder_noun, auction_of, deserialize_auction,
}

pub data Key : Type 0 where
  left right : Key

abbrev pub press : Key → OnDisplayAuctionState → OnDisplayAuctionState
press left s = set_prev_on_display_auction_noun_id s
press right s = set_next_on_display_auction_noun_id s

unfoldable pub press_all : List Key → OnDisplayAuctionState → OnDisplayAuctionState
press_all [] s = s
press_all (k ∷ ks) s = press_all ks (press k s)

-- An auction up to the last one is on display.
abbrev pub Shows : ℕ → ℕ → OnDisplayAuctionState
Shows last id = record { last_auction_noun_id = some last; on_display_auction_noun_id = some id }

press-Shows :
    (k : Key) (last id : ℕ)
    → id ≤ last
    → (id' : ℕ) × (id' ≤ last) × (press k (Shows last id) ≡ Shows last id')
unfolding set_prev_on_display_auction_noun_id set_next_on_display_auction_noun_id
press-Shows left last id h = (previous_id id, ground arith, refl)
press-Shows right last id h = elim (Bool-cases (last == id)) [
  | inl t ↦ (id, h, rw t refl)
  | inr f ↦ (suc id, ground arith, rw f refl)
]

-- From an auction on display that is not after the last one, whatever keys are pressed, such an
-- auction stays on display.
pub press_all-Shows :
    (ks : List Key) (last id : ℕ)
    → id ≤ last
    → (id' : ℕ) × (id' ≤ last) × (press_all ks (Shows last id) ≡ Shows last id')
unfolding press_all
press_all-Shows [] last id h = (id, h, refl)
press_all-Shows (k ∷ ks) last id h =
    let (id1, h1, same) = press-Shows k last id h in
    let (id2, h2, rest) = press_all-Shows ks last id1 h1 in (id2, h2, ap (press_all ks) same ∙ rest)

-- Before the last auction, the left key takes back the right one.
pub set_prev-set_next :
    (last id : ℕ)
    → id < last
    → set_prev_on_display_auction_noun_id (set_next_on_display_auction_noun_id (Shows last id))
      ≡ Shows last id
unfolding set_prev_on_display_auction_noun_id set_next_on_display_auction_noun_id
set_prev-set_next last id h =
    let before : (last == id) ≡ false = ground arith in
    let back : previous_id (suc id) ≡ id = ground arith in rw before (ap (Shows last) back)

-- The auction that `find_auction` gives is of the Noun asked for.
find_auction-id :
    (id : ℕ) (past : List AuctionState) (s : AuctionState) (a : Auction)
    → find_auction id past ≡ some s
    → s.active_auction ≡ some a
    → a.noun_id ≡ id
unfolding find_auction
find_auction-id id [] s a h k = cc
find_auction-id id (x ∷ past) s a h k = elim (Option-cases x.active_auction) [
  | inl e ↦ find_auction-id id past s a (rw (e, find_auction) at h) k
  | inr (b, e) ↦ elim (Bool-cases (b.noun_id == id)) [
    | inl t ↦
        let same_state : x ≡ s = some_path (rw (e, find_auction, t) at h) in
        let same : b ≡ a =
          some_path (sym e ∙ ap (λ (y : AuctionState). y.active_auction) same_state ∙ k) in
        let same_id : b.noun_id ≡ a.noun_id = ap (λ (y : Auction). y.noun_id) same in ground arith
    | inr f ↦ find_auction-id id past s a (rw (e, find_auction, f) at h) k
  ]
]

found-id :
    (id : ℕ) (past : List AuctionState) (o : Option AuctionState) (a : Auction)
    → find_auction id past ≡ o
    → (elim (auction_of o) [ none ↦ none | some x ↦ some (deserialize_auction x) ]) ≡ some a
    → a.noun_id ≡ id
found-id id past none a h k = cc
found-id id past (some s) a h k = elim (Option-cases s.active_auction) [
  | inl e ↦ let no = rw e at k in cc
  | inr (b, e) ↦
      let same : deserialize_auction b ≡ a = some_path (rw e at k) in
      sym (ap (λ (y : Auction). y.noun_id) same) ∙ find_auction-id id past s b h e
]

-- What is shown for a Noun on display while an auction runs.
abbrev shown : ℕ → Auction → List AuctionState → Option Auction
shown id b past =
    if id == b.noun_id
    then some (deserialize_auction b)
    else if is_nounder_noun id
    then some (deserialize_auction (generate_empty_nounder_auction id past))
    else elim (auction_of (find_auction id past)) [
      | none ↦ none
      | some x ↦ some (deserialize_auction x)
    ]

shown-id :
    (id : ℕ) (b : Auction) (past : List AuctionState) (a : Auction)
    → shown id b past ≡ some a
    → a.noun_id ≡ id
unfolding generate_empty_nounder_auction
shown-id id b past a h = elim (Bool-cases (id == b.noun_id)) [
  | inl t ↦
      let same : deserialize_auction b ≡ a = some_path (rw t at h) in
      let same_id = ap (λ (y : Auction). y.noun_id) same in ground arith
  | inr f ↦ elim (Bool-cases (is_nounder_noun id)) [
    | inl n ↦
        let same : deserialize_auction (generate_empty_nounder_auction id past) ≡ a =
          some_path (rw (f, n) at h) in
        sym (ap (λ (y : Auction). y.noun_id) same)
    | inr n ↦ found-id id past (find_auction id past) a refl (rw (f, n) at h)
  ]
]

-- The auction that is shown is of the Noun that is on display, be it the current auction, a past
-- one or the empty one of a Nounder's Noun; and no auction is shown without a Noun on display.
pub use_on_display_auction-noun_id :
    (current : AuctionState) (display : OnDisplayAuctionState) (past : List AuctionState)
    (a : Auction)
    → use_on_display_auction current display past ≡ some a
    → display.on_display_auction_noun_id ≡ some a.noun_id
unfolding use_on_display_auction generate_empty_nounder_auction
use_on_display_auction-noun_id current display past a h =
    elim (Option-cases display.on_display_auction_noun_id) [
      | inl e ↦ let no = rw (e, use_on_display_auction) at h in cc
      | inr (id, e) ↦ elim (Option-cases current.active_auction) [
        | inl f ↦ let no = rw (e, f, use_on_display_auction) at h in cc
        | inr (b, f) ↦
            e ∙ ap some (sym (shown-id id b past a (rw (e, f, use_on_display_auction) at h)))
      ]
    ]
