-- ===== src/Composables/Market/Listings.antt =====
-- Which listings the market shows, and that the index shows those of the contract.
use composable_nouns_monorep.Common.{
  ℕ, ◌≡◌, refl, ap, Bool, true, false, not, ◌&&◌, ◌||◌, Option, none, some, List, [], ◌∷◌, ◌++◌,
  String, filter, map, arith, Bool-cases, inl, inr,
}
use composable_nouns_monorep.Composables.Database.{
  ListingCreatedEvent, ListingDeletedEvent, DeletedRow, Database,
}
use composable_nouns_monorep.Composables.Indexer.{deleted_row, index_composables_market_listings}
use composable_nouns_monorep.Composables.Indexer.Copies.{AreNew}
use composable_nouns_monorep.Composables.Indexer.Steps.{has_created, has_deleted, same_row}
use composable_nouns_monorep.Composables.Indexer.CatchUp.{
  IsIndexed, index_composables_market_listings-IsIndexed,
}
use composable_nouns_monorep.Composables.Market.{
  Router, contracts, indexer, is_deleted, listing_of, find, is_for, get_composables_market_listings,
  filter_composable_item_market_listing,
}

-- An index of a part of the market's logs shows, once it has run over the whole logs, the listings
-- that the contract shows.
pub get_composables_market_listings-indexer :
    (created created' : List ListingCreatedEvent) (deleted deleted' : List ListingDeletedEvent)
    (db : Database)
    → AreNew has_created same_row created created'
    → AreNew has_deleted deleted_row deleted deleted'
    → IsIndexed created deleted db
    → get_composables_market_listings
        (indexer (index_composables_market_listings (created ++ created') (deleted ++ deleted') db))
      ≡ get_composables_market_listings (contracts (created ++ created') (deleted ++ deleted'))
get_composables_market_listings-indexer created created' deleted deleted' db h k I =
    let J =
      index_composables_market_listings-IsIndexed created created' deleted deleted' db h k I in
    ap
      (λ (r : List ListingCreatedEvent × List DeletedRow).
        get_composables_market_listings
          (record { listing_created_events = r.0; listing_deleted_events = r.1 }))
      (λ i. (J.created_rows i, J.deleted_rows i))

-- Whether a listing of a token is in the log of creations and not in that of deletions.
abbrev pub is_listed : Router → String → ℕ → List ListingCreatedEvent → Bool
is_listed r a i [] = false
is_listed r a i (e ∷ es) =
    is_for a i (listing_of e) && not (is_deleted r.listing_deleted_events e) || is_listed r a i es

abbrev pub is_some {ℓ} : {A : Type ℓ} → Option A → Bool
is_some none = false
is_some (some x) = true

-- An item is shown as listed exactly when a listing for it was created that was not deleted.
pub filter_composable_item_market_listing-is_some :
    (r : Router) (a : String) (i : ℕ)
    → is_some (filter_composable_item_market_listing (some (get_composables_market_listings r)) a i)
      ≡ is_listed r a i r.listing_created_events
unfolding filter_composable_item_market_listing get_composables_market_listings
filter_composable_item_market_listing-is_some r a i = found r.listing_created_events
  where
    found :
        (es : List ListingCreatedEvent)
        → is_some (
            find
              (is_for a i)
              (map listing_of (filter (λ e. not (is_deleted r.listing_deleted_events e)) es)))
          ≡ is_listed r a i es
    found [] = refl
    found (e ∷ es) = elim (Bool-cases (is_deleted r.listing_deleted_events e)) [
      | inl d ↦ rw d (ground (arith, found es))
      | inr d ↦ rw d (elim (Bool-cases (is_for a i (listing_of e))) [
        | inl f ↦ rw f refl
        | inr f ↦ rw f (found es)
      ])
    ]
