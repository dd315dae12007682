-- ===== src/Composables/Market.antt =====
-- composablesWrapper.ts: the listings of the market, from the contract or from the index.
pub mod Listings
use composable_nouns_monorep.Common.{
  ℕ, ◌≡◌, Bool, true, false, not, ◌&&◌, ◌||◌, Option, none, some, List, [], ◌∷◌, ◌==◌,
  if◌then◌else◌, String, str_eq, filter, map,
}
use composable_nouns_monorep.Composables.Database.{
  ListingCreatedEvent, ListingFilledEvent, ListingDeletedEvent, DeletedRow, Database,
}
use composable_nouns_monorep.Composables.Indexer.{deleted_row}

pub record ComposablesMarketListing : Type 0 where
  pub listing_id : ℕ
  pub seller : String
  pub token_address : String
  pub token_id : ℕ
  pub price : ℕ
  pub quantity : ℕ
  pub max_per_address : ℕ

-- What `router` answers: the events, with the fields of a deletion that both sources have.
pub record Router : Type 0 where
  pub listing_created_events : List ListingCreatedEvent
  pub listing_deleted_events : List DeletedRow

abbrev pub contracts : List ListingCreatedEvent → List ListingDeletedEvent → Router
contracts created deleted = record {
  listing_created_events = created;
  listing_deleted_events = map deleted_row deleted;
}

abbrev pub indexer : Database → Router
indexer db = record {
  listing_created_events = db.events_listing_created;
  listing_deleted_events = db.events_listing_deleted;
}

-- `listingsDeleted.find` by the id.
abbrev pub is_deleted : List DeletedRow → ListingCreatedEvent → Bool
is_deleted [] e = false
is_deleted (d ∷ ds) e = d.listing_id == e.listing_id || is_deleted ds e

abbrev pub listing_of : ListingCreatedEvent → ComposablesMarketListing
listing_of e = record {
  listing_id = e.listing_id;
  seller = e.seller;
  token_address = e.token_address;
  token_id = e.token_id;
  price = e.price;
  quantity = e.quantity;
  max_per_address = e.max_per_address;
}

unfoldable pub get_composables_market_listings : Router → List ComposablesMarketListing
get_composables_market_listings r =
    map listing_of
      (filter (λ e. not (is_deleted r.listing_deleted_events e)) r.listing_created_events)

unfoldable pub get_composables_market_listings_filled :
    List ListingFilledEvent → List ComposablesMarketListing
get_composables_market_listings_filled = map (λ e. record {
  listing_id = e.listing_id;
  seller = e.seller;
  token_address = e.token_address;
  token_id = e.token_id;
  price = e.price;
  quantity = e.quantity;
  max_per_address = 0;
})

abbrev pub is_for : String → ℕ → ComposablesMarketListing → Bool
is_for a i l = str_eq l.token_address a && l.token_id == i

abbrev pub find {ℓ} : {A : Type ℓ} → (A → Bool) → List A → Option A
find p [] = none
find p (x ∷ xs) = if p x then some x else find p xs

-- `none` stands for listings that are not loaded.
unfoldable pub filter_composable_item_market_listings :
    Option (List ComposablesMarketListing) → String → ℕ → List ComposablesMarketListing
filter_composable_item_market_listings none a i = []
filter_composable_item_market_listings (some ls) a i = filter (is_for a i) ls

unfoldable pub filter_composable_item_market_listing :
    Option (List ComposablesMarketListing) → String → ℕ → Option ComposablesMarketListing
filter_composable_item_market_listing none a i = none
filter_composable_item_market_listing (some ls) a i = find (is_for a i) ls
