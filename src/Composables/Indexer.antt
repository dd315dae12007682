-- ===== src/Composables/Indexer.antt =====
-- composablesIndexer.ts: the functions that copy the contracts' events and items into the index.
-- The events and the items of the contracts are arguments; a function is a step of the database.
pub mod Copies
pub mod Steps
pub mod CatchUp
pub mod Items
pub mod Runs
use composable_nouns_monorep.Common.{
  ℕ, zero, suc, ◌+◌, ◌-◌, Bool, true, false, not, ◌&&◌, ◌||◌, Option, none, some, List, [], ◌∷◌,
  ◌++◌, ◌==◌, ltb, if◌then◌else◌, String, str_eq, map, includes, length, filter,
}
use composable_nouns_monorep.Composables.Database.{
  CollectionCreatedEvent, ListingCreatedEvent, ListingFilledEvent, ListingDeletedEvent, DeletedRow,
  CollectionRow, ItemRow, Database, update_where, get_collection_item_count,
}

-- `indexOf(n) !== -1`.
abbrev pub includes_id : List ℕ → ℕ → Bool
includes_id [] n = false
includes_id (m ∷ ms) n = m == n || includes_id ms n

abbrev pub new_collection : ℕ → CollectionCreatedEvent → CollectionRow
new_collection default_count e = record {
  token_address = e.token_address;
  owner = e.creator;
  name = e.name;
  symbol = e.symbol;
  item_count = default_count;
  palette = none;
  description = none;
  thumbnail_image = none;
  banner_image = none;
}

abbrev pub insert_collection : ℕ → CollectionCreatedEvent → Database → Database
insert_collection default_count e db = record db {
  events_collection_created = db.events_collection_created ++ e ∷ [];
  collections = db.collections ++ new_collection default_count e ∷ [];
}

-- The loop over the events; `known` are the addresses that were selected before it.
unfoldable pub index_collections :
    ℕ → List String → List CollectionCreatedEvent → Database → Database
index_collections default_count known [] db = db
index_collections default_count known (e ∷ es) db =
    index_collections default_count known es
      (if includes known e.token_address then db else insert_collection default_count e db)

unfoldable pub index_composable_item_collections :
    ℕ → List CollectionCreatedEvent → Database → Database
index_composable_item_collections default_count es db =
    index_collections default_count (map (λ r. r.token_address) db.events_collection_created) es db

unfoldable pub index_created : List ℕ → List ListingCreatedEvent → Database → Database
index_created known [] db = db
index_created known (e ∷ es) db = index_created known es (
    if includes_id known e.listing_id
    then db
    else record db { events_listing_created = db.events_listing_created ++ e ∷ [] })

abbrev pub deleted_row : ListingDeletedEvent → DeletedRow
deleted_row e = record {
  block_number = e.block_number;
  block_hash = e.block_hash;
  listing_id = e.listing_id;
}

unfoldable pub index_deleted : List ℕ → List ListingDeletedEvent → Database → Database
index_deleted known [] db = db
index_deleted known (e ∷ es) db = index_deleted known es (
    if includes_id known e.listing_id
    then db
    else record db { events_listing_deleted = db.events_listing_deleted ++ deleted_row e ∷ [] })

unfoldable pub index_composables_market_listings :
    List ListingCreatedEvent → List ListingDeletedEvent → Database → Database
unfolding index_created index_deleted
index_composables_market_listings created deleted db =
    let db' = index_created (map (λ r. r.listing_id) db.events_listing_created) created db in
    index_deleted (map (λ r. r.listing_id) db'.events_listing_deleted) deleted db'

-- `rows.find` by block and transaction.
abbrev pub is_filled_in : List ListingFilledEvent → ListingFilledEvent → Bool
is_filled_in [] e = false
is_filled_in (r ∷ rows) e =
    r.block_number == e.block_number && r.transaction_index == e.transaction_index
    || is_filled_in rows e

unfoldable pub index_filled :
    List ListingFilledEvent → List ListingFilledEvent → Database → Database
index_filled known [] db = db
index_filled known (e ∷ es) db = index_filled known es (
    if is_filled_in known e
    then db
    else record db { events_listing_filled = db.events_listing_filled ++ e ∷ [] })

unfoldable pub index_composables_market_listings_filled :
    List ListingFilledEvent → Database → Database
index_composables_market_listings_filled es db = index_filled db.events_listing_filled es db

-- What the contract of a collection answers; a call that is rejected is `none`.
pub record ItemContract : Type 0 where
  pub item_count : ℕ
  pub palette : String
  pub image_bytes : ℕ → Option String
  pub meta_generated : ℕ → Option String

abbrev pub has_item : List ItemRow → String → ℕ → Bool
has_item [] a i = false
has_item (r ∷ rows) a i = str_eq r.token_address a && r.token_id == i || has_item rows a i

-- The id of a new row: the table has an AUTO_INCREMENT column, and no row is ever deleted.
abbrev pub insert_item : String → ℕ → String → String → Database → Database
insert_item a i bytes meta db = record db {
  collection_items =
      db.collection_items
      ++ record {
        id = length db.collection_items + 1;
        token_address = a;
        token_id = i;
        image_bytes = bytes;
        meta_generated = meta;
        parsed_item_name = none;
        parsed_category_name = none;
        parsed_creator_name = none;
      }
        ∷ [];
}

-- The database, and whether the function went through; a rejected call leaves what was inserted.
pub record Outcome : Type 0 where
  pub database : Database
  pub is_done : Bool

-- A pass for an item that is not known. An empty text is skipped.
abbrev pub fetch_item : String → ℕ → Option String → Option String → Database → Outcome
fetch_item a i none meta db = record { database = db; is_done = false }
fetch_item a i (some bytes) none db = record { database = db; is_done = false }
fetch_item a i (some bytes) (some meta) db = record {
  database = if str_eq bytes "" || str_eq meta "" then db else insert_item a i bytes meta db;
  is_done = true;
}

-- The loop over `n` items from the i-th; `known` are the rows that were selected before it.
unfoldable pub index_items : ItemContract → List ItemRow → String → ℕ → ℕ → Database → Outcome
index_items C known a zero i db = record { database = db; is_done = true }
index_items C known a (suc n) i db =
    let o =
      if has_item known a i
      then record { database = db; is_done = true }
      else fetch_item a i (C.image_bytes i) (C.meta_generated i) db in
    let rest = index_items C known a n (i + 1) o.database in if o.is_done then rest else o

abbrev pub close_collection : ItemContract → String → Database → Database
close_collection C a db = record db {
  collections =
      update_where (λ r. str_eq r.token_address a)
        (λ r. record r { item_count = C.item_count; palette = some C.palette }) db.collections;
}

-- The calls for the item count and the palette are answered; only those for an item can be rejected.
unfoldable pub index_composable_items : ItemContract → String → Database → Outcome
unfolding get_collection_item_count index_items
index_composable_items C a db =
    let count = get_collection_item_count a db in
    let known = filter (λ r. str_eq r.token_address a) db.collection_items in
    let o = index_items C known a (C.item_count - count) count db in
    if ltb count C.item_count
    then if o.is_done then record o { database = close_collection C a o.database } else o
    else record { database = db; is_done = true }
