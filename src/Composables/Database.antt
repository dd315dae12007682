-- ===== src/Composables/Database.antt =====
-- composablesIndexer.ts: the tables of the index, and the statements that read and write them. A
-- table is the list of its rows in the order of their insertion; texts compare exactly, a column
-- that an INSERT does not name is NULL (`none`), and itemCount has the default that is given.
use composable_nouns_monorep.Common.{
  ℕ, Bool, ◌&&◌, Option, none, some, List, [], ◌∷◌, ◌++◌, ◌==◌, if◌then◌else◌, String, str_eq,
  filter, length,
}

-- composablesContracts.ts.
pub record CollectionCreatedEvent : Type 0 where
  pub block_number : ℕ
  pub block_hash : String
  pub token_address : String
  pub creator : String
  pub version : ℕ
  pub name : String
  pub symbol : String
  pub nonce : ℕ

pub record ListingCreatedEvent : Type 0 where
  pub block_number : ℕ
  pub block_hash : String
  pub listing_id : ℕ
  pub seller : String
  pub token_address : String
  pub token_id : ℕ
  pub price : ℕ
  pub quantity : ℕ
  pub max_per_address : ℕ

pub record ListingFilledEvent : Type 0 where
  pub block_number : ℕ
  pub block_hash : String
  pub transaction_index : ℕ
  pub listing_id : ℕ
  pub buyer : String
  pub token_address : String
  pub token_id : ℕ
  pub seller : String
  pub price : ℕ
  pub quantity : ℕ
  pub seller_amount : ℕ
  pub fee_amount : ℕ

pub record ListingDeletedEvent : Type 0 where
  pub block_number : ℕ
  pub block_hash : String
  pub listing_id : ℕ
  pub token_address : String
  pub token_id : ℕ

-- A row of events_listing_deleted: the token of the event is not kept.
pub record DeletedRow : Type 0 where
  pub block_number : ℕ
  pub block_hash : String
  pub listing_id : ℕ

-- A row of `collections`.
pub record CollectionRow : Type 0 where
  pub token_address : String
  pub owner : String
  pub name : String
  pub symbol : String
  pub item_count : ℕ
  pub palette : Option String
  pub description : Option String
  pub thumbnail_image : Option String
  pub banner_image : Option String

-- A row of `collection_items`.
pub record ItemRow : Type 0 where
  pub id : ℕ
  pub token_address : String
  pub token_id : ℕ
  pub image_bytes : String
  pub meta_generated : String
  pub parsed_item_name : Option String
  pub parsed_category_name : Option String
  pub parsed_creator_name : Option String

-- A row of `profiles`.
pub record ProfileRow : Type 0 where
  pub wallet_address : String
  pub description : String
  pub thumbnail_image : String
  pub banner_image : String

pub record Database : Type 0 where
  pub events_collection_created : List CollectionCreatedEvent
  pub events_listing_created : List ListingCreatedEvent
  pub events_listing_deleted : List DeletedRow
  pub events_listing_filled : List ListingFilledEvent
  pub collections : List CollectionRow
  pub collection_items : List ItemRow
  pub profiles : List ProfileRow

-- `rows[0]`, undefined when there is none.
abbrev pub first {ℓ} : {A : Type ℓ} → List A → Option A
first [] = none
first (x ∷ xs) = some x

-- UPDATE … SET … WHERE: a change of the rows that meet a test.
abbrev pub update_where {ℓ} : {A : Type ℓ} → (A → Bool) → (A → A) → List A → List A
update_where p f [] = []
update_where p f (x ∷ xs) = (if p x then f x else x) ∷ update_where p f xs

abbrev pub rows_of : String → List CollectionRow → List CollectionRow
rows_of a = filter (λ r. str_eq r.token_address a)

abbrev pub item_rows_of : String → ℕ → List ItemRow → List ItemRow
item_rows_of a i = filter (λ r. str_eq r.token_address a && r.token_id == i)

-- The getters.
unfoldable pub get_collection : String → Database → Option CollectionRow
get_collection a db = first (rows_of a db.collections)

unfoldable pub get_collection_owner : String → Database → String
unfolding get_collection
get_collection_owner a db = elim (get_collection a db) [ none ↦ "" | some r ↦ r.owner ]

unfoldable pub get_collection_name : String → Database → String
unfolding get_collection
get_collection_name a db = elim (get_collection a db) [ none ↦ "" | some r ↦ r.name ]

unfoldable pub get_collection_symbol : String → Database → String
unfolding get_collection
get_collection_symbol a db = elim (get_collection a db) [ none ↦ "" | some r ↦ r.symbol ]

unfoldable pub get_collection_item_count : String → Database → ℕ
unfolding get_collection
get_collection_item_count a db = elim (get_collection a db) [ none ↦ 0 | some r ↦ r.item_count ]

-- `some none` is a row whose palette is NULL.
unfoldable pub get_collection_palette : String → Database → Option String
get_collection_palette a db = elim (first (rows_of a db.collections)) [
  | none ↦ some ""
  | some r ↦ r.palette
]

unfoldable pub get_collection_item_image_bytes : String → ℕ → Database → String
get_collection_item_image_bytes a i db = elim (first (item_rows_of a i db.collection_items)) [
  | none ↦ ""
  | some r ↦ r.image_bytes
]

unfoldable pub get_collection_item_meta_generated : String → ℕ → Database → String
get_collection_item_meta_generated a i db = elim (first (item_rows_of a i db.collection_items)) [
  | none ↦ ""
  | some r ↦ r.meta_generated
]

unfoldable pub get_count_composable_item_collections : Database → ℕ
get_count_composable_item_collections db = length db.collections

unfoldable pub get_count_composable_items : Database → ℕ
get_count_composable_items db = length db.collection_items

-- The writes of the forms.
unfoldable pub update_collection_info : String → String → String → String → Database → Database
update_collection_info a description thumbnail banner db = record db {
  collections =
      update_where (λ r. str_eq r.token_address a)
        (λ r. record r {
          description = some description;
          thumbnail_image = some thumbnail;
          banner_image = some banner;
        })
        db.collections;
}

unfoldable pub get_profile_info : String → Database → Option ProfileRow
get_profile_info w db = first (filter (λ r. str_eq r.wallet_address w) db.profiles)

unfoldable pub insert_profile_info : String → String → String → String → Database → Database
insert_profile_info w description thumbnail banner db = record db {
  profiles =
      db.profiles
      ++ record {
        wallet_address = w;
        description = description;
        thumbnail_image = thumbnail;
        banner_image = banner;
      }
        ∷ [];
}

unfoldable pub update_profile_info : String → String → String → String → Database → Database
update_profile_info w description thumbnail banner db = record db {
  profiles =
      update_where (λ r. str_eq r.wallet_address w)
        (λ r. record r {
          description = description;
          thumbnail_image = thumbnail;
          banner_image = banner;
        })
        db.profiles;
}
