-- ===== src/Composables/FilterTests.antt =====
-- The theorem on the names of the search at a concrete index.
use composable_nouns_monorep.Common.{
  ◌≡◌, ◌⊎◌, refl, true, Option, none, some, [], ◌∷◌, String, get_elem?,
}
use composable_nouns_monorep.Composables.Database.{ItemRow, Database}
use composable_nouns_monorep.Composables.Filters.{ParsedMeta, index_composable_items_search_filters}
use composable_nouns_monorep.Composables.Filters.Filled.{
  HasNames, MissesName, with_names, index_composable_items_search_filters_lem,
}

abbrev an_item : ItemRow
an_item = record {
  id = 1;
  token_address = "0x1";
  token_id = 0;
  image_bytes = "0x00";
  meta_generated = "name";
  parsed_item_name = none;
  parsed_category_name = none;
  parsed_creator_name = none;
}

abbrev one_item : Database
one_item = record {
  events_collection_created = [];
  events_listing_created = [];
  events_listing_deleted = [];
  events_listing_filled = [];
  collections = [];
  collection_items = an_item ∷ [];
  profiles = [];
}

abbrev meta : ParsedMeta
meta = record { item_name = some "Cap"; category_name = some "Head"; creator_name = some "0xaa" }

abbrev names : String → Option ParsedMeta
names s = some meta

index_composable_items_search_filters_example :
    let o = index_composable_items_search_filters names one_item in
    (o.is_done ≡ true)
    × ((HasNames an_item × (get_elem? o.database.collection_items 0 ≡ some an_item))
        ⊎ (MissesName an_item
            × (get_elem? o.database.collection_items 0 ≡ some (with_names meta an_item))))
index_composable_items_search_filters_example =
    index_composable_items_search_filters_lem names one_item 0 an_item meta ((λ h. cc), tt)
      ((λ h. refl), tt) refl refl
