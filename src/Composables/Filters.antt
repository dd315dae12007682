-- ===== src/Composables/Filters.antt =====
-- composablesIndexer.ts, `indexComposableItemsSearchFilters`: the names that the search compares, read
-- from the items' metadata. `parse` stands for JSON.parse with the reading of the name and of the
-- values of the first two attributes; none is an exception.
pub mod Filled
use composable_nouns_monorep.Common.{
  ℕ, Bool, true, false, ◌||◌, Option, none, some, List, [], ◌∷◌, ◌==◌, String, ◌<>◌, filter,
}
use composable_nouns_monorep.Composables.Database.{ItemRow, Database, update_where}
use composable_nouns_monorep.Composables.Indexer.{Outcome}

-- What is read, none where it is undefined.
pub record ParsedMeta : Type 0 where
  pub item_name : Option String
  pub category_name : Option String
  pub creator_name : Option String

abbrev pub is_null {ℓ} : {A : Type ℓ} → Option A → Bool
is_null none = true
is_null (some a) = false

abbrev pub is_unparsed : ItemRow → Bool
is_unparsed r =
    is_null r.parsed_item_name || is_null r.parsed_category_name || is_null r.parsed_creator_name

abbrev pub set_parsed : ParsedMeta → ItemRow → ItemRow
set_parsed m r = record r {
  parsed_item_name = m.item_name;
  parsed_category_name = m.category_name;
  parsed_creator_name = m.creator_name;
}

module _ (parse : String → Option ParsedMeta) where
  abbrev pub meta_of : ItemRow → Option ParsedMeta
  meta_of r = parse ("{" <> r.meta_generated <> "}")

  -- The loop over the rows that were selected.
  unfoldable pub index_filters : List ItemRow → Database → Outcome
  index_filters [] db = record { database = db; is_done = true }
  index_filters (r ∷ rows) db = elim (meta_of r) [
    | none ↦ record { database = db; is_done = false }
    | some m ↦ index_filters rows (record db {
      collection_items = update_where (λ x. x.id == r.id) (set_parsed m) db.collection_items;
    })
  ]

  unfoldable pub index_composable_items_search_filters : Database → Outcome
  unfolding index_filters
  index_composable_items_search_filters db =
      index_filters (filter is_unparsed db.collection_items) db
