-- ===== src/Composables/Search.antt =====
-- The search of items: composablesIndexer.ts has the queries, pages/Composer/index.tsx and
-- pages/Market/index.tsx the pages of results. A row is one of the join of collections and items;
-- the database's order of the rows by priority is an argument, as is its LIKE.
pub mod Pages
use composable_nouns_monorep.Common.{
  ℕ, ◌+◌, ◌-◌, ◌*◌, Bool, true, false, ◌&&◌, Option, none, some, List, [], ◌∷◌, ◌++◌, if◌then◌else◌,
  String, str_eq, ◌<>◌, filter, take, drop, length,
}
use composable_nouns_monorep.Composables.Database.{ItemRow, CollectionRow}

-- A row of the join.
pub record SearchRow : Type 0 where
  pub token_address : String
  pub token_id : ℕ
  pub collection_name : String
  pub palette_raw : Option String
  pub image_bytes : String
  pub meta_generated : String
  pub parsed_item_name : Option String
  pub parsed_category_name : Option String
  pub parsed_creator_name : Option String

pub record Query : Type 0 where
  pub collection_name : Option String
  pub category_name : Option String
  pub creator_name : Option String
  pub item_search : Option String

-- A condition of the WHERE with its parameter.
pub data Condition : Type 0 where
  name_is category_is creator_is item_like : String → Condition

-- `if (text) { … push … }`: a text that is missing or empty gives no condition.
abbrev pub condition : (String → Condition) → Option String → List Condition
condition c none = []
condition c (some s) = if str_eq s "" then [] else c s ∷ []

unfoldable pub sql_filters : Query → List Condition
sql_filters q =
    condition name_is q.collection_name
    ++ condition category_is q.category_name
    ++ condition creator_is q.creator_name
    ++ condition (λ s. item_like ("%" <> s <> "%")) q.item_search

-- A column that is NULL meets no condition.
abbrev pub column_is : Option String → String → Bool
column_is none s = false
column_is (some t) s = str_eq t s

-- `LIMIT first, last`: the second number of LIMIT is how many rows there are at most.
abbrev pub limit {ℓ} : {A : Type ℓ} → ℕ → ℕ → List A → List A
limit offset row_count rows = take row_count (drop offset rows)

abbrev pub page_size : ℕ
page_size = 40

-- The join of the two tables, of which the database makes the order.
abbrev pub join_collection : ItemRow → List CollectionRow → List SearchRow
join_collection i [] = []
join_collection i (c ∷ cs) =
    let rest = join_collection i cs in
    if str_eq c.token_address i.token_address
    then record {
      token_address = c.token_address;
      token_id = i.token_id;
      collection_name = c.name;
      palette_raw = c.palette;
      image_bytes = i.image_bytes;
      meta_generated = i.meta_generated;
      parsed_item_name = i.parsed_item_name;
      parsed_category_name = i.parsed_category_name;
      parsed_creator_name = i.parsed_creator_name;
    }
      ∷ rest
    else rest

unfoldable pub join_rows : List CollectionRow → List ItemRow → List SearchRow
join_rows cs [] = []
join_rows cs (i ∷ items) = join_collection i cs ++ join_rows cs items

module _ (like : String → String → Bool) where
  abbrev pub column_like : Option String → String → Bool
  column_like none s = false
  column_like (some t) s = like t s

  abbrev pub meets : SearchRow → Condition → Bool
  meets r (name_is s) = str_eq r.collection_name s
  meets r (category_is s) = column_is r.parsed_category_name s
  meets r (creator_is s) = column_is r.parsed_creator_name s
  meets r (item_like s) = column_like r.parsed_item_name s

  abbrev pub meets_all : SearchRow → List Condition → Bool
  meets_all r [] = true
  meets_all r (c ∷ cs) = meets r c && meets_all r cs

  unfoldable pub get_composable_items_search_rows_count : Query → List SearchRow → ℕ
  unfolding sql_filters
  get_composable_items_search_rows_count q rows =
      length (filter (λ r. meets_all r (sql_filters q)) rows)

  -- `rows` is the join in the order of the priority.
  unfoldable pub get_composable_items_search_rows : ℕ → ℕ → Query → List SearchRow → List SearchRow
  unfolding sql_filters
  get_composable_items_search_rows first_page_index last_page_index q rows =
      limit first_page_index last_page_index (filter (λ r. meets_all r (sql_filters q)) rows)

  -- The rows that a page asks for.
  unfoldable pub load_page : ℕ → Query → List SearchRow → List SearchRow
  unfolding get_composable_items_search_rows
  load_page current_page q rows =
      let first_page_index = (current_page - 1) * page_size in
      get_composable_items_search_rows first_page_index (first_page_index + page_size) q rows
