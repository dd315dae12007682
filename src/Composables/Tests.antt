-- ===== src/Composables/Tests.antt =====
-- The theorems on the composables at concrete events.
use composable_nouns_monorep.Common.{
  ℕ, ltb, ◌-◌, ◌≤◌, ◌≡◌, refl, true, inl, inr, Option, none, some, List, [], ◌∷◌, ◌++◌, String, pos,
  arith, replicate, ◌==◌, if◌then◌else◌,
}
use composable_nouns_monorep.Subgraph.Store.{zero_address}
use composable_nouns_monorep.Composables.{
  TransferSingleEvent, ChildReceivedEvent, ChildTransferredEvent, get_token_holdings,
  get_child_tokens,
}
use composable_nouns_monorep.Composables.Holdings.{
  child_of, times_child, get_child_tokens_lem, received_of, transferred_of, holding_of,
}
use composable_nouns_monorep.Composables.Ledger.{
  LogEntry, single, batch, singles, transfers, events_to, events_from, after,
  get_token_holdings-after,
}
use composable_nouns_monorep.Composables.Database.{
  ListingCreatedEvent, ListingDeletedEvent, get_collection_item_count, get_collection, Database,
  ItemRow, CollectionRow,
}
use composable_nouns_monorep.Composables.Indexer.{
  ItemContract, index_items, index_composables_market_listings, index_composable_items, has_item,
}
use composable_nouns_monorep.Composables.Indexer.Items.{times_item}
use composable_nouns_monorep.Composables.Indexer.Runs.{
  index_runs, index_runs-once, rows_after, index_composable_items_retry,
}
use composable_nouns_monorep.Composables.Market.{
  get_composables_market_listings, indexer, contracts,
}
use composable_nouns_monorep.Composables.Market.Listings.{get_composables_market_listings-indexer}
use composable_nouns_monorep.Composables.Items.{spacer, clear_spacer, palette_string, palette_of}
use composable_nouns_monorep.Composables.Items.Palettes.{palette_of-palette_string}

abbrev mint : TransferSingleEvent
mint = record { operator = "0xaa"; from = zero_address; to = "0xaa"; id = 3; value = 5 }

abbrev gift : TransferSingleEvent
gift = record { operator = "0xaa"; from = "0xaa"; to = "0xbb"; id = 3; value = 2 }

abbrev log : List LogEntry
log = single mint ∷ batch "0xcc" zero_address "0xaa" ((4, 9) ∷ []) ∷ single gift ∷ []

get_token_holdings-after_example :
    holding_of 3
      (get_token_holdings "0x1" (events_to "0xaa" (singles log)) (events_from "0xaa" (singles log)))
    ≡ pos (after (transfers log) (λ h i. 0) "0xaa" 3)
get_token_holdings-after_example =
    get_token_holdings-after "0x1" "0xaa" 3 log refl (inl refl, (inl refl, (inr (omega arith), tt)))
      (refl, refl, tt)

abbrev received : List ChildReceivedEvent
received =
    record {
      token_id = 9;
      from = "0xaa";
      child_token_address = "0x1";
      child_token_id = 3;
      amount = 2;
    }
    ∷ []

abbrev transferred : List ChildTransferredEvent
transferred =
    record {
      token_id = 9;
      to = "0xaa";
      child_token_address = "0x1";
      child_token_id = 3;
      amount = 1;
    }
    ∷ []

get_child_tokens_example :
    (child_of "0x1" 3 (get_child_tokens received transferred)
      ≡ pos (received_of "0x1" 3 received - transferred_of "0x1" 3 transferred))
    × (times_child "0x1" 3 (get_child_tokens received transferred) ≡ (
        if ltb (transferred_of "0x1" 3 transferred) (received_of "0x1" 3 received) then 1 else 0))
get_child_tokens_example = get_child_tokens_lem "0x1" 3 received transferred

abbrev a_listing : ℕ → ListingCreatedEvent
a_listing n = record {
  block_number = n;
  block_hash = "0xb";
  listing_id = n;
  seller = "0xaa";
  token_address = "0x1";
  token_id = 3;
  price = 10;
  quantity = 1;
  max_per_address = 0;
}

abbrev a_deletion : ListingDeletedEvent
a_deletion = record {
  block_number = 8;
  block_hash = "0xc";
  listing_id = 1;
  token_address = "0x1";
  token_id = 3;
}

abbrev a_row : ItemRow
a_row = record {
  id = 1;
  token_address = "0x1";
  token_id = 0;
  image_bytes = "0x00";
  meta_generated = "name";
  parsed_item_name = none;
  parsed_category_name = none;
  parsed_creator_name = none;
}

abbrev a_collection : CollectionRow
a_collection = record {
  token_address = "0x1";
  owner = "0xaa";
  name = "Hats";
  symbol = "HAT";
  item_count = 1;
  palette = none;
  description = none;
  thumbnail_image = none;
  banner_image = none;
}

abbrev a_database : Database
a_database = record {
  events_collection_created = [];
  events_listing_created = a_listing 1 ∷ [];
  events_listing_deleted = [];
  events_listing_filled = [];
  collections = a_collection ∷ [];
  collection_items = a_row ∷ [];
  profiles = [];
}

get_composables_market_listings-indexer_example :
    get_composables_market_listings (
      indexer (
        index_composables_market_listings
          (a_listing 1 ∷ a_listing 2 ∷ [])
          (a_deletion ∷ [])
          a_database))
    ≡ get_composables_market_listings (contracts (a_listing 1 ∷ a_listing 2 ∷ []) (a_deletion ∷ []))
get_composables_market_listings-indexer_example =
    get_composables_market_listings-indexer (a_listing 1 ∷ []) (a_listing 2 ∷ []) []
      (a_deletion ∷ []) a_database (refl, tt) (refl, tt)
      (record { created_rows = refl; deleted_rows = refl })

-- A contract of three items, the last of which is rejected at first.
abbrev bytes : Option String → ℕ → Option String
bytes last i = if i == 2 then last else some "0x01"

abbrev a_contract : Option String → ItemContract
a_contract last = record {
  item_count = 3;
  palette = "0x000000";
  image_bytes = bytes last;
  meta_generated = λ i. some "name";
}

abbrev two_runs : List (ItemContract × String)
two_runs = (a_contract none, "0x1") ∷ (a_contract (some "0x02"), "0x1") ∷ []

index_runs-once_example : times_item "0x1" 1 (index_runs two_runs a_database).collection_items ≤ 1
index_runs-once_example = index_runs-once two_runs "0x1" 1 a_database (omega arith)

index_composable_items_retry_example :
    has_item
      (rows_after
        (a_contract (some "0x02"))
        "0x1"
        (index_composable_items (a_contract none) "0x1" a_database).database)
      "0x1"
      1
    ≡ true
unfolding index_composable_items index_items get_collection_item_count get_collection
index_composable_items_retry_example =
    index_composable_items_retry (a_contract none) (a_contract (some "0x02")) "0x1" 1 a_database
      refl (omega arith) (omega arith) refl refl refl

abbrev black : List ℕ
black = replicate 6 b'1'

abbrev red : List ℕ
red = replicate 6 b'f'

palette_of-palette_string_example :
    palette_of (palette_string (clear_spacer (spacer ∷ black ∷ []) ++ (red ∷ [])))
    ≡ some ((spacer ∷ black ∷ []) ++ (red ∷ []))
palette_of-palette_string_example =
    palette_of-palette_string (black ∷ []) (red ∷ []) (refl, tt) (refl, tt)
