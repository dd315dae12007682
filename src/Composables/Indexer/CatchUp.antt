-- ===== src/Composables/Indexer/CatchUp.antt =====
-- The index after several runs over logs that grow, for the tables of events.
use mathlib.Core.List.{append_assoc, map-append}
use composable_nouns_monorep.Common.{ℕ, ◌≡◌, refl, sym, ap, ◌∙◌, List, [], ◌∷◌, ◌++◌, map}
use composable_nouns_monorep.Composables.Database.{
  CollectionCreatedEvent, ListingCreatedEvent, ListingFilledEvent, ListingDeletedEvent,
  CollectionRow, Database,
}
use composable_nouns_monorep.Composables.Indexer.{
  index_composable_item_collections, deleted_row, index_composables_market_listings, is_filled_in,
  index_composables_market_listings_filled, new_collection,
}
use composable_nouns_monorep.Composables.Indexer.Copies.{
  fresh, copy_new, AreNew, fresh-again, copy_new-again, copy_new-rows, fresh-append,
}
use composable_nouns_monorep.Composables.Indexer.Steps.{
  has_created, has_deleted, has_collection, same_row, has_created-IsTest, has_deleted-IsTest,
  has_collection-IsTest, is_filled_in-IsTest, index_filled_lem, index_collections_lem,
  index_market_lem,
}

-- After a run over the market's logs, a run over longer logs leaves the index that one run over
-- them would have made, where a listing is created and deleted once.
pub index_composables_market_listings_again :
    (created created' : List ListingCreatedEvent) (deleted deleted' : List ListingDeletedEvent)
    (db : Database)
    → AreNew has_created same_row created created'
    → AreNew has_deleted deleted_row deleted deleted'
    → index_composables_market_listings
        (created ++ created')
        (deleted ++ deleted')
        (index_composables_market_listings created deleted db)
      ≡ index_composables_market_listings (created ++ created') (deleted ++ deleted') db
index_composables_market_listings_again created created' deleted deleted' db h k =
    rw
      (
        index_market_lem created deleted db,
        index_market_lem (created ++ created') (deleted ++ deleted'),
        copy_new-again has_created same_row has_created-IsTest db.events_listing_created created
            created' h,
        copy_new-again has_deleted deleted_row has_deleted-IsTest db.events_listing_deleted deleted
            deleted' k,
      )
      (sym (index_market_lem (created ++ created') (deleted ++ deleted') db))

-- The index holds the logs of the market as they are.
pub record IsIndexed (created : List ListingCreatedEvent) (deleted : List ListingDeletedEvent)
    (db : Database) : Type 0 where
  pub created_rows : db.events_listing_created ≡ created
  pub deleted_rows : db.events_listing_deleted ≡ map deleted_row deleted

map-same_row {ℓ} : {A : Type ℓ} (xs : List A) → map same_row xs ≡ xs
map-same_row [] = refl
map-same_row (x ∷ xs) = ap (λ ys. x ∷ ys) (map-same_row xs)

-- An index of the market's logs becomes the index of the longer logs.
pub index_composables_market_listings-IsIndexed :
    (created created' : List ListingCreatedEvent) (deleted deleted' : List ListingDeletedEvent)
    (db : Database)
    → AreNew has_created same_row created created'
    → AreNew has_deleted deleted_row deleted deleted'
    → IsIndexed created deleted db
    → IsIndexed
        (created ++ created')
        (deleted ++ deleted')
        (index_composables_market_listings (created ++ created') (deleted ++ deleted') db)
index_composables_market_listings-IsIndexed created created' deleted deleted' db h k I = record {
  created_rows =
      ap (λ d. d.events_listing_created)
        (index_market_lem (created ++ created') (deleted ++ deleted') db)
      ∙ ap (λ T. copy_new has_created same_row T (created ++ created'))
          (I.created_rows ∙ sym (map-same_row created))
      ∙ copy_new-rows has_created same_row has_created-IsTest created created' h
      ∙ map-same_row (created ++ created');
  deleted_rows =
      ap (λ d. d.events_listing_deleted)
        (index_market_lem (created ++ created') (deleted ++ deleted') db)
      ∙ ap (λ T. copy_new has_deleted deleted_row T (deleted ++ deleted')) I.deleted_rows
      ∙ copy_new-rows has_deleted deleted_row has_deleted-IsTest deleted deleted' k;
}

-- After a run over the log of the factory, a run over a longer log leaves the index that one run
-- over it would have made: no collection is listed twice, and none is left out.
pub index_composable_item_collections_again :
    (n : ℕ) (es more : List CollectionCreatedEvent) (db : Database)
    → AreNew has_collection same_row es more
    → index_composable_item_collections n (es ++ more) (index_composable_item_collections n es db)
      ≡ index_composable_item_collections n (es ++ more) db
unfolding index_composable_item_collections
index_composable_item_collections_again n es more db h =
    rw
      (
        index_collections_lem n (map (λ r. r.token_address) db.events_collection_created) es db,
        index_collections_lem n (map (λ r. r.token_address) db.events_collection_created)
            (es ++ more) db,
        index_collections_lem n,
      )
      (ap
        (λ (T : List CollectionCreatedEvent × List CollectionRow). record db {
          events_collection_created = T.0;
          collections = T.1;
        })
        (λ i. (
          copy_new-again has_collection same_row has_collection-IsTest db.events_collection_created
              es more h i,
          rows i,
        )))
  where
    T : List CollectionCreatedEvent
    T = db.events_collection_created

    rows :
        (db.collections ++ map (new_collection n) (fresh has_collection same_row T es))
          ++ map
              (new_collection n)
              (fresh has_collection same_row (copy_new has_collection same_row T es) (es ++ more))
        ≡ db.collections ++ map (new_collection n) (fresh has_collection same_row T (es ++ more))
    rows =
        rw
          (
            fresh-again has_collection same_row has_collection-IsTest T es more h,
            fresh-append has_collection same_row has_collection-IsTest T es more,
            map-append,
          )
          (append_assoc db.collections _ _)

-- The same for the fills, where the later events are of other transactions.
pub index_composables_market_listings_filled_again :
    (es more : List ListingFilledEvent) (db : Database)
    → AreNew is_filled_in same_row es more
    → index_composables_market_listings_filled
        (es ++ more)
        (index_composables_market_listings_filled es db)
      ≡ index_composables_market_listings_filled (es ++ more) db
unfolding index_composables_market_listings_filled
index_composables_market_listings_filled_again es more db h =
    rw
      (
        index_filled_lem db.events_listing_filled es db,
        index_filled_lem db.events_listing_filled (es ++ more) db,
        index_filled_lem,
      )
      (ap (λ T. record db { events_listing_filled = T })
        (copy_new-again is_filled_in same_row is_filled_in-IsTest db.events_listing_filled es more
          h))
