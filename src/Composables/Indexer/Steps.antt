-- ===== src/Composables/Indexer/Steps.antt =====
-- The loops of the index functions, each as one step.
use mathlib.Core.List.{append_assoc, append-nil}
use composable_nouns_monorep.Common.{
  ℕ, ◌≡◌, refl, sym, ap, Bool, not, ◌||◌, List, [], ◌∷◌, ◌++◌, String, eq_refl, map, includes,
  filter, arith, Bool-cases, inl, inr,
}
use composable_nouns_monorep.Composables.Database.{
  CollectionCreatedEvent, ListingCreatedEvent, ListingFilledEvent, ListingDeletedEvent, DeletedRow,
  CollectionRow, Database,
}
use composable_nouns_monorep.Composables.Indexer.{
  includes_id, index_collections, index_created, deleted_row, index_deleted,
  index_composables_market_listings, is_filled_in, index_filled, new_collection,
}
use composable_nouns_monorep.Composables.Indexer.Copies.{copy_new, IsTest}

abbrev pub has_created : List ListingCreatedEvent → ListingCreatedEvent → Bool
has_created T e = includes_id (map (λ r. r.listing_id) T) e.listing_id

abbrev pub has_deleted : List DeletedRow → ListingDeletedEvent → Bool
has_deleted T e = includes_id (map (λ r. r.listing_id) T) e.listing_id

abbrev pub has_collection : List CollectionCreatedEvent → CollectionCreatedEvent → Bool
has_collection T e = includes (map (λ r. r.token_address) T) e.token_address

-- The row of an event that is kept as it is.
abbrev pub same_row {ℓ} : {A : Type ℓ} → A → A
same_row e = e

pub has_created-IsTest : IsTest has_created same_row
has_created-IsTest = record { has-append = app; has-cons = λ T e. ground arith }
  where
    app :
        (T U : List ListingCreatedEvent) (e : ListingCreatedEvent)
        → has_created (T ++ U) e ≡ (has_created T e || has_created U e)
    app [] U e = refl
    app (r ∷ T) U e = ground (arith, app T U e)

pub has_deleted-IsTest : IsTest has_deleted deleted_row
has_deleted-IsTest = record { has-append = app; has-cons = λ T e. ground arith }
  where
    app :
        (T U : List DeletedRow) (e : ListingDeletedEvent)
        → has_deleted (T ++ U) e ≡ (has_deleted T e || has_deleted U e)
    app [] U e = refl
    app (r ∷ T) U e = ground (arith, app T U e)

pub has_collection-IsTest : IsTest has_collection same_row
has_collection-IsTest = record {
  has-append = app;
  has-cons = λ T e. ground (arith, eq_refl e.token_address);
}
  where
    app :
        (T U : List CollectionCreatedEvent) (e : CollectionCreatedEvent)
        → has_collection (T ++ U) e ≡ (has_collection T e || has_collection U e)
    app [] U e = refl
    app (r ∷ T) U e = ground (arith, app T U e)

pub is_filled_in-IsTest : IsTest is_filled_in same_row
is_filled_in-IsTest = record { has-append = app; has-cons = λ T e. ground arith }
  where
    app :
        (T U : List ListingFilledEvent) (e : ListingFilledEvent)
        → is_filled_in (T ++ U) e ≡ (is_filled_in T e || is_filled_in U e)
    app [] U e = refl
    app (r ∷ T) U e = ground (arith, app T U e)

-- The loops as one step.
pub index_created_lem :
    (known : List ℕ) (es : List ListingCreatedEvent) (db : Database)
    → index_created known es db ≡ record db {
      events_listing_created =
          db.events_listing_created
          ++ map same_row (filter (λ e. not (includes_id known e.listing_id)) es);
    }
unfolding index_created
index_created_lem known [] db =
    ap (λ T. record db { events_listing_created = T }) (sym (append-nil _))
index_created_lem known (e ∷ es) db = elim (Bool-cases (includes_id known e.listing_id)) [
  | inl h ↦ rw (h, index_created) (index_created_lem known es db)
  | inr h ↦
      rw (h, index_created, index_created_lem known es)
        (ap (λ T. record db { events_listing_created = T })
          (append_assoc db.events_listing_created _ _))
]

pub index_deleted_lem :
    (known : List ℕ) (es : List ListingDeletedEvent) (db : Database)
    → index_deleted known es db ≡ record db {
      events_listing_deleted =
          db.events_listing_deleted
          ++ map deleted_row (filter (λ e. not (includes_id known e.listing_id)) es);
    }
unfolding index_deleted
index_deleted_lem known [] db =
    ap (λ T. record db { events_listing_deleted = T }) (sym (append-nil _))
index_deleted_lem known (e ∷ es) db = elim (Bool-cases (includes_id known e.listing_id)) [
  | inl h ↦ rw (h, index_deleted) (index_deleted_lem known es db)
  | inr h ↦
      rw (h, index_deleted, index_deleted_lem known es)
        (ap (λ T. record db { events_listing_deleted = T })
          (append_assoc db.events_listing_deleted _ _))
]

pub index_filled_lem :
    (known : List ListingFilledEvent) (es : List ListingFilledEvent) (db : Database)
    → index_filled known es db ≡ record db {
      events_listing_filled =
          db.events_listing_filled ++ map same_row (filter (λ e. not (is_filled_in known e)) es);
    }
unfolding index_filled
index_filled_lem known [] db =
    ap (λ T. record db { events_listing_filled = T }) (sym (append-nil _))
index_filled_lem known (e ∷ es) db = elim (Bool-cases (is_filled_in known e)) [
  | inl h ↦ rw (h, index_filled) (index_filled_lem known es db)
  | inr h ↦
      rw (h, index_filled, index_filled_lem known es)
        (ap (λ T. record db { events_listing_filled = T })
          (append_assoc db.events_listing_filled _ _))
]

pub index_collections_lem :
    (n : ℕ) (known : List String) (es : List CollectionCreatedEvent) (db : Database)
    → index_collections n known es db ≡ record db {
      events_collection_created =
          db.events_collection_created
          ++ map same_row (filter (λ e. not (includes known e.token_address)) es);
      collections =
          db.collections
          ++ map (new_collection n) (filter (λ e. not (includes known e.token_address)) es);
    }
unfolding index_collections
index_collections_lem n known [] db =
    ap
      (λ (T : List CollectionCreatedEvent × List CollectionRow). record db {
        events_collection_created = T.0;
        collections = T.1;
      })
      (λ i. (sym (append-nil db.events_collection_created) i, sym (append-nil db.collections) i))
index_collections_lem n known (e ∷ es) db = elim (Bool-cases (includes known e.token_address)) [
  | inl h ↦ rw (h, index_collections) (index_collections_lem n known es db)
  | inr h ↦
      rw (h, index_collections, index_collections_lem n known es)
        (ap
          (λ (T : List CollectionCreatedEvent × List CollectionRow). record db {
            events_collection_created = T.0;
            collections = T.1;
          })
          (λ i. (
            append_assoc db.events_collection_created (e ∷ [])
                (map same_row (filter (λ e. not (includes known e.token_address)) es)) i,
            append_assoc db.collections (new_collection n e ∷ [])
                (map (new_collection n) (filter (λ e. not (includes known e.token_address)) es)) i,
          )))
]

pub index_market_lem :
    (created : List ListingCreatedEvent) (deleted : List ListingDeletedEvent) (db : Database)
    → index_composables_market_listings created deleted db ≡ record db {
      events_listing_created = copy_new has_created same_row db.events_listing_created created;
      events_listing_deleted = copy_new has_deleted deleted_row db.events_listing_deleted deleted;
    }
unfolding index_composables_market_listings
index_market_lem created deleted db =
    rw (index_created_lem (map (λ r. r.listing_id) db.events_listing_created) created db)
      (index_deleted_lem (map (λ r. r.listing_id) db.events_listing_deleted) deleted _)
