-- ===== src/Composables/Indexer/Runs.antt =====
-- Several runs over the items of collections, those that a rejected call cuts short included.
use composable_nouns_monorep.Common.{
  ℕ, zero, suc, ◌+◌, ◌-◌, ◌≤◌, ◌<◌, ◌≡◌, refl, ap, ◌∙◌, true, false, ◌||◌, Option, none, some, List,
  [], ◌∷◌, ltb, String, str_eq, eq_iff, filter, arith, Bool-cases, inl, inr,
}
use composable_nouns_monorep.Composables.Database.{
  ItemRow, Database, first, rows_of, get_collection, get_collection_item_count,
}
use composable_nouns_monorep.Composables.Indexer.{
  ItemContract, has_item, fetch_item, index_items, index_composable_items,
}
use composable_nouns_monorep.Composables.Indexer.Items.{
  times_item, times-has_item, has_item-selected, is_text, index_items-once,
  index_composable_items-has_item,
}

-- A run on each of several collections, each with what its contract answers then.
unfoldable pub index_runs : List (ItemContract × String) → Database → Database
index_runs [] db = db
index_runs ((C, a) ∷ runs) db = index_runs runs (index_composable_items C a db).database

index_composable_items-once :
    (C : ItemContract) (a b : String) (j : ℕ) (db : Database)
    → times_item b j db.collection_items ≤ 1
    → times_item b j (index_composable_items C a db).database.collection_items ≤ 1
unfolding index_composable_items
index_composable_items-once C a b j db h =
    let known = filter (λ r. str_eq r.token_address a) db.collection_items in
    let count = get_collection_item_count a db in
    let o = index_items C known a (C.item_count - count) count db in
    let once : times_item b j o.database.collection_items ≤ 1 =
      index_items-once C known a b j (C.item_count - count) count db (
        h,
        λ p e f. ground (
          arith,
          f,
          eq_iff a b,
          has_item-selected a j db.collection_items,
          times-has_item a j db.collection_items,
        ),
      ) in
    elim (Bool-cases (ltb count C.item_count)) [
      | inl m ↦ elim (Bool-cases o.is_done) [ inl d ↦ rw (m, d) once | inr d ↦ rw (m, d) once ]
      | inr m ↦ rw m h
    ]

-- However many runs there are, and whichever of them a rejected call cuts short, no item gets a
-- second row.
pub index_runs-once :
    (runs : List (ItemContract × String)) (b : String) (j : ℕ) (db : Database)
    → times_item b j db.collection_items ≤ 1
    → times_item b j (index_runs runs db).collection_items ≤ 1
unfolding index_runs
index_runs-once [] b j db h = h
index_runs-once ((C, a) ∷ runs) b j db h =
    index_runs-once runs b j (index_composable_items C a db).database
      (index_composable_items-once C a b j db h)

fetch_item-collections :
    (a : String) (i : ℕ) (x y : Option String) (db : Database)
    → (fetch_item a i x y db).database.collections ≡ db.collections
fetch_item-collections a i none y db = refl
fetch_item-collections a i (some s) none db = refl
fetch_item-collections a i (some s) (some m) db = elim (Bool-cases (str_eq s "" || str_eq m "")) [
  | inl e ↦ rw (e, fetch_item) refl
  | inr e ↦ rw (e, fetch_item) refl
]

index_items-collections :
    (C : ItemContract) (known : List ItemRow) (a : String) (n i : ℕ) (db : Database)
    → (index_items C known a n i db).database.collections ≡ db.collections
unfolding index_items
index_items-collections C known a zero i db = refl
index_items-collections C known a (suc n) i db = elim (Bool-cases (has_item known a i)) [
  | inl k ↦ rw (k, index_items) (index_items-collections C known a n (i + 1) db)
  | inr k ↦
      let o = fetch_item a i (C.image_bytes i) (C.meta_generated i) db in
      let same = fetch_item-collections a i (C.image_bytes i) (C.meta_generated i) db in
      elim (Bool-cases o.is_done) [
        | inl d ↦
            rw (k, d, index_items) (index_items-collections C known a n (i + 1) o.database ∙ same)
        | inr d ↦ rw (k, d, index_items) same
      ]
]

-- A run that a rejected call cuts short leaves the number of items as it was.
index_composable_items-count :
    (C : ItemContract) (a : String) (db : Database)
    → (index_composable_items C a db).is_done ≡ false
    → get_collection_item_count a (index_composable_items C a db).database
      ≡ get_collection_item_count a db
unfolding index_composable_items get_collection_item_count get_collection
index_composable_items-count C a db =
    let known = filter (λ r. str_eq r.token_address a) db.collection_items in
    let count = get_collection_item_count a db in
    let o = index_items C known a (C.item_count - count) count db in
    let same = index_items-collections C known a (C.item_count - count) count db in
    elim (Bool-cases (ltb count C.item_count)) [
      | inl m ↦ elim (Bool-cases o.is_done) [
        | inl d ↦ rw (m, d) (λ f. absurd (cc f))
        | inr d ↦
            rw (m, d)
              (λ f.
                ap (λ cs. elim (first (rows_of a cs)) [ none ↦ 0 | some r ↦ r.item_count ]) same)
      ]
      | inr m ↦ rw m (λ f. refl)
    ]

abbrev pub rows_after : ItemContract → String → Database → List ItemRow
rows_after C a db = (index_composable_items C a db).database.collection_items

-- After a run that was cut short, a run that goes through leaves no item without a row that the
-- contract has texts for by then, from the number of items that the index knew before the first.
pub index_composable_items_retry :
    (C C' : ItemContract) (a : String) (j : ℕ) (db : Database)
    → (index_composable_items C a db).is_done ≡ false
    → get_collection_item_count a db ≤ j
    → j < C'.item_count
    → is_text (C'.image_bytes j) ≡ true
    → is_text (C'.meta_generated j) ≡ true
    → (index_composable_items C' a (index_composable_items C a db).database).is_done ≡ true
    → has_item (rows_after C' a (index_composable_items C a db).database) a j ≡ true
index_composable_items_retry C C' a j db stopped p =
    index_composable_items-has_item C' a j (index_composable_items C a db).database
      (rw (index_composable_items-count C a db stopped) p)
