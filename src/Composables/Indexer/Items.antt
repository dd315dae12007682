-- ===== src/Composables/Indexer/Items.antt =====
-- Runs over the items of collections, interrupted ones included.
use composable_nouns_monorep.Common.{
  ℕ, zero, suc, ◌+◌, ◌-◌, ◌≤◌, ◌<◌, ◌≡◌, refl, ◌∙◌, Bool, true, false, not, ◌&&◌, ◌||◌, Option,
  none, some, List, [], ◌∷◌, ◌++◌, ◌==◌, ltb, if◌then◌else◌, String, str_eq, eq_refl, filter, arith,
  Bool-cases, inl, inr,
}
use composable_nouns_monorep.Composables.Database.{ItemRow, Database, get_collection_item_count}
use composable_nouns_monorep.Composables.Indexer.{
  ItemContract, has_item, fetch_item, index_items, index_composable_items,
}

-- How many rows an item has.
abbrev pub times_item : String → ℕ → List ItemRow → ℕ
times_item b j [] = 0
times_item b j (r ∷ rows) =
    (if str_eq r.token_address b && r.token_id == j then 1 else 0) + times_item b j rows

abbrev is_item : String → ℕ → ItemRow → Bool
is_item b j r = str_eq r.token_address b && r.token_id == j

times_item-append :
    (b : String) (j : ℕ) (rows : List ItemRow) (r : ItemRow)
    → times_item b j (rows ++ r ∷ []) ≡ times_item b j rows + (if is_item b j r then 1 else 0)
times_item-append b j [] r = ground arith
times_item-append b j (x ∷ rows) r = ground (arith, times_item-append b j rows r)

pub has_item-append :
    (b : String) (j : ℕ) (rows : List ItemRow) (r : ItemRow)
    → has_item (rows ++ r ∷ []) b j ≡ (has_item rows b j || is_item b j r)
has_item-append b j [] r = ground arith
has_item-append b j (x ∷ rows) r = ground (arith, has_item-append b j rows r)

pub times-has_item :
    (b : String) (j : ℕ) (rows : List ItemRow) → has_item rows b j ≡ false → times_item b j rows ≡ 0
times-has_item b j [] h = refl
times-has_item b j (x ∷ rows) h = ground (arith, times-has_item b j rows)

-- The selection of a collection's rows has the items of that collection.
pub has_item-selected :
    (a : String) (j : ℕ) (rows : List ItemRow)
    → has_item (filter (λ r. str_eq r.token_address a) rows) a j ≡ has_item rows a j
has_item-selected a j [] = refl
has_item-selected a j (x ∷ rows) = ground (arith, has_item-selected a j rows)

abbrev pub is_text : Option String → Bool
is_text none = false
is_text (some s) = not (str_eq s "")

-- What a fetch does to the rows of an item: it adds one, or none.
fetch_item-times :
    (a b : String) (i j : ℕ) (x y : Option String) (db : Database)
    → times_item b j (fetch_item a i x y db).database.collection_items
      ≡ times_item b j db.collection_items
        + (if is_text x && is_text y && str_eq a b && i == j then 1 else 0)
fetch_item-times a b i j none y db = ground arith
fetch_item-times a b i j (some s) none db = ground arith
fetch_item-times a b i j (some s) (some m) db = elim (Bool-cases (str_eq s "" || str_eq m "")) [
  | inl e ↦ rw (e, fetch_item) (ground (arith, e))
  | inr e ↦ rw (e, fetch_item, times_item-append) (ground (arith, e))
]

fetch_item-has :
    (a b : String) (i j : ℕ) (x y : Option String) (db : Database)
    → has_item (fetch_item a i x y db).database.collection_items b j
      ≡ (has_item db.collection_items b j || (is_text x && is_text y && str_eq a b && i == j))
fetch_item-has a b i j none y db = ground arith
fetch_item-has a b i j (some s) none db = ground arith
fetch_item-has a b i j (some s) (some m) db = elim (Bool-cases (str_eq s "" || str_eq m "")) [
  | inl e ↦ rw (e, fetch_item) (ground (arith, e))
  | inr e ↦ rw (e, fetch_item, has_item-append) (ground (arith, e))
]

module _ (C : ItemContract) (known : List ItemRow) (a : String) where
  -- An item that was not selected has no row before its turn.
  abbrev IsFree : String → ℕ → ℕ → Database → Type 0
  IsFree b j i db =
      (times_item b j db.collection_items ≤ 1)
      × (i ≤ j
          → str_eq a b ≡ true
          → has_item known a j ≡ false
          → times_item b j db.collection_items ≡ 0)

  pub index_items-once :
      (b : String) (j n i : ℕ) (db : Database)
      → IsFree b j i db
      → times_item b j (index_items C known a n i db).database.collection_items ≤ 1
  unfolding index_items
  index_items-once b j zero i db h = h.0
  index_items-once b j (suc n) i db h = elim (Bool-cases (has_item known a i)) [
    | inl k ↦
        rw (k, index_items) (index_items-once b j n (i + 1) db (h.0, λ p. h.1 (omega (arith, p))))
    | inr k ↦
        let o = fetch_item a i (C.image_bytes i) (C.meta_generated i) db in
        let t = fetch_item-times a b i j (C.image_bytes i) (C.meta_generated i) db in
        let free : IsFree b j (i + 1) o.database =
          (ground (arith, t, h.0, h.1), λ p q r. ground (arith, t, h.1 (omega (arith, p)) q r)) in
        elim (Bool-cases o.is_done) [
          | inl d ↦ rw (k, d, index_items) (index_items-once b j n (i + 1) o.database free)
          | inr d ↦ rw (k, d, index_items) free.0
        ]
  ]

  index_items-keeps :
      (b : String) (j n i : ℕ) (db : Database)
      → has_item db.collection_items b j ≡ true
      → has_item (index_items C known a n i db).database.collection_items b j ≡ true
  unfolding index_items
  index_items-keeps b j zero i db h = h
  index_items-keeps b j (suc n) i db h = elim (Bool-cases (has_item known a i)) [
    | inl k ↦ rw (k, index_items) (index_items-keeps b j n (i + 1) db h)
    | inr k ↦
        let o = fetch_item a i (C.image_bytes i) (C.meta_generated i) db in
        let there : has_item o.database.collection_items b j ≡ true =
          fetch_item-has a b i j (C.image_bytes i) (C.meta_generated i) db ∙ ground (arith, h) in
        elim (Bool-cases o.is_done) [
          | inl d ↦ rw (k, d, index_items) (index_items-keeps b j n (i + 1) o.database there)
          | inr d ↦ rw (k, d, index_items) there
        ]
  ]

  index_items_complete :
      (j n i : ℕ) (db : Database)
      → ((m : ℕ) → has_item known a m ≡ true → has_item db.collection_items a m ≡ true)
      → i ≤ j
      → j < i + n
      → is_text (C.image_bytes j) ≡ true
      → is_text (C.meta_generated j) ≡ true
      → (index_items C known a n i db).is_done ≡ true
      → has_item (index_items C known a n i db).database.collection_items a j ≡ true
  unfolding index_items
  index_items_complete j zero i db w p q x y = absurd (omega arith)
  index_items_complete j (suc n) i db w p q x y = elim (Bool-cases (has_item known a i)) [
    | inl k ↦ elim (Bool-cases (i == j)) [
      | inl e ↦ λ d.
          let same : i ≡ j = ground (arith, e) in
          index_items-keeps a j (suc n) i db (rw (← same) (w i k))
      | inr e ↦
          rw (k, index_items)
            (index_items_complete j n (i + 1) db w (ground (arith, e)) (omega arith) x y)
    ]
    | inr k ↦
        let o = fetch_item a i (C.image_bytes i) (C.meta_generated i) db in
        let has : (m : ℕ)
            → has_item o.database.collection_items a m ≡ (
                has_item db.collection_items a m
                || (is_text (C.image_bytes i)
                    && is_text (C.meta_generated i)
                    && str_eq a a
                    && i == m)) =
          λ m. fetch_item-has a a i m (C.image_bytes i) (C.meta_generated i) db in
        elim (Bool-cases o.is_done) [
          | inl d ↦ elim (Bool-cases (i == j)) [
            | inl e ↦
                rw (k, d, index_items)
                  (λ f.
                    let same : i ≡ j = ground (arith, e) in
                    index_items-keeps a j n (i + 1) o.database
                      (has j ∙ rw same (ground (arith, x, y, eq_refl a))))
            | inr e ↦
                rw (k, d, index_items)
                  (index_items_complete j n (i + 1) o.database
                    (λ m h. has m ∙ ground (arith, w m h)) (ground (arith, e)) (omega arith) x y)
          ]
          | inr d ↦ rw (k, d, index_items) (λ f. absurd (cc f))
        ]
  ]

-- A run that goes through leaves no item without a row that the contract has texts for, from the
-- number of items that the index knew on.
pub index_composable_items-has_item :
    (C : ItemContract) (a : String) (j : ℕ) (db : Database)
    → get_collection_item_count a db ≤ j
    → j < C.item_count
    → is_text (C.image_bytes j) ≡ true
    → is_text (C.meta_generated j) ≡ true
    → (index_composable_items C a db).is_done ≡ true
    → has_item (index_composable_items C a db).database.collection_items a j ≡ true
unfolding index_composable_items
index_composable_items-has_item C a j db p q x y =
    let known = filter (λ r. str_eq r.token_address a) db.collection_items in
    let count = get_collection_item_count a db in
    let more : ltb count C.item_count ≡ true = ground arith in
    let o = index_items C known a (C.item_count - count) count db in
    elim (Bool-cases o.is_done) [
      | inl d ↦
          rw (more, d)
            (λ e.
              index_items_complete C known a j (C.item_count - count) count db
                (λ m h. ground (arith, h, has_item-selected a m db.collection_items)) p
                (omega arith) x y d)
      | inr d ↦ rw (more, d) (λ e. absurd (cc e))
    ]
