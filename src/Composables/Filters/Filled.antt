-- ===== src/Composables/Filters/Filled.antt =====
-- composablesIndexer.ts, `indexComposableItemsSearchFilters`: which names a run fills in.
use composable_nouns_monorep.Common.{
  ℕ, zero, suc, ◌≡◌, ◌≢◌, ◌⊎◌, refl, ap, sym, ◌∙◌, Bool, true, false, ◌||◌, Option, none, some,
  List, [], ◌∷◌, ◌<>◌, ◌==◌, if◌then◌else◌, String, filter, get_elem?, arith, Option-cases,
  Bool-cases, inl, inr, some_path, subst,
}
use composable_nouns_monorep.Composables.Database.{ItemRow, Database, update_where}
use composable_nouns_monorep.Composables.Filters.{
  ParsedMeta, is_unparsed, set_parsed, meta_of, index_filters,
  index_composable_items_search_filters,
}

-- No other row of the list has a row's id.
abbrev pub HasOwnId : ItemRow → List ItemRow → Type 0
HasOwnId x [] = Unit
HasOwnId x (r ∷ rows) = ((x.id == r.id) ≡ true → x ≡ r) × HasOwnId x rows

HasOwnId-filter :
    (p : ItemRow → Bool) (x : ItemRow) (rows : List ItemRow)
    → HasOwnId x rows
    → HasOwnId x (filter p rows)
HasOwnId-filter p x [] h = tt
HasOwnId-filter p x (r ∷ rows) h = elim (Bool-cases (p r)) [
  | inl e ↦ rw e (h.0, HasOwnId-filter p x rows h.1)
  | inr e ↦ rw e (HasOwnId-filter p x rows h.1)
]

contradiction : true ≡ false → ⊥
contradiction h = cc

abbrev has_id : List ItemRow → ItemRow → Bool
has_id [] x = false
has_id (r ∷ rows) x = x.id == r.id || has_id rows x

-- Among the rows that a test selects a row has its id if the test does.
has_id-filter :
    (p : ItemRow → Bool) (x : ItemRow) (rows : List ItemRow) (i : ℕ)
    → get_elem? rows i ≡ some x
    → p x ≡ true
    → has_id (filter p rows) x ≡ true
has_id-filter p x [] i h e = absurd (cc)
has_id-filter p x (r ∷ rows) zero h e =
    subst (λ y. has_id (filter p (y ∷ rows)) x ≡ true) (sym (some_path h))
      (rw e (let own : (x.id == x.id) ≡ true = ground arith in rw own refl))
has_id-filter p x (r ∷ rows) (suc i) h e = elim (Bool-cases (p r)) [
  | inl f ↦ rw f (ground (arith, has_id-filter p x rows i h e))
  | inr f ↦ rw f (has_id-filter p x rows i h e)
]

has_id-filter_out :
    (p : ItemRow → Bool) (x : ItemRow) (rows : List ItemRow)
    → HasOwnId x rows
    → p x ≡ false
    → has_id (filter p rows) x ≡ false
has_id-filter_out p x [] h e = refl
has_id-filter_out p x (r ∷ rows) h e = elim (Bool-cases (p r)) [
  | inl f ↦ elim (Bool-cases (x.id == r.id)) [
    | inl g ↦ absurd (contradiction (sym f ∙ subst (λ y. p y ≡ false) (h.0 g) e))
    | inr g ↦ rw (f, g) (has_id-filter_out p x rows h.1 e)
  ]
  | inr f ↦ rw f (has_id-filter_out p x rows h.1 e)
]

-- A row with all its names, and one that misses a name.
abbrev pub HasNames : ItemRow → Type 0
HasNames x =
    (a b c : String) × (x.parsed_item_name ≡ some a)
    × (x.parsed_category_name ≡ some b)
    × (x.parsed_creator_name ≡ some c)

abbrev pub MissesName : ItemRow → Type 0
MissesName x =
    (x.parsed_item_name ≡ none) ⊎ ((x.parsed_category_name ≡ none) ⊎ (x.parsed_creator_name ≡ none))

-- The row with the names of its metadata.
abbrev pub with_names : ParsedMeta → ItemRow → ItemRow
with_names m x = record {
  id = x.id;
  token_address = x.token_address;
  token_id = x.token_id;
  image_bytes = x.image_bytes;
  meta_generated = x.meta_generated;
  parsed_item_name = m.item_name;
  parsed_category_name = m.category_name;
  parsed_creator_name = m.creator_name;
}

missing_or_not :
    (x : ItemRow) → ((is_unparsed x ≡ false) × HasNames x) ⊎ ((is_unparsed x ≡ true) × MissesName x)
missing_or_not x = elim (Option-cases x.parsed_item_name) [
  | inl e ↦ inr (rw e refl, inl e)
  | inr (a, e) ↦ elim (Option-cases x.parsed_category_name) [
    | inl f ↦ inr (rw (e, f) refl, inr (inl f))
    | inr (b, f) ↦ elim (Option-cases x.parsed_creator_name) [
      | inl g ↦ inr (rw (e, f, g) refl, inr (inr g))
      | inr (c, g) ↦ inl (rw (e, f, g) refl, (a, b, c, e, f, g))
    ]
  ]
]

module _ (parse : String → Option ParsedMeta) where
  abbrev pub filled : ItemRow → ItemRow → ItemRow
  filled r y = elim (meta_of parse r) [ none ↦ y | some m ↦ set_parsed m y ]

  abbrev apply : List ItemRow → ItemRow → ItemRow
  apply [] y = y
  apply (r ∷ rows) y = apply rows (if y.id == r.id then filled r y else y)

  abbrev pub AreParsed : List ItemRow → Type 0
  AreParsed [] = Unit
  AreParsed (r ∷ rows) = (meta_of parse r ≢ none) × AreParsed rows

  filled_id : (r y : ItemRow) → (filled r y).id ≡ y.id
  filled_id r y = elim (Option-cases (meta_of parse r)) [
    | inl e ↦ rw (filled, e) refl
    | inr (m, e) ↦ rw (filled, e) refl
  ]

  filled_twice : (r y : ItemRow) → filled r (filled r y) ≡ filled r y
  filled_twice r y = elim (Option-cases (meta_of parse r)) [
    | inl e ↦ let f : filled r y ≡ y = rw (filled, e) refl in rw (filled, e) f
    | inr (m, e) ↦
        let f : filled r y ≡ set_parsed m y = rw (filled, e) refl in rw f (rw (filled, e) refl)
  ]

  -- A row that has been filled in stays.
  apply-filled :
      (x : ItemRow) (rows : List ItemRow) → HasOwnId x rows → apply rows (filled x x) ≡ filled x x
  apply-filled x [] h = refl
  apply-filled x (r ∷ rows) h = rw (filled_id x x) (elim (Bool-cases (x.id == r.id)) [
    | inl e ↦ rw e (
        subst (λ y. apply rows (filled y (filled x x)) ≡ filled x x) (h.0 e)
          (rw (filled_twice x x) (apply-filled x rows h.1)))
    | inr e ↦ rw e (apply-filled x rows h.1)
  ])

  apply_lem :
      (x : ItemRow) (rows : List ItemRow)
      → HasOwnId x rows
      → apply rows x ≡ (if has_id rows x then filled x x else x)
  apply_lem x [] h = refl
  apply_lem x (r ∷ rows) h = elim (Bool-cases (x.id == r.id)) [
    | inl e ↦
        rw e (subst (λ y. apply rows (filled y x) ≡ filled x x) (h.0 e) (apply-filled x rows h.1))
    | inr e ↦ rw e (apply_lem x rows h.1)
  ]

  get_elem?-update_where :
      (p : ItemRow → Bool) (f : ItemRow → ItemRow) (xs : List ItemRow) (i : ℕ) (x : ItemRow)
      → get_elem? xs i ≡ some x
      → get_elem? (update_where p f xs) i ≡ some (if p x then f x else x)
  get_elem?-update_where p f [] i x h = absurd (cc)
  get_elem?-update_where p f (y ∷ xs) zero x h =
      ap (λ z. some (if p z then f z else z)) (some_path h)
  get_elem?-update_where p f (y ∷ xs) (suc i) x h = get_elem?-update_where p f xs i x h

  get_elem?-index_filters :
      (rows : List ItemRow) (db : Database) (i : ℕ) (y : ItemRow)
      → AreParsed rows
      → get_elem? db.collection_items i ≡ some y
      → ((index_filters parse rows db).is_done ≡ true)
        × (get_elem? (index_filters parse rows db).database.collection_items i
            ≡ some (apply rows y))
  unfolding index_filters
  get_elem?-index_filters [] db i y a h = (refl, h)
  get_elem?-index_filters (r ∷ rows) db i y a h = elim (Option-cases (meta_of parse r)) [
    | inl e ↦ absurd (a.0 e)
    | inr (m, e) ↦
        rw (index_filters, filled, e)
          (get_elem?-index_filters rows
            (record db {
              collection_items =
                  update_where (λ z. z.id == r.id) (set_parsed m) db.collection_items;
            })
            i (if y.id == r.id then set_parsed m y else y) a.1
            (get_elem?-update_where (λ z. z.id == r.id) (set_parsed m) db.collection_items i y h))
  ]

  -- The row that the run leaves is the one that `filled` describes, if a name was missing.
  index_composable_items_search_filters-filled :
      (db : Database) (i : ℕ) (x : ItemRow)
      → AreParsed (filter is_unparsed db.collection_items)
      → HasOwnId x db.collection_items
      → get_elem? db.collection_items i ≡ some x
      → ((index_composable_items_search_filters parse db).is_done ≡ true)
        × (get_elem? (index_composable_items_search_filters parse db).database.collection_items i
            ≡ some (if is_unparsed x then filled x x else x))
  unfolding index_composable_items_search_filters
  index_composable_items_search_filters-filled db i x a own h =
      let rows = filter is_unparsed db.collection_items in
      let (d, e) = get_elem?-index_filters rows db i x a h in
      (
        d,
        e
            ∙ ap some (
                apply_lem x rows (HasOwnId-filter is_unparsed x db.collection_items own)
                ∙ selected (Bool-cases (is_unparsed x))),
      )
    where
      selected :
          (is_unparsed x ≡ true) ⊎ (is_unparsed x ≡ false)
          → (if has_id (filter is_unparsed db.collection_items) x then filled x x else x)
            ≡ (if is_unparsed x then filled x x else x)
      selected (inl f) = rw (has_id-filter is_unparsed x db.collection_items i h f, f) refl
      selected (inr f) = rw (has_id-filter_out is_unparsed x db.collection_items own f, f) refl

  -- Where the metadata of each row without all of its names can be read, a run goes through. Of a row
  -- with an id of its own that has an item's, a category's and a creator's name nothing changes; one
  -- that misses a name then has the three names of its metadata, each in its column, and is otherwise
  -- as it was.
  pub index_composable_items_search_filters_lem :
      (db : Database) (i : ℕ) (x : ItemRow) (m : ParsedMeta)
      → AreParsed (filter is_unparsed db.collection_items)
      → HasOwnId x db.collection_items
      → get_elem? db.collection_items i ≡ some x
      → parse ("{" <> x.meta_generated <> "}") ≡ some m
      → let o = index_composable_items_search_filters parse db in
        (o.is_done ≡ true)
        × ((HasNames x × (get_elem? o.database.collection_items i ≡ some x))
            ⊎ (MissesName x × (get_elem? o.database.collection_items i ≡ some (with_names m x))))
  index_composable_items_search_filters_lem db i x m a own h e =
      let (d, row) = index_composable_items_search_filters-filled db i x a own h in
      (
        d,
        elim (missing_or_not x) [
          | inl (u, n) ↦ inl (n, row ∙ rw u refl)
          | inr (u, n) ↦ inr (n, row ∙ rw (u, filled, e) refl)
        ],
      )
