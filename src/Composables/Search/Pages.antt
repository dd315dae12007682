-- ===== src/Composables/Search/Pages.antt =====
-- Which rows a page of results has.
use composable_nouns_monorep.Common.{
  ℕ, zero, suc, ◌+◌, ◌-◌, ◌*◌, ◌/◌, ◌%◌, ◌≤◌, ◌<◌, ◌≡◌, refl, ap, ◌∙◌, Bool, some, List, [], ◌∷◌,
  String, filter, drop, get_elem?, get_elem?-take, get_elem?-drop, length, arith,
}
use composable_nouns_monorep.Composables.Search.{
  SearchRow, Query, sql_filters, meets_all, page_size, load_page, get_composable_items_search_rows,
  get_composable_items_search_rows_count,
}

get_elem?-some {ℓ} :
    {A : Type ℓ} (xs : List A) (j : ℕ) → j < length xs → (x : A) × (get_elem? xs j ≡ some x)
get_elem?-some [] j h = absurd (omega arith)
get_elem?-some (x ∷ xs) zero h = (x, refl)
get_elem?-some (x ∷ xs) (suc j) h = get_elem?-some xs j (omega arith)

module _ (like : String → String → Bool) where
  -- The rows that meet the query, in order.
  abbrev pub matches : Query → List SearchRow → List SearchRow
  matches q = filter (λ r. meets_all like r (sql_filters q))

  -- The j-th row of a page, for a j below the second number of the LIMIT.
  get_elem?-load_page :
      (n j : ℕ) (q : Query) (rows : List SearchRow)
      → j < (n - 1) * 40 + 40
      → get_elem? (load_page like n q rows) j ≡ get_elem? (matches q rows) ((n - 1) * 40 + j)
  unfolding load_page get_composable_items_search_rows
  get_elem?-load_page n j q rows h =
      get_elem?-take ((n - 1) * 40 + 40) j (drop ((n - 1) * 40) (matches q rows)) h
      ∙ get_elem?-drop ((n - 1) * 40) j (matches q rows)

  -- Each row that meets the query is on the page that its place in the order belongs to, at its
  -- place there.
  pub load_page_complete :
      (q : Query) (rows : List SearchRow) (j : ℕ)
      → get_elem? (load_page like (j / page_size + 1) q rows) (j % page_size)
        ≡ get_elem? (matches q rows) j
  load_page_complete q rows j =
      get_elem?-load_page (j / 40 + 1) (j % 40) q rows (omega arith)
      ∙ ap (get_elem? (matches q rows)) (omega arith)

  -- From the second page on, the row after a full page of 40 rows is shown too: it is the first of
  -- the next page.
  pub load_page-overlap :
      (q : Query) (rows : List SearchRow) (n : ℕ)
      → 2 ≤ n
      → n * page_size < get_composable_items_search_rows_count like q rows
      → (r : SearchRow) × (get_elem? (load_page like n q rows) page_size ≡ some r)
        × (get_elem? (load_page like (n + 1) q rows) 0 ≡ some r)
  unfolding get_composable_items_search_rows_count
  load_page-overlap q rows n h k =
      let (r, e) = get_elem?-some (matches q rows) (n * 40) k in
      (
        r,
        get_elem?-load_page n 40 q rows (omega arith)
            ∙ ap (get_elem? (matches q rows)) (omega arith)
            ∙ e,
        get_elem?-load_page (n + 1) 0 q rows (omega arith)
            ∙ ap (get_elem? (matches q rows)) (omega arith)
            ∙ e,
      )
