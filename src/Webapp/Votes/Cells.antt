-- ===== src/Webapp/Votes/Cells.antt =====
-- components/NounImageVoteTable/index.tsx: which Nouns the cells of the pages show.
use composable_nouns_monorep.Common.{
  ℕ, zero, suc, ◌+◌, ◌*◌, ◌%◌, ◌≤◌, ◌<◌, ◌≡◌, ◌≢◌, ◌↔◌, refl, ap, sym, ◌∙◌, Bool, true, false,
  Option, none, some, List, [], ◌∷◌, ◌++◌, String, map, take, drop, replicate, get_elem?,
  get_elem?-take, get_elem?-drop, arith, some_path,
}
use composable_nouns_monorep.Webapp.Votes.{Cell, noun, gray, row_length, cell}

-- What a place of the list shows as.
abbrev pub cell_of : Option String → Cell
cell_of none = gray
cell_of (some n) = noun n

get_elem?-replicate : (n j : ℕ) → j < n → get_elem? (replicate n gray) j ≡ some gray
get_elem?-replicate zero j h = absurd (omega arith)
get_elem?-replicate (suc n) zero h = refl
get_elem?-replicate (suc n) (suc j) h = get_elem?-replicate n j (omega arith)

get_elem?-padded :
    (xs : List String) (n j : ℕ)
    → j < n
    → get_elem? (map noun xs ++ replicate n gray) j ≡ some (cell_of (get_elem? xs j))
get_elem?-padded [] n j h = get_elem?-replicate n j h
get_elem?-padded (x ∷ xs) n zero h = refl
get_elem?-padded (x ∷ xs) n (suc j) h = get_elem?-padded xs n j (omega arith)

-- A cell among the first fifteen of a page.
cell_lem :
    (is_xl_screen : Bool) (nouns : List String) (page i j : ℕ)
    → i * row_length is_xl_screen + j < 15
    → cell is_xl_screen nouns page i j
      ≡ some (cell_of (get_elem? nouns (page * 15 + (i * row_length is_xl_screen + j))))
unfolding cell
cell_lem is_xl_screen nouns page i j h =
    let here = i * row_length is_xl_screen + j in
    get_elem?-padded (take 15 (drop (page * 15) nouns)) 15 here h
    ∙ ap (λ o. some (cell_of o))
        (get_elem?-take 15 here (drop (page * 15) nouns) h ∙ get_elem?-drop (page * 15) here nouns)

cell_of-noun : (o : Option String) (n : String) → cell_of o ≡ noun n → o ≡ some n
cell_of-noun none n h = absurd (cc)
cell_of-noun (some m) n h = cc

-- A Noun that the list has at one place is in a cell of the page's table, of three rows with
-- `row_length` cells each, just if the cell's number, with fifteen for each page before it, is its
-- place in the list.
pub cell-noun :
    (is_xl_screen : Bool) (nouns : List String) (k : ℕ) (n : String) (page i j : ℕ)
    → get_elem? nouns k ≡ some n
    → ((m : ℕ) → get_elem? nouns m ≡ some n → m ≡ k)
    → i < 3
    → j < row_length is_xl_screen
    → (cell is_xl_screen nouns page i j ≡ some (noun n))
      ↔ (page * 15 + (i * row_length is_xl_screen + j) ≡ k)
cell-noun is_xl_screen nouns k n page i j at once a b =
    let m = page * 15 + (i * row_length is_xl_screen + j) in
    let here = cell_lem is_xl_screen nouns page i j (within is_xl_screen b) in
    (
      λ e. once m (cell_of-noun (get_elem? nouns m) n (some_path (sym here ∙ e))),
      λ e. here ∙ ap (λ o. some (cell_of o)) (ap (get_elem? nouns) e ∙ at),
    )
  where
    within : (xl : Bool) → j < row_length xl → i * row_length xl + j < 15
    within true h = omega arith
    within false h = omega arith

-- On a screen that is not XL the last three of the fifteen Nouns of a page are in no cell.
pub cell-narrow :
    (nouns : List String) (k : ℕ) (n : String) (page i j : ℕ)
    → get_elem? nouns k ≡ some n
    → ((m : ℕ) → get_elem? nouns m ≡ some n → m ≡ k)
    → 12 ≤ k % 15
    → i < 3
    → j < 4
    → cell false nouns page i j ≢ some (noun n)
cell-narrow nouns k n page i j at once h a b e =
    let place = (cell-noun false nouns k n page i j at once a b).0 e in omega (arith, place)
