-- ===== src/Webapp/Pagination.antt =====
-- packages/nouns-webapp/src/components/Pagination/usePagination.js: the entries of the bar of pages.
-- No caller gives a siblingCount, so that it is 1; the size of a page is not 0.
use composable_nouns_monorep.Common.{
  ℕ, zero, suc, ◌+◌, ◌-◌, ◌≤◌, ◌≡◌, Bool, false, not, ◌&&◌, ◌||◌, Option, none, some, List, [], ◌∷◌,
  ◌++◌, ◌==◌, ltb, leb, if◌then◌else◌, inl, inr, Bool-cases, ◌∙◌, arith,
}
use composable_nouns_monorep.Webapp.Bid.{ceil_div}

pub data Entry : Type 0 where
  page : ℕ → Entry
  dots : Entry

abbrev pub sibling_count : ℕ
sibling_count = 1

-- `Array.from({ length }, (_, idx) => idx + start)`.
abbrev pub from_length : ℕ → ℕ → List Entry
from_length zero start = []
from_length (suc n) start = page start ∷ from_length n (start + 1)

-- A range that ends before it starts is empty.
abbrev pub range : ℕ → ℕ → List Entry
range start end = from_length (end + 1 - start) start

abbrev pub min : ℕ → ℕ → ℕ
min a b = if ltb a b then a else b

abbrev pub max : ℕ → ℕ → ℕ
max a b = if ltb a b then b else a

-- The entries for a number of pages; `none`: neither side has dots.
abbrev pub page_entries : ℕ → ℕ → Option (List Entry)
page_entries pages current =
    let left = max (current - sibling_count) 1 in
    let right = min (current + sibling_count) pages in
    let left_dots = ltb 2 left in
    let right_dots = ltb right (pages - 2) in
    let item_count = 3 + sibling_count + sibling_count in
    if leb pages (sibling_count + 5)
    then some (range 1 pages)
    else if not left_dots && right_dots
    then some (range 1 item_count ++ (dots ∷ page pages ∷ []))
    else if left_dots && not right_dots
    then some (page 1 ∷ dots ∷ range (pages - item_count + 1) pages)
    else if left_dots && right_dots
    then some (page 1 ∷ dots ∷ range left right ++ (dots ∷ page pages ∷ []))
    else none

unfoldable pub use_pagination : ℕ → ℕ → ℕ → Option (List Entry)
use_pagination total_count page_size current = page_entries (ceil_div total_count page_size) current

abbrev pub is_page : ℕ → Entry → Bool
is_page n (page m) = m == n
is_page n dots = false

abbrev pub times_page : ℕ → List Entry → ℕ
times_page n [] = 0
times_page n (e ∷ es) = (if is_page n e then 1 else 0) + times_page n es

-- How often the bar has a page; never, without a bar.
abbrev pub times_shown : ℕ → Option (List Entry) → ℕ
times_shown n none = 0
times_shown n (some es) = times_page n es

times_page-append :
    (n : ℕ) (xs ys : List Entry) → times_page n (xs ++ ys) ≡ times_page n xs + times_page n ys
times_page-append n [] ys = omega arith
times_page-append n (x ∷ xs) ys = omega (arith, times_page-append n xs ys)

times_page-from_length :
    (n k start : ℕ)
    → times_page n (from_length k start) ≡ (if leb start n && ltb n (start + k) then 1 else 0)
times_page-from_length n zero start = ground arith
times_page-from_length n (suc k) start = ground (arith, times_page-from_length n k (start + 1))

times_page-range :
    (n start end : ℕ)
    → start ≤ end + 1
    → times_page n (range start end) ≡ (if leb start n && leb n end then 1 else 0)
times_page-range n start end h =
    rw (times_page-from_length n (end + 1 - start) start) (ground arith)

-- A page at an end of the bar, next to the current page, or, where few pages are left on a side,
-- among the five pages there.
abbrev pub is_near : ℕ → ℕ → ℕ → Bool
is_near pages current n =
    (1 == n)
    || (pages == n)
    || leb (current - 1) n && leb n (current + 1)
    || leb current 3 && leb n 5
    || leb (pages - 3) current && leb (pages - 4) n

left_of : (current : ℕ) → leb current 3 ≡ false → max (current - 1) 1 ≡ current - 1
left_of current h = ground arith

right_of :
    (pages current : ℕ) → leb (pages - 3) current ≡ false → min (current + 1) pages ≡ current + 1
right_of pages current h = ground arith

left_dots_lem : (current : ℕ) → ltb 2 (max (current - 1) 1) ≡ not (leb current 3)
left_dots_lem current = ground arith

right_dots_lem :
    (pages current : ℕ)
    → leb pages 6 ≡ false
    → ltb (min (current + 1) pages) (pages - 2) ≡ not (leb (pages - 3) current)
right_dots_lem pages current h = ground arith

page_entries_lem :
    (pages current n : ℕ)
    → 1 ≤ current
    → current ≤ pages
    → times_shown n (page_entries pages current)
      ≡ (if leb 1 n && leb n pages && (leb pages 6 || is_near pages current n) then 1 else 0)
page_entries_lem pages current n = elim (Bool-cases (leb pages 6)) [
  | inl f ↦ rw f (λ a b. times_page-range n 1 pages (omega arith) ∙ ground arith)
  | inr f ↦
      rw (f, left_dots_lem current, right_dots_lem pages current f)
        (elim (Bool-cases (leb current 3)) [
          | inl low ↦ rw low (elim (Bool-cases (leb (pages - 3) current)) [
            | inl high ↦ λ a b. absurd (ground (arith, f, low, high))
            | inr high ↦ rw high (λ a b. ground (arith, f, low, high))
          ])
          | inr low ↦ rw low (elim (Bool-cases (leb (pages - 3) current)) [
            | inl high ↦ rw high (λ a b.
                ground
                  (arith, f, low, high, times_page-range n (pages - 5 + 1) pages (omega arith)))
            | inr high ↦
                rw (high, left_of current low, right_of pages current high)
                  (λ a b. ground (
                    arith,
                    f,
                    low,
                    high,
                    times_page-append n (range (current - 1) (current + 1))
                        (dots ∷ page pages ∷ []),
                    times_page-range n (current - 1) (current + 1) (omega arith),
                  ))
          ])
        ])
]

-- The bar of a current page among the pages has each of them that is near once, all of them where
-- there are six at most, and no other page; on page 4 of more than six, page 2 is one of the others.
pub use_pagination_lem :
    (total_count page_size current n : ℕ)
    → 1 ≤ current
    → current ≤ ceil_div total_count page_size
    → times_shown n (use_pagination total_count page_size current) ≡ (
        if leb 1 n
          && leb n (ceil_div total_count page_size)
          && (leb (ceil_div total_count page_size) 6
              || is_near (ceil_div total_count page_size) current n)
        then 1
        else 0)
unfolding use_pagination
use_pagination_lem total_count page_size current n =
    page_entries_lem (ceil_div total_count page_size) current n
