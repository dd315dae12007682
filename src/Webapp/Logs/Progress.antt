-- ===== src/Webapp/Logs/Progress.antt =====
-- Results never give way to those of an earlier block, and the ranges leave no block out.
use composable_nouns_monorep.Common.{
  ℕ, zero, suc, ◌+◌, ◌-◌, ◌≤◌, ◌<◌, ◌≡◌, refl, ap, true, false, ◌&&◌, ◌⊎◌, inl, inr, Option, none,
  some, List, [], ◌∷◌, leb, if◌then◌else◌, String, str_eq, Bool-cases, Option-cases, arith, pos,
  ◌+ℤ◌, ◌-ℤ◌,
}
use composable_nouns_monorep.Webapp.Logs.{
  Results, FetchState, LogsState, entry, update, append_entry, add_listener, fetching_logs,
  store_results, fetched_logs, fetched_logs_error, remove_listener, Range, ranges_from, ranges,
  min_ℕ, max_blocks_per_call,
}

pub data LogsAction : Type 0 where
  add remove : String → LogsAction
  fetching : List String → ℕ → LogsAction
  fetched : String → Results → LogsAction
  failed : String → ℕ → LogsAction

abbrev pub reduce : LogsAction → LogsState → LogsState
reduce (add k) s = add_listener k s
reduce (remove k) s = remove_listener k s
reduce (fetching ks b) s = fetching_logs ks b s
reduce (fetched k r) s = fetched_logs k r s
reduce (failed k b) s = fetched_logs_error k b s

unfoldable pub reduce_all : List LogsAction → LogsState → LogsState
reduce_all [] s = s
reduce_all (a ∷ actions) s = reduce_all actions (reduce a s)

-- The block of an entry's results, or 0 before there are any.
abbrev pub block_of : Option FetchState → ℕ
block_of none = 0
block_of (some e) = elim e.results [ none ↦ 0 | some r ↦ r.block_number ]

-- A change of an entry that does not lower the block of its results.
abbrev IsForward : (FetchState → FetchState) → Type 0
IsForward f = (e : FetchState) → block_of (some e) ≤ block_of (some (f e))

le_refl : {n : ℕ} → n ≤ n
le_refl = omega arith

update-block :
    (k j : String) (f : FetchState → FetchState) (s : LogsState)
    → IsForward f
    → block_of (entry j s) ≤ block_of (entry j (update k f s))
update-block k j f [] h = omega arith
update-block k j f ((i, e) ∷ s) h = elim (Bool-cases (str_eq i j)) [
  | inl t ↦ elim (Bool-cases (str_eq i k)) [ inl u ↦ rw (u, t) (h e) | inr u ↦ rw (u, t) le_refl ]
  | inr n ↦ elim (Bool-cases (str_eq i k)) [
    | inl u ↦ rw (u, n) le_refl
    | inr u ↦ rw (u, n) (update-block k j f s h)
  ]
]

store_results-IsForward : (r : Results) → IsForward (store_results r)
store_results-IsForward r e = ground arith

append-block :
    (k j : String) (e : FetchState) (s : LogsState)
    → block_of (some e) ≡ 0
    → block_of (entry j s) ≤ block_of (entry j (append_entry k e s))
append-block k j e [] h = omega arith
append-block k j e ((i, x) ∷ s) h = elim (Bool-cases (str_eq i j)) [
  | inl t ↦ rw t le_refl
  | inr n ↦ rw n (append-block k j e s h)
]

fetching-block :
    (keys : List String) (b : ℕ) (j : String) (s : LogsState)
    → block_of (entry j s) ≤ block_of (entry j (fetching_logs keys b s))
unfolding fetching_logs
fetching-block [] b j s = omega arith
fetching-block (k ∷ keys) b j s =
    let first =
      update-block k j (λ e. record e { fetching_block_number = some b }) s (λ e. le_refl) in
    let rest =
      fetching-block keys b j (update k (λ e. record e { fetching_block_number = some b }) s) in
    omega (arith, first, rest)

add_listener-block :
    (k j : String) (s : LogsState) → block_of (entry j s) ≤ block_of (entry j (add_listener k s))
unfolding add_listener
add_listener-block k j s = elim (Option-cases (entry k s)) [
  | inl e ↦ rw (e, add_listener) (append-block k j _ s refl)
  | inr (x, e) ↦
      rw (e, add_listener)
        (update-block k j (λ e. record e { listeners = e.listeners +ℤ pos 1 }) s (λ e. le_refl))
]

reduce-block :
    (a : LogsAction) (j : String) (s : LogsState)
    → block_of (entry j s) ≤ block_of (entry j (reduce a s))
unfolding fetched_logs fetched_logs_error remove_listener
reduce-block (add k) j s = add_listener-block k j s
reduce-block (remove k) j s =
    update-block k j (λ e. record e { listeners = e.listeners -ℤ pos 1 }) s (λ e. le_refl)
reduce-block (fetching ks b) j s = fetching-block ks b j s
reduce-block (fetched k r) j s = update-block k j (store_results r) s (store_results-IsForward r)
reduce-block (failed k b) j s =
    let r : Results = record { block_number = b; logs = none } in
    update-block k j (store_results r) s (store_results-IsForward r)

-- Through any actions, in any order, the results under a filter never go back to an earlier block.
pub reduce_all-block :
    (actions : List LogsAction) (j : String) (s : LogsState)
    → block_of (entry j s) ≤ block_of (entry j (reduce_all actions s))
unfolding reduce_all
reduce_all-block [] j s = le_refl
reduce_all-block (a ∷ actions) j s =
    let first = reduce-block a j s in
    let rest = reduce_all-block actions j (reduce a s) in omega (arith, first, rest)

-- A block lies in one of the ranges.
abbrev pub Covers : ℕ → List Range → Type 0
Covers b [] = ⊥
Covers b (r ∷ rs) = ((r.from_block ≤ b) × (b ≤ r.to_block)) ⊎ Covers b rs

ranges_from-Covers :
    (fuel block start b : ℕ)
    → suc block ≤ start + fuel
    → start ≤ b
    → b ≤ block
    → Covers b (ranges_from fuel block start)
unfolding ranges_from
ranges_from-Covers zero block start b enough h k = absurd (omega arith)
ranges_from-Covers (suc fuel) block start b enough h k =
    let within : leb start block ≡ true = ground arith in
    rw (within, ranges_from)
      (elim (Bool-cases (leb b (start + max_blocks_per_call))) [
        | inl near ↦ inl (h, ground arith)
        | inr far ↦ inr (
            ranges_from-Covers fuel block (start + max_blocks_per_call) b (omega arith)
              (ground arith) k)
      ])

-- Every block from the first to the current one lies in one of the ranges that are asked for.
pub ranges-Covers : (start block b : ℕ) → start ≤ b → b ≤ block → Covers b (ranges start block)
unfolding ranges
ranges-Covers start block b h k =
    ranges_from-Covers (suc block - start) block start b (omega arith) h k

-- How many of the ranges a block lies in.
abbrev pub times_covered : ℕ → List Range → ℕ
times_covered b [] = 0
times_covered b (r ∷ rs) =
    (if leb r.from_block b && leb b r.to_block then 1 else 0) + times_covered b rs

two_more : (a b n : ℕ) → a ≡ 1 → b ≡ 1 → 2 ≤ a + (b + n)
two_more a b n p q = omega arith

covered_once : (a b c : ℕ) → a ≤ b → b ≤ c → ◌≡◌ {A = ℕ} (if leb a b && leb b c then 1 else 0) 1
covered_once a b c h k = ground arith

overlap_from :
    (m block start : ℕ)
    → start + max_blocks_per_call < block
    → 2 ≤ times_covered (start + max_blocks_per_call) (ranges_from (suc (suc m)) block start)
unfolding ranges_from
overlap_from m block start h =
    let edge = start + max_blocks_per_call in
    let first : leb start block ≡ true = ground arith in
    let second : leb (start + max_blocks_per_call) block ≡ true = ground arith in
    rw (first, second, ranges_from)
      (two_more _ _ _ (covered_once start edge edge (omega arith) (omega arith)) (
        covered_once edge edge (min_ℕ (edge + max_blocks_per_call) block) (omega arith)
          (ground arith)))

-- A full range's last block, when it is not the current one, is asked for again by the next range.
pub ranges-overlap :
    (start block : ℕ)
    → start + max_blocks_per_call < block
    → 2 ≤ times_covered (start + max_blocks_per_call) (ranges start block)
unfolding ranges
ranges-overlap start block h =
    let fuel : suc block - start ≡ suc (suc (suc block - start - 2)) = omega arith in
    rw fuel (overlap_from (suc block - start - 2) block start h)

same_ranges :
    (f g block start : ℕ)
    → suc block ≤ start + f
    → suc block ≤ start + g
    → ranges_from f block start ≡ ranges_from g block start
unfolding ranges_from
same_ranges zero zero block start h k = refl
same_ranges zero (suc g) block start h k =
    let past : leb start block ≡ false = ground arith in rw (past, ranges_from) refl
same_ranges (suc f) zero block start h k =
    let past : leb start block ≡ false = ground arith in rw (past, ranges_from) refl
same_ranges (suc f) (suc g) block start h k = elim (Bool-cases (leb start block)) [
  | inl e ↦
      rw (e, ranges_from)
        (ap
          (λ rs.
            record { from_block = start; to_block = min_ℕ (start + max_blocks_per_call) block }
            ∷ rs)
          (same_ranges f g block (start + max_blocks_per_call) (omega (arith, h))
            (omega (arith, k))))
  | inr e ↦ rw (e, ranges_from) refl
]

-- The loop over the ranges ends: with as many passes as there are blocks, or more, it gives the same
-- ranges.
pub ranges_from-ranges :
    (fuel block start : ℕ)
    → suc block ≤ start + fuel
    → ranges_from fuel block start ≡ ranges start block
unfolding ranges
ranges_from-ranges fuel block start h =
    same_ranges fuel (suc block - start) block start h (omega arith)
