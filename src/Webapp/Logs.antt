-- ===== src/Webapp/Logs.antt =====
-- packages/nouns-webapp/src/state/slices/logs.ts and state/updaters/logs.ts: the logs that the
-- application listens to, and the block ranges in which it asks for them. A filter stands for its
-- key, `filterToKey(filter)`.
pub mod Progress
pub mod Keys
pub mod Use
use composable_nouns_monorep.Common.{
  ℕ, zero, suc, ◌+◌, ◌-◌, ◌≡◌, refl, Bool, true, false, not, ◌&&◌, Option, none, some, List, [],
  ◌∷◌, ltb, leb, ◌==◌, if◌then◌else◌, String, str_eq, ℤ, pos, ◌+ℤ◌, ◌-ℤ◌, eqb_ℤ, filter,
}

-- utils/logParsing.ts.
pub record Log : Type 0 where
  pub topics : List String
  pub transaction_hash : String
  pub payload : String

pub record Results : Type 0 where
  pub block_number : ℕ
  -- `none`: the fetch failed.
  pub logs : Option (List Log)

pub record FetchState : Type 0 where
  pub listeners : ℤ
  pub fetching_block_number : Option ℕ
  pub results : Option Results

-- The entries of the state in the order of their keys' insertion.
abbrev pub LogsState : Type 0
LogsState = List (String × FetchState)

abbrev pub entry : String → LogsState → Option FetchState
entry k [] = none
entry k ((j, f) ∷ s) = if str_eq j k then some f else entry k s

-- A change of the entry under a key, if there is one.
abbrev pub update : String → (FetchState → FetchState) → LogsState → LogsState
update k f [] = []
update k f ((j, e) ∷ s) = if str_eq j k then (j, f e) ∷ s else (j, e) ∷ update k f s

abbrev pub append_entry : String → FetchState → LogsState → LogsState
append_entry k e [] = (k, e) ∷ []
append_entry k e (x ∷ s) = x ∷ append_entry k e s

unfoldable pub add_listener : String → LogsState → LogsState
add_listener k s = elim (entry k s) [
  | none ↦
      append_entry k (record { listeners = pos 1; fetching_block_number = none; results = none }) s
  | some e ↦ update k (λ e. record e { listeners = e.listeners +ℤ pos 1 }) s
]

unfoldable pub fetching_logs : List String → ℕ → LogsState → LogsState
fetching_logs [] block s = s
fetching_logs (k ∷ keys) block s =
    fetching_logs keys block (update k (λ e. record e { fetching_block_number = some block }) s)

-- Whether the entry has results of a later block.
abbrev pub is_newer : ℕ → FetchState → Bool
is_newer block e = elim e.results [ none ↦ false | some r ↦ ltb block r.block_number ]

abbrev pub store_results : Results → FetchState → FetchState
store_results r e = if is_newer r.block_number e then e else record e { results = some r }

unfoldable pub fetched_logs : String → Results → LogsState → LogsState
fetched_logs k r s = update k (store_results r) s

unfoldable pub fetched_logs_error : String → ℕ → LogsState → LogsState
fetched_logs_error k block s =
    update k (store_results (record { block_number = block; logs = none })) s

unfoldable pub remove_listener : String → LogsState → LogsState
remove_listener k s = update k (λ e. record e { listeners = e.listeners -ℤ pos 1 }) s

-- The updater: which keys need a fetch at a block.
abbrev pub is_behind : Option ℕ → ℕ → Bool
is_behind none block = true
is_behind (some b) block = ltb b block

abbrev pub results_block : Option Results → Option ℕ
results_block none = none
results_block (some r) = some r.block_number

abbrev pub needs_fetch : ℕ → FetchState → Bool
needs_fetch block e =
    not (eqb_ℤ e.listeners (pos 0))
    && is_behind e.fetching_block_number block
    && is_behind (results_block e.results) block

unfoldable pub keys_need_fetch : ℕ → LogsState → List String
keys_need_fetch block [] = []
keys_need_fetch block ((k, e) ∷ s) =
    let rest = keys_need_fetch block s in if needs_fetch block e then k ∷ rest else rest

abbrev pub max_blocks_per_call : ℕ
max_blocks_per_call = 1000000

abbrev pub min_ℕ : ℕ → ℕ → ℕ
min_ℕ a b = if leb a b then a else b

pub record Range : Type 0 where
  pub from_block : ℕ
  pub to_block : ℕ

-- The loop over the ranges. A pass moves on by 1,000,000 blocks, so one more pass than there are
-- blocks is never needed: the fuel of `ranges`.
unfoldable pub ranges_from : ℕ → ℕ → ℕ → List Range
ranges_from zero block start = []
ranges_from (suc fuel) block start =
    let rest = ranges_from fuel block (start + max_blocks_per_call) in
    let to = min_ℕ (start + max_blocks_per_call) block in
    if leb start block then record { from_block = start; to_block = to } ∷ rest else []

unfoldable pub ranges : ℕ → ℕ → List Range
unfolding ranges_from
ranges start block = ranges_from (suc block - start) block start
