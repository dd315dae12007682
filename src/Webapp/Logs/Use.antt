-- ===== src/Webapp/Logs/Use.antt =====
-- packages/nouns-webapp/src/hooks/useLogs.ts: the logs that a component gets.
use composable_nouns_monorep.Common.{
  ℕ, ◌≤◌, ◌<◌, ◌⊎◌, Option-cases, arith, ◌≡◌, refl, ap, true, false, Option, none, some, List, [],
  ◌∷◌, ◌==◌, leb, if◌then◌else◌, String, str_eq, Bool-cases, inl, inr, some_path,
}
use composable_nouns_monorep.Webapp.Logs.{
  Log, Results, FetchState, LogsState, entry, update, fetched_logs, store_results,
}
use composable_nouns_monorep.Webapp.Logs.Progress.{
  LogsAction, reduce_all, block_of, reduce_all-block,
}

-- The hook's enum LogsState.
pub data LogsStatus : Type 0 where
  invalid loading syncing error synced : LogsStatus

pub record UseLogsResult : Type 0 where
  pub logs : Option (List Log)
  pub status : LogsStatus

abbrev pub without_logs : LogsStatus → UseLogsResult
without_logs status = record { logs = none; status = status }

abbrev pub result_of : ℕ → Option Results → UseLogsResult
result_of block none = without_logs loading
result_of block (some r) = elim r.logs [
  | none ↦ without_logs error
  | some logs ↦ record {
    logs = some logs;
    status = if leb block r.block_number then synced else syncing;
  }
]

abbrev pub results_of : Option FetchState → Option Results
results_of none = none
results_of (some e) = e.results

-- An empty key and the block 0 count as missing.
unfoldable pub use_logs : Option String → Option ℕ → LogsState → UseLogsResult
use_logs none block s = without_logs invalid
use_logs (some k) none s = without_logs invalid
use_logs (some k) (some block) s =
    if str_eq k ""
    then without_logs invalid
    else if block == 0
    then without_logs invalid
    else result_of block (results_of (entry k s))

entry-update_own :
    (k : String) (f : FetchState → FetchState) (s : LogsState) (e : FetchState)
    → entry k s ≡ some e
    → entry k (update k f s) ≡ some (f e)
entry-update_own k f [] e = λ h. absurd (cc)
entry-update_own k f ((j, d) ∷ s) e = elim (Bool-cases (str_eq j k)) [
  | inl g ↦ rw g (λ h. rw (entry, g) (ap some (ap f (some_path h))))
  | inr g ↦ rw g (λ h. rw (entry, g) (entry-update_own k f s e h))
]

-- The results of an entry, of a block from the current one on, are those of a component.
result_of-reached :
    (block : ℕ) (o : Option FetchState)
    → 0 < block
    → block ≤ block_of o
    → ((result_of block (results_of o)).status ≡ synced)
      ⊎ ((result_of block (results_of o)).status ≡ error)
result_of-reached block none p = λ h. absurd (omega arith)
result_of-reached block (some e) p = elim (Option-cases e.results) [
  | inl f ↦ rw f (λ h. absurd (omega arith))
  | inr (r, f) ↦ rw f (λ h. elim (Option-cases r.logs) [
    | inl g ↦ rw g (inr refl)
    | inr (logs, g) ↦
        let reached : leb block r.block_number ≡ true = ground (arith, h) in
        inl (rw (g, reached) refl)
  ])
]

store_results-block :
    (r : Results) (e : FetchState) → r.block_number ≤ block_of (some (store_results r e))
store_results-block r e = ground arith

fetched_logs-block :
    (k : String) (r : Results) (s : LogsState) (e : FetchState)
    → entry k s ≡ some e
    → r.block_number ≤ block_of (entry k (fetched_logs k r s))
unfolding fetched_logs
fetched_logs-block k r s e h =
    rw (entry-update_own k (store_results r) s e h) (store_results-block r e)

-- Once results of the current block or a later one have been fetched for a filter that is listened
-- to, then, whatever other actions come, in any order, a component that reads the filter's logs at
-- that block is synced or has an error: it is never back at loading or syncing.
pub use_logs-reduce_all :
    (actions : List LogsAction) (k : String) (block : ℕ) (r : Results) (s : LogsState)
    (e : FetchState)
    → str_eq k "" ≡ false
    → 0 < block
    → block ≤ r.block_number
    → entry k s ≡ some e
    → ((use_logs (some k) (some block) (reduce_all actions (fetched_logs k r s))).status ≡ synced)
      ⊎ ((use_logs (some k) (some block) (reduce_all actions (fetched_logs k r s))).status ≡ error)
unfolding use_logs
use_logs-reduce_all actions k block r s e nonempty p h listened =
    let there : (block == 0) ≡ false = ground (arith, p) in
    let after = reduce_all actions (fetched_logs k r s) in
    let first = fetched_logs-block k r s e listened in
    let later = reduce_all-block actions k (fetched_logs k r s) in
    rw (nonempty, there)
      (result_of-reached block (entry k after) p (omega (arith, first, later, h)))
