-- ===== src/Webapp/Tests.antt =====
-- The theorems on the application's state at concrete events.
use composable_nouns_monorep.Common.{
  ℕ, ◌≤◌, ◌≡◌, ◌⊎◌, refl, none, some, List, [], ◌∷◌, arith, false, pos,
}
use composable_nouns_monorep.Webapp.Auction.{BidEvent, AuctionCreateEvent, initial_state}
use composable_nouns_monorep.Webapp.Auction.Bids.{
  RunningEvent, created, bid, IsRunning, reduce_all, IsRunning-reduce_all,
}
use composable_nouns_monorep.Webapp.Logs.{LogsState, ranges_from, entry, ranges}
use composable_nouns_monorep.Webapp.Logs.{FetchState, Results, fetched_logs}
use composable_nouns_monorep.Webapp.Logs.Use.{use_logs, synced, error, use_logs-reduce_all}
use composable_nouns_monorep.Webapp.Logs.Progress.{
  LogsAction, add, fetched, block_of, reduce_all as reduce_all_logs, reduce_all-block, Covers,
  ranges_from-ranges, ranges-Covers,
}
use composable_nouns_monorep.Webapp.Activity.{NounProfileEvent, transfer_event}
use composable_nouns_monorep.Webapp.Activity.Order.{
  IsLatestFirst as EventsLatestFirst, IsEarliestFirst as EventsEarliestFirst,
}

abbrev creation : AuctionCreateEvent
creation = record { noun_id = 7; start_time = 10; end_time = 20; settled = false }

abbrev a_bid : BidEvent
a_bid = record {
  noun_id = 7;
  sender = "0xaa";
  value = 3;
  extended = false;
  transaction_hash = "0x1";
  timestamp = 12;
}

abbrev a_higher_bid : BidEvent
a_higher_bid = record a_bid { sender = "0xbb"; value = 4; transaction_hash = "0x2"; timestamp = 13 }

abbrev events : List RunningEvent
events = created creation ∷ bid a_higher_bid ∷ bid a_bid ∷ bid a_bid ∷ []

initial_state-IsRunning : IsRunning initial_state
initial_state-IsRunning = record { leads = λ a h. tt; once = λ h. omega arith }

IsRunning-reduce_all_example : IsRunning (reduce_all events initial_state)
IsRunning-reduce_all_example = IsRunning-reduce_all events initial_state initial_state-IsRunning

abbrev actions : List LogsAction
actions =
    add "a"
    ∷ fetched "a" (record { block_number = 9; logs = some [] })
    ∷ fetched "a" (record { block_number = 8; logs = none })
    ∷ []

abbrev no_logs : LogsState
no_logs = []

reduce_all-block_example :
    block_of (entry "a" no_logs) ≤ block_of (entry "a" (reduce_all_logs actions no_logs))
reduce_all-block_example = reduce_all-block actions "a" no_logs

ranges-Covers_example : Covers 1500000 (ranges 0 2500000)
ranges-Covers_example = ranges-Covers 0 2500000 1500000 (omega arith) (omega arith)

abbrev transfer_at : ℕ → NounProfileEvent
transfer_at block = record { block_number = block; payload = transfer_event "0xaa" "0xbb" "0x3" }

abbrev transfers : List NounProfileEvent
transfers = transfer_at 5 ∷ transfer_at 9 ∷ transfer_at 3 ∷ transfer_at 4 ∷ transfer_at 8 ∷ []

ranges_from-ranges_example : ranges_from 9000000 2500000 0 ≡ ranges 0 2500000
ranges_from-ranges_example = ranges_from-ranges 9000000 2500000 0 (omega arith)

abbrev listened : FetchState
listened = record { listeners = pos 1; fetching_block_number = none; results = none }

abbrev fresh_results : Results
fresh_results = record { block_number = 9; logs = some [] }

abbrev old_results : Results
old_results = record { block_number = 4; logs = none }

abbrev later_actions : List LogsAction
later_actions = fetched "a" old_results ∷ add "a" ∷ []

use_logs-reduce_all_example :
    ((use_logs (some "a") (some 8) (
        reduce_all_logs later_actions
          (fetched_logs "a" fresh_results (("a", listened) ∷ [])))).status
      ≡ synced)
    ⊎ ((use_logs (some "a") (some 8) (
          reduce_all_logs later_actions
            (fetched_logs "a" fresh_results (("a", listened) ∷ [])))).status
        ≡ error)
use_logs-reduce_all_example =
    use_logs-reduce_all later_actions "a" 8 fresh_results (("a", listened) ∷ []) listened refl
      (omega arith) (omega arith) refl
