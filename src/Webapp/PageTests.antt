-- ===== src/Webapp/PageTests.antt =====
-- The theorems on the pages and their helpers at concrete data.
use mathlib.Core.List.{Perm}
use composable_nouns_monorep.Common.{
  ℕ, zero, suc, ◌+◌, ◌-◌, ◌*◌, ◌≤◌, ◌≡◌, ◌↔◌, refl, true, none, some, List, [], ◌∷◌, ◌++◌, map,
  String, count, get_elem?, arith, if◌then◌else◌, leb, ◌&&◌, ◌||◌, eq_iff, subst, some_path,
}
use composable_nouns_monorep.Webapp.Bid.{ceil_div}
use composable_nouns_monorep.Webapp.Pagination.{
  use_pagination, times_shown, is_near, use_pagination_lem,
}
use composable_nouns_monorep.Webapp.Votes.{
  QueriedVote, Delegate, get_noun_votes, delegate_votes, pseudo_random_predictable_shuffle,
  or_empty, cell, noun, row_length,
}
use composable_nouns_monorep.Webapp.Votes.Shuffle.{pseudo_random_predictable_shuffle-perm}
use composable_nouns_monorep.Webapp.Votes.Cells.{cell-noun}
use composable_nouns_monorep.Webapp.Votes.Once.{
  nouns_of, snapshot_nouns, get_noun_votes_once, voters,
}
use composable_nouns_monorep.Webapp.Logs.Keys.{
  EventFilter, one, any_of, filter_to_key, key_to_filter,
}
use composable_nouns_monorep.Webapp.Logs.Keys.Reading.{
  IsSeparable, read_filter, filter_to_key-key_to_filter, TopicsLack,
}
use composable_nouns_monorep.Webapp.Proposals.Titles.{title_of, description_of}
use composable_nouns_monorep.Webapp.Proposals.Titles.Shown.{bold}
use composable_nouns_monorep.Webapp.CreateProposal.{
  ProposalTransaction, initial_form, is_form_invalid, handle_add_proposal_action,
  handle_remove_proposal_action, Proposal, handle_create_proposal,
}
use composable_nouns_monorep.Webapp.CreateProposal.Proposed.{
  FormEvent, add, remove, title, body, edit_all, Calls, handle_create_proposal_lem,
}
use composable_nouns_monorep.Webapp.Seeds.{NounSeed, use_noun_seed}
use composable_nouns_monorep.Webapp.Seeds.Cache.{
  World, SeedEvent, mint, use_seed, queried, run, AgreesWith, contract_seed,
  use_noun_seed-contract_seed,
}

use_pagination_lem_example : times_shown 7 (use_pagination 400 40 6) ≡ (
    if leb 1 7
      && leb 7 (ceil_div 400 40)
      && (leb (ceil_div 400 40) 6 || is_near (ceil_div 400 40) 6 7)
    then 1
    else 0)
use_pagination_lem_example = use_pagination_lem 400 40 6 7 (omega arith) (omega arith)

-- The last of the list, for each seed.
abbrev last_index : ℕ → ℕ → ℕ
last_index seed n = n - 1

pseudo_random_predictable_shuffle-perm_example :
    (ys : List String) × (pseudo_random_predictable_shuffle last_index
        (some ("3" ∷ "5" ∷ "8" ∷ []))
        0
      ≡ some (map some ys))
    × Perm ys (or_empty (some ("3" ∷ "5" ∷ "8" ∷ [])))
pseudo_random_predictable_shuffle-perm_example =
    pseudo_random_predictable_shuffle-perm last_index (some ("3" ∷ "5" ∷ "8" ∷ [])) 0
      (λ seed n. omega arith)

abbrev two_nouns : List String
two_nouns = "3" ∷ "5" ∷ []

second_once : (m : ℕ) → get_elem? two_nouns m ≡ some "5" → m ≡ 1
second_once zero h = absurd (ground (arith, h, eq_iff "3" "5"))
second_once (suc zero) h = refl
second_once (suc (suc m)) h = absurd (cc)

cell-noun_example :
    (cell true two_nouns 0 0 1 ≡ some (noun "5")) ↔ (0 * 15 + (0 * row_length true + 1) ≡ 1)
cell-noun_example =
    cell-noun true two_nouns 1 "5" 0 0 1 refl second_once (omega arith) (omega arith)

abbrev votes : List QueriedVote
votes =
    record { voter = "0xaa"; support_detailed = 1 }
    ∷ record { voter = "0xbb"; support_detailed = 0 }
    ∷ []

abbrev delegates : List Delegate
delegates =
    record { id = "0xbb"; nouns_represented = "3" ∷ [] }
    ∷ record { id = "0xaa"; nouns_represented = "5" ∷ "8" ∷ [] }
    ∷ []

voters_once : (a : String) → count a (voters votes) ≤ 1
voters_once a = ground (arith, eq_iff "0xaa" a, eq_iff "0xbb" a, eq_iff "0xaa" "0xbb")

get_noun_votes_once_example :
    (count "8" (nouns_of delegates "0xaa")
      ≤ count "8" (get_noun_votes 1 (delegate_votes votes delegates)))
    × (count "8" (get_noun_votes 0 (delegate_votes votes delegates))
          + count "8" (get_noun_votes 1 (delegate_votes votes delegates))
          + count "8" (get_noun_votes 2 (delegate_votes votes delegates))
        ≤ count "8" (snapshot_nouns delegates))
get_noun_votes_once_example =
    get_noun_votes_once "8" delegates votes voters_once 0
      (record { voter = "0xaa"; support_detailed = 1 }) refl

abbrev filter : EventFilter
filter = record {
  address = some (b'a' ∷ []);
  topics =
      some (some (one (b'x' ∷ [])) ∷ none ∷ some (any_of ((b'y' ∷ []) ∷ (b'z' ∷ []) ∷ [])) ∷ []);
  from_block = some 12985453;
}

filter-IsSeparable : IsSeparable filter
filter-IsSeparable = record {
  address = (refl, tt);
  topics = λ ts e.
      subst (TopicsLack b':') (some_path e)
        ((refl, tt), (tt, (((refl, tt), ((refl, tt), tt)), tt)));
  dashes = λ ts e.
      subst (TopicsLack b'-') (some_path e)
        ((refl, tt), (tt, (((refl, tt), ((refl, tt), tt)), tt)));
  semicolons = λ ts e.
      subst (TopicsLack b';') (some_path e)
        ((refl, tt), (tt, (((refl, tt), ((refl, tt), tt)), tt)));
}

filter_to_key-key_to_filter_example :
    (key_to_filter (filter_to_key filter) ≡ some (read_filter filter))
    × (filter_to_key (read_filter filter) ≡ filter_to_key filter)
filter_to_key-key_to_filter_example =
    filter_to_key-key_to_filter filter (some (one (b'x' ∷ [])))
      (none ∷ some (any_of ((b'y' ∷ []) ∷ (b'z' ∷ []) ∷ [])) ∷ []) filter-IsSeparable refl
      ((λ h. cc), ((λ h. cc), ((λ h. cc), tt)))

abbrev seed : NounSeed
seed = record { accessory = 1; background = 0; body = 3; glasses = 4; head = 5 }

abbrev seed_events : List SeedEvent
seed_events = use_seed "3" true ∷ mint "3" seed ∷ queried ("3" ∷ []) ∷ use_seed "3" true ∷ []

abbrev no_seeds : World
no_seeds = record { minted = []; cached = some [] }

no_seeds-AgreesWith : AgreesWith no_seeds
no_seeds-AgreesWith id s h = absurd (cc)

use_noun_seed-contract_seed_example :
    AgreesWith (run seed_events no_seeds)
    × ((use_noun_seed "3"
          (some (contract_seed (run seed_events no_seeds).minted "3"))
          (run seed_events no_seeds).cached).0
        ≡ some (contract_seed (run seed_events no_seeds).minted "3"))
use_noun_seed-contract_seed_example =
    use_noun_seed-contract_seed seed_events no_seeds "3" no_seeds-AgreesWith

abbrev a_call : ProposalTransaction
a_call = record { address = b'a' ∷ []; value = none; signature = []; calldata = b'0' ∷ b'x' ∷ [] }

abbrev form_events : List FormEvent
form_events =
    add a_call
    ∷ add a_call
    ∷ remove 0
    ∷ title (b'*' ∷ b'*' ∷ b'O' ∷ b'*' ∷ b'*' ∷ b'n' ∷ [])
    ∷ body (b'x' ∷ [])
    ∷ []

handle_create_proposal_example :
    let f = edit_all form_events initial_form in
    (p : Proposal) × (handle_create_proposal f ≡ some p)
    × Calls f.proposal_transactions p.targets p.values p.signatures p.calldatas
    × (title_of (description_of (some p.description)) ≡ [] ++ ((b'O' ∷ []) ++ (b'n' ∷ [])))
unfolding is_form_invalid handle_add_proposal_action handle_remove_proposal_action
handle_create_proposal_example =
    handle_create_proposal_lem form_events b'*' bold [] (b'O' ∷ []) (b'n' ∷ [])
      (b'*' ∷ b'O' ∷ b'*' ∷ b'*' ∷ b'n' ∷ []) refl refl refl refl
      (refl, (refl, (refl, (refl, (refl, (refl, tt))))))
      (refl, (refl, (refl, (refl, (refl, (refl, tt))))))
      (record { stars = (tt, (refl, tt), (refl, tt)); underscores = (tt, (refl, tt), (refl, tt)) })
