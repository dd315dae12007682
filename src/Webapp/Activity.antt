-- ===== src/Webapp/Activity.antt =====
-- packages/nouns-webapp/src/wrappers/nounActivity.ts: the history of a Noun. A query's answer is an
-- argument of the hook that reads it; a number in a text is the number.
pub mod Order
pub mod Wins
use composable_nouns_monorep.Common.{
  ℕ, zero, suc, ◌+◌, ◌-◌, ◌*◌, ◌%◌, ◌≡◌, refl, Bool, true, false, not, ◌&&◌, ◌||◌, Option, none,
  some, List, [], ◌∷◌, ◌++◌, map, ltb, leb, ◌==◌, if◌then◌else◌, String, str_eq, length, get_elem?,
  take,
}

-- The fields of wrappers/nounsDao.ts's Proposal that the history reads.
pub record Proposal : Type 0 where
  pub id : Option String
  pub is_cancelled : Bool
  pub for_count : ℕ
  pub against_count : ℕ
  pub abstain_count : ℕ
  pub end_block : ℕ

-- A vote as the subgraph gives it.
pub record NounVoteHistory : Type 0 where
  pub block_number : ℕ
  pub proposal_id : String
  pub support_detailed : ℕ
  pub voter_id : String

pub data Payload : Type 0 where
  proposal_vote : Proposal → Option String → Option ℕ → Payload
  delegation_event : String → String → String → Payload
  transfer_event : String → String → String → Payload
  noun_win : ℕ → String → String → Payload

-- The event's type is that of its payload.
pub record NounProfileEvent : Type 0 where
  pub block_number : ℕ
  pub payload : Payload

pub record Response : Type 0 where
  pub loading : Bool
  pub error : Bool
  pub events : Option (List NounProfileEvent)

abbrev pub still_loading : Response
still_loading = record { loading = true; error = false; events = none }

abbrev pub failed : Response
failed = record { loading = false; error = true; events = none }

abbrev pub loaded : List NounProfileEvent → Response
loaded events = record { loading = false; error = false; events = some events }

-- `useQuery`: an answer, or what it lacks.
pub record Query {ℓ} (A : Type ℓ) : Type ℓ where
  pub loading : Bool
  pub error : Bool
  pub answer : A

-- The reduction of the votes to an object: the last vote on a proposal stays.
abbrev pub vote_on : String → List NounVoteHistory → Option NounVoteHistory
vote_on id [] = none
vote_on id (v ∷ votes) = elim (vote_on id votes) [
  | some later ↦ some later
  | none ↦ if str_eq v.proposal_id id then some v else none
]

-- The test of one proposal, of its creation time.
abbrev pub is_listed : ℕ → ℕ → Proposal → Bool
is_listed can_vote created p =
    not (ltb created can_vote)
    && not (p.is_cancelled && (p.for_count + p.abstain_count + p.against_count == 0))

abbrev vote_event : Proposal → Option NounVoteHistory → NounProfileEvent
vote_event p none = record { block_number = p.end_block; payload = proposal_vote p none none }
vote_event p (some v) = record {
  block_number = v.block_number;
  payload = proposal_vote p (some v.voter_id) (some v.support_detailed);
}

abbrev drop_first {ℓ} : {A : Type ℓ} → List A → List A
drop_first [] = []
drop_first (a ∷ l) = l

-- The events of the proposals that are listed; `none`: a proposal has no creation time, and the
-- hook throws. A proposal without an id is skipped first.
unfoldable pub vote_events :
    ℕ → List NounVoteHistory → List ℕ → List Proposal → Option (List NounProfileEvent)
vote_events can_vote votes times [] = some []
vote_events can_vote votes times (p ∷ proposals) =
    let rest = vote_events can_vote votes (drop_first times) proposals in
    elim p.id [
      | none ↦ rest
      | some id ↦ if str_eq id "" then rest else elim (get_elem? times 0) [
        | none ↦ none
        | some created ↦ elim rest [
          | none ↦ none
          | some events ↦ some (
              if is_listed can_vote created p
              then vote_event p (vote_on id votes) ∷ events
              else events)
        ]
      ]
    ]

abbrev pub is_empty {ℓ} : {A : Type ℓ} → List A → Bool
is_empty [] = true
is_empty (a ∷ l) = false

unfoldable pub use_noun_proposal_vote_events :
    Query (List NounVoteHistory) → Query (List ℕ) → ℕ → Option (List Proposal) → Option Response
use_noun_proposal_vote_events votes times can_vote none = some still_loading
use_noun_proposal_vote_events votes times can_vote (some proposals) =
    if votes.loading || is_empty proposals || times.loading
    then some still_loading
    else if votes.error || times.error
    then some failed
    else elim (vote_events can_vote votes.answer times.answer proposals) [
      | none ↦ none
      | some events ↦ some (loaded events)
    ]

-- An event of a transfer or a delegation as the subgraph gives it: `transaction_hash` is the part
-- of the id before its underscore.
pub record QueriedEvent : Type 0 where
  pub block_number : ℕ
  pub former : String
  pub latter : String
  pub transaction_hash : String

abbrev pub use_events : (QueriedEvent → Payload) → Query (List QueriedEvent) → Response
use_events payload q =
    if q.loading
    then still_loading
    else if q.error
    then failed
    else loaded (map (λ e. record { block_number = e.block_number; payload = payload e }) q.answer)

unfoldable pub use_noun_transfer_events : Query (List QueriedEvent) → Response
use_noun_transfer_events q = use_events (λ e. transfer_event e.former e.latter e.transaction_hash) q

unfoldable pub use_delegation_events : Query (List QueriedEvent) → Response
use_delegation_events q = use_events (λ e. delegation_event e.former e.latter e.transaction_hash) q

-- `events.sort((a, b) => a.blockNumber - b.blockNumber)`, which is stable.
unfoldable pub insert_event : NounProfileEvent → List NounProfileEvent → List NounProfileEvent
insert_event e [] = e ∷ []
insert_event e (f ∷ events) =
    let rest = insert_event e events in
    if ltb f.block_number e.block_number then f ∷ rest else e ∷ f ∷ events

unfoldable pub sort_events : List NounProfileEvent → List NounProfileEvent
unfolding insert_event
sort_events [] = []
sort_events (e ∷ events) = insert_event e (sort_events events)

unfoldable pub reverse {ℓ} : {A : Type ℓ} → List A → List A
reverse [] = []
reverse (a ∷ l) = reverse l ++ (a ∷ [])

-- `events.slice(0, events.length - dropped)`: a negative end counts from the list's own end.
unfoldable pub slice_off {ℓ} : {A : Type ℓ} → ℕ → List A → List A
slice_off dropped l =
    if leb dropped (length l)
    then take (length l - dropped) l
    else take (length l - (dropped - length l)) l

abbrev pub is_nounders : ℕ → Bool
is_nounders id = id % 10 == 0

abbrev pub win_of : ℕ → ℕ → Payload → List NounProfileEvent
win_of id block (transfer_event former latter hash) =
    record { block_number = block; payload = noun_win id latter hash } ∷ []
win_of id block payload = []

-- The transfer by which the Noun was won, as the event of its birth; without it nothing is added.
abbrev pub win_at : ℕ → Option NounProfileEvent → List NounProfileEvent
win_at id none = []
win_at id (some e) = win_of id e.block_number e.payload

abbrev pub win_event : ℕ → List NounProfileEvent → List NounProfileEvent
win_event id transfers =
    win_at id (get_elem? (sort_events transfers) (if is_nounders id then 0 else 1))

-- All events, latest first, without those of the Noun's birth, and that of its win.
unfoldable pub noun_events :
    ℕ
    → List NounProfileEvent
    → List NounProfileEvent
    → List NounProfileEvent
    → List NounProfileEvent
noun_events id votes transfers delegations =
    slice_off (if is_nounders id then 2 else 4)
      (reverse (sort_events (votes ++ transfers ++ delegations)))
    ++ win_event id transfers

unfoldable pub use_noun_activity : ℕ → Response → Response → Response → Response
unfolding noun_events
use_noun_activity id votes transfers delegations =
    if delegations.loading || transfers.loading || votes.loading
    then still_loading
    else if votes.error || transfers.error || delegations.error
    then failed
    else elim votes.events [
      | none ↦ still_loading
      | some v ↦ elim transfers.events [
        | none ↦ still_loading
        | some t ↦ elim delegations.events [
          | none ↦ still_loading
          | some d ↦ loaded (noun_events id v t d)
        ]
      ]
    ]
