-- ===== src/Webapp/Votes.antt =====
-- The Nouns that voted on a proposal, as its page shows them: utils/vote.ts, utils/getNounsVotes.ts,
-- utils/pseudoRandomPredictableShuffle.ts, pages/Vote/index.tsx and
-- components/NounImageVoteTable/index.tsx. An undefined value is none.
pub mod Shuffle
pub mod Cells
pub mod Once
use composable_nouns_monorep.Common.{
  ℕ, zero, suc, ◌+◌, ◌*◌, Bool, true, false, Option, none, some, List, [], ◌∷◌, ◌++◌, ◌==◌, ltb,
  if◌then◌else◌, String, str_eq, map, filter, take, drop, replicate, get_elem?, length,
}
use composable_nouns_monorep.Composer.{splice_out}

-- A vote of `proposalVotesQuery`: the voter's id, and 0 for against, 1 for, 2 for abstention.
pub record QueriedVote : Type 0 where
  pub voter : String
  pub support_detailed : ℕ

-- A delegate of `delegateNounsAtBlockQuery`.
pub record Delegate : Type 0 where
  pub id : String
  pub nouns_represented : List String

pub record DelegateVote : Type 0 where
  pub delegate : String
  pub support_detailed : ℕ
  pub nouns_represented : List String

abbrev pub concat {ℓ} : {A : Type ℓ} → List (List A) → List A
concat [] = []
concat (xs ∷ xss) = xs ++ concat xss

-- `filter(…).flatMap(…)`.
unfoldable pub get_noun_votes : ℕ → List DelegateVote → List String
get_noun_votes support votes =
    concat (map (λ v. v.nouns_represented) (filter (λ v. v.support_detailed == support) votes))

-- A property of an object: the last that was assigned.
abbrev pub property {ℓ} : {A : Type ℓ} → String → List (String × A) → Option A
property k [] = none
property k ((j, a) ∷ s) = elim (property k s) [
  | some b ↦ some b
  | none ↦ if str_eq j k then some a else none
]

-- `acc[curr.id] = …`, over the delegates.
abbrev pub delegate_to_noun_ids : List Delegate → List (String × List String)
delegate_to_noun_ids [] = []
delegate_to_noun_ids (d ∷ ds) = (d.id, d.nouns_represented) ∷ delegate_to_noun_ids ds

abbrev pub or_empty {ℓ} : {A : Type ℓ} → Option (List A) → List A
or_empty none = []
or_empty (some xs) = xs

-- The page's `data`, of the votes and the delegates that are loaded.
unfoldable pub delegate_votes : List QueriedVote → List Delegate → List DelegateVote
delegate_votes votes delegates =
    map
      (λ v. record {
        delegate = v.voter;
        support_detailed = v.support_detailed;
        nouns_represented = or_empty (property v.voter (delegate_to_noun_ids delegates));
      })
      votes

-- `if (seed === 0) seed++`.
abbrev pub nonzero : ℕ → ℕ
nonzero zero = 1
nonzero (suc n) = suc n

-- The loop, on fuel. `index seed n` is `Math.floor(n * rand)` with the random number of the seed.
unfoldable pub shuffle_from {ℓ} :
    {A : Type ℓ} → (ℕ → ℕ → ℕ) → ℕ → ℕ → List A → List (Option A) → Option (List (Option A))
shuffle_from index fuel seed [] output = some output
shuffle_from index zero seed (x ∷ xs) output = none
shuffle_from index (suc fuel) seed (x ∷ xs) output =
    let i = index (nonzero seed) (length (x ∷ xs)) in
    shuffle_from index fuel (nonzero seed + 1) (splice_out i (x ∷ xs))
      (output ++ get_elem? (x ∷ xs) i ∷ [])

-- With as many passes as there are elements.
unfoldable pub pseudo_random_predictable_shuffle {ℓ} :
    {A : Type ℓ} → (ℕ → ℕ → ℕ) → Option (List A) → ℕ → Option (List (Option A))
pseudo_random_predictable_shuffle index input seed =
    shuffle_from index (length (or_empty input)) seed (or_empty input) []

abbrev pub nouns_per_vote_card : ℕ
nouns_per_vote_card = 15

abbrev pub row_length : Bool → ℕ
row_length is_xl_screen = if is_xl_screen then 5 else 4

-- What a cell has: a Noun, or a gray circle.
pub data Cell : Type 0 where
  noun : String → Cell
  gray : Cell

abbrev pub padded_noun_ids : List String → ℕ → List Cell
padded_noun_ids nouns page =
    map noun (take nouns_per_vote_card (drop (page * nouns_per_vote_card) nouns))
    ++ replicate nouns_per_vote_card gray

-- The cell in the row i, one of three, and the column j, one of `row_length`.
unfoldable pub cell : Bool → List String → ℕ → ℕ → ℕ → Option Cell
cell is_xl_screen nouns page i j =
    get_elem? (padded_noun_ids nouns page) (i * row_length is_xl_screen + j)

unfoldable pub is_right_arrow_disabled : List String → ℕ → Bool
is_right_arrow_disabled nouns page = ltb (length nouns) ((page + 1) * nouns_per_vote_card)
