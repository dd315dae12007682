-- ===== src/Webapp/Seeds.antt =====
-- packages/nouns-webapp/src/wrappers/nounToken.ts: the seeds of the Nouns, and their cache in the
-- browser's storage. An object is the list of its properties, the last assigned first.
pub mod Cache
use composable_nouns_monorep.Common.{
  ℕ, Bool, true, false, not, ◌&&◌, ◌||◌, Option, none, some, List, [], ◌∷◌, ◌==◌, if◌then◌else◌,
  String, str_eq,
}

pub record NounSeed : Type 0 where
  pub accessory : ℕ
  pub background : ℕ
  pub body : ℕ
  pub glasses : ℕ
  pub head : ℕ

abbrev pub property {ℓ} : {A : Type ℓ} → String → List (String × A) → Option A
property k [] = none
property k ((j, a) ∷ object) = if str_eq j k then some a else property k object

abbrev pub Seeds : Type 0
Seeds = List (String × NounSeed)

-- The keys and values of a response.
abbrev pub object_of : NounSeed → List (String × ℕ)
object_of s =
    ("accessory", s.accessory)
    ∷ ("background", s.background)
    ∷ ("body", s.body)
    ∷ ("glasses", s.glasses)
    ∷ ("head", s.head)
    ∷ []

abbrev pub has_own_property : List (String × ℕ) → String → Bool
has_own_property [] k = false
has_own_property ((j, v) ∷ object) k = str_eq j k || has_own_property object k

abbrev pub every_key : List (String × ℕ) → List String → Bool
every_key object [] = true
every_key object (k ∷ ks) = has_own_property object k && every_key object ks

abbrev pub some_nonzero : List (String × ℕ) → Bool
some_nonzero [] = false
some_nonzero ((j, v) ∷ object) = not (v == 0) || some_nonzero object

abbrev pub expected_keys : List String
expected_keys = "background" ∷ "body" ∷ "accessory" ∷ "head" ∷ "glasses" ∷ []

-- `seed || {}`.
abbrev pub or_object : Option (List (String × ℕ)) → List (String × ℕ)
or_object none = []
or_object (some object) = object

abbrev pub is_seed_valid : Option (List (String × ℕ)) → Bool
is_seed_valid seed = every_key (or_object seed) expected_keys && some_nonzero (or_object seed)

-- The seeds of the query, their numbers read.
abbrev pub assign_seeds : Seeds → Seeds → Seeds
assign_seeds acc [] = acc
assign_seeds acc (s ∷ seeds) = assign_seeds (s ∷ acc) seeds

unfoldable pub seed_array_to_object : Seeds → Seeds
seed_array_to_object seeds = assign_seeds [] seeds

-- The effect of `useNounSeeds`, when the query has given seeds; `none`: nothing is stored.
unfoldable pub use_noun_seeds : Seeds → Option Seeds → Option Seeds
use_noun_seeds [] none = none
use_noun_seeds (s ∷ seeds) none = some (seed_array_to_object (s ∷ seeds))
use_noun_seeds seeds (some cached) = some cached

abbrev pub cached_seed : String → Option Seeds → Option NounSeed
cached_seed id none = none
cached_seed id (some cached) = property id cached

abbrev pub store_seed : String → NounSeed → Option Seeds → Option Seeds
store_seed id response none = none
store_seed id response (some cached) =
    if is_seed_valid (some (object_of response))
    then some ((id, response) ∷ cached)
    else some cached

-- `response` is none until the contract answers.
abbrev pub answer_seed : String → Option NounSeed → Option Seeds → Option NounSeed × Option Seeds
answer_seed id none cached = (none, cached)
answer_seed id (some response) cached = (some response, store_seed id response cached)

-- The seed, and the cache afterwards. The contract is asked if the seed is not cached.
unfoldable pub use_noun_seed :
    String → Option NounSeed → Option Seeds → Option NounSeed × Option Seeds
use_noun_seed id response cached = elim (cached_seed id cached) [
  | some seed ↦ (some seed, cached)
  | none ↦ answer_seed id response cached
]
