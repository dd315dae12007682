-- ===== src/Webapp/Seeds/Cache.antt =====
-- wrappers/nounToken.ts: the cache of seeds while Nouns are minted.
use composable_nouns_monorep.Common.{
  ◌≡◌, refl, sym, ◌∙◌, Bool, true, false, Option, none, some, List, [], ◌∷◌, if◌then◌else◌, String,
  str_eq, Option-cases, Bool-cases, inl, inr, eq_iff, subst, none_some,
}
use composable_nouns_monorep.Webapp.Seeds.{
  NounSeed, property, Seeds, object_of, is_seed_valid, assign_seeds, seed_array_to_object,
  use_noun_seeds, cached_seed, store_seed, answer_seed, use_noun_seed,
}

abbrev pub zero_seed : NounSeed
zero_seed = record { accessory = 0; background = 0; body = 0; glasses = 0; head = 0 }

-- The seeds of the minted Nouns, as the contract has them, and the cache.
pub record World : Type 0 where
  pub minted : Seeds
  pub cached : Option Seeds

-- `seeds(id)` of the contract: a Noun that is not minted has zeros.
abbrev pub contract_seed : Seeds → String → NounSeed
contract_seed minted id = elim (property id minted) [ none ↦ zero_seed | some s ↦ s ]

pub data SeedEvent : Type 0 where
  -- A Noun is minted.
  mint : String → NounSeed → SeedEvent
  -- A component uses the seed of a Noun, with the answer of the contract or before it.
  use_seed : String → Bool → SeedEvent
  -- The query answers with the seeds of the Nouns of the ids that are minted.
  queried : List String → SeedEvent

abbrev pub queried_seeds : Seeds → List String → Seeds
queried_seeds minted [] = []
queried_seeds minted (id ∷ ids) =
    let rest = queried_seeds minted ids in
    elim (property id minted) [ none ↦ rest | some s ↦ (id, s) ∷ rest ]

abbrev pub response_of : Seeds → String → Bool → Option NounSeed
response_of minted id answered = if answered then some (contract_seed minted id) else none

unfoldable pub step : SeedEvent → World → World
step (mint id s) w = elim (property id w.minted) [
  | none ↦ record w { minted = (id, s) ∷ w.minted }
  | some old ↦ w
]
step (use_seed id answered) w = record w {
  cached = (use_noun_seed id (response_of w.minted id answered) w.cached).1;
}
step (queried ids) w = record w { cached = use_noun_seeds (queried_seeds w.minted ids) w.cached }

abbrev pub run : List SeedEvent → World → World
run [] w = w
run (e ∷ events) w = run events (step e w)

abbrev pub AreMinted : Seeds → Seeds → Type 0
AreMinted minted seeds =
    (id : String) (s : NounSeed) → property id seeds ≡ some s → property id minted ≡ some s

-- Each seed in the cache is the one that its Noun was minted with.
abbrev pub AgreesWith : World → Type 0
AgreesWith w =
    (id : String) (s : NounSeed) → cached_seed id w.cached ≡ some s → property id w.minted ≡ some s

module _ (minted : Seeds) where
  contract_seed-minted :
      (id : String)
      → is_seed_valid (some (object_of (contract_seed minted id))) ≡ true
      → property id minted ≡ some (contract_seed minted id)
  contract_seed-minted id = elim (Option-cases (property id minted)) [
    | inl e ↦ rw e (λ h. absurd (cc))
    | inr (s, e) ↦ rw (contract_seed, e) (λ h. refl)
  ]

  AreMinted-cons :
      (id : String) (s : NounSeed) (seeds : Seeds)
      → property id minted ≡ some s
      → AreMinted minted seeds
      → AreMinted minted ((id, s) ∷ seeds)
  AreMinted-cons id s seeds e h j t = elim (Bool-cases (str_eq id j)) [
    | inl f ↦ rw f (λ g. subst (λ k. property k minted ≡ some t) ((eq_iff id j).0 f) (e ∙ g))
    | inr f ↦ rw f (h j t)
  ]

  AreMinted-assign_seeds :
      (ids : List String) (acc : Seeds)
      → AreMinted minted acc
      → AreMinted minted (assign_seeds acc (queried_seeds minted ids))
  AreMinted-assign_seeds [] acc h = h
  AreMinted-assign_seeds (id ∷ ids) acc h = elim (Option-cases (property id minted)) [
    | inl e ↦ rw (queried_seeds, e) (AreMinted-assign_seeds ids acc h)
    | inr (s, e) ↦
        rw (queried_seeds, e)
          (AreMinted-assign_seeds ids ((id, s) ∷ acc) (AreMinted-cons id s acc e h))
  ]

  AreMinted-store_seed :
      (id : String) (cached : Seeds)
      → AreMinted minted cached
      → (j : String) (t : NounSeed)
      → cached_seed j (store_seed id (contract_seed minted id) (some cached)) ≡ some t
      → property j minted ≡ some t
  AreMinted-store_seed id cached h j t =
      elim (Bool-cases (is_seed_valid (some (object_of (contract_seed minted id))))) [
        | inl f ↦
            rw f
              (AreMinted-cons id (contract_seed minted id) cached (contract_seed-minted id f) h j t)
        | inr f ↦ rw f (h j t)
      ]

AreMinted-queried :
    (minted seeds : Seeds) (cached : Option Seeds)
    → AreMinted minted (assign_seeds [] seeds)
    → ((id : String) (s : NounSeed) → cached_seed id cached ≡ some s → property id minted ≡ some s)
    → (id : String) (s : NounSeed) → cached_seed id (use_noun_seeds seeds cached) ≡ some s
    → property id minted ≡ some s
unfolding use_noun_seeds seed_array_to_object
AreMinted-queried minted [] none g h id s = h id s
AreMinted-queried minted (x ∷ seeds) none g h id s = g id s
AreMinted-queried minted seeds (some cached) g h id s = h id s

AreMinted-answered :
    (minted : Seeds) (cached : Option Seeds) (id : String) (answered : Bool)
    → ((j : String) (s : NounSeed) → cached_seed j cached ≡ some s → property j minted ≡ some s)
    → (j : String) (s : NounSeed)
    → cached_seed j (answer_seed id (response_of minted id answered) cached).1 ≡ some s
    → property j minted ≡ some s
AreMinted-answered minted cached id false h j s = h j s
AreMinted-answered minted none id true h j s = h j s
AreMinted-answered minted (some cached) id true h j s = AreMinted-store_seed minted id cached h j s

AreMinted-used :
    (minted : Seeds) (cached : Option Seeds) (id : String) (answered : Bool)
    → ((j : String) (s : NounSeed) → cached_seed j cached ≡ some s → property j minted ≡ some s)
    → (j : String) (s : NounSeed)
    → cached_seed j (use_noun_seed id (response_of minted id answered) cached).1 ≡ some s
    → property j minted ≡ some s
unfolding use_noun_seed
AreMinted-used minted cached id answered h j s = elim (Option-cases (cached_seed id cached)) [
  | inr (t, e) ↦ rw (use_noun_seed, e) (h j s)
  | inl e ↦ rw (use_noun_seed, e) (AreMinted-answered minted cached id answered h j s)
]

AgreesWith-step : (e : SeedEvent) (w : World) → AgreesWith w → AgreesWith (step e w)
unfolding step
AgreesWith-step (mint id s) w h = elim (Option-cases (property id w.minted)) [
  | inr (old, e) ↦ rw (step, e) h
  | inl e ↦
      rw (step, e)
        (λ j t g. elim (Bool-cases (str_eq id j)) [
          | inl f ↦ absurd (
              none_some
                (sym (subst (λ k. property k w.minted ≡ none) ((eq_iff id j).0 f) e) ∙ h j t g))
          | inr f ↦ rw f (h j t g)
        ])
]
AgreesWith-step (use_seed id answered) w h = AreMinted-used w.minted w.cached id answered h
AgreesWith-step (queried ids) w h =
    AreMinted-queried w.minted (queried_seeds w.minted ids) w.cached
      (AreMinted-assign_seeds w.minted ids [] (λ j t g. none_some g)) h

AgreesWith-run : (events : List SeedEvent) (w : World) → AgreesWith w → AgreesWith (run events w)
AgreesWith-run [] w h = h
AgreesWith-run (e ∷ events) w h = AgreesWith-run events (step e w) (AgreesWith-step e w h)

shown :
    (minted : Seeds) (cached : Option Seeds) (id : String)
    → ((s : NounSeed) → cached_seed id cached ≡ some s → property id minted ≡ some s)
    → (use_noun_seed id (some (contract_seed minted id)) cached).0 ≡ some (contract_seed minted id)
unfolding use_noun_seed
shown minted cached id h = elim (Option-cases (cached_seed id cached)) [
  | inl e ↦ rw (use_noun_seed, e) refl
  | inr (s, e) ↦ rw (use_noun_seed, contract_seed, e, h s e) refl
]

-- From a cache that agrees with the contract on, whatever Nouns are minted, used and queried, each
-- cached seed is the one that its Noun was minted with: the zeros that the contract has for a Noun
-- before are never kept. Once the contract answers, a component has the contract's seed, from the
-- cache or not.
pub use_noun_seed-contract_seed :
    (events : List SeedEvent) (w : World) (id : String)
    → AgreesWith w
    → let after = run events w in
      AgreesWith after
      × ((use_noun_seed id (some (contract_seed after.minted id)) after.cached).0
          ≡ some (contract_seed after.minted id))
use_noun_seed-contract_seed events w id h =
    let agrees = AgreesWith-run events w h in
    (agrees, shown (run events w).minted (run events w).cached id (agrees id))
