-- ===== src/Subgraph/Quorum.antt =====
-- packages/nouns-subgraph/src/utils/dynamicQuorum.ts.
pub mod Bounds
use composable_nouns_monorep.Common.{
  ℕ, ◌≡◌, refl, Option, none, some, ℤ, pos, ◌+ℤ◌, ◌*ℤ◌, ltb_ℤ, if◌then◌else◌,
}
use composable_nouns_monorep.Subgraph.Host.{GraphNode}

-- A step that can abort the handler.
infixl 5 ◌>>=◌
abbrev pub ◌>>=◌ {ℓ κ} : {A : Type ℓ} {B : Type κ} → Option A → (A → Option B) → Option B
none >>= f = none
some a >>= f = f a

abbrev pub min_ℤ : ℤ → ℤ → ℤ
min_ℤ a b = if ltb_ℤ b a then b else a

module _ (G : GraphNode) where
  unfoldable pub dynamic_quorum_votes : ℕ → ℤ → ℤ → ℤ → ℕ → Option ℤ
  dynamic_quorum_votes against supply min_bps max_bps coefficient = do
    against_bps ← G.div (pos against *ℤ pos 10000) supply
    adjustment ← G.div (pos coefficient *ℤ against_bps) (pos 1000000)
    adjusted ← G.to_i32 (adjustment +ℤ min_bps)
    G.div (supply *ℤ min_ℤ max_bps adjusted) (pos 10000)

-- A result that follows a step is that of the step's value.
pub >>=-some {ℓ κ} :
    {A : Type ℓ} {B : Type κ} (m : Option A) (f : A → B) {b : B}
    → (m >>= λ a. some (f a)) ≡ some b
    → (a : A) × (m ≡ some a) × (b ≡ f a)
>>=-some none f h = cc
>>=-some (some a) f h = (a, refl, cc)
