-- ===== src/Subgraph/Host.antt =====
-- What the mappings of packages/nouns-subgraph take from graph-ts and graph-node, which are not
-- part of the repository: the entity tables, and the conversions of numbers and addresses.
use composable_nouns_monorep.Common.{
  ℕ, suc, ◌<◌, ◌^◌, ◌/◌, ◌≡◌, Option, none, some, String, str_eq, ℤ, pos, if◌then◌else◌,
}

-- `Table V` holds the saved entities of one type, under their ids.
pub record GraphNode : Type 1 where
  pub Bytes : Type 0
  pub Table : Type 0 → Type 0
  pub load : {V : Type 0} → Table V → String → Option V
  pub save : {V : Type 0} → Table V → String → V → Table V
  -- BigInt.toString, and Bytes.toHexString.
  pub to_string : ℤ → String
  pub to_hex : Bytes → String
  -- BigInt.div, and BigInt.toI32: `none` is an abort of the handler.
  pub div : ℤ → ℤ → Option ℤ
  pub to_i32 : ℤ → Option ℤ

-- The documented behaviour that the theorems rely on.
pub record IsLawful (G : GraphNode) : Type 1 where
  -- `Entity.load` gives what `save` last stored under the id.
  pub load-save :
      {V : Type 0} (t : G.Table V) (k j : String) (v : V)
      → G.load (G.save t k v) j ≡ (if str_eq k j then some v else G.load t j)
  -- Division of non-negative numbers rounds down; division by zero aborts.
  pub div-pos : (a b : ℕ) → G.div (pos a) (pos (suc b)) ≡ some (pos (a / suc b))
  pub div-zero : (a : ℤ) → G.div a (pos 0) ≡ none
  -- A number has one decimal text.
  pub to_string-injective : (a b : ℕ) → G.to_string (pos a) ≡ G.to_string (pos b) → a ≡ b
  -- A number that fits is converted as it is.
  pub to_i32-pos : (n : ℕ) → n < 2 ^ 31 → G.to_i32 (pos n) ≡ some (pos n)
