-- ===== src/Subgraph/Events.antt =====
-- The events of the token contract as the handlers read them: the generated classes of
-- types/NounsToken give their parameters, graph-ts the block and the transaction.
use composable_nouns_monorep.Common.{ℕ, Option, none, some, String, str_eq, if◌then◌else◌, pos}
use composable_nouns_monorep.Subgraph.Host.{GraphNode}

module _ (G : GraphNode) where
  -- What a handler reads of `event.block` and `event.transaction`.
  pub record Origin : Type 0 where
    pub block_number : ℕ
    pub block_timestamp : ℕ
    pub transaction_hash : G.Bytes
    pub transaction_index : ℕ

  pub record NounCreated : Type 0 where
    pub origin : Origin
    pub token_id : ℕ
    pub background : ℕ
    pub body : ℕ
    pub accessory : ℕ
    pub head : ℕ
    pub glasses : ℕ

  pub record DelegateChanged : Type 0 where
    pub origin : Origin
    pub delegator : G.Bytes
    pub from_delegate : G.Bytes
    pub to_delegate : G.Bytes

  pub record DelegateVotesChanged : Type 0 where
    pub delegate : G.Bytes
    pub previous_balance : ℕ
    pub new_balance : ℕ

  pub record Transfer : Type 0 where
    pub origin : Origin
    pub sender : G.Bytes
    pub receiver : G.Bytes
    pub token_id : ℕ

  -- `event.params.tokenId.toString()`.
  abbrev pub noun_key : ℕ → String
  noun_key token_id = G.to_string (pos token_id)

-- `id ? id : other` on texts: an empty text is falsy.
abbrev pub or_when_empty : String → String → String
or_when_empty id other = if str_eq id "" then other else id

abbrev pub option_or : Option String → String → String
option_or none other = other
option_or (some id) other = or_when_empty id other
