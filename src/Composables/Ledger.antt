-- ===== src/Composables/Ledger.antt =====
-- `getTokenHoldings` against the ledger of the ERC-1155 contract whose events it tallies.
use composable_nouns_monorep.Common.{
  ℕ, Bool, ◌++◌, ◌+◌, ◌-◌, ◌≤◌, ◌≡◌, ◌∙◌, ap, refl, false, ◌⊎◌, List, [], ◌∷◌, ◌==◌, if◌then◌else◌,
  String, str_eq, eq_iff, pos, filter, arith,
}
use composable_nouns_monorep.Subgraph.Store.{zero_address}
use composable_nouns_monorep.Composables.{TransferSingleEvent, get_token_holdings}
use composable_nouns_monorep.Composables.Holdings.{value_of, holding_of, get_token_holdings_lem}

-- The events of the contract's log that `queryFilter` gives for a receiver and for a sender.
abbrev pub events_to : String → List TransferSingleEvent → List TransferSingleEvent
events_to h = filter (λ e. str_eq e.to h)

abbrev pub events_from : String → List TransferSingleEvent → List TransferSingleEvent
events_from h = filter (λ e. str_eq e.from h)

-- The balances that the contract keeps.
abbrev pub Balances : Type 0
Balances = String → ℕ → ℕ

abbrev pub move : TransferSingleEvent → Balances → Balances
move e b h i =
    if e.id == i
    then b h i - (if str_eq e.from h then e.value else 0) + (if str_eq e.to h then e.value else 0)
    else b h i

unfoldable pub after : List TransferSingleEvent → Balances → Balances
after [] b = b
after (e ∷ es) b = after es (move e b)

-- No transfer but a mint takes more than its sender has.
abbrev pub IsCovered : List TransferSingleEvent → Balances → Type 0
IsCovered [] b = Unit
IsCovered (e ∷ es) b =
    ((e.from ≡ zero_address) ⊎ (e.value ≤ b e.from e.id)) × IsCovered es (move e b)

after-values :
    (h : String) (i : ℕ) (es : List TransferSingleEvent) (b : Balances)
    → str_eq h zero_address ≡ false
    → IsCovered es b
    → after es b h i + value_of i (events_from h es) ≡ b h i + value_of i (events_to h es)
unfolding after
after-values h i [] b z c = refl
after-values h i (e ∷ es) b z c =
    ground
      (arith, c.0, eq_iff e.from h, eq_iff h zero_address, after-values h i es (move e b) z c.1)

-- An entry of the contract's log: one transfer, or a batch, as `mintBatch` emits it, whose transfers
-- share the operator and the two parties.
pub data LogEntry : Type 0 where
  single : TransferSingleEvent → LogEntry
  batch : String → String → String → List (ℕ × ℕ) → LogEntry

abbrev pub batch_transfers : String → String → String → List (ℕ × ℕ) → List TransferSingleEvent
batch_transfers operator from to [] = []
batch_transfers operator from to ((id, value) ∷ items) =
    record { operator = operator; from = from; to = to; id = id; value = value }
    ∷ batch_transfers operator from to items

-- The transfers that the contract has carried out, and those of the events `TransferSingle`, which the
-- application asks for.
abbrev pub transfers : List LogEntry → List TransferSingleEvent
transfers [] = []
transfers (single e ∷ log) = e ∷ transfers log
transfers (batch operator from to items ∷ log) =
    batch_transfers operator from to items ++ transfers log

abbrev pub singles : List LogEntry → List TransferSingleEvent
singles [] = []
singles (single e ∷ log) = e ∷ singles log
singles (batch operator from to items ∷ log) = singles log

-- No batch brings an address a token, or takes one from it.
abbrev pub LacksBatches : String → ℕ → List LogEntry → Type 0
LacksBatches h i [] = Unit
LacksBatches h i (single e ∷ log) = LacksBatches h i log
LacksBatches h i (batch operator from to items ∷ log) =
    (value_of i (events_to h (batch_transfers operator from to items)) ≡ 0)
    × (value_of i (events_from h (batch_transfers operator from to items)) ≡ 0)
    × LacksBatches h i log

value_of-filter_append :
    (p : TransferSingleEvent → Bool) (i : ℕ) (xs ys : List TransferSingleEvent)
    → value_of i (filter p (xs ++ ys)) ≡ value_of i (filter p xs) + value_of i (filter p ys)
value_of-filter_append p i [] ys = omega arith
value_of-filter_append p i (x ∷ xs) ys = ground (arith, value_of-filter_append p i xs ys)

value_of-singles :
    (h : String) (i : ℕ) (log : List LogEntry)
    → LacksBatches h i log
    → (value_of i (events_to h (transfers log)) ≡ value_of i (events_to h (singles log)))
      × (value_of i (events_from h (transfers log)) ≡ value_of i (events_from h (singles log)))
value_of-singles h i [] l = (refl, refl)
value_of-singles h i (single e ∷ log) l = ground (arith, value_of-singles h i log l)
value_of-singles h i (batch operator from to items ∷ log) l =
    let moved = batch_transfers operator from to items in
    let rest = value_of-singles h i log l.2 in
    (
      omega
          (arith, value_of-filter_append (λ e. str_eq e.to h) i moved (transfers log), l.0, rest.0),
      omega (
        arith,
        value_of-filter_append (λ e. str_eq e.from h) i moved (transfers log),
        l.1,
        rest.1,
      ),
    )

-- For a log in which nobody sends what they do not have, and no batch of which brings the address the
-- token or takes it, the holding of an address, other than the zero address, that is tallied from its
-- events TransferSingle is what the contract has for it after all of the log's transfers.
pub get_token_holdings-after :
    (a h : String) (i : ℕ) (log : List LogEntry)
    → str_eq h zero_address ≡ false
    → IsCovered (transfers log) (λ h i. 0)
    → LacksBatches h i log
    → holding_of i (get_token_holdings a (events_to h (singles log)) (events_from h (singles log)))
      ≡ pos (after (transfers log) (λ h i. 0) h i)
get_token_holdings-after a h i log z c l =
    (get_token_holdings_lem a i (events_to h (singles log)) (events_from h (singles log))).0
    ∙ ap pos
        (omega (arith, after-values h i (transfers log) (λ h i. 0) z c, value_of-singles h i log l))
