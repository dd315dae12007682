-- ===== src/Composables/Holdings.antt =====
-- composablesWrapper.ts, `getTokenHoldings` and `getChildTokens`: what the two loops tally.
use composable_nouns_monorep.Common.{
  ℕ, ◌+◌, ◌-◌, ◌≡◌, ltb, refl, ◌&&◌, List, [], ◌∷◌, ◌==◌, if◌then◌else◌, String, str_eq, ℤ, pos,
  map, arith,
}
use composable_nouns_monorep.Composables.{
  TransferSingleEvent, ChildReceivedEvent, ChildTransferredEvent, TokenItem, same_id, same_child,
  item_of_transfer, get_token_holdings, item_of_received, item_of_transferred, get_child_tokens,
}
use composable_nouns_monorep.Composables.Tallies.{
  moved, times_listed, held, Amounts, held-tally, same_id-IsKeyTest, same_child-IsKeyTest,
}

-- The amounts of one token in a list of events.
abbrev pub value_of : ℕ → List TransferSingleEvent → ℕ
value_of i [] = 0
value_of i (e ∷ es) = (if e.id == i then e.value else 0) + value_of i es

abbrev pub received_of : String → ℕ → List ChildReceivedEvent → ℕ
received_of a i [] = 0
received_of a i (e ∷ es) =
    (if str_eq e.child_token_address a && e.child_token_id == i then e.amount else 0)
    + received_of a i es

abbrev pub transferred_of : String → ℕ → List ChildTransferredEvent → ℕ
transferred_of a i [] = 0
transferred_of a i (e ∷ es) =
    (if str_eq e.child_token_address a && e.child_token_id == i then e.amount else 0)
    + transferred_of a i es

abbrev token : String → ℕ → TokenItem
token a i = record { token_address = a; token_id = i; balance = pos 0 }

-- The balance that a list of holdings or of children has for a token, 0 where it is not listed, and
-- how often the token is listed.
abbrev pub holding_of : ℕ → List TokenItem → ℤ
holding_of i = held same_id (token "" i)

abbrev pub times_held : ℕ → List TokenItem → ℕ
times_held i = times_listed same_id (token "" i)

abbrev pub child_of : String → ℕ → List TokenItem → ℤ
child_of a i = held same_child (token a i)

abbrev pub times_child : String → ℕ → List TokenItem → ℕ
times_child a i = times_listed same_child (token a i)

transfers-Amounts :
    (a : String) (es : List TransferSingleEvent) → Amounts (map (item_of_transfer a) es)
transfers-Amounts a [] = tt
transfers-Amounts a (e ∷ es) = (refl, transfers-Amounts a es)

transfers-moved :
    (a : String) (i : ℕ) (es : List TransferSingleEvent)
    → moved same_id (token "" i) (map (item_of_transfer a) es) ≡ value_of i es
transfers-moved a i [] = refl
transfers-moved a i (e ∷ es) = ground (arith, transfers-moved a i es)

-- A holder's balance of a token is the sum of the amounts that came in less the sum of those that
-- went out, 0 where that is negative; the token is listed once where that is above 0, and otherwise
-- not at all.
pub get_token_holdings_lem :
    (a : String) (i : ℕ) (ins outs : List TransferSingleEvent)
    → (holding_of i (get_token_holdings a ins outs) ≡ pos (value_of i ins - value_of i outs))
      × (times_held i (get_token_holdings a ins outs)
          ≡ (if ltb (value_of i outs) (value_of i ins) then 1 else 0))
unfolding get_token_holdings
get_token_holdings_lem a i ins outs =
    rw (← transfers-moved a i ins, ← transfers-moved a i outs)
      (held-tally same_id same_id-IsKeyTest (token "" i) _ _ (transfers-Amounts a ins)
        (transfers-Amounts a outs))

received-Amounts : (es : List ChildReceivedEvent) → Amounts (map item_of_received es)
received-Amounts [] = tt
received-Amounts (e ∷ es) = (refl, received-Amounts es)

received-moved :
    (a : String) (i : ℕ) (es : List ChildReceivedEvent)
    → moved same_child (token a i) (map item_of_received es) ≡ received_of a i es
received-moved a i [] = refl
received-moved a i (e ∷ es) = ground (arith, received-moved a i es)

transferred-Amounts : (es : List ChildTransferredEvent) → Amounts (map item_of_transferred es)
transferred-Amounts [] = tt
transferred-Amounts (e ∷ es) = (refl, transferred-Amounts es)

transferred-moved :
    (a : String) (i : ℕ) (es : List ChildTransferredEvent)
    → moved same_child (token a i) (map item_of_transferred es) ≡ transferred_of a i es
transferred-moved a i [] = refl
transferred-moved a i (e ∷ es) = ground (arith, transferred-moved a i es)

-- What a Noun holds of a child token at the composer is what it received less what was transferred
-- on, 0 where that is negative; the child is listed once where that is above 0, and otherwise not at
-- all.
pub get_child_tokens_lem :
    (a : String) (i : ℕ) (received : List ChildReceivedEvent)
    (transferred : List ChildTransferredEvent)
    → (child_of a i (get_child_tokens received transferred)
        ≡ pos (received_of a i received - transferred_of a i transferred))
      × (times_child a i (get_child_tokens received transferred)
          ≡ (if ltb (transferred_of a i transferred) (received_of a i received) then 1 else 0))
unfolding get_child_tokens
get_child_tokens_lem a i received transferred =
    rw (← received-moved a i received, ← transferred-moved a i transferred)
      (held-tally same_child same_child-IsKeyTest (token a i) _ _ (received-Amounts received)
        (transferred-Amounts transferred))
