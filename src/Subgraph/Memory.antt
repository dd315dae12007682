-- ===== src/Subgraph/Memory.antt =====
-- A store in memory that behaves as the mappings rely on, for the tests: association lists for
-- the entity tables, tally marks for numbers, and a text for an address.
use Prim.Native.Nat.{pred}
use composable_nouns_monorep.Common.{
  ℕ, zero, suc, ◌^◌, ◌/◌, ◌≡◌, refl, ap, Option, none, some, String, str_eq, eq_iff, arith, ℤ, pos,
  negsuc, ltb, if◌then◌else◌, List, [], ◌∷◌, false,
}
use composable_nouns_monorep.Subgraph.Host.{GraphNode, IsLawful}
use composable_nouns_monorep.Subgraph.Schema.{Generated, pending}
use composable_nouns_monorep.Subgraph.Store.{Store}

abbrev pub lookup {ℓ} : {V : Type ℓ} → List (String × V) → String → Option V
lookup [] k = none
lookup ((j, v) ∷ m) k = if str_eq j k then some v else lookup m k

abbrev pub insert {ℓ} : {V : Type ℓ} → List (String × V) → String → V → List (String × V)
insert [] k v = (k, v) ∷ []
insert ((j, w) ∷ m) k v = if str_eq j k then (k, v) ∷ m else (j, w) ∷ insert m k v

lookup-insert {ℓ} :
    {V : Type ℓ} (m : List (String × V)) (k j : String) (v : V)
    → lookup (insert m k v) j ≡ (if str_eq k j then some v else lookup m j)
lookup-insert [] k j v = refl
lookup-insert ((i, w) ∷ m) k j v =
    ground (arith, eq_iff k j, eq_iff i k, eq_iff i j, lookup-insert m k j v)

abbrev pub marks : ℕ → String
marks zero = ""
marks (suc n) = String.◌∷◌ "1" (marks n)

abbrev pub text : ℤ → String
text (pos n) = marks n
text (negsuc n) = String.◌∷◌ "-" (marks (suc n))

abbrev tail : String → String
tail String.[] = ""
tail (String.◌∷◌ c s) = s

marks_injective : (a b : ℕ) → marks a ≡ marks b → a ≡ b
marks_injective zero zero h = refl
marks_injective zero (suc b) h = cc
marks_injective (suc a) zero h = cc
marks_injective (suc a) (suc b) h = ap suc (marks_injective a b (ap tail h))

-- Division rounds toward zero.
abbrev pub quotient : ℤ → ℤ → Option ℤ
quotient (pos a) (pos zero) = none
quotient (negsuc a) (pos zero) = none
quotient (pos a) (pos (suc b)) = some (pos (a / suc b))
quotient (negsuc a) (pos (suc b)) =
    some (if ltb 0 (suc a / suc b) then negsuc (pred (suc a / suc b)) else pos 0)
quotient (pos a) (negsuc b) = some (if ltb 0 (a / suc b) then negsuc (pred (a / suc b)) else pos 0)
quotient (negsuc a) (negsuc b) = some (pos (suc a / suc b))

quotient_zero : (a : ℤ) → quotient a (pos 0) ≡ none
quotient_zero (pos a) = refl
quotient_zero (negsuc a) = refl

abbrev pub word : ℤ → Option ℤ
word (pos n) = if ltb n (2 ^ 31) then some (pos n) else none
word (negsuc n) = if ltb n (2 ^ 31) then some (negsuc n) else none

abbrev pub memory : GraphNode
memory = record {
  Bytes = String;
  Table = λ V. List (String × V);
  load = lookup;
  save = insert;
  to_string = text;
  to_hex = λ b. b;
  div = quotient;
  to_i32 = word;
}

pub memory-IsLawful : IsLawful memory
memory-IsLawful = record {
  load-save = lookup-insert;
  div-pos = λ a b. refl;
  div-zero = quotient_zero;
  to_string-injective = marks_injective;
  to_i32-pos = λ n h. ground arith;
}

-- The generated entities, with the defaults of their required fields.
abbrev pub defaults : Generated memory
defaults = record {
  new_account = λ id. record {
    id = id;
    delegate = none;
    token_balance_raw = pos 0;
    token_balance = pos 0;
    total_tokens_held_raw = pos 0;
    total_tokens_held = pos 0;
    nouns = [];
  };
  new_delegate = λ id. record {
    id = id;
    delegated_votes_raw = 0;
    delegated_votes = 0;
    token_holders_represented_amount = pos 0;
    nouns_represented = [];
  };
  new_noun = λ id. record { id = id; seed = none; owner = "" };
  new_seed =
      λ id. record { id = id; background = 0; body = 0; accessory = 0; head = 0; glasses = 0 };
  new_delegation_event = λ id. record {
    id = id;
    noun = "";
    previous_delegate = "";
    new_delegate = "";
    block_number = 0;
    block_timestamp = 0;
  };
  new_transfer_event = λ id. record {
    id = id;
    noun = "";
    previous_holder = "";
    new_holder = "";
    block_number = 0;
    block_timestamp = 0;
  };
  new_bid = λ id. record {
    id = id;
    noun = "";
    amount = 0;
    bidder = none;
    block_number = 0;
    tx_index = 0;
    auction = "";
    block_timestamp = 0;
  };
  new_auction = λ id. record {
    id = id;
    noun = "";
    amount = 0;
    start_time = 0;
    end_time = 0;
    bidder = none;
    settled = false;
  };
  new_proposal = λ id. record {
    id = id;
    proposer = "";
    targets = [];
    values = [];
    signatures = [];
    calldatas = [];
    created_timestamp = 0;
    created_block = 0;
    created_transaction_hash = "";
    start_block = 0;
    end_block = 0;
    proposal_threshold = 0;
    quorum_votes = pos 0;
    for_votes = 0;
    against_votes = 0;
    abstain_votes = 0;
    description = "";
    status = pending;
    execution_eta = none;
    total_supply = pos 0;
    min_quorum_votes_bps = pos 0;
    max_quorum_votes_bps = pos 0;
    quorum_coefficient = 0;
  };
  new_vote = λ id. record {
    id = id;
    support = false;
    support_detailed = 0;
    votes_raw = 0;
    votes = 0;
    reason = none;
    voter = "";
    nouns = [];
    proposal = "";
    block_number = 0;
  };
  new_governance = λ id. record {
    id = id;
    proposals = pos 0;
    current_token_holders = pos 0;
    current_delegates = pos 0;
    total_token_holders = pos 0;
    total_delegates = pos 0;
    delegated_votes_raw = pos 0;
    delegated_votes = pos 0;
    proposals_queued = pos 0;
  };
  new_dynamic_quorum_params = λ id. record {
    id = id;
    min_quorum_votes_bps = pos 0;
    max_quorum_votes_bps = pos 0;
    quorum_coefficient = 0;
    dynamic_quorum_start_block = none;
  };
}

-- A subgraph before its first event.
abbrev pub no_entities : Store memory
no_entities = record {
  accounts = [];
  delegates = [];
  nouns = [];
  seeds = [];
  delegation_events = [];
  transfer_events = [];
  bids = [];
  auctions = [];
  proposals = [];
  votes = [];
  governances = [];
  dynamic_quorum_params = [];
  errors = [];
}
