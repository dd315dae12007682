-- ===== src/Webapp/CreateProposal.antt =====
-- packages/nouns-webapp/src/pages/CreateProposal/index.tsx: the form of a new proposal, on texts as
-- lists of character codes.
pub mod Proposed
use composable_nouns_monorep.Common.{
  ℕ, zero, suc, Bool, true, false, not, ◌&&◌, ◌||◌, Option, none, some, List, [], ◌∷◌, ◌++◌, ◌==◌,
  ltb, map, if◌then◌else◌,
}
use composable_nouns_monorep.Sdk.Hex.{Text}
use composable_nouns_monorep.Webapp.Proposals.Titles.{newline}

pub record ProposalTransaction : Type 0 where
  pub address : Text
  pub value : Option Text
  pub signature : Text
  pub calldata : Text

pub record Form : Type 0 where
  pub proposal_transactions : List ProposalTransaction
  pub title_value : Text
  pub body_value : Text

abbrev pub initial_form : Form
initial_form = record { proposal_transactions = []; title_value = []; body_value = [] }

-- `startsWith('0x')`.
abbrev pub starts_with_0x : Text → Bool
starts_with_0x [] = false
starts_with_0x (c ∷ []) = false
starts_with_0x (c ∷ d ∷ cs) = c == b'0' && d == b'x'

abbrev pub with_0x : Text → Text
with_0x t = if starts_with_0x t then t else b'0' ∷ b'x' ∷ t

unfoldable pub handle_add_proposal_action : ProposalTransaction → Form → Form
handle_add_proposal_action transaction f = record f {
  proposal_transactions =
      f.proposal_transactions
      ++ record transaction {
        address = with_0x transaction.address;
        calldata = with_0x transaction.calldata;
      }
        ∷ [];
}

-- `filter((_, i) => i !== index)`.
abbrev pub without {ℓ} : {A : Type ℓ} → ℕ → List A → List A
without i [] = []
without zero (x ∷ xs) = xs
without (suc i) (x ∷ xs) = x ∷ without i xs

unfoldable pub handle_remove_proposal_action : ℕ → Form → Form
handle_remove_proposal_action index f = record f {
  proposal_transactions = without index f.proposal_transactions;
}

abbrev pub is_empty {ℓ} : {A : Type ℓ} → List A → Bool
is_empty [] = true
is_empty (x ∷ xs) = false

unfoldable pub is_form_invalid : Form → Bool
is_form_invalid f =
    is_empty f.proposal_transactions || is_empty f.title_value || is_empty f.body_value

-- Votes and threshold are none until they are loaded.
unfoldable pub has_enough_vote : Option ℕ → Option ℕ → Bool
has_enough_vote (some votes) (some threshold) = not (votes == 0) && ltb threshold votes
has_enough_vote (some votes) none = false
has_enough_vote none threshold = false

-- The arguments of `propose`.
pub record Proposal : Type 0 where
  pub targets : List Text
  pub values : List Text
  pub signatures : List Text
  pub calldatas : List Text
  pub description : Text

abbrev pub value_or_zero : ProposalTransaction → Text
value_or_zero t = elim t.value [ none ↦ b'0' ∷ [] | some v ↦ v ]

abbrev pub description_of : Form → Text
description_of f = b'#' ∷ 32 ∷ f.title_value ++ newline ∷ newline ∷ f.body_value

abbrev pub proposal_of : Form → Proposal
proposal_of f = record {
  targets = map (λ t. t.address) f.proposal_transactions;
  values = map value_or_zero f.proposal_transactions;
  signatures = map (λ t. t.signature) f.proposal_transactions;
  calldatas = map (λ t. t.calldata) f.proposal_transactions;
  description = description_of f;
}

-- `none`: nothing is proposed.
unfoldable pub handle_create_proposal : Form → Option Proposal
handle_create_proposal f = if is_empty f.proposal_transactions then none else some (proposal_of f)
