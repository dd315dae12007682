-- ===== src/Webapp/CreateProposal/Proposed.antt =====
-- pages/CreateProposal/index.tsx: what a form that is filled in proposes, and how it is shown.
use composable_nouns_monorep.Common.{
  ℕ, zero, suc, ◌≡◌, ◌⊎◌, Option-cases, none, some, refl, true, false, some, List, [], ◌∷◌, ◌++◌,
  map, Bool-cases, inl, inr,
}
use composable_nouns_monorep.Sdk.Hex.{Text}
use composable_nouns_monorep.Webapp.Proposals.Titles.{
  is_space, title_of, description_of as read_description,
}
use composable_nouns_monorep.Webapp.Proposals.Titles.Headings.{IsLine}
use composable_nouns_monorep.Webapp.Proposals.Details.{Lacks}
use composable_nouns_monorep.Webapp.Proposals.Titles.Shown.{
  Mark, marked, IsUnmarked, title_of-description_of,
}
use composable_nouns_monorep.Webapp.CreateProposal.{
  ProposalTransaction, Form, initial_form, Proposal, starts_with_0x, with_0x,
  handle_add_proposal_action, without, handle_remove_proposal_action, is_empty, is_form_invalid,
  value_or_zero, proposal_of, handle_create_proposal,
}

-- What the user does.
pub data FormEvent : Type 0 where
  add : ProposalTransaction → FormEvent
  remove : ℕ → FormEvent
  title : Text → FormEvent
  body : Text → FormEvent

abbrev pub edit : FormEvent → Form → Form
edit (add t) f = handle_add_proposal_action t f
edit (remove i) f = handle_remove_proposal_action i f
edit (title t) f = record f { title_value = t }
edit (body t) f = record f { body_value = t }

abbrev pub edit_all : List FormEvent → Form → Form
edit_all [] f = f
edit_all (e ∷ events) f = edit_all events (edit e f)

abbrev pub AreHex : List ProposalTransaction → Type 0
AreHex [] = Unit
AreHex (t ∷ ts) = (starts_with_0x t.address ≡ true) × (starts_with_0x t.calldata ≡ true) × AreHex ts

with_0x-starts : (t : Text) → starts_with_0x (with_0x t) ≡ true
with_0x-starts t = elim (Bool-cases (starts_with_0x t)) [
  | inl e ↦ rw (with_0x, e) e
  | inr e ↦ rw (with_0x, e) refl
]

AreHex-append :
    (ts : List ProposalTransaction) (t : ProposalTransaction)
    → AreHex ts
    → starts_with_0x t.address ≡ true
    → starts_with_0x t.calldata ≡ true
    → AreHex (ts ++ (t ∷ []))
AreHex-append [] t h a c = (a, c, tt)
AreHex-append (u ∷ ts) t h a c = (h.0, h.1, AreHex-append ts t h.2 a c)

AreHex-without : (i : ℕ) (ts : List ProposalTransaction) → AreHex ts → AreHex (without i ts)
AreHex-without i [] h = tt
AreHex-without zero (t ∷ ts) h = h.2
AreHex-without (suc i) (t ∷ ts) h = (h.0, h.1, AreHex-without i ts h.2)

AreHex-edit :
    (e : FormEvent) (f : Form)
    → AreHex f.proposal_transactions
    → AreHex (edit e f).proposal_transactions
unfolding handle_add_proposal_action handle_remove_proposal_action
AreHex-edit (add t) f h =
    AreHex-append f.proposal_transactions
      (record t { address = with_0x t.address; calldata = with_0x t.calldata }) h
      (with_0x-starts t.address) (with_0x-starts t.calldata)
AreHex-edit (remove i) f h = AreHex-without i f.proposal_transactions h
AreHex-edit (title t) f h = h
AreHex-edit (body t) f h = h

AreHex-edit_all :
    (events : List FormEvent) (f : Form)
    → AreHex f.proposal_transactions
    → AreHex (edit_all events f).proposal_transactions
AreHex-edit_all [] f h = h
AreHex-edit_all (e ∷ events) f h = AreHex-edit_all events (edit e f) (AreHex-edit e f h)

-- The four lists have a call for each transaction, in order: its address, its value or 0, its
-- signature and its calldata, the address and the calldata with 0x.
abbrev pub Calls : List ProposalTransaction → List Text → List Text → List Text → List Text → Type 0
Calls [] [] [] [] [] = Unit
Calls (t ∷ ts) (a ∷ targets) (v ∷ values) (s ∷ signatures) (c ∷ calldatas) =
    (a ≡ t.address)
    × ((t.value ≡ some v) ⊎ ((t.value ≡ none) × (v ≡ b'0' ∷ [])))
    × (s ≡ t.signature)
    × (c ≡ t.calldata)
    × (starts_with_0x a ≡ true)
    × (starts_with_0x c ≡ true)
    × Calls ts targets values signatures calldatas
Calls ts targets values signatures calldatas = ⊥

value_or_zero_lem :
    (t : ProposalTransaction)
    → (t.value ≡ some (value_or_zero t)) ⊎ ((t.value ≡ none) × (value_or_zero t ≡ b'0' ∷ []))
value_or_zero_lem t = elim (Option-cases t.value) [
  | inl e ↦ inr (e, rw (value_or_zero, e) refl)
  | inr (v, e) ↦ inl (rw (value_or_zero, e) refl)
]

Calls-map :
    (ts : List ProposalTransaction)
    → AreHex ts
    → Calls ts
        (map (λ t. t.address) ts)
        (map value_or_zero ts)
        (map (λ t. t.signature) ts)
        (map (λ t. t.calldata) ts)
Calls-map [] h = tt
Calls-map (t ∷ ts) h = (refl, value_or_zero_lem t, refl, refl, h.0, h.1, Calls-map ts h.2)

created : (f : Form) → is_form_invalid f ≡ false → handle_create_proposal f ≡ some (proposal_of f)
unfolding is_form_invalid handle_create_proposal
created f = elim (Bool-cases (is_empty f.proposal_transactions)) [
  | inl e ↦ rw e (λ h. absurd (cc))
  | inr e ↦ rw e (λ h. refl)
]

-- However a form has been filled in, if it is not invalid it proposes for each of its transactions
-- its call, the target and the calldata with 0x. If the title is one line without a backslash that
-- does not begin with a space, the application, which reads the title from the description, shows it
-- without the pairs of * or of _ around its middle part, where the parts have neither character.
pub handle_create_proposal_lem :
    (events : List FormEvent) (c : ℕ) (m : Mark) (pre mid post t : Text)
    → is_form_invalid (edit_all events initial_form) ≡ false
    → (edit_all events initial_form).title_value ≡ c ∷ t
    → marked m pre mid post ≡ c ∷ t
    → is_space c ≡ false
    → IsLine (c ∷ t)
    → Lacks 92 (c ∷ t)
    → IsUnmarked pre mid post
    → let f = edit_all events initial_form in
      (p : Proposal) × (handle_create_proposal f ≡ some p)
      × Calls f.proposal_transactions p.targets p.values p.signatures p.calldatas
      × (title_of (read_description (some p.description)) ≡ pre ++ (mid ++ post))
handle_create_proposal_lem events c m pre mid post t v e k s l b u =
    let f = edit_all events initial_form in
    (
      proposal_of f,
      created f v,
      Calls-map f.proposal_transactions (AreHex-edit_all events initial_form tt),
      rw e (title_of-description_of c m pre mid post t f.body_value k s l b u),
    )
