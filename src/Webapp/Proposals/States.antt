-- ===== src/Webapp/Proposals/States.antt =====
-- The state of a proposal against the one that the contract gives.
use composable_nouns_monorep.Common.{
  ℕ, ◌+◌, ◌≤◌, ◌<◌, ◌≡◌, refl, Bool, true, false, ◌||◌, Option, none, some, ◌==◌, ltb, leb,
  if◌then◌else◌, arith, Bool-cases, Option-cases, ◌⊎◌, inl, inr,
}
use composable_nouns_monorep.Subgraph.Schema.{
  ProposalStatus, pending as status_pending, active as status_active, cancelled as status_cancelled,
  vetoed as status_vetoed, queued as status_queued, executed as status_executed,
}
use composable_nouns_monorep.Webapp.Proposals.{
  ProposalState, pending, active, cancelled, defeated, succeeded, queued, expired, executed, vetoed,
  ProposalSubgraphEntity, get_proposal_state, grace_period,
}

-- packages/nouns-contracts/contracts/governance/NounsDAOLogicV1.sol: what the contract keeps of a
-- proposal. An eta of 0 is none.
pub record ChainProposal : Type 0 where
  pub start_block : ℕ
  pub end_block : ℕ
  pub for_votes : ℕ
  pub against_votes : ℕ
  pub quorum_votes : ℕ
  pub eta : Option ℕ
  pub canceled : Bool
  pub vetoed_flag : Bool
  pub executed_flag : Bool

-- `state`, at a block and its time.
unfoldable pub state : ℕ → ℕ → ChainProposal → ProposalState
state block time p =
    if p.vetoed_flag
    then vetoed
    else if p.canceled
    then cancelled
    else if leb block p.start_block
    then pending
    else if leb block p.end_block
    then active
    else if leb p.for_votes p.against_votes || ltb p.for_votes p.quorum_votes
    then defeated
    else elim p.eta [
      | none ↦ succeeded
      | some eta ↦
          if p.executed_flag
          then executed
          else if leb (eta + grace_period) time
          then expired
          else queued
    ]

-- The status of an entity, from the events of a proposal: `has_votes` once a vote was cast, and
-- `canceled_last` if it was cancelled after it was vetoed, which the contract allows.
abbrev pub status_of : Bool → Bool → ChainProposal → ProposalStatus
status_of has_votes canceled_last p =
    if canceled_last
    then status_cancelled
    else if p.vetoed_flag
    then status_vetoed
    else if p.canceled
    then status_cancelled
    else if p.executed_flag
    then status_executed
    else elim p.eta [
      | some eta ↦ status_queued
      | none ↦ if has_votes then status_active else status_pending
    ]

-- An entity of the subgraph that is up to date at a block, and what the contract's guards give: votes
-- are cast after the start, and only a proposal that succeeded is queued or executed. An execution removes the
-- entity's time of execution.
pub record Reflects (block : ℕ) (has_votes canceled_last : Bool) (p : ChainProposal)
    (e : ProposalSubgraphEntity) : Type 0 where
  pub status : e.status ≡ status_of has_votes canceled_last p
  pub start : e.start_block ≡ p.start_block
  pub end : e.end_block ≡ p.end_block
  pub for : e.for_votes ≡ p.for_votes
  pub against : e.against_votes ≡ p.against_votes
  pub quorum : e.quorum_votes ≡ p.quorum_votes
  pub eta : e.execution_eta ≡ (if p.executed_flag then none else p.eta)
  pub mined : (block == 0) ≡ false
  pub ordered : p.start_block ≤ p.end_block
  pub voted : has_votes ≡ true → p.start_block < block
  pub succeeded :
      (t : ℕ)
      → p.eta ≡ some t
      → (p.end_block < block) × (p.against_votes < p.for_votes) × (p.quorum_votes ≤ p.for_votes)
  pub canceled_vetoed : canceled_last ≡ true → (p.vetoed_flag ≡ true) × (p.canceled ≡ true)
  pub executed_queued : p.executed_flag ≡ true → (t : ℕ) × (p.eta ≡ some t)

-- Where the entity is up to date with the contract, and a vote was cast or the voting has not ended,
-- the application's state of a proposal is the contract's, but for a proposal that was cancelled after
-- it was vetoed: the application shows it as cancelled, and to the contract it is vetoed.
pub get_proposal_state-state :
    (block time : ℕ) (has_votes canceled_last : Bool) (p : ChainProposal)
    (e : ProposalSubgraphEntity)
    → Reflects block has_votes canceled_last p e
    → (has_votes ≡ true) ⊎ (block ≤ p.end_block)
    → ((canceled_last ≡ false)
        × (get_proposal_state (some block) (some time) e ≡ state block time p))
      ⊎ ((canceled_last ≡ true)
          × (get_proposal_state (some block) (some time) e ≡ cancelled)
          × (state block time p ≡ vetoed))
unfolding get_proposal_state state
get_proposal_state-state block time v true p e R h =
    inr (refl, rw R.status refl, rw (R.canceled_vetoed refl).0 refl)
get_proposal_state-state block time v false p e R h = inl (
  refl,
  rw (R.status, R.start, R.end, R.for, R.against, R.quorum, R.eta)
      (elim (Bool-cases p.vetoed_flag) [
        | inl f ↦ rw f refl
        | inr f ↦ elim (Bool-cases p.canceled) [
          | inl c ↦ rw (f, c) refl
          | inr c ↦ elim (Bool-cases p.executed_flag) [
            | inl x ↦
                let (t, y) = R.executed_queued x in
                let z = R.succeeded t y in
                let after_start : leb block p.start_block ≡ false = ground (arith, z, R.ordered) in
                let after_end : leb block p.end_block ≡ false = ground (arith, z) in
                let more_for : leb p.for_votes p.against_votes ≡ false = ground (arith, z) in
                let enough : ltb p.for_votes p.quorum_votes ≡ false = ground (arith, z) in
                rw (f, c, x, y, after_start, after_end, more_for, enough, x) refl
            | inr x ↦ elim (Option-cases p.eta) [
              | inr (t, y) ↦
                  let z = R.succeeded t y in
                  let after_start : leb block p.start_block ≡ false =
                    ground (arith, z, R.ordered) in
                  let after_end : leb block p.end_block ≡ false = ground (arith, z) in
                  let more_for : leb p.for_votes p.against_votes ≡ false = ground (arith, z) in
                  let enough : ltb p.for_votes p.quorum_votes ≡ false = ground (arith, z) in
                  rw (f, c, x, y, after_start, after_end, more_for, enough, x) refl
              | inl y ↦ elim (Bool-cases v) [
                | inl w ↦
                    let started = R.voted w in
                    let after_start : leb block p.start_block ≡ false = ground (arith, started) in
                    rw (f, c, x, y, w, R.mined, after_start) (ground arith)
                | inr w ↦ rw (f, c, x, y, w, R.mined) (ground (arith, h, w))
              ]
            ]
          ]
        ]
      ]),
)

-- A proposal whose voting ended without a vote is defeated, and the application shows it as active.
pub get_proposal_state-no_votes :
    (block time : ℕ) (p : ChainProposal) (e : ProposalSubgraphEntity)
    → Reflects block false false p e
    → p.vetoed_flag ≡ false
    → p.canceled ≡ false
    → p.for_votes ≡ 0
    → p.end_block < block
    → (get_proposal_state (some block) (some time) e ≡ active) × (state block time p ≡ defeated)
unfolding get_proposal_state state
get_proposal_state-no_votes block time p e R f c n l = elim (Option-cases p.eta) [
  | inr (t, y) ↦ let z = R.succeeded t y in absurd (omega (arith, z.1, n))
  | inl y ↦ elim (Bool-cases p.executed_flag) [
    | inl x ↦
        let (t, q) = R.executed_queued x in
        let z = R.succeeded t q in absurd (omega (arith, z.1, n))
    | inr x ↦
        let after_start : leb block p.start_block ≡ false = ground (arith, l, R.ordered) in
        let after_end : leb block p.end_block ≡ false = ground (arith, l) in
        let beaten : leb p.for_votes p.against_votes ≡ true = ground (arith, n) in
        (
          rw (R.status, f, c, x, y, R.mined, R.start, after_start) refl,
          rw (f, c, after_start, after_end, beaten) refl,
        )
  ]
]
