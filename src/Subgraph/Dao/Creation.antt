-- ===== src/Subgraph/Dao/Creation.antt =====
-- What `handleProposalCreated` stores.
use composable_nouns_monorep.Common.{
  ℕ, ◌≡◌, refl, ap, ◌∙◌, Option, none, some, String, str_eq, eq_refl, arith, ℤ, pos, leb, ◌+ℤ◌,
  if◌then◌else◌, inl, inr, Bool-cases, true, false,
}
use composable_nouns_monorep.Subgraph.Host.{GraphNode, IsLawful}
use composable_nouns_monorep.Subgraph.Schema.{
  Proposal, pending, active, Generated, Governance, Delegate,
}
use composable_nouns_monorep.Subgraph.Store.{
  Store, zero_address, save_proposal, get_governance_entity, get_or_create_proposal,
  get_or_create_delegate, get_or_create_delegate_with_null_option,
  get_or_create_dynamic_quorum_params, count_delegate,
}
use composable_nouns_monorep.Subgraph.Events.{Origin}
use composable_nouns_monorep.Subgraph.Transfer.Aggregates.{HasGovernanceId, load-save_governance}
use composable_nouns_monorep.Subgraph.Dao.{
  ProposalCreated, handle_proposal_created, log_unknown_delegate, unescape_newlines,
}

module _ (G : GraphNode) (N : Generated G) (L : IsLawful G) where
  abbrev pub proposals : Store G → ℤ
  proposals s = (get_governance_entity G N s).proposals

  count_delegate-proposals :
      (d : String) (s : Store G)
      → HasGovernanceId G N s
      → proposals (count_delegate G N d s) ≡ proposals s
  unfolding count_delegate
  count_delegate-proposals d s h =
      let g = get_governance_entity G N s in
      let saved =
        load-save_governance G N L (record g { total_delegates = g.total_delegates +ℤ pos 1 }) s
          h in
      elim (Bool-cases (str_eq d zero_address)) [
        | inl t ↦ rw t refl
        | inr f ↦ rw f (ap (λ (x : Governance). x.proposals) saved)
      ]

  delegate-proposals :
      (d : String) (s : Store G)
      → HasGovernanceId G N s
      → proposals (get_or_create_delegate G N d s).1 ≡ proposals s
  unfolding get_or_create_delegate get_or_create_delegate_with_null_option get_governance_entity
  delegate-proposals d s h = ground (arith, count_delegate-proposals d s h)

  params-governance :
      (b : Option ℕ) (s : Store G)
      → get_governance_entity G N (get_or_create_dynamic_quorum_params G N b s).1
        ≡ get_governance_entity G N s
  unfolding get_or_create_dynamic_quorum_params get_governance_entity
  params-governance b s = ground arith

  logged-governance :
      (f : String) (d : Option Delegate) (b : G.Bytes) (r : Origin G) (s : Store G)
      → get_governance_entity G N (log_unknown_delegate G N f d b r s) ≡ get_governance_entity G N s
  unfolding get_governance_entity
  logged-governance f none b r s = refl
  logged-governance f (some d) b r s = refl

  new_proposal-proposals :
      (id : String) (s : Store G)
      → HasGovernanceId G N s
      → G.load s.proposals id ≡ none
      → (proposals (get_or_create_proposal G N id s).1 ≡ proposals s +ℤ pos 1)
        × HasGovernanceId G N (get_or_create_proposal G N id s).1
        × ((get_or_create_proposal G N id s).0.id ≡ id)
  unfolding get_or_create_proposal
  new_proposal-proposals id s h k =
      let g = get_governance_entity G N s in
      let saved = load-save_governance G N L (record g { proposals = g.proposals +ℤ pos 1 }) s h in
      rw (k, get_or_create_proposal)
        (ap (λ (x : Governance). x.proposals) saved, ap (λ (x : Governance). x.id) saved ∙ h, refl)

  saved_proposal-proposals :
      (p : Proposal G) (s : Store G) → proposals (save_proposal G p s) ≡ proposals s
  unfolding get_governance_entity
  saved_proposal-proposals p s = refl

  -- What the event says of a stored proposal.
  pub record IsAsProposed (e : ProposalCreated G) (p : Proposal G) : Type 0 where
    pub targets : p.targets ≡ e.targets
    pub values : p.values ≡ e.values
    pub signatures : p.signatures ≡ e.signatures
    pub calldatas : p.calldatas ≡ e.calldatas
    pub voting : (p.start_block ≡ e.start_block) × (p.end_block ≡ e.end_block)
    pub thresholds :
        (p.proposal_threshold ≡ e.proposal_threshold) × (p.quorum_votes ≡ pos e.quorum_votes)
    pub created :
        (p.created_block ≡ e.origin.block_number)
        × (p.created_timestamp ≡ e.origin.block_timestamp)
        × (p.created_transaction_hash ≡ e.origin.transaction_hash)
    pub no_votes : (p.for_votes ≡ 0) × (p.against_votes ≡ 0) × (p.abstain_votes ≡ 0)
    pub description : p.description ≡ unescape_newlines e.description
    pub status : p.status ≡ (if leb e.start_block e.origin.block_number then active else pending)

  stored_as :
      (key : String) (p : Proposal G) (s : Store G)
      → p.id ≡ key
      → (P : Proposal G → Type 0) → P p
      → (q : Proposal G) × (G.load (save_proposal G p s).proposals key ≡ some q) × P q
  stored_as key p s h P k = (p, rw (L.load-save, h, eq_refl key) refl, k)

  -- Where the aggregates are stored under their id, a proposal that is not stored yet raises the
  -- number of proposals by one and is stored under its number: with the event's calls (targets,
  -- values, signatures and calldatas), blocks, thresholds, origin and description, without votes, and
  -- active when its start has come, else pending.
  pub handle_proposal_created_lem :
      (e : ProposalCreated G) (s : Store G)
      → HasGovernanceId G N s
      → G.load s.proposals (G.to_string (pos e.id)) ≡ none
      → let s' = handle_proposal_created G N e s in
        (proposals s' ≡ proposals s +ℤ pos 1)
        × (p : Proposal G) × (G.load s'.proposals (G.to_string (pos e.id)) ≡ some p)
        × IsAsProposed e p
  unfolding handle_proposal_created
  handle_proposal_created_lem e s h k =
      let key = G.to_string (pos e.id) in
      let (p, s1) = get_or_create_proposal G N key s in
      let (counted, hg1, p_id) = new_proposal-proposals key s h k in
      let found =
        (get_or_create_delegate_with_null_option G N (G.to_hex e.proposer) false true s1).0 in
      let format : String = "Delegate {} not found on ProposalCreated. tx_hash: {}" in
      let s2 = log_unknown_delegate G N format found e.proposer e.origin s1 in
      let logged = logged-governance format found e.proposer e.origin s1 in
      let hg2 : HasGovernanceId G N s2 = ap (λ (x : Governance). x.id) logged ∙ hg1 in
      let s3 = (get_or_create_delegate G N (G.to_hex e.proposer) s2).1 in
      let s4 = (get_or_create_dynamic_quorum_params G N none s3).1 in
      let kept : proposals s4 ≡ proposals s1 =
        ap (λ (x : Governance). x.proposals) (params-governance none s3)
        ∙ delegate-proposals (G.to_hex e.proposer) s2 hg2
        ∙ ap (λ (x : Governance). x.proposals) logged in
      let (q, stored, proposed) = stored_as key _ s4 p_id (IsAsProposed e) (record {
        targets = refl;
        values = refl;
        signatures = refl;
        calldatas = refl;
        voting = (refl, refl);
        thresholds = (refl, refl);
        created = (refl, refl, refl);
        no_votes = (refl, refl, refl);
        description = refl;
        status = refl;
      }) in
      (saved_proposal-proposals _ s4 ∙ kept ∙ counted, q, stored, proposed)
