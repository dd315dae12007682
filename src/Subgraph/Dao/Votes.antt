-- ===== src/Subgraph/Dao/Votes.antt =====
-- What `handleVoteCast` does to the proposal.
use composable_nouns_monorep.Common.{
  some_path, ℕ, ◌+◌, ◌≡◌, ◌≢◌, ◌⊎◌, sym, refl, ◌∙◌, some, eq_refl, arith, pos, ◌==◌, if◌then◌else◌,
  inl, inr, Bool-cases, subst,
}
use composable_nouns_monorep.Subgraph.Host.{GraphNode, IsLawful}
use composable_nouns_monorep.Subgraph.Schema.{
  Proposal, Generated, DynamicQuorumParams, ProposalStatus, pending, active, cancelled, vetoed,
  queued, executed,
}
use composable_nouns_monorep.Subgraph.Store.{Store, get_or_create_proposal}
use composable_nouns_monorep.Subgraph.Quorum.{>>=-some}
use composable_nouns_monorep.Subgraph.Dao.{
  VoteCast, tally, update_quorum, activate, record_vote, handle_vote_cast, using_dynamic_quorum,
}

module _ (G : GraphNode) (N : Generated G) where
  -- The proposal of a number, as `getOrCreateProposal` gives it.
  abbrev pub proposal_of : Store G → ℕ → Proposal G
  proposal_of s id = (get_or_create_proposal G N (G.to_string (pos id)) s).0

  -- What the votes of one kind grow by.
  abbrev pub votes_for : ℕ → ℕ → ℕ → ℕ
  votes_for kind support votes = if support == kind then votes else 0

  -- A pending proposal is active afterwards; another status stays.
  abbrev pub IsActivated : ProposalStatus → ProposalStatus → Type 0
  IsActivated s t = ((s ≡ pending) × (t ≡ active)) ⊎ ((s ≢ pending) × (t ≡ s))

  -- A proposal's new tallies, the rest of what a vote leaves alone, and its activation.
  pub record IsTallied (p q : Proposal G) (e : VoteCast G) : Type 0 where
    pub id : q.id ≡ p.id
    pub against_votes : q.against_votes ≡ p.against_votes + votes_for 0 e.support e.votes
    pub for_votes : q.for_votes ≡ p.for_votes + votes_for 1 e.support e.votes
    pub abstain_votes : q.abstain_votes ≡ p.abstain_votes + votes_for 2 e.support e.votes
    pub status : IsActivated p.status q.status
    pub total_supply : q.total_supply ≡ p.total_supply

  pub tally-against :
      (support votes : ℕ) (p : Proposal G)
      → (tally G N support votes p).against_votes ≡ p.against_votes + votes_for 0 support votes
  unfolding tally
  tally-against support votes p = ground arith

  tally-for :
      (support votes : ℕ) (p : Proposal G)
      → (tally G N support votes p).for_votes ≡ p.for_votes + votes_for 1 support votes
  unfolding tally
  tally-for support votes p = ground arith

  tally-abstain :
      (support votes : ℕ) (p : Proposal G)
      → (tally G N support votes p).abstain_votes ≡ p.abstain_votes + votes_for 2 support votes
  unfolding tally
  tally-abstain support votes p = ground arith

  -- What a tally leaves alone.
  abbrev pub SameRest : Proposal G → Proposal G → Type 0
  SameRest p q =
      (q.id ≡ p.id)
      × (q.status ≡ p.status)
      × (q.total_supply ≡ p.total_supply)
      × (q.created_block ≡ p.created_block)
      × (q.min_quorum_votes_bps ≡ p.min_quorum_votes_bps)
      × (q.max_quorum_votes_bps ≡ p.max_quorum_votes_bps)
      × (q.quorum_coefficient ≡ p.quorum_coefficient)

  pub tally-rest : (support votes : ℕ) (p : Proposal G) → SameRest p (tally G N support votes p)
  unfolding tally
  tally-rest support votes p = ground arith

  -- The quorum alone is set after the tally.
  abbrev Requoted : Proposal G → Proposal G → Type 0
  Requoted p q =
      SameRest p q
      × (q.against_votes ≡ p.against_votes)
      × (q.for_votes ≡ p.for_votes)
      × (q.abstain_votes ≡ p.abstain_votes)

  Requoted-update_quorum :
      (params : DynamicQuorumParams) (p q : Proposal G)
      → update_quorum G N params p ≡ some q
      → Requoted p q
  unfolding update_quorum
  Requoted-update_quorum params p q h =
      elim (Bool-cases
        (using_dynamic_quorum G N params.dynamic_quorum_start_block p.created_block)) [
          | inl t ↦
              let (v, _, q_eq) = >>=-some _ _ (rw t at h) in
              rw q_eq ((refl, refl, refl, refl, refl, refl, refl), refl, refl, refl)
          | inr f ↦
              let same : p ≡ q = some_path (rw f at h) in
              subst (Requoted p) same ((refl, refl, refl, refl, refl, refl, refl), refl, refl, refl)
        ]

  IsActivated-activate : (s : ProposalStatus) → IsActivated s (activate G N s)
  IsActivated-activate pending = inl (refl, refl)
  IsActivated-activate active = inr ((λ h. cc), refl)
  IsActivated-activate cancelled = inr ((λ h. cc), refl)
  IsActivated-activate vetoed = inr ((λ h. cc), refl)
  IsActivated-activate queued = inr ((λ h. cc), refl)
  IsActivated-activate executed = inr ((λ h. cc), refl)

  pub IsTallied-update_quorum :
      (e : VoteCast G) (params : DynamicQuorumParams) (p q : Proposal G)
      → update_quorum G N params (tally G N e.support e.votes p) ≡ some q
      → IsTallied p (record q { status = activate G N q.status }) e
  IsTallied-update_quorum e params p q h =
      let r = Requoted-update_quorum params _ q h in
      let same = tally-rest e.support e.votes p in
      record {
        id = r.0.0 ∙ same.0;
        against_votes = r.1 ∙ tally-against e.support e.votes p;
        for_votes = r.2 ∙ tally-for e.support e.votes p;
        abstain_votes = r.3 ∙ tally-abstain e.support e.votes p;
        status =
            subst (λ s. IsActivated p.status (activate G N s)) (sym (r.0.1 ∙ same.1))
              (IsActivated-activate p.status);
        total_supply = r.0.2 ∙ same.2;
      }

  pub record_vote-proposal :
      (e : VoteCast G) (s : Store G) → (record_vote G N e s).0 ≡ proposal_of s e.proposal_id
  unfolding record_vote
  record_vote-proposal e s = refl

  module _ (L : IsLawful G) where
    -- A vote whose handler does not abort leaves the proposal stored under its id, with the votes
    -- added to the tally of their kind alone, the supply as it was, and a pending proposal active; any other status stays.
    pub handle_vote_cast-IsTallied :
        (e : VoteCast G) (s t : Store G)
        → handle_vote_cast G N e s ≡ some t
        → let p = proposal_of s e.proposal_id in
          (q : Proposal G) × (G.load t.proposals p.id ≡ some q) × IsTallied p q e
    unfolding handle_vote_cast
    handle_vote_cast-IsTallied e s t h =
        let p = (record_vote G N e s).0 in
        let (q, updated, t_eq) = >>=-some (update_quorum G N _ _) _ h in
        let tallied = IsTallied-update_quorum e _ p q updated in
        let q' = record q { status = activate G N q.status } in
        let stored : G.load t.proposals p.id ≡ some q' =
          rw (t_eq, L.load-save, tallied.id, eq_refl p.id) refl in
        subst (λ p. (q : Proposal G) × (G.load t.proposals p.id ≡ some q) × IsTallied p q e)
          (record_vote-proposal e s) (q', stored, tallied)
