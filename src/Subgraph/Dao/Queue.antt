-- ===== src/Subgraph/Dao/Queue.antt =====
-- The aggregates that the proposals' handlers keep: how many proposals there are, and how many
-- are queued.
use composable_nouns_monorep.Common.{
  ℕ, ◌≡◌, refl, ap, ◌∙◌, none, some, String, eq_refl, ℤ, pos, ◌+ℤ◌, ◌-ℤ◌, int_laws,
}
use composable_nouns_monorep.Subgraph.Host.{GraphNode, IsLawful}
use composable_nouns_monorep.Subgraph.Schema.{
  Proposal, queued, executed, cancelled, Generated, Governance,
}
use composable_nouns_monorep.Subgraph.Store.{
  Store, save_governance, save_proposal, get_governance_entity, get_or_create_proposal,
}
use composable_nouns_monorep.Subgraph.Transfer.Aggregates.{HasGovernanceId, load-save_governance}
use composable_nouns_monorep.Subgraph.Dao.{
  handle_proposal_queued, handle_proposal_executed, handle_proposal_canceled,
}

add_sub : (a b : ℤ) → a +ℤ b -ℤ b ≡ a
add_sub a b = omega int_laws

module _ (G : GraphNode) (N : Generated G) (L : IsLawful G) where
  abbrev pub queue_length : Store G → ℤ
  queue_length s = (get_governance_entity G N s).proposals_queued

  known-get_or_create_proposal :
      (id : String) (s : Store G) (p : Proposal G)
      → G.load s.proposals id ≡ some p
      → get_or_create_proposal G N id s ≡ (p, s)
  unfolding get_or_create_proposal
  known-get_or_create_proposal id s p h = rw (h, get_or_create_proposal) refl

  queued_store :
      (id eta : ℕ) (s : Store G) (p : Proposal G)
      → G.load s.proposals (G.to_string (pos id)) ≡ some p
      → let g = get_governance_entity G N s in
        handle_proposal_queued G N id eta s
        ≡ save_governance G
            (record g { proposals_queued = g.proposals_queued +ℤ pos 1 })
            (save_proposal G (record p { status = queued; execution_eta = some eta }) s)
  unfolding handle_proposal_queued
  queued_store id eta s p h = rw (known-get_or_create_proposal _ s p h, handle_proposal_queued) refl

  executed_store :
      (id : ℕ) (s : Store G) (p : Proposal G)
      → G.load s.proposals (G.to_string (pos id)) ≡ some p
      → let g = get_governance_entity G N s in
        handle_proposal_executed G N id s
        ≡ save_governance G
            (record g { proposals_queued = g.proposals_queued -ℤ pos 1 })
            (save_proposal G (record p { status = executed; execution_eta = none }) s)
  unfolding handle_proposal_executed
  executed_store id s p h = rw (known-get_or_create_proposal _ s p h, handle_proposal_executed) refl

  -- The proposal that stands under a number's text, with that text for its id.
  abbrev pub IsStored : ℕ → Proposal G → Store G → Type 0
  IsStored id p s =
      (G.load s.proposals (G.to_string (pos id)) ≡ some p) × (p.id ≡ G.to_string (pos id))

  IsStored-save_proposal :
      (id : ℕ) (p : Proposal G) (s : Store G)
      → p.id ≡ G.to_string (pos id)
      → IsStored id p (save_proposal G p s)
  IsStored-save_proposal id p s h = (rw (L.load-save, h, eq_refl (G.to_string (pos id))) refl, h)

  queued_lem :
      (id eta : ℕ) (s : Store G) (p : Proposal G)
      → IsStored id p s
      → HasGovernanceId G N s
      → let s' = handle_proposal_queued G N id eta s in
        (queue_length s' ≡ queue_length s +ℤ pos 1)
        × HasGovernanceId G N s'
        × IsStored id (record p { status = queued; execution_eta = some eta }) s'
  queued_lem id eta s p stored hg =
      let g = get_governance_entity G N s in
      let p' = record p { status = queued; execution_eta = some eta } in
      let s1 = save_proposal G p' s in
      let saved =
        load-save_governance G N L (record g { proposals_queued = g.proposals_queued +ℤ pos 1 }) s1
          hg in
      rw (queued_store id eta s p stored.0) (
        ap (λ (x : Governance). x.proposals_queued) saved,
        ap (λ (x : Governance). x.id) saved ∙ hg,
        IsStored-save_proposal id p' s stored.1,
      )

  executed_lem :
      (id : ℕ) (s : Store G) (p : Proposal G)
      → IsStored id p s
      → HasGovernanceId G N s
      → let s' = handle_proposal_executed G N id s in
        (queue_length s' ≡ queue_length s -ℤ pos 1)
        × IsStored id (record p { status = executed; execution_eta = none }) s'
  executed_lem id s p stored hg =
      let g = get_governance_entity G N s in
      let p' = record p { status = executed; execution_eta = none } in
      let s1 = save_proposal G p' s in
      let saved =
        load-save_governance G N L (record g { proposals_queued = g.proposals_queued -ℤ pos 1 }) s1
          hg in
      rw (executed_store id s p stored.0)
        (ap (λ (x : Governance). x.proposals_queued) saved, IsStored-save_proposal id p' s stored.1)

  -- Where the aggregates are stored under their id, queueing a stored proposal and then executing
  -- it leaves the number of queued proposals as it was, and the proposal executed with no time of
  -- execution.
  pub handle_proposal_executed-handle_proposal_queued :
      (id eta : ℕ) (s : Store G) (p : Proposal G)
      → IsStored id p s
      → HasGovernanceId G N s
      → let s' = handle_proposal_executed G N id (handle_proposal_queued G N id eta s) in
        (queue_length s' ≡ queue_length s)
        × IsStored id (record p { status = executed; execution_eta = none }) s'
  handle_proposal_executed-handle_proposal_queued id eta s p stored hg =
      let (longer, hg', stored') = queued_lem id eta s p stored hg in
      let (shorter, done) = executed_lem id _ _ stored' hg' in
      (shorter ∙ ap (λ x. x -ℤ pos 1) longer ∙ add_sub (queue_length s) (pos 1), done)

  canceled_store :
      (id : ℕ) (s : Store G) (p : Proposal G)
      → G.load s.proposals (G.to_string (pos id)) ≡ some p
      → handle_proposal_canceled G N id s ≡ save_proposal G (record p { status = cancelled }) s
  unfolding handle_proposal_canceled
  canceled_store id s p h = rw (known-get_or_create_proposal _ s p h, handle_proposal_canceled) refl

  saved_proposal-governance :
      (p : Proposal G) (s : Store G)
      → get_governance_entity G N (save_proposal G p s) ≡ get_governance_entity G N s
  unfolding get_governance_entity
  saved_proposal-governance p s = refl

  -- Where the aggregates are stored under their id, a stored proposal that is queued and then
  -- cancelled stays in the number of queued proposals, and keeps its time of execution.
  pub handle_proposal_canceled-handle_proposal_queued :
      (id eta : ℕ) (s : Store G) (p : Proposal G)
      → IsStored id p s
      → HasGovernanceId G N s
      → let s' = handle_proposal_canceled G N id (handle_proposal_queued G N id eta s) in
        (queue_length s' ≡ queue_length s +ℤ pos 1)
        × IsStored id (record p { status = cancelled; execution_eta = some eta }) s'
  handle_proposal_canceled-handle_proposal_queued id eta s p stored hg =
      let (longer, _, stored') = queued_lem id eta s p stored hg in
      let p' = record p { status = cancelled; execution_eta = some eta } in
      let kept = saved_proposal-governance p' (handle_proposal_queued G N id eta s) in
      rw (canceled_store id (handle_proposal_queued G N id eta s) _ stored'.0) (
        ap (λ (x : Governance). x.proposals_queued) kept ∙ longer,
        IsStored-save_proposal id p' (handle_proposal_queued G N id eta s) stored.1,
      )
