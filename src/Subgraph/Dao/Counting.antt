-- ===== src/Subgraph/Dao/Counting.antt =====
-- When `handleVoteCast` returns, and with which quorum.
use composable_nouns_monorep.Common.{
  ℕ, suc, ◌+◌, ◌<◌, ◌^◌, ◌≡◌, refl, ap, ◌∙◌, Option, none, some, eq_refl, arith, ℤ, pos, Bool, true,
  false, subst,
}
use composable_nouns_monorep.Subgraph.Host.{GraphNode, IsLawful}
use composable_nouns_monorep.Subgraph.Schema.{Proposal, Generated, DynamicQuorumParams}
use composable_nouns_monorep.Subgraph.Store.{Store, save_proposal}
use composable_nouns_monorep.Subgraph.Quorum.{◌>>=◌, dynamic_quorum_votes}
use composable_nouns_monorep.Subgraph.Quorum.Bounds.{
  adjusted_bps, quorum_value, dynamic_quorum_votes-eq-quorum_value, dynamic_quorum_votes-no_supply,
}
use composable_nouns_monorep.Subgraph.Dao.{
  VoteCast, tally, update_quorum, activate, record_vote, handle_vote_cast, using_dynamic_quorum,
}
use composable_nouns_monorep.Subgraph.Dao.Votes.{
  proposal_of, votes_for, tally-against, tally-rest, IsTallied-update_quorum, record_vote-proposal,
}

module _ (G : GraphNode) (N : Generated G) (L : IsLawful G) where
  -- What a counted vote leaves stored, with the quorum it has.
  abbrev pub IsCounted : VoteCast G → Store G → ℤ → Type 0
  IsCounted e s quorum =
      (t : Store G) × (q : Proposal G) × (handle_vote_cast G N e s ≡ some t)
      × (G.load t.proposals (proposal_of G N s e.proposal_id).id ≡ some q)
      × (q.quorum_votes ≡ quorum)

  counted :
      (e : VoteCast G) (s : Store G) (q : Proposal G)
      → update_quorum G N
          (record_vote G N e s).1
          (tally G N e.support e.votes (record_vote G N e s).0)
        ≡ some q
      → IsCounted e s q.quorum_votes
  unfolding handle_vote_cast
  counted e s q h =
      let p = (record_vote G N e s).0 in
      let q' = record q { status = activate G N q.status } in
      let t = save_proposal G q' (record_vote G N e s).2 in
      let same : q.id ≡ (proposal_of G N s e.proposal_id).id =
        (IsTallied-update_quorum G N e _ p q h).id
        ∙ ap (λ (x : Proposal G). x.id) (record_vote-proposal G N e s) in
      let done : handle_vote_cast G N e s ≡ some t = rw (h, handle_vote_cast) refl in
      let stored : G.load t.proposals (proposal_of G N s e.proposal_id).id ≡ some q' =
        rw (L.load-save, same, eq_refl (proposal_of G N s e.proposal_id).id) refl in
      (t, q', done, stored, refl)

  abbrev pub counts_dynamically : VoteCast G → Store G → Bool
  counts_dynamically e s =
      using_dynamic_quorum G N (record_vote G N e s).1.dynamic_quorum_start_block
        (proposal_of G N s e.proposal_id).created_block

  tally-quorum :
      (support votes : ℕ) (p : Proposal G)
      → (tally G N support votes p).quorum_votes ≡ p.quorum_votes
  unfolding tally
  tally-quorum support votes p = ground arith

  static-update_quorum :
      (params : DynamicQuorumParams) (p : Proposal G)
      → using_dynamic_quorum G N params.dynamic_quorum_start_block p.created_block ≡ false
      → update_quorum G N params p ≡ some p
  unfolding update_quorum
  static-update_quorum params p h = rw h refl

  dynamic-update_quorum :
      (params : DynamicQuorumParams) (p : Proposal G) (v : Option ℤ)
      → using_dynamic_quorum G N params.dynamic_quorum_start_block p.created_block ≡ true
      → dynamic_quorum_votes G p.against_votes p.total_supply p.min_quorum_votes_bps
          p.max_quorum_votes_bps p.quorum_coefficient
        ≡ v
      → update_quorum G N params p ≡ (v >>= λ q. some (record p { quorum_votes = q }))
  unfolding update_quorum
  dynamic-update_quorum params p v h k = rw (h, k) refl

  -- A vote on a proposal that does not count under the dynamic quorum is always counted, and
  -- leaves the proposal's quorum as it is.
  pub handle_vote_cast-static :
      (e : VoteCast G) (s : Store G)
      → counts_dynamically e s ≡ false
      → IsCounted e s (proposal_of G N s e.proposal_id).quorum_votes
  handle_vote_cast-static e s h =
      let p = (record_vote G N e s).0 in
      let same = record_vote-proposal G N e s in
      let kept =
        (tally-rest G N e.support e.votes p).3 ∙ ap (λ (x : Proposal G). x.created_block) same in
      subst (IsCounted e s)
        (tally-quorum e.support e.votes p ∙ ap (λ (x : Proposal G). x.quorum_votes) same)
        (counted e s _ (static-update_quorum _ (tally G N e.support e.votes p) (rw kept h)))

  abbrev pub against_after : VoteCast G → Store G → ℕ
  against_after e s =
      (proposal_of G N s e.proposal_id).against_votes + votes_for G N 0 e.support e.votes

  -- The computation of the quorum after the vote, in the proposal's own numbers.
  quorum_after :
      (e : VoteCast G) (s : Store G)
      → let p = proposal_of G N s e.proposal_id in
        let q = tally G N e.support e.votes (record_vote G N e s).0 in
        dynamic_quorum_votes G q.against_votes q.total_supply q.min_quorum_votes_bps
          q.max_quorum_votes_bps q.quorum_coefficient
        ≡ dynamic_quorum_votes G
            (against_after e s)
            p.total_supply
            p.min_quorum_votes_bps
            p.max_quorum_votes_bps
            p.quorum_coefficient
  quorum_after e s =
      let p = (record_vote G N e s).0 in
      let rest = tally-rest G N e.support e.votes p in
      rw
        (
          tally-against G N e.support e.votes p,
          rest.2,
          rest.4,
          rest.5,
          rest.6,
          record_vote-proposal G N e s,
        )
        refl

  dynamically :
      (e : VoteCast G) (s : Store G) (v : Option ℤ)
      → counts_dynamically e s ≡ true
      → let p = proposal_of G N s e.proposal_id in
        dynamic_quorum_votes G
            (against_after e s)
            p.total_supply
            p.min_quorum_votes_bps
            p.max_quorum_votes_bps
            p.quorum_coefficient
          ≡ v
        → let q = tally G N e.support e.votes (record_vote G N e s).0 in
          update_quorum G N (record_vote G N e s).1 q
          ≡ (v >>= λ x. some (record q { quorum_votes = x }))
  dynamically e s v h k =
      let p = (record_vote G N e s).0 in
      let kept =
        (tally-rest G N e.support e.votes p).3
        ∙ ap (λ (x : Proposal G). x.created_block) (record_vote-proposal G N e s) in
      dynamic-update_quorum _ (tally G N e.support e.votes p) v (rw kept h) (quorum_after e s ∙ k)

  -- A vote on a proposal under the dynamic quorum, of a supply that is not zero, is counted
  -- while the adjusted share is below 2 ^ 31, and the stored quorum is the formula's value for
  -- the votes against with this vote among them.
  pub handle_vote_cast-dynamic :
      (e : VoteCast G) (s : Store G) (m min_bps max_bps : ℕ)
      → counts_dynamically e s ≡ true
      → (proposal_of G N s e.proposal_id).total_supply ≡ pos (suc m)
      → (proposal_of G N s e.proposal_id).min_quorum_votes_bps ≡ pos min_bps
      → (proposal_of G N s e.proposal_id).max_quorum_votes_bps ≡ pos max_bps
      → adjusted_bps
          (against_after e s)
          (suc m)
          min_bps
          (proposal_of G N s e.proposal_id).quorum_coefficient
        < 2 ^ 31
      → IsCounted e s (
          pos (
            quorum_value
              (against_after e s)
              (suc m)
              min_bps
              max_bps
              (proposal_of G N s e.proposal_id).quorum_coefficient))
  handle_vote_cast-dynamic e s m min_bps max_bps h supply lo hi fits =
      let p = proposal_of G N s e.proposal_id in
      let value = quorum_value (against_after e s) (suc m) min_bps max_bps p.quorum_coefficient in
      let computed : dynamic_quorum_votes G (against_after e s) p.total_supply
            p.min_quorum_votes_bps p.max_quorum_votes_bps p.quorum_coefficient
          ≡ some (pos value) =
        rw (supply, lo, hi)
          (dynamic_quorum_votes-eq-quorum_value G L (against_after e s) m min_bps max_bps _ fits) in
      counted e s _ (dynamically e s _ h computed)

  -- A vote on a proposal under the dynamic quorum whose supply is zero aborts the handler.
  pub handle_vote_cast-no_supply :
      (e : VoteCast G) (s : Store G)
      → counts_dynamically e s ≡ true
      → (proposal_of G N s e.proposal_id).total_supply ≡ pos 0
      → handle_vote_cast G N e s ≡ none
  unfolding handle_vote_cast
  handle_vote_cast-no_supply e s h supply =
      let aborted =
        dynamically e s none h
          (rw supply (dynamic_quorum_votes-no_supply G L (against_after e s) _ _ _)) in
      rw (aborted, handle_vote_cast) refl
