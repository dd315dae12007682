-- ===== src/Subgraph/Token/Votes.antt =====
-- What `handleDelegateVotesChanged` does to the votes of the delegates and to their totals.
use composable_nouns_monorep.Common.{
  ℕ, ◌+◌, ◌*◌, ◌<◌, ◌≡◌, ◌∙◌, ap, some, String, str_eq, eq_refl, arith, inl, inr, Bool-cases, List,
  if◌then◌else◌, count, sum_of, sum_of-update, ltb, ◌+ℤ◌, ◌-ℤ◌, ℤ, pos, pos_part, neg_part,
  int_laws,
}
use composable_nouns_monorep.Subgraph.Host.{GraphNode, IsLawful}
use composable_nouns_monorep.Subgraph.Schema.{Delegate, Governance, Generated}
use composable_nouns_monorep.Subgraph.Store.{Store, get_governance_entity}
use composable_nouns_monorep.Subgraph.Events.{DelegateVotesChanged}
use composable_nouns_monorep.Subgraph.Token.{handle_delegate_votes_changed, count_votes}
use composable_nouns_monorep.Subgraph.Token.Delegation.{
  delegate_of, HasDelegateIds, delegate_of-id, load-delegate_of, same_delegate,
  load-get_or_create_delegate,
}
use composable_nouns_monorep.Subgraph.Transfer.Aggregates.{HasGovernanceId, load-save_governance}

-- 1 for a delegate with votes.
abbrev pub votes_at_all : ℕ → ℕ
votes_at_all v = if ltb 0 v then 1 else 0

-- A counter and a sum that move by the same step keep their difference.
counter_moves :
    (end start : ℤ) (new old total total' : ℕ)
    → end +ℤ pos old ≡ start +ℤ pos new
    → total' + 1 * old ≡ total + 1 * new
    → end +ℤ pos total ≡ start +ℤ pos total'
counter_moves end start new old total total' p h = omega (int_laws, ap pos_part p, ap neg_part p)

add_difference :
    (start : ℤ) (new old : ℕ) → start +ℤ (pos new -ℤ pos old) +ℤ pos old ≡ start +ℤ pos new
add_difference start new old = omega int_laws

module _ (G : GraphNode) (N : Generated G) where
  -- The votes of the delegates, and how many of them have any.
  abbrev pub delegated : Store G → List String → ℕ
  delegated s = sum_of (λ d. (delegate_of G N s d).delegated_votes_raw)

  abbrev pub voters : Store G → List String → ℕ
  voters s = sum_of (λ d. votes_at_all (delegate_of G N s d).delegated_votes_raw)

  count_votes-current :
      (e : DelegateVotesChanged G) (g : Governance)
      → 0 < e.previous_balance + e.new_balance
      → (count_votes G N e g).current_delegates +ℤ pos (votes_at_all e.previous_balance)
        ≡ g.current_delegates +ℤ pos (votes_at_all e.new_balance)
  unfolding count_votes ◌+ℤ◌ ◌-ℤ◌
  count_votes-current e g h = ground arith

  count_votes-kept :
      (e : DelegateVotesChanged G) (g : Governance)
      → ((count_votes G N e g).id ≡ g.id)
        × ((count_votes G N e g).delegated_votes_raw ≡ g.delegated_votes_raw)
  unfolding count_votes
  count_votes-kept e g = ground arith

  module _ (L : IsLawful G) where
    load-handle_delegate_votes_changed :
        (e : DelegateVotesChanged G) (s : Store G) (d : String)
        → HasDelegateIds G N s
        → G.load (handle_delegate_votes_changed G N e s).delegates d ≡ (
            if str_eq (G.to_hex e.delegate) d
            then some (record (delegate_of G N s (G.to_hex e.delegate)) {
              delegated_votes_raw = e.new_balance;
              delegated_votes = e.new_balance;
            })
            else G.load s.delegates d)
    unfolding handle_delegate_votes_changed
    load-handle_delegate_votes_changed e s d h =
        rw
          (
            L.load-save,
            load-get_or_create_delegate G N L (G.to_hex e.delegate) d s h,
            delegate_of-id G N s h (G.to_hex e.delegate),
          )
          (ground arith)

    delegate_of-handle_delegate_votes_changed :
        (e : DelegateVotesChanged G) (s : Store G) (d : String)
        → HasDelegateIds G N s
        → (delegate_of G N (handle_delegate_votes_changed G N e s) d).delegated_votes_raw ≡ (
            if str_eq (G.to_hex e.delegate) d
            then e.new_balance
            else (delegate_of G N s d).delegated_votes_raw)
    delegate_of-handle_delegate_votes_changed e s d h =
        let s' = handle_delegate_votes_changed G N e s in
        let p = load-handle_delegate_votes_changed e s d h in
        elim (Bool-cases (str_eq (G.to_hex e.delegate) d)) [
          | inl t ↦ rw t (
              ap (λ (x : Delegate). x.delegated_votes_raw)
                (load-delegate_of G N s' d _ (rw t at p)))
          | inr f ↦
              rw f (
                ap (λ (x : Delegate). x.delegated_votes_raw) (same_delegate G N s' s d (rw f at p)))
        ]

    governance-handle_delegate_votes_changed :
        (e : DelegateVotesChanged G) (s : Store G)
        → HasGovernanceId G N s
        → let g = count_votes G N e (get_governance_entity G N s) in
          let raw = g.delegated_votes_raw +ℤ (pos e.new_balance -ℤ pos e.previous_balance) in
          get_governance_entity G N (handle_delegate_votes_changed G N e s)
          ≡ record g { delegated_votes_raw = raw; delegated_votes = raw }
    unfolding handle_delegate_votes_changed
    governance-handle_delegate_votes_changed e s h =
        load-save_governance G N L _ _ ((count_votes-kept e (get_governance_entity G N s)).0 ∙ h)

    -- Where delegates and aggregates are stored under their ids, over any list that names the
    -- delegate once, and for an event that starts from the votes on record, the total of the
    -- delegated votes moves with the sum of the listed delegates' votes.
    pub delegated_votes-handle_delegate_votes_changed :
        (e : DelegateVotesChanged G) (s : Store G) (ids : List String)
        → HasDelegateIds G N s
        → HasGovernanceId G N s
        → (delegate_of G N s (G.to_hex e.delegate)).delegated_votes_raw ≡ e.previous_balance
        → count (G.to_hex e.delegate) ids ≡ 1
        → let s' = handle_delegate_votes_changed G N e s in
          (get_governance_entity G N s').delegated_votes_raw +ℤ pos (delegated s ids)
          ≡ (get_governance_entity G N s).delegated_votes_raw +ℤ pos (delegated s' ids)
    delegated_votes-handle_delegate_votes_changed e s ids h hg known once =
        let d = G.to_hex e.delegate in
        let s' = handle_delegate_votes_changed G N e s in
        let listed =
          sum_of-update (λ a. (delegate_of G N s a).delegated_votes_raw)
            (λ a. (delegate_of G N s' a).delegated_votes_raw) d
            (λ a f. rw (delegate_of-handle_delegate_votes_changed e s a h, f)) ids in
        let one =
          rw (once, known, delegate_of-handle_delegate_votes_changed e s d h, eq_refl d) at
            listed in
        let g = get_governance_entity G N s in
        let total =
          ap (λ (x : Governance). x.delegated_votes_raw)
            (governance-handle_delegate_votes_changed e s hg) in
        counter_moves _ _ e.new_balance e.previous_balance _ _
          (rw (total, (count_votes-kept e g).1) (add_difference _ e.new_balance e.previous_balance))
          one

    -- Where delegates and aggregates are stored under their ids, over any list that names the
    -- delegate once, and for an event that starts from the votes on record and does not go from
    -- none to none, the number of current delegates moves with the number of listed delegates that
    -- have votes.
    pub current_delegates-handle_delegate_votes_changed :
        (e : DelegateVotesChanged G) (s : Store G) (ids : List String)
        → HasDelegateIds G N s
        → HasGovernanceId G N s
        → (delegate_of G N s (G.to_hex e.delegate)).delegated_votes_raw ≡ e.previous_balance
        → count (G.to_hex e.delegate) ids ≡ 1
        → 0 < e.previous_balance + e.new_balance
        → let s' = handle_delegate_votes_changed G N e s in
          (get_governance_entity G N s').current_delegates +ℤ pos (voters s ids)
          ≡ (get_governance_entity G N s).current_delegates +ℤ pos (voters s' ids)
    current_delegates-handle_delegate_votes_changed e s ids h hg known once some_votes =
        let d = G.to_hex e.delegate in
        let s' = handle_delegate_votes_changed G N e s in
        let listed =
          sum_of-update (λ a. votes_at_all (delegate_of G N s a).delegated_votes_raw)
            (λ a. votes_at_all (delegate_of G N s' a).delegated_votes_raw) d
            (λ a f. rw (delegate_of-handle_delegate_votes_changed e s a h, f)) ids in
        let one =
          rw (once, known, delegate_of-handle_delegate_votes_changed e s d h, eq_refl d) at
            listed in
        let counted =
          ap (λ (x : Governance). x.current_delegates)
            (governance-handle_delegate_votes_changed e s hg) in
        counter_moves _ _ (votes_at_all e.new_balance) (votes_at_all e.previous_balance) _ _
          (rw counted (count_votes-current e _ some_votes)) one
