-- ===== src/Subgraph/Token.antt =====
-- packages/nouns-subgraph/src/nouns-erc-721.ts: the handlers of new Nouns and of delegation.
pub mod Delegation
pub mod Votes
use composable_nouns_monorep.Common.{
  none, some, String, ◌<>◌, List, [], ◌∷◌, ◌++◌, not, ◌&&◌, if◌then◌else◌, ℤ, pos, ◌+ℤ◌, ◌-ℤ◌, ltb,
  eqb_ℤ, ◌==◌, filter, includes,
}
use composable_nouns_monorep.Subgraph.Host.{GraphNode}
use composable_nouns_monorep.Subgraph.Events.{
  NounCreated, DelegateChanged, DelegateVotesChanged, noun_key, or_when_empty,
}
use composable_nouns_monorep.Subgraph.Schema.{Seed, Governance, Generated}
use composable_nouns_monorep.Subgraph.Store.{
  Store, save_account, save_delegate, save_noun, save_seed, save_delegation_event, save_governance,
  log_error, get_or_create_account, get_or_create_delegate, get_governance_entity,
}

module _ (G : GraphNode) (N : Generated G) where
  pub seed_of : NounCreated G → Seed
  seed_of e = record (N.new_seed (noun_key G e.token_id)) {
    id = noun_key G e.token_id;
    background = e.background;
    body = e.body;
    accessory = e.accessory;
    head = e.head;
    glasses = e.glasses;
  }

  unfoldable pub handle_noun_created : NounCreated G → Store G → Store G
  unfolding seed_of
  handle_noun_created e s =
      let noun_id = noun_key G e.token_id in
      let s' = save_seed G (seed_of e) s in
      elim (G.load s'.nouns noun_id) [
        | none ↦
            log_error G "[handleNounCreated] Noun #{} not found. Hash: {}"
              (noun_id ∷ G.to_hex e.origin.transaction_hash ∷ []) s'
        | some noun ↦ save_noun G (record noun { seed = some noun_id }) s'
      ]

  -- AssemblyScript's i32 wraps.
  abbrev inc_i32 : ℤ → ℤ
  inc_i32 v = if eqb_ℤ v (pos 2147483647) then pos 0 -ℤ pos 2147483648 else v +ℤ pos 1

  abbrev dec_i32 : ℤ → ℤ
  dec_i32 v = if eqb_ℤ (v +ℤ pos 2147483648) (pos 0) then pos 2147483647 else v -ℤ pos 1

  -- The loop that logs an event for each Noun of the holder.
  unfoldable pub log_delegations :
      DelegateChanged G → String → String → List String → Store G → Store G
  log_delegations e previous new [] s = s
  log_delegations e previous new (n ∷ ns) s =
      let id = G.to_hex e.origin.transaction_hash <> "_" <> n in
      log_delegations e previous new ns (
        save_delegation_event G
          (record (N.new_delegation_event id) {
            id = id;
            block_number = e.origin.block_number;
            block_timestamp = e.origin.block_timestamp;
            noun = n;
            previous_delegate = previous;
            new_delegate = new;
          })
          s)

  unfoldable pub handle_delegate_changed : DelegateChanged G → Store G → Store G
  handle_delegate_changed e s =
      let (holder, s1) = get_or_create_account G N (G.to_hex e.delegator) s in
      let (previous, s2) = get_or_create_delegate G N (G.to_hex e.from_delegate) s1 in
      let (new, s3) = get_or_create_delegate G N (G.to_hex e.to_delegate) s2 in
      let account_nouns = holder.nouns in
      let s4 = save_account G (record holder { delegate = some new.id }) s3 in
      let previous' = record previous {
        token_holders_represented_amount = dec_i32 previous.token_holders_represented_amount;
        nouns_represented = filter (λ n. not (includes account_nouns n)) previous.nouns_represented;
      } in
      let new' = record new {
        token_holders_represented_amount = inc_i32 new.token_holders_represented_amount;
        nouns_represented = new.nouns_represented ++ account_nouns;
      } in
      let s5 = save_delegate G new' (save_delegate G previous' s4) in
      log_delegations e (or_when_empty previous.id holder.id) (or_when_empty new.id holder.id)
        account_nouns s5

  -- The tests on the balances count a delegate in when it gets its first vote, and out when
  -- it has none.
  count_votes : DelegateVotesChanged G → Governance → Governance
  count_votes e g =
      let g' =
        if (e.previous_balance == 0) && ltb 0 e.new_balance
        then record g { current_delegates = g.current_delegates +ℤ pos 1 }
        else g in
      if e.new_balance == 0
      then record g' { current_delegates = g'.current_delegates -ℤ pos 1 }
      else g'

  -- The aggregates are read before the delegate is created and written after.
  unfoldable pub handle_delegate_votes_changed : DelegateVotesChanged G → Store G → Store G
  unfolding count_votes
  handle_delegate_votes_changed e s =
      let governance = get_governance_entity G N s in
      let (delegate, s1) = get_or_create_delegate G N (G.to_hex e.delegate) s in
      let difference = pos e.new_balance -ℤ pos e.previous_balance in
      let s2 =
        save_delegate G
          (record delegate { delegated_votes_raw = e.new_balance; delegated_votes = e.new_balance })
          s1 in
      let g = count_votes e governance in
      let raw = g.delegated_votes_raw +ℤ difference in
      save_governance G (record g { delegated_votes_raw = raw; delegated_votes = raw }) s2
