-- ===== src/Subgraph/Transfer/Delegates.antt =====
-- What `handleTransfer` does to the delegates and to their number.
use composable_nouns_monorep.Common.{
  ◌≡◌, refl, ◌∙◌, ap, none, some, String, str_eq, eq_refl, arith, Bool, [], ◌∷◌, true, false, ◌+ℤ◌,
  pos,
}
use composable_nouns_monorep.Subgraph.Host.{GraphNode, IsLawful}
use composable_nouns_monorep.Subgraph.Schema.{Account, Governance, Generated}
use composable_nouns_monorep.Subgraph.Store.{
  Store, zero_address, get_governance_entity, get_or_create_account,
  get_or_create_delegate_with_null_option, fresh_delegate,
}
use composable_nouns_monorep.Subgraph.Events.{Transfer, noun_key}
use composable_nouns_monorep.Subgraph.Transfer.{
  send, burn, receive, hand_over, count_holder, handle_transfer, credit, add_represented, save_if,
  holder_moved,
}
use composable_nouns_monorep.Subgraph.Transfer.Accounts.{
  account_of, HasIds, account_of-id, account_of-get_or_create_account,
}
use composable_nouns_monorep.Subgraph.Transfer.Holdings.{receiver-hand_over}
use composable_nouns_monorep.Subgraph.Transfer.Aggregates.{
  HasGovernanceId, Agrees-hand_over, governance-with_holders_lem, load-save_governance,
}

module _ (G : GraphNode) (N : Generated G) (L : IsLawful G) where
  send-total_delegates :
      (e : Transfer G) (x : Account) (g : Governance) (s : Store G)
      → (send G N e x g s).1.total_delegates ≡ g.total_delegates
  unfolding send count_holder
  send-total_delegates e x g s = ground arith

  burn-total_delegates :
      (e : Transfer G) (g : Governance) (s : Store G)
      → (burn G N e g s).0.total_delegates ≡ g.total_delegates
  unfolding burn
  burn-total_delegates e g s = ground arith

  hand_over-total_delegates :
      (e : Transfer G) (s : Store G)
      → (hand_over G N e s).1.total_delegates ≡ (get_governance_entity G N s).total_delegates
  unfolding hand_over
  hand_over-total_delegates e s =
      rw (burn-total_delegates, send-total_delegates)
        (ap (λ (g : Governance). g.total_delegates)
          (governance-with_holders_lem G N (G.to_hex e.sender) (G.to_hex e.receiver) s))

  abbrev counted : Transfer G → Account → Governance → Governance
  counted e x g =
      count_holder G N x.token_balance_raw (credit G N (noun_key G e.token_id) x).token_balance_raw
        g

  governance-receive :
      (e : Transfer G) (x : Account) (g : Governance) (s : Store G)
      → get_governance_entity G N (receive G N e x g s)
        ≡ get_governance_entity G N (
            save_if G N
              (holder_moved G N x.token_balance_raw
                (credit G N (noun_key G e.token_id) x).token_balance_raw)
              (counted e x g)
              s)
  unfolding receive get_governance_entity
  governance-receive e x g s = refl

  first_balance :
      (k : String) (x : Account)
      → x.token_balance_raw ≡ pos 0
      → (credit G N k x).token_balance_raw ≡ pos 1
  unfolding credit ◌+ℤ◌
  first_balance k x z = rw z

  counted-fields :
      (e : Transfer G) (x : Account) (g : Governance)
      → ((counted e x g).id ≡ g.id) × ((counted e x g).total_delegates ≡ g.total_delegates)
  unfolding count_holder
  counted-fields e x g = ground arith

  -- The first Noun of an account writes the carried aggregates back.
  receive-total_delegates :
      (e : Transfer G) (x : Account) (g : Governance) (s : Store G)
      → g.id ≡ "GOVERNANCE"
      → x.token_balance_raw ≡ pos 0
      → (get_governance_entity G N (receive G N e x g s)).total_delegates ≡ g.total_delegates
  receive-total_delegates e x g s h z =
      let k = noun_key G e.token_id in
      let kept = counted-fields e x g in
      let moved : holder_moved G N x.token_balance_raw (credit G N k x).token_balance_raw ≡ true =
        rw (first_balance k x z, z) in
      let written : get_governance_entity G N (receive G N e x g s) ≡ counted e x g =
        governance-receive e x g s
        ∙ rw moved (load-save_governance G N L (counted e x g) s (kept.0 ∙ h)) in
      ap (λ (y : Governance). y.total_delegates) written ∙ kept.1

  delegates-get_or_create_account :
      (k : String) (s : Store G) → (get_or_create_account G N k s).1.delegates ≡ s.delegates
  unfolding get_or_create_account
  delegates-get_or_create_account k s = ground arith

  delegates-send_mint :
      (e : Transfer G) (x : Account) (g : Governance) (s : Store G)
      → str_eq (G.to_hex e.sender) zero_address ≡ true
      → (send G N e x g s).2.delegates ≡ s.delegates
  unfolding send
  delegates-send_mint e x g s z = rw (z, send)

  delegates-burn :
      (e : Transfer G) (g : Governance) (s : Store G) → (burn G N e g s).1.delegates ≡ s.delegates
  unfolding burn
  delegates-burn e g s = ground arith

  load-add_represented_new :
      (d n : String) (s : Store G)
      → G.load s.delegates d ≡ none
      → G.load (add_represented G N d n s).delegates d
        ≡ some (record (fresh_delegate G N d) { nouns_represented = n ∷ [] })
  unfolding add_represented
  load-add_represented_new d n s h =
      rw (h, get_or_create_delegate_with_null_option, L.load-save) (rw (eq_refl d))

  save_if-delegates :
      (moved : Bool) (g : Governance) (s : Store G)
      → (save_if G N moved g s).delegates ≡ s.delegates
  save_if-delegates true g s = refl
  save_if-delegates false g s = refl

  delegates-receive :
      (e : Transfer G) (x : Account) (g : Governance) (s : Store G)
      → (receive G N e x g s).delegates ≡ s.delegates
  unfolding receive
  delegates-receive e x g s = save_if-delegates _ _ s

  hand_over-mint :
      (e : Transfer G) (s : Store G)
      → HasIds G N L s
      → str_eq (G.to_hex e.sender) zero_address ≡ true
      → (account_of G N s (G.to_hex e.receiver)).delegate ≡ none
      → G.load s.delegates (G.to_hex e.receiver) ≡ none
      → G.load (hand_over G N e s).2.delegates (G.to_hex e.receiver)
        ≡ some (record (fresh_delegate G N (G.to_hex e.receiver)) {
          nouns_represented = noun_key G e.token_id ∷ [];
        })
  unfolding hand_over
  hand_over-mint e s h z nd fresh =
      let r = G.to_hex e.receiver in
      let same = account_of-get_or_create_account G N L (G.to_hex e.sender) r s h in
      rw (same, nd, account_of-id G N L s h r)
        (load-add_represented_new r _ _ (
          rw
            (
              delegates-burn,
              delegates-send_mint e _ _ _ z,
              delegates-get_or_create_account,
              delegates-get_or_create_account,
            )
            fresh))

  -- Where accounts and aggregates are stored under their ids, a mint to an address without Nouns
  -- and without a delegate, which is no delegate itself yet, creates its delegate and leaves
  -- `totalDelegates` as it was.
  pub total_delegates-mint :
      (e : Transfer G) (s : Store G)
      → HasIds G N L s
      → HasGovernanceId G N s
      → str_eq (G.to_hex e.sender) zero_address ≡ true
      → (account_of G N s (G.to_hex e.receiver)).token_balance_raw ≡ pos 0
      → (account_of G N s (G.to_hex e.receiver)).delegate ≡ none
      → G.load s.delegates (G.to_hex e.receiver) ≡ none
      → ((get_governance_entity G N (handle_transfer G N e s)).total_delegates
          ≡ (get_governance_entity G N s).total_delegates)
        × (G.load (handle_transfer G N e s).delegates (G.to_hex e.receiver)
            ≡ some (record (fresh_delegate G N (G.to_hex e.receiver)) {
              nouns_represented = noun_key G e.token_id ∷ [];
            }))
  unfolding handle_transfer
  total_delegates-mint e s h hg z b nd fresh =
      let x = receiver-hand_over G N L e s h in
      (
        receive-total_delegates e _ _ _ (Agrees-hand_over G N L e s hg).id
              (ap (λ (y : Account). y.token_balance_raw) x ∙ b)
            ∙ hand_over-total_delegates e s,
        rw (delegates-receive e _ _ _) (hand_over-mint e s h z nd fresh),
      )
