-- ===== src/Subgraph/Transfer/Aggregates.antt =====
-- What `handleTransfer` does to the stored aggregates, stage by stage. The copy that the handler
-- carries and the stored entity agree on the numbers of holders and of Nouns all along.
use composable_nouns_monorep.Common.{
  ◌≡◌, refl, ◌∙◌, Option, none, some, String, str_eq, eq_iff, arith, inl, inr, Bool-cases,
  Option-cases, ltb_ℤ, ◌+ℤ◌, ℤ, pos,
}
use composable_nouns_monorep.Subgraph.Host.{GraphNode, IsLawful}
use composable_nouns_monorep.Subgraph.Schema.{Account, Governance, Generated}
use composable_nouns_monorep.Subgraph.Store.{
  Store, zero_address, get_governance_entity, get_or_create_account, get_or_create_delegate,
  get_or_create_delegate_with_null_option, count_delegate, save_governance, save_transfer_event,
  save_delegation_event,
}
use composable_nouns_monorep.Subgraph.Events.{Transfer, noun_key, option_or}
use composable_nouns_monorep.Subgraph.Transfer.{
  send, burn, receive, hand_over, count_holder, save_if, log_negative, remove_represented,
  add_represented, debit, credit, holder_moved, transfer_event, transfer_delegation,
}

module _ (G : GraphNode) (N : Generated G) where
  abbrev pub HasGovernanceId : Store G → Type 0
  HasGovernanceId s = (get_governance_entity G N s).id ≡ "GOVERNANCE"

  -- The carried copy and the stored aggregates.
  pub record Agrees (g : Governance) (s : Store G) : Type 0 where
    pub id : g.id ≡ "GOVERNANCE"
    pub stored_id : HasGovernanceId s
    pub holders : (get_governance_entity G N s).current_token_holders ≡ g.current_token_holders
    pub supply : (get_governance_entity G N s).total_token_holders ≡ g.total_token_holders

  -- Looking up an account leaves the aggregates alone.
  governance-get_or_create_account :
      (k : String) (s : Store G)
      → get_governance_entity G N (get_or_create_account G N k s).1 ≡ get_governance_entity G N s
  unfolding get_or_create_account get_governance_entity
  governance-get_or_create_account k s = ground arith

  pub governance-with_holders_lem :
      (f r : String) (s : Store G)
      → get_governance_entity G N (get_or_create_account G N r (get_or_create_account G N f s).1).1
        ≡ get_governance_entity G N s
  governance-with_holders_lem f r s =
      governance-get_or_create_account r _ ∙ governance-get_or_create_account f s

  governance-with_holders :
      (f r : String) (s : Store G)
      → HasGovernanceId s
      → HasGovernanceId (get_or_create_account G N r (get_or_create_account G N f s).1).1
  governance-with_holders f r s h = rw (governance-with_holders_lem f r s) h

  module _ (L : IsLawful G) where
    pub load-save_governance :
        (g : Governance) (s : Store G)
        → g.id ≡ "GOVERNANCE"
        → get_governance_entity G N (save_governance G g s) ≡ g
    unfolding get_governance_entity
    load-save_governance g s h =
        ground (arith, L.load-save s.governances g.id "GOVERNANCE" g, eq_iff g.id "GOVERNANCE")

    Agrees-save_governance :
        (g : Governance) (s : Store G) → g.id ≡ "GOVERNANCE" → Agrees g (save_governance G g s)
    Agrees-save_governance g s h = ground (arith, load-save_governance g s h)

    -- A new delegate moves the number of delegates alone.
    Agrees-count_delegate :
        (d : String) (g : Governance) (s : Store G) → Agrees g s → Agrees g (count_delegate G N d s)
    unfolding count_delegate
    Agrees-count_delegate d g s h = ground (
      arith,
      load-save_governance
          (record (get_governance_entity G N s) {
            total_delegates = (get_governance_entity G N s).total_delegates +ℤ pos 1;
          })
          s,
    )

    Agrees-same :
        (g : Governance) (s t : Store G) → t.governances ≡ s.governances → Agrees g s → Agrees g t
    unfolding get_governance_entity
    Agrees-same g s t p h = ground arith

    Agrees-get_or_create_delegate :
        (d : String) (g : Governance) (s : Store G)
        → Agrees g s
        → Agrees g (get_or_create_delegate G N d s).1
    unfolding get_or_create_delegate
    Agrees-get_or_create_delegate d g s h = elim (Option-cases (G.load s.delegates d)) [
      | inl e ↦
          rw (e, get_or_create_delegate_with_null_option)
            (Agrees-same g (count_delegate G N d s) _ refl (Agrees-count_delegate d g s h))
      | inr (x, e) ↦ rw (e, get_or_create_delegate_with_null_option) h
    ]

    Agrees-remove_represented :
        (d : Option String) (n : String) (g : Governance) (s : Store G)
        → Agrees g s
        → Agrees g (remove_represented G N d n s)
    unfolding remove_represented
    Agrees-remove_represented none n g s h = h
    Agrees-remove_represented (some d) n g s h =
        Agrees-same g (get_or_create_delegate G N d s).1 _ refl
          (Agrees-get_or_create_delegate d g s h)

    Agrees-add_represented :
        (d n : String) (g : Governance) (s : Store G)
        → Agrees g s
        → Agrees g (add_represented G N d n s)
    unfolding add_represented
    Agrees-add_represented d n g s h =
        Agrees-same g (get_or_create_delegate G N d s).1 _ refl
          (Agrees-get_or_create_delegate d g s h)

    Agrees-log_negative :
        (x : Account) (g : Governance) (s : Store G) → Agrees g s → Agrees g (log_negative G N x s)
    Agrees-log_negative x g s h = elim (Bool-cases (ltb_ℤ x.token_balance_raw (pos 0))) [
      | inl e ↦ rw e (Agrees-same g s _ refl h)
      | inr e ↦ rw e h
    ]

    -- The copy is written back exactly where the number of holders moved.
    Agrees-count_holder :
        (old new : ℤ) (g : Governance) (s : Store G)
        → Agrees g s
        → Agrees
            (count_holder G N old new g)
            (save_if G N (holder_moved G N old new) (count_holder G N old new g) s)
    unfolding count_holder
    Agrees-count_holder old new g s h =
        ground (arith, Agrees-save_governance (count_holder G N old new g) s)

    Agrees-send :
        (e : Transfer G) (x : Account) (g : Governance) (s : Store G)
        → Agrees g s
        → Agrees (send G N e x g s).1 (send G N e x g s).2
    unfolding send
    Agrees-send e x g s h =
        let k = noun_key G e.token_id in
        let y = debit G N k x in
        let s1 = remove_represented G N x.delegate k s in
        let agree =
          Agrees-count_holder x.token_balance_raw y.token_balance_raw g _
            (Agrees-log_negative y g s1 (Agrees-remove_represented x.delegate k g s h)) in
        elim (Bool-cases (str_eq (G.to_hex e.sender) zero_address)) [
          | inl z ↦ rw (z, send) (Agrees-save_governance _ s h.id)
          | inr n ↦ rw (n, send) (Agrees-same _ _ _ refl agree)
        ]

    Agrees-burn :
        (e : Transfer G) (g : Governance) (s : Store G)
        → Agrees g s
        → Agrees (burn G N e g s).0 (burn G N e g s).1
    unfolding burn
    Agrees-burn e g s h = elim (Bool-cases (str_eq (G.to_hex e.receiver) zero_address)) [
      | inl z ↦ rw (z, burn) (Agrees-save_governance _ s h.id)
      | inr n ↦ rw (n, burn) h
    ]

    pub Agrees-hand_over :
        (e : Transfer G) (s : Store G)
        → HasGovernanceId s
        → Agrees (hand_over G N e s).1 (hand_over G N e s).2
    unfolding hand_over
    Agrees-hand_over e s h =
        let (x, s1) = get_or_create_account G N (G.to_hex e.sender) s in
        let (y, s2) = get_or_create_account G N (G.to_hex e.receiver) s1 in
        let g = get_governance_entity G N s2 in
        let s3 = save_transfer_event G (transfer_event G N e x y) s2 in
        let base : Agrees g s2 = record {
          id = governance-with_holders (G.to_hex e.sender) (G.to_hex e.receiver) s h;
          stored_id = governance-with_holders (G.to_hex e.sender) (G.to_hex e.receiver) s h;
          holders = refl;
          supply = refl;
        } in
        let after_send = Agrees-send e x g s3 (Agrees-same g s2 s3 refl base) in
        let after_burn = Agrees-burn e (send G N e x g s3).1 (send G N e x g s3).2 after_send in
        Agrees-add_represented (option_or y.delegate y.id) (noun_key G e.token_id) _ _ (
          Agrees-same _ _
            (save_delegation_event G (transfer_delegation G N e (send G N e x g s3).0 y)
              (burn G N e (send G N e x g s3).1 (send G N e x g s3).2).1)
            refl after_burn)

    pub Agrees-receive :
        (e : Transfer G) (x : Account) (g : Governance) (s : Store G)
        → Agrees g s
        → Agrees
            (count_holder G N x.token_balance_raw
              (credit G N (noun_key G e.token_id) x).token_balance_raw
              g)
            (receive G N e x g s)
    unfolding receive
    Agrees-receive e x g s h =
        Agrees-same _ _ _ refl (Agrees-count_holder x.token_balance_raw _ g s h)
