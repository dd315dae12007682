-- ===== src/Subgraph/Transfer/Holders.antt =====
-- The aggregates `currentTokenHolders` and `totalTokenHolders` under `handleTransfer`.
use composable_nouns_monorep.Common.{
  ℕ, ◌+◌, ◌≡◌, ◌∙◌, ap, String, str_eq, eq_iff, arith, inl, inr, Bool-cases, List, false,
  if◌then◌else◌, ◌+ℤ◌, ◌-ℤ◌, ℤ, pos, ltb_ℤ, count, sum_of, sum_of-update_two, eq_refl, int_laws,
  pos_part, neg_part,
}
use composable_nouns_monorep.Subgraph.Host.{GraphNode, IsLawful}
use composable_nouns_monorep.Subgraph.Schema.{Account, Governance, Generated}
use composable_nouns_monorep.Subgraph.Store.{Store, zero_address, get_governance_entity}
use composable_nouns_monorep.Subgraph.Events.{Transfer, noun_key}
use composable_nouns_monorep.Subgraph.Transfer.{
  send, burn, hand_over, count_holder, handle_transfer, debit, credit,
}
use composable_nouns_monorep.Subgraph.Transfer.Accounts.{account_of, HasIds}
use composable_nouns_monorep.Subgraph.Transfer.Holdings.{
  sent, account_of-handle_transfer, receiver-hand_over,
}
use composable_nouns_monorep.Subgraph.Transfer.Aggregates.{
  HasGovernanceId, Agrees-hand_over, Agrees-receive, governance-with_holders_lem,
}

-- 1 for an account that holds a Noun.
abbrev pub holds : Account → ℕ
holds x = if ltb_ℤ (pos 0) x.token_balance_raw then 1 else 0

-- Two changes, by what an account counted before and counts after, add up.
balance_books :
    (end last mid start : ℤ) (x x' y y' total total' : ℕ)
    → end ≡ last
    → last +ℤ pos y ≡ mid +ℤ pos y'
    → mid +ℤ pos x ≡ start +ℤ pos x'
    → total' + x + y ≡ total + x' + y'
    → end +ℤ pos total ≡ start +ℤ pos total'
balance_books end last mid start x x' y y' total total' p q r h = omega (
  int_laws,
  ap pos_part p,
  ap neg_part p,
  ap pos_part q,
  ap neg_part q,
  ap pos_part r,
  ap neg_part r,
)

module _ (G : GraphNode) (N : Generated G) where
  -- How many of the accounts hold a Noun.
  abbrev pub holders : Store G → List String → ℕ
  holders s = sum_of (λ a. holds (account_of G N s a))

  count_holder-credit :
      (k : String) (x : Account) (g : Governance)
      → (count_holder G N x.token_balance_raw
            (credit G N k x).token_balance_raw
            g).current_token_holders
          +ℤ pos (holds x)
        ≡ g.current_token_holders +ℤ pos (holds (credit G N k x))
  unfolding count_holder credit ◌+ℤ◌ ◌-ℤ◌
  count_holder-credit k x g = ground arith

  count_holder-debit :
      (k : String) (x : Account) (g : Governance)
      → (count_holder G N x.token_balance_raw
            (debit G N k x).token_balance_raw
            g).current_token_holders
          +ℤ pos (holds x)
        ≡ g.current_token_holders +ℤ pos (holds (debit G N k x))
  unfolding count_holder debit ◌+ℤ◌ ◌-ℤ◌
  count_holder-debit k x g = ground arith

  module _ (L : IsLawful G) where
    receiver-after :
        (e : Transfer G) (s : Store G)
        → HasIds G N L s
        → account_of G N (handle_transfer G N e s) (G.to_hex e.receiver)
          ≡ credit G N (noun_key G e.token_id) (account_of G N s (G.to_hex e.receiver))
    receiver-after e s h =
        account_of-handle_transfer G N L e s (G.to_hex e.receiver) h
        ∙ rw (eq_refl (G.to_hex e.receiver))

    sender-after :
        (e : Transfer G) (s : Store G)
        → HasIds G N L s
        → str_eq (G.to_hex e.sender) (G.to_hex e.receiver) ≡ false
        → account_of G N (handle_transfer G N e s) (G.to_hex e.sender) ≡ sent G N L e s
    sender-after e s h d =
        let f = G.to_hex e.sender in
        let r = G.to_hex e.receiver in
        ground
          (arith, account_of-handle_transfer G N L e s f h, d, eq_iff f r, eq_iff r f, eq_refl f)

    holders-handle_transfer :
        (e : Transfer G) (s : Store G) (ids : List String)
        → HasIds G N L s
        → str_eq (G.to_hex e.sender) (G.to_hex e.receiver) ≡ false
        → count (G.to_hex e.sender) ids ≡ 1
        → count (G.to_hex e.receiver) ids ≡ 1
        → let f = G.to_hex e.sender in
          let r = G.to_hex e.receiver in
          holders (handle_transfer G N e s) ids
            + holds (account_of G N s f)
            + holds (account_of G N s r)
          ≡ holders s ids
            + holds (sent G N L e s)
            + holds (credit G N (noun_key G e.token_id) (account_of G N s r))
    holders-handle_transfer e s ids h d cf cr =
        let f = G.to_hex e.sender in
        let r = G.to_hex e.receiver in
        let s' = handle_transfer G N e s in
        let sums =
          sum_of-update_two (λ a. holds (account_of G N s a)) (λ a. holds (account_of G N s' a)) f r
            d (λ a nf nr. rw (account_of-handle_transfer G N L e s a h, nr, nf)) ids in
        let one = rw (cf, cr, sender-after e s h d, receiver-after e s h) at sums in
        omega (arith, one)

    send-current :
        (e : Transfer G) (g : Governance) (s t : Store G)
        → (send G N e (account_of G N s (G.to_hex e.sender)) g t).1.current_token_holders
            +ℤ pos (holds (account_of G N s (G.to_hex e.sender)))
          ≡ g.current_token_holders +ℤ pos (holds (sent G N L e s))
    unfolding send
    send-current e g s t = elim (Bool-cases (str_eq (G.to_hex e.sender) zero_address)) [
      | inl z ↦ rw (z, send)
      | inr n ↦ rw (n, send) (count_holder-debit (noun_key G e.token_id) _ g)
    ]

    burn-current :
        (e : Transfer G) (g : Governance) (s : Store G)
        → (burn G N e g s).0.current_token_holders ≡ g.current_token_holders
    unfolding burn
    burn-current e g s = ground arith

    hand_over-current :
        (e : Transfer G) (s : Store G)
        → (hand_over G N e s).1.current_token_holders
            +ℤ pos (holds (account_of G N s (G.to_hex e.sender)))
          ≡ (get_governance_entity G N s).current_token_holders +ℤ pos (holds (sent G N L e s))
    unfolding hand_over
    hand_over-current e s = rw burn-current (
        send-current e _ s _
        ∙ rw (governance-with_holders_lem G N (G.to_hex e.sender) (G.to_hex e.receiver) s))

    -- Where accounts and aggregates are stored under their ids, and over any list that names the
    -- two different parties once each, a transfer changes `currentTokenHolders` by as much as the
    -- number of listed accounts that hold a Noun.
    pub current_token_holders-handle_transfer :
        (e : Transfer G) (s : Store G) (ids : List String)
        → HasIds G N L s
        → HasGovernanceId G N s
        → str_eq (G.to_hex e.sender) (G.to_hex e.receiver) ≡ false
        → count (G.to_hex e.sender) ids ≡ 1
        → count (G.to_hex e.receiver) ids ≡ 1
        → (get_governance_entity G N (handle_transfer G N e s)).current_token_holders
            +ℤ pos (holders s ids)
          ≡ (get_governance_entity G N s).current_token_holders
            +ℤ pos (holders (handle_transfer G N e s) ids)
    unfolding handle_transfer
    current_token_holders-handle_transfer e s ids h hg d cf cr =
        let k = noun_key G e.token_id in
        let y = account_of G N s (G.to_hex e.receiver) in
        let g = (hand_over G N e s).1 in
        let last : (get_governance_entity G N (handle_transfer G N e s)).current_token_holders
            ≡ (count_holder G N (hand_over G N e s).0.token_balance_raw
                (credit G N k (hand_over G N e s).0).token_balance_raw g).current_token_holders =
          (Agrees-receive G N L e (hand_over G N e s).0 g _
            (Agrees-hand_over G N L e s hg)).holders in
        let same = receiver-hand_over G N L e s h in
        let moved = hand_over-current e s in
        let counted = count_holder-credit k y g in
        let listed = holders-handle_transfer e s ids h d cf cr in
        let last' =
          last
          ∙ ap
              (λ (z : Account).
                (count_holder G N z.token_balance_raw (credit G N k z).token_balance_raw
                  g).current_token_holders)
              same in
        balance_books _ _ _ _ _ _ _ _ _ _ last' counted moved listed
