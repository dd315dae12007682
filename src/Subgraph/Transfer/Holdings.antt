-- ===== src/Subgraph/Transfer/Holdings.antt =====
-- What a whole `handleTransfer` leaves in the tables of accounts and Nouns.
use composable_nouns_monorep.Common.{
  ◌≡◌, ◌∙◌, ap, sym, subst, Option, none, some, String, str_eq, eq_iff, arith, if◌then◌else◌, inl,
  inr, Bool-cases, ◌&&◌, not,
}
use composable_nouns_monorep.Subgraph.Host.{GraphNode, IsLawful}
use composable_nouns_monorep.Subgraph.Schema.{Account, Generated}
use composable_nouns_monorep.Subgraph.Store.{Store, zero_address, get_or_create_account}
use composable_nouns_monorep.Subgraph.Events.{Transfer, noun_key}
use composable_nouns_monorep.Subgraph.Transfer.{hand_over, debit, credit, handle_transfer}
use composable_nouns_monorep.Subgraph.Transfer.Accounts.{
  account_of, HasNounIds, load_nouns-receive, owned_noun, load_or_new_noun-id, nouns-send,
  nouns-get_or_create_account, HasIds, load-account_of, same_load, account_of-id,
  account_of-get_or_create_account, load-get_or_create_account, load-send, load-receive,
  burn-SameHoldings, add_represented-SameHoldings,
}

module _ (G : GraphNode) (N : Generated G) (L : IsLawful G) where
  -- The account of the sender after the transfer.
  abbrev pub sent : Transfer G → Store G → Account
  sent e s =
      if str_eq (G.to_hex e.sender) zero_address
      then account_of G N s (G.to_hex e.sender)
      else debit G N (noun_key G e.token_id) (account_of G N s (G.to_hex e.sender))

  -- The store in which both holders have an account.
  abbrev with_holders : String → String → Store G → Store G
  with_holders f r s = (get_or_create_account G N r (get_or_create_account G N f s).1).1

  load-with_holders :
      (f r a : String) (s : Store G)
      → HasIds G N L s
      → G.load (with_holders f r s).accounts a ≡ (
          if str_eq r a
          then some (account_of G N s r)
          else if str_eq f a
          then some (account_of G N s f)
          else G.load s.accounts a)
  load-with_holders f r a s h =
      let s1 = (get_or_create_account G N f s).1 in
      let same = account_of-get_or_create_account G N L f r s h in
      let first = load-get_or_create_account G N L f a s (account_of-id G N L s h f) in
      let second =
        load-get_or_create_account G N L r a s1 (ap (λ x. x.id) same ∙ account_of-id G N L s h r) in
      second ∙ rw (same, first)

  nouns-with_holders : (f r : String) (s : Store G) → (with_holders f r s).nouns ≡ s.nouns
  nouns-with_holders f r s =
      nouns-get_or_create_account G N r _ ∙ nouns-get_or_create_account G N f s

  pub receiver-hand_over :
      (e : Transfer G) (s : Store G)
      → HasIds G N L s
      → (hand_over G N e s).0 ≡ account_of G N s (G.to_hex e.receiver)
  unfolding hand_over
  receiver-hand_over e s h = account_of-get_or_create_account G N L _ _ s h

  load-hand_over :
      (e : Transfer G) (s : Store G) (a : String)
      → HasIds G N L s
      → G.load (hand_over G N e s).2.accounts a ≡ (
          if str_eq (G.to_hex e.sender) a && not (str_eq (G.to_hex e.sender) zero_address)
          then some (sent e s)
          else G.load (with_holders (G.to_hex e.sender) (G.to_hex e.receiver) s).accounts a)
  unfolding hand_over
  load-hand_over e s a h =
      rw
        (
          (add_represented-SameHoldings G N _ _ _).accounts,
          (burn-SameHoldings G N _ _ _).accounts,
          load-send G N L,
          account_of-id G N L s h (G.to_hex e.sender),
        )
        (ground arith)

  nouns-hand_over : (e : Transfer G) (s : Store G) → (hand_over G N e s).2.nouns ≡ s.nouns
  unfolding hand_over
  nouns-hand_over e s =
      rw
        (
          (add_represented-SameHoldings G N _ _ _).nouns,
          (burn-SameHoldings G N _ _ _).nouns,
          nouns-send G N,
        )
        (nouns-with_holders (G.to_hex e.sender) (G.to_hex e.receiver) s)

  pub accounts-handle_transfer :
      (e : Transfer G) (s : Store G) (a : String)
      → HasIds G N L s
      → G.load (handle_transfer G N e s).accounts a ≡ (
          if str_eq (G.to_hex e.receiver) a
          then some (credit G N (noun_key G e.token_id) (account_of G N s (G.to_hex e.receiver)))
          else if str_eq (G.to_hex e.sender) a
          then some (sent e s)
          else G.load s.accounts a)
  unfolding handle_transfer
  accounts-handle_transfer e s a h =
      let r = G.to_hex e.receiver in
      rw
        (
          load-receive G N L,
          load-hand_over e s a h,
          load-with_holders _ _ a s h,
          receiver-hand_over e s h,
          account_of-id G N L s h r,
        )
        (ground arith)

  -- After a transfer the receiver is credited, any other sender is debited, and all else stays.
  pub account_of-handle_transfer :
      (e : Transfer G) (s : Store G) (a : String)
      → HasIds G N L s
      → account_of G N (handle_transfer G N e s) a ≡ (
          if str_eq (G.to_hex e.receiver) a
          then credit G N (noun_key G e.token_id) (account_of G N s (G.to_hex e.receiver))
          else if str_eq (G.to_hex e.sender) a
          then sent e s
          else account_of G N s a)
  account_of-handle_transfer e s a h =
      let p = accounts-handle_transfer e s a h in
      elim (Bool-cases (str_eq (G.to_hex e.receiver) a)) [
        | inl r ↦ rw r (loaded _ (rw r at p))
        | inr r ↦ rw r (elim (Bool-cases (str_eq (G.to_hex e.sender) a)) [
          | inl f ↦ rw f (loaded _ (rw (r, f) at p))
          | inr f ↦ rw f (same_load G N _ s a (rw (r, f) at p))
        ])
      ]
    where
      loaded :
          (x : Account)
          → G.load (handle_transfer G N e s).accounts a ≡ some x
          → account_of G N (handle_transfer G N e s) a ≡ x
      loaded x q = load-account_of G N _ a x q

  pub HasIds-handle_transfer :
      (e : Transfer G) (s : Store G) → HasIds G N L s → HasIds G N L (handle_transfer G N e s)
  unfolding debit credit
  HasIds-handle_transfer e s h a x q = ground (
    arith,
    accounts-handle_transfer e s a h,
    account_of-id G N L s h (G.to_hex e.receiver),
    account_of-id G N L s h (G.to_hex e.sender),
    eq_iff (G.to_hex e.receiver) a,
    eq_iff (G.to_hex e.sender) a,
    h a x,
  )

  -- Who holds a Noun, by the Noun's entity.
  abbrev pub owner_of : Store G → String → Option String
  owner_of s n = elim (G.load s.nouns n) [ none ↦ none | some x ↦ some x.owner ]

  pub load_nouns-handle_transfer :
      (e : Transfer G) (s : Store G) (n : String)
      → HasIds G N L s
      → HasNounIds G N s.nouns
      → let k = noun_key G e.token_id in
        G.load (handle_transfer G N e s).nouns n ≡ (
          if str_eq k n
          then some (owned_noun G N s.nouns k (G.to_hex e.receiver))
          else G.load s.nouns n)
  unfolding handle_transfer
  load_nouns-handle_transfer e s n h hn =
      let same = nouns-hand_over e s in
      let id =
        ap (λ (x : Account). x.id) (receiver-hand_over e s h)
        ∙ account_of-id G N L s h (G.to_hex e.receiver) in
      load_nouns-receive G N L e _ _ _ n (subst (HasNounIds G N) (sym same) hn) ∙ rw (same, id)

  pub HasNounIds-handle_transfer :
      (e : Transfer G) (s : Store G)
      → HasIds G N L s
      → HasNounIds G N s.nouns
      → HasNounIds G N (handle_transfer G N e s).nouns
  HasNounIds-handle_transfer e s h hn n x q =
      let k = noun_key G e.token_id in
      ground (
        arith,
        load_nouns-handle_transfer e s n h hn,
        load_or_new_noun-id G N s.nouns hn k,
        eq_iff k n,
        hn n x,
      )
