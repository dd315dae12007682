-- ===== src/Subgraph/Transfer/Accounts.antt =====
-- What `handleTransfer` does to the tables of accounts and Nouns, stage by stage.
use composable_nouns_monorep.Common.{
  Bool, ltb_ℤ, pos, ◌∙◌, inl, inr, Bool-cases, true, false, ◌≡◌, refl, Option, none, some, String,
  str_eq, eq_iff, arith, Option-cases, if◌then◌else◌,
}
use composable_nouns_monorep.Subgraph.Host.{GraphNode, IsLawful}
use composable_nouns_monorep.Subgraph.Schema.{Account, Noun, Governance, Generated}
use composable_nouns_monorep.Subgraph.Store.{
  Store, zero_address, get_or_create_account, get_or_create_delegate,
}
use composable_nouns_monorep.Subgraph.Events.{Transfer, noun_key}
use composable_nouns_monorep.Subgraph.Transfer.{
  save_if, log_negative, load_or_new_noun, send, burn, receive, debit, credit, remove_represented,
  add_represented,
}

module _ (G : GraphNode) (N : Generated G) where
  -- The account that a handler gets for an id.
  abbrev pub account_of : Store G → String → Account
  account_of s a = (get_or_create_account G N a s).0

  pub load-account_of :
      (s : Store G) (a : String) (x : Account) → G.load s.accounts a ≡ some x → account_of s a ≡ x
  unfolding get_or_create_account
  load-account_of s a x p = rw (p, account_of)

  pub same_load :
      (s t : Store G) (a : String)
      → G.load s.accounts a ≡ G.load t.accounts a
      → account_of s a ≡ account_of t a
  unfolding get_or_create_account
  same_load s t a p = ground arith

  -- The two tables are left alone.
  pub record SameHoldings (s t : Store G) : Type 0 where
    pub accounts : t.accounts ≡ s.accounts
    pub nouns : t.nouns ≡ s.nouns

  pub get_or_create_delegate-SameHoldings :
      (d : String) (s : Store G) → SameHoldings s (get_or_create_delegate G N d s).1
  unfolding get_or_create_delegate
  get_or_create_delegate-SameHoldings d s = ground arith

  pub remove_represented-SameHoldings :
      (d : Option String) (n : String) (s : Store G) → SameHoldings s (remove_represented G N d n s)
  unfolding remove_represented
  remove_represented-SameHoldings none n s = record { accounts = refl; nouns = refl }
  remove_represented-SameHoldings (some d) n s = ground arith

  pub add_represented-SameHoldings :
      (d n : String) (s : Store G) → SameHoldings s (add_represented G N d n s)
  unfolding add_represented
  add_represented-SameHoldings d n s = ground arith

  pub burn-SameHoldings :
      (e : Transfer G) (g : Governance) (s : Store G) → SameHoldings s (burn G N e g s).1
  unfolding burn
  burn-SameHoldings e g s = ground arith

  save_if-SameHoldings :
      (moved : Bool) (g : Governance) (s : Store G) → SameHoldings s (save_if G N moved g s)
  save_if-SameHoldings true g s = record { accounts = refl; nouns = refl }
  save_if-SameHoldings false g s = record { accounts = refl; nouns = refl }

  log_negative-SameHoldings : (x : Account) (s : Store G) → SameHoldings s (log_negative G N x s)
  log_negative-SameHoldings x s = elim (Bool-cases (ltb_ℤ x.token_balance_raw (pos 0))) [
    | inl e ↦ rw e (record { accounts = refl; nouns = refl })
    | inr e ↦ rw e (record { accounts = refl; nouns = refl })
  ]

  pub SameHoldings-trans :
      {s t u : Store G} → SameHoldings s t → SameHoldings t u → SameHoldings s u
  SameHoldings-trans p q = record { accounts = q.accounts ∙ p.accounts; nouns = q.nouns ∙ p.nouns }

  pub nouns-get_or_create_account :
      (k : String) (s : Store G) → (get_or_create_account G N k s).1.nouns ≡ s.nouns
  unfolding get_or_create_account
  nouns-get_or_create_account k s = ground arith

  pub nouns-send :
      (e : Transfer G) (x : Account) (g : Governance) (s : Store G)
      → (send G N e x g s).2.nouns ≡ s.nouns
  unfolding send
  nouns-send e x g s = elim (Bool-cases (str_eq (G.to_hex e.sender) zero_address)) [
    | inl z ↦ rw (z, send)
    | inr n ↦
        rw (n, send)
          (rw (
            (save_if-SameHoldings _ _ _).nouns,
            (log_negative-SameHoldings _ _).nouns,
            (remove_represented-SameHoldings _ _ s).nouns,
          ))
  ]

  -- A Noun that is looked up carries the id that it is kept under.
  abbrev pub HasNounIds : G.Table Noun → Type 0
  HasNounIds t = (n : String) (x : Noun) → G.load t n ≡ some x → x.id ≡ n

  pub load_or_new_noun-id :
      (t : G.Table Noun) → HasNounIds t → (n : String) → (load_or_new_noun G N n t).id ≡ n
  load_or_new_noun-id t h n = elim (Option-cases (G.load t n)) [
    | inl e ↦ rw (e, load_or_new_noun)
    | inr (x, e) ↦ rw (e, load_or_new_noun) (h n x e)
  ]

  -- The Noun as `handleTransfer` writes it: it keeps its seed.
  abbrev pub owned_noun : G.Table Noun → String → String → Noun
  owned_noun t n owner = record (load_or_new_noun G N n t) { owner = owner }

  nouns-receive :
      (e : Transfer G) (x : Account) (g : Governance) (s : Store G)
      → let k = noun_key G e.token_id in
        (receive G N e x g s).nouns
        ≡ G.save s.nouns (owned_noun s.nouns k x.id).id (owned_noun s.nouns k x.id)
  unfolding receive credit
  nouns-receive e x g s = rw (save_if-SameHoldings _ _ s).nouns

  module _ (L : IsLawful G) where
    pub load-get_or_create_account :
        (k a : String) (s : Store G)
        → (account_of s k).id ≡ k
        → G.load (get_or_create_account G N k s).1.accounts a
          ≡ (if str_eq k a then some (account_of s k) else G.load s.accounts a)
    unfolding get_or_create_account
    load-get_or_create_account k a s h = elim (Option-cases (G.load s.accounts k)) [
      | inl e ↦ ground (arith, L.load-save s.accounts k a (account_of s k))
      | inr (x, e) ↦ ground (arith, eq_iff k a)
    ]

    pub load-send :
        (e : Transfer G) (x : Account) (g : Governance) (s : Store G) (a : String)
        → G.load (send G N e x g s).2.accounts a ≡ (
            if str_eq (G.to_hex e.sender) zero_address
            then G.load s.accounts a
            else if str_eq x.id a
            then some (debit G N (noun_key G e.token_id) x)
            else G.load s.accounts a)
    unfolding send debit
    load-send e x g s a = elim (Bool-cases (str_eq (G.to_hex e.sender) zero_address)) [
      | inl z ↦ rw (z, send)
      | inr n ↦
          rw (n, send)
            (rw L.load-save (
              rw (
                (save_if-SameHoldings _ _ _).accounts,
                (log_negative-SameHoldings _ _).accounts,
                (remove_represented-SameHoldings _ _ s).accounts,
              )))
    ]

    pub load-receive :
        (e : Transfer G) (x : Account) (g : Governance) (s : Store G) (a : String)
        → G.load (receive G N e x g s).accounts a ≡ (
            if str_eq x.id a
            then some (credit G N (noun_key G e.token_id) x)
            else G.load s.accounts a)
    unfolding receive credit
    load-receive e x g s a = rw L.load-save (rw (save_if-SameHoldings _ _ s).accounts)

    -- An account that is looked up carries the id that it is kept under.
    abbrev pub HasIds : Store G → Type 0
    HasIds s = (a : String) (x : Account) → G.load s.accounts a ≡ some x → x.id ≡ a

    pub account_of-id : (s : Store G) → HasIds s → (a : String) → (account_of s a).id ≡ a
    unfolding get_or_create_account
    account_of-id s h a = elim (Option-cases (G.load s.accounts a)) [
      | inl e ↦ rw (e, account_of)
      | inr (x, e) ↦ rw (e, account_of) (h a x e)
    ]

    pub account_of-get_or_create_account :
        (k a : String) (s : Store G)
        → HasIds s
        → account_of (get_or_create_account G N k s).1 a ≡ account_of s a
    unfolding get_or_create_account
    account_of-get_or_create_account k a s h =
        ground (arith, eq_iff k a, load-get_or_create_account k a s (account_of-id s h k))

    pub load_nouns-receive :
        (e : Transfer G) (x : Account) (g : Governance) (s : Store G) (n : String)
        → HasNounIds s.nouns
        → let k = noun_key G e.token_id in
          G.load (receive G N e x g s).nouns n
          ≡ (if str_eq k n then some (owned_noun s.nouns k x.id) else G.load s.nouns n)
    load_nouns-receive e x g s n h =
        rw (
          nouns-receive e x g s,
          L.load-save,
          load_or_new_noun-id s.nouns h (noun_key G e.token_id),
        )
