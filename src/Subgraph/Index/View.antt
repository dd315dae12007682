-- ===== src/Subgraph/Index/View.antt =====
-- Handlers that leave the holders of the Nouns, the Nouns of the holders and the balances alone.
use composable_nouns_monorep.Common.{
  ◌≡◌, refl, ◌∙◌, ap, some, String, str_eq, eq_iff, arith, inl, inr, Bool-cases, if◌then◌else◌,
}
use composable_nouns_monorep.Subgraph.Host.{GraphNode, IsLawful}
use composable_nouns_monorep.Subgraph.Schema.{Account, Noun, Generated}
use composable_nouns_monorep.Subgraph.Store.{Store, get_or_create_account, save_noun, save_account}
use composable_nouns_monorep.Subgraph.Transfer.Accounts.{
  account_of, HasIds, HasNounIds, SameHoldings, same_load, load-account_of,
  account_of-get_or_create_account, account_of-id, load-get_or_create_account,
  nouns-get_or_create_account,
}
use composable_nouns_monorep.Subgraph.Transfer.Holdings.{owner_of}
use composable_nouns_monorep.Subgraph.Transfer.Ownership.{holder, Ownership, Tracks}

module _ (G : GraphNode) (N : Generated G) (L : IsLawful G) where
  pub record SameView (s t : Store G) : Type 0 where
    pub ids : HasIds G N L t
    pub noun_ids : HasNounIds G N t.nouns
    pub owners : (n : String) → holder (owner_of G N L t n) ≡ holder (owner_of G N L s n)
    pub nouns : (a : String) → (account_of G N t a).nouns ≡ (account_of G N s a).nouns
    pub balances :
        (a : String)
        → (account_of G N t a).token_balance_raw ≡ (account_of G N s a).token_balance_raw

  pub Tracks-SameView :
      {s t : Store G} (o : Ownership) → SameView s t → Tracks G N L s o → Tracks G N L t o
  Tracks-SameView o v k = record {
    ids = v.ids;
    noun_ids = v.noun_ids;
    owners = λ n. v.owners n ∙ k.owners n;
    held = λ a n z. rw (v.nouns a) (k.held a n z);
    balances = λ a. v.balances a ∙ rw (v.nouns a) (k.balances a);
  }

  pub same_owner :
      (s t : Store G)
      → t.nouns ≡ s.nouns
      → (n : String) → holder (owner_of G N L t n) ≡ holder (owner_of G N L s n)
  same_owner s t p n = rw p

  -- The tables of accounts and Nouns are as they were.
  pub SameHoldings-SameView :
      (s t : Store G)
      → SameHoldings G N s t
      → HasIds G N L s
      → HasNounIds G N s.nouns
      → SameView s t
  SameHoldings-SameView s t h i j = record {
    ids = λ a x q. i a x (rw h.accounts at q);
    noun_ids = λ n x q. j n x (rw h.nouns at q);
    owners = same_owner s t h.nouns;
    nouns = λ a. ap (λ (x : Account). x.nouns) (same a);
    balances = λ a. ap (λ (x : Account). x.token_balance_raw) (same a);
  }
    where
      same : (a : String) → account_of G N t a ≡ account_of G N s a
      same a = same_load G N t s a (ap (λ m. G.load m a) h.accounts)

  -- An account that is looked up may be created, with nothing in it.
  pub get_or_create_account-SameView :
      (k : String) (s : Store G)
      → HasIds G N L s
      → HasNounIds G N s.nouns
      → SameView s (get_or_create_account G N k s).1
  get_or_create_account-SameView k s i j = record {
    ids = λ a x q. ground (
      arith,
      load-get_or_create_account G N L k a s (account_of-id G N L s i k),
      account_of-id G N L s i k,
      eq_iff k a,
      i a x,
    );
    noun_ids = λ n x q. j n x (rw (nouns-get_or_create_account G N k s) at q);
    owners = same_owner s (get_or_create_account G N k s).1 (nouns-get_or_create_account G N k s);
    nouns = λ a. ap (λ (x : Account). x.nouns) (account_of-get_or_create_account G N L k a s i);
    balances = λ a.
        ap (λ (x : Account). x.token_balance_raw) (account_of-get_or_create_account G N L k a s i);
  }

  pub SameView-trans : {s t u : Store G} → SameView s t → SameView t u → SameView s u
  SameView-trans p q = record {
    ids = q.ids;
    noun_ids = q.noun_ids;
    owners = λ n. q.owners n ∙ p.owners n;
    nouns = λ a. q.nouns a ∙ p.nouns a;
    balances = λ a. q.balances a ∙ p.balances a;
  }

  -- A Noun that is written back with its owner.
  pub save_noun-SameView :
      (y : Noun) (s : Store G) (x : Noun)
      → HasIds G N L s
      → HasNounIds G N s.nouns
      → G.load s.nouns y.id ≡ some x
      → y.owner ≡ x.owner
      → SameView s (save_noun G y s)
  save_noun-SameView y s x i j found same = record {
    ids = i;
    noun_ids = λ n z q. ground (arith, L.load-save s.nouns y.id n y, eq_iff y.id n, j n z);
    owners = λ n. ground (arith, L.load-save s.nouns y.id n y, eq_iff y.id n);
    nouns = λ a. ap (λ (z : Account). z.nouns) (same_load G N (save_noun G y s) s a refl);
    balances =
        λ a. ap (λ (z : Account). z.token_balance_raw) (same_load G N (save_noun G y s) s a refl);
  }

  account_of-save_account :
      (y : Account) (s : Store G) (a : String)
      → account_of G N (save_account G y s) a ≡ (if str_eq y.id a then y else account_of G N s a)
  account_of-save_account y s a =
      let p = L.load-save s.accounts y.id a y in
      elim (Bool-cases (str_eq y.id a)) [
        | inl t ↦ rw t (load-account_of G N (save_account G y s) a y (rw t at p))
        | inr f ↦ rw f (same_load G N (save_account G y s) s a (rw f at p))
      ]

  -- An account that is written back with its Nouns and its balance.
  pub save_account-SameView :
      (y : Account) (s : Store G)
      → HasIds G N L s
      → HasNounIds G N s.nouns
      → y.nouns ≡ (account_of G N s y.id).nouns
      → y.token_balance_raw ≡ (account_of G N s y.id).token_balance_raw
      → SameView s (save_account G y s)
  save_account-SameView y s i j same_nouns same_balance = record {
    ids = λ a z q. ground (arith, L.load-save s.accounts y.id a y, eq_iff y.id a, i a z);
    noun_ids = j;
    owners = same_owner s (save_account G y s) refl;
    nouns = λ a. ground (arith, account_of-save_account y s a, eq_iff y.id a);
    balances = λ a. ground (arith, account_of-save_account y s a, eq_iff y.id a);
  }
