-- ===== src/Subgraph/Transfer/Ownership.antt =====
-- `handleTransfer` against the token contract's own view: a function from Nouns to holders.
use composable_nouns_monorep.Common.{
  ◌≡◌, refl, Option, none, some, String, str_eq, eq_iff, arith, [], ◌∷◌, false, if◌then◌else◌,
  count, count-append, count-filter, length, length-append, length-filter_out, pos, +ℤ_pos, -ℤ_one,
  not, ◌+◌, suc, filter,
}
use composable_nouns_monorep.Subgraph.Host.{GraphNode, IsLawful}
use composable_nouns_monorep.Subgraph.Schema.{Account, Generated}
use composable_nouns_monorep.Subgraph.Store.{Store, zero_address}
use composable_nouns_monorep.Subgraph.Events.{Transfer, noun_key}
use composable_nouns_monorep.Subgraph.Transfer.{debit, credit, handle_transfer}
use composable_nouns_monorep.Subgraph.Transfer.Accounts.{account_of, HasIds, HasNounIds}
use composable_nouns_monorep.Subgraph.Transfer.Holdings.{
  owner_of, account_of-handle_transfer, HasIds-handle_transfer, HasNounIds-handle_transfer,
  load_nouns-handle_transfer,
}

-- The holder of each Noun; the zero address for one that is not minted.
abbrev pub Ownership : Type 0
Ownership = String → String

abbrev pub holder : Option String → String
holder none = zero_address
holder (some a) = a

module _ (G : GraphNode) where
  abbrev pub owner_after : Transfer G → Ownership → Ownership
  owner_after e o n = if str_eq (noun_key G e.token_id) n then G.to_hex e.receiver else o n

  -- The contract moves a Noun from its holder to another address.
  pub record IsPossible (o : Ownership) (e : Transfer G) : Type 0 where
    pub from_holder : o (noun_key G e.token_id) ≡ G.to_hex e.sender
    pub moves : str_eq (G.to_hex e.sender) (G.to_hex e.receiver) ≡ false

module _ (G : GraphNode) (N : Generated G) (L : IsLawful G) where
  -- The entities say the same as the contract.
  pub record Tracks (s : Store G) (o : Ownership) : Type 0 where
    pub ids : HasIds G N L s
    pub noun_ids : HasNounIds G N s.nouns
    pub owners : (n : String) → holder (owner_of G N L s n) ≡ o n
    pub held :
        (a n : String)
        → str_eq a zero_address ≡ false
        → count n (account_of G N s a).nouns ≡ (if str_eq (o n) a then 1 else 0)
    pub balances :
        (a : String)
        → (account_of G N s a).token_balance_raw ≡ pos (length (account_of G N s a).nouns)

  owners-handle_transfer :
      (e : Transfer G) (s : Store G) (o : Ownership)
      → Tracks s o
      → (n : String) → holder (owner_of G N L (handle_transfer G N e s) n) ≡ owner_after G e o n
  owners-handle_transfer e s o t n =
      ground (arith, load_nouns-handle_transfer G N L e s n t.ids t.noun_ids, t.owners n)

  count-credit :
      (k n : String) (x : Account)
      → count n (credit G N k x).nouns ≡ count n x.nouns + (if str_eq k n then 1 else 0)
  unfolding credit
  count-credit k n x = ground (arith, count-append n x.nouns (k ∷ []))

  count-debit :
      (k n : String) (x : Account)
      → count n (debit G N k x).nouns ≡ (if str_eq n k then 0 else count n x.nouns)
  unfolding debit
  count-debit k n x = ground (arith, count-filter (λ m. not (str_eq m k)) n x.nouns)

  held-handle_transfer :
      (e : Transfer G) (s : Store G) (o : Ownership)
      → Tracks s o
      → IsPossible G o e
      → (a n : String) → str_eq a zero_address ≡ false
      → count n (account_of G N (handle_transfer G N e s) a).nouns
        ≡ (if str_eq (owner_after G e o n) a then 1 else 0)
  held-handle_transfer e s o t p a n z =
      let k = noun_key G e.token_id in
      let f = G.to_hex e.sender in
      let r = G.to_hex e.receiver in
      ground (
        arith,
        account_of-handle_transfer G N L e s a t.ids,
        count-credit k n (account_of G N s r),
        count-debit k n (account_of G N s f),
        t.held a n z,
        eq_iff r a,
        eq_iff f a,
        eq_iff f r,
        eq_iff k n,
        eq_iff n k,
        eq_iff (o n) a,
        p.from_holder,
        p.moves,
      )

  balance-credit :
      (k : String) (x : Account)
      → x.token_balance_raw ≡ pos (length x.nouns)
      → (credit G N k x).token_balance_raw ≡ pos (length (credit G N k x).nouns)
  unfolding credit
  balance-credit k x h = rw (h, +ℤ_pos, length-append) refl

  balance-debit :
      (k : String) (x : Account)
      → x.token_balance_raw ≡ pos (length x.nouns)
      → count k x.nouns ≡ 1
      → (debit G N k x).token_balance_raw ≡ pos (length (debit G N k x).nouns)
  unfolding debit
  balance-debit k x h one =
      let rest = length (filter (λ n. not (str_eq n k)) x.nouns) in
      let all : length x.nouns ≡ suc rest = omega (arith, length-filter_out k x.nouns) in
      rw (h, all) (-ℤ_one rest)

  balances-handle_transfer :
      (e : Transfer G) (s : Store G) (o : Ownership)
      → Tracks s o
      → IsPossible G o e
      → (a : String)
      → (account_of G N (handle_transfer G N e s) a).token_balance_raw
        ≡ pos (length (account_of G N (handle_transfer G N e s) a).nouns)
  balances-handle_transfer e s o t p a =
      let k = noun_key G e.token_id in
      let f = G.to_hex e.sender in
      let r = G.to_hex e.receiver in
      ground (
        arith,
        account_of-handle_transfer G N L e s a t.ids,
        balance-credit k (account_of G N s r) (t.balances r),
        balance-debit k (account_of G N s f) (t.balances f),
        t.balances f,
        t.held f k,
        eq_iff r a,
        eq_iff f a,
        eq_iff (o k) f,
        t.balances a,
        p.from_holder,
      )

  -- A transfer of a Noun from its holder to another address keeps the entities in step with the
  -- contract: the owner of every Noun, the Nouns of every account but the zero address, and every
  -- balance.
  pub Tracks-handle_transfer :
      (e : Transfer G) (s : Store G) (o : Ownership)
      → Tracks s o
      → IsPossible G o e
      → Tracks (handle_transfer G N e s) (owner_after G e o)
  Tracks-handle_transfer e s o t p = record {
    ids = HasIds-handle_transfer G N L e s t.ids;
    noun_ids = HasNounIds-handle_transfer G N L e s t.ids t.noun_ids;
    owners = owners-handle_transfer e s o t;
    held = held-handle_transfer e s o t p;
    balances = balances-handle_transfer e s o t p;
  }
