-- ===== src/Composables/Tallies.antt =====
-- composablesWrapper.ts: the two loops of `getTokenHoldings` and `getChildTokens`, for any test that
-- finds a token in the list.
use composable_nouns_monorep.Common.{
  ℕ, ◌+◌, ◌-◌, ◌≤◌, ◌<◌, ◌≡◌, refl, ◌∙◌, true, ◌&&◌, List, [], ◌∷◌, ◌==◌, if◌then◌else◌, eq_iff, ℤ,
  pos, ◌+ℤ◌, ◌-ℤ◌, ltb_ℤ, ltb, pos_part, neg_part, int_laws, filter, arith, Bool-cases, inl, inr,
}
use composable_nouns_monorep.Composables.{
  TokenItem, SameToken, same_id, same_child, credit, debit, credit_all, debit_all, is_held,
}

-- A test that only compares keys.
pub record IsKeyTest (same : SameToken) : Type 0 where
  alike : (t h k : TokenItem) → same t h ≡ true → same k h ≡ same k t
  meet : (t h k : TokenItem) → same k t ≡ true → same k h ≡ true → same t h ≡ true
  balance_free : (k h : TokenItem) (b : ℤ) → same k (record h { balance = b }) ≡ same k h

pub same_id-IsKeyTest : IsKeyTest same_id
same_id-IsKeyTest = record {
  alike = λ t h k e. ground arith;
  meet = λ t h k p q. ground arith;
  balance_free = λ k h b. refl;
}

pub same_child-IsKeyTest : IsKeyTest same_child
same_child-IsKeyTest = record {
  alike = λ t h k e. ground (arith, eq_iff h.token_address t.token_address);
  meet = λ t h k p q. ground (
    arith,
    eq_iff h.token_address t.token_address,
    eq_iff t.token_address k.token_address,
    eq_iff h.token_address k.token_address,
  );
  balance_free = λ k h b. refl;
}

-- The balance under a key, 0 where the token is not listed, and how often it is listed.
abbrev pub held : SameToken → TokenItem → List TokenItem → ℤ
held same k [] = pos 0
held same k (h ∷ hs) = if same k h then h.balance else held same k hs

abbrev pub times_listed : SameToken → TokenItem → List TokenItem → ℕ
times_listed same k [] = 0
times_listed same k (h ∷ hs) = (if same k h then 1 else 0) + times_listed same k hs

-- The sum of the amounts of a list of events, as items, under a key.
abbrev pub moved : SameToken → TokenItem → List TokenItem → ℕ
moved same k [] = 0
moved same k (t ∷ ts) = (if same k t then pos_part t.balance else 0) + moved same k ts

-- Events carry unsigned amounts.
abbrev pub Amounts : List TokenItem → Type 0
Amounts [] = Unit
Amounts (t ∷ ts) = (neg_part t.balance ≡ 0) × Amounts ts

zero_add : (b : ℤ) → b ≡ pos 0 +ℤ b
unfolding ◌+ℤ◌
zero_add b = ground arith

-- A difference that the final filter cuts off at 0.
cut_off :
    (c d : ℤ) (m n : ℕ)
    → c ≡ pos 0 +ℤ pos m
    → d ≡ c -ℤ pos n
    → (if ltb_ℤ (pos 0) d then d else pos 0) ≡ pos (m - n)
unfolding ◌+ℤ◌ ◌-ℤ◌
cut_off c d m n p q = rw (q, p) (ground arith)

module _ (same : SameToken) (S : IsKeyTest same) (k : TokenItem) where
  held-credit :
      (t : TokenItem) (hs : List TokenItem)
      → held same k (credit same t hs)
        ≡ (if same k t then held same k hs +ℤ t.balance else held same k hs)
  unfolding credit
  held-credit t [] = ground (arith, zero_add t.balance)
  held-credit t (h ∷ hs) = elim (Bool-cases (same t h)) [
    | inl u ↦ rw (u, S.balance_free, S.alike t h k u, held) (ground arith)
    | inr u ↦ rw (u, credit) (ground (arith, S.meet t h k, held-credit t hs))
  ]

  -- A token is pushed where it is not listed.
  listed-credit :
      (t : TokenItem) (hs : List TokenItem)
      → times_listed same k (credit same t hs)
        ≡ (if same k t && times_listed same k hs == 0 then 1 else times_listed same k hs)
  unfolding credit
  listed-credit t [] = ground arith
  listed-credit t (h ∷ hs) = elim (Bool-cases (same t h)) [
    | inl u ↦ rw (u, S.balance_free, S.alike t h k u, times_listed) (ground arith)
    | inr u ↦ rw (u, credit) (ground (arith, S.meet t h k, listed-credit t hs))
  ]

  held-debit :
      (t : TokenItem) (hs : List TokenItem)
      → held same k (debit same t hs) ≡ (
          if same k t && ltb 0 (times_listed same k hs)
          then held same k hs -ℤ t.balance
          else held same k hs)
  unfolding debit
  held-debit t [] = ground arith
  held-debit t (h ∷ hs) = elim (Bool-cases (same t h)) [
    | inl u ↦ rw (u, S.balance_free, S.alike t h k u, held, times_listed) (ground arith)
    | inr u ↦ rw (u, debit) (ground (arith, S.meet t h k, held-debit t hs))
  ]

  listed-debit :
      (t : TokenItem) (hs : List TokenItem)
      → times_listed same k (debit same t hs) ≡ times_listed same k hs
  unfolding debit
  listed-debit t [] = refl
  listed-debit t (h ∷ hs) = elim (Bool-cases (same t h)) [
    | inl u ↦ rw (u, S.balance_free, times_listed) refl
    | inr u ↦ rw (u, debit) (ground (arith, listed-debit t hs))
  ]

  held-credit_all :
      (ts hs : List TokenItem)
      → Amounts ts
      → held same k (credit_all same ts hs) ≡ held same k hs +ℤ pos (moved same k ts)
  unfolding credit_all
  held-credit_all [] hs a = omega (int_laws)
  held-credit_all (t ∷ ts) hs a =
      rw (held-credit_all ts (credit same t hs) a.1, held-credit t hs)
        (elim (Bool-cases (same k t)) [
          | inl u ↦ rw u (omega (int_laws, a.0))
          | inr u ↦ rw u (omega int_laws)
        ])

  listed-debit_all :
      (ts hs : List TokenItem) → times_listed same k (debit_all same ts hs) ≡ times_listed same k hs
  unfolding debit_all
  listed-debit_all [] hs = refl
  listed-debit_all (t ∷ ts) hs = listed-debit_all ts (debit same t hs) ∙ listed-debit t hs

  held-debit_all :
      (ts hs : List TokenItem)
      → Amounts ts
      → 0 < times_listed same k hs
      → held same k (debit_all same ts hs) ≡ held same k hs -ℤ pos (moved same k ts)
  unfolding debit_all
  held-debit_all [] hs a l = omega int_laws
  held-debit_all (t ∷ ts) hs a l =
      let there : 0 < times_listed same k (debit same t hs) = rw (listed-debit t hs) l in
      let test : ltb 0 (times_listed same k hs) ≡ true = ground arith in
      rw (held-debit_all ts (debit same t hs) a.1 there, held-debit t hs, test)
        (elim (Bool-cases (same k t)) [
          | inl u ↦ rw u (omega (int_laws, a.0))
          | inr u ↦ rw u (omega int_laws)
        ])

  -- Listed at most once, and credited only where it is listed.
  listed-credit_all :
      (ts hs : List TokenItem)
      → times_listed same k hs ≤ 1
      → times_listed same k (credit_all same ts hs) ≤ 1
  unfolding credit_all
  listed-credit_all [] hs l = l
  listed-credit_all (t ∷ ts) hs l =
      listed-credit_all ts (credit same t hs) (ground (arith, listed-credit t hs))

  unlisted-credit_all :
      (ts hs : List TokenItem)
      → times_listed same k (credit_all same ts hs) ≡ 0
      → (times_listed same k hs ≡ 0) × (moved same k ts ≡ 0)
  unfolding credit_all
  unlisted-credit_all [] hs l = (l, refl)
  unlisted-credit_all (t ∷ ts) hs l =
      ground (arith, unlisted-credit_all ts (credit same t hs) l, listed-credit t hs)

  held-unlisted : (hs : List TokenItem) → times_listed same k hs ≡ 0 → held same k hs ≡ pos 0
  held-unlisted [] l = refl
  held-unlisted (h ∷ hs) l = ground (arith, held-unlisted hs)

  listed-filter :
      (hs : List TokenItem) → times_listed same k (filter is_held hs) ≤ times_listed same k hs
  listed-filter [] = omega arith
  listed-filter (h ∷ hs) = ground (arith, listed-filter hs)

  held-filter :
      (hs : List TokenItem)
      → times_listed same k hs ≤ 1
      → held same k (filter is_held hs)
        ≡ (if ltb_ℤ (pos 0) (held same k hs) then held same k hs else pos 0)
  held-filter [] l = ground arith
  held-filter (h ∷ hs) l = elim (Bool-cases (same k h)) [
    | inl u ↦
        let rest : times_listed same k (filter is_held hs) ≡ 0 = ground (arith, listed-filter hs) in
        ground (arith, held-unlisted (filter is_held hs) rest)
    | inr u ↦ ground (arith, held-filter hs)
  ]

  -- The whole tally: what came in less what went out, and 0 where more went out.
  abbrev pub tally : List TokenItem → List TokenItem → List TokenItem
  tally ins outs = filter is_held (debit_all same outs (credit_all same ins []))

  -- Where a key is listed once at most, it is listed afterwards if it is held.
  times_listed-filter :
      (hs : List TokenItem)
      → times_listed same k hs ≤ 1
      → times_listed same k (filter is_held hs)
        ≡ (if ltb_ℤ (pos 0) (held same k (filter is_held hs)) then 1 else 0)
  times_listed-filter [] l = ground arith
  times_listed-filter (h ∷ hs) l = elim (Bool-cases (same k h)) [
    | inl u ↦
        let rest : times_listed same k (filter is_held hs) ≡ 0 = ground (arith, listed-filter hs) in
        ground (arith, rest, held-unlisted (filter is_held hs) rest)
    | inr u ↦ ground (arith, times_listed-filter hs)
  ]

  pub held-tally :
      (ins outs : List TokenItem)
      → Amounts ins
      → Amounts outs
      → (held same k (tally ins outs) ≡ pos (moved same k ins - moved same k outs))
        × (times_listed same k (tally ins outs)
            ≡ (if ltb (moved same k outs) (moved same k ins) then 1 else 0))
  held-tally ins outs a b =
      let listed = listed-debit_all outs (credit_all same ins []) in
      let once = listed-credit_all ins [] (omega arith) in
      let final =
        held-filter (debit_all same outs (credit_all same ins [])) (omega (arith, listed, once)) in
      let holds : held same k (tally ins outs) ≡ pos (moved same k ins - moved same k outs) =
        elim (Bool-cases (ltb 0 (times_listed same k (credit_all same ins [])))) [
          | inl l ↦
              final
              ∙ cut_off _ _ _ _ (held-credit_all ins [] a) (held-debit_all outs _ b (ground arith))
          | inr l ↦
              let none_in = unlisted-credit_all ins [] (ground arith) in
              let unlisted =
                held-unlisted (debit_all same outs (credit_all same ins []))
                  (ground (arith, listed)) in
              rw (final, unlisted, none_in.1) (ground arith)
        ] in
      (
        holds,
        times_listed-filter (debit_all same outs (credit_all same ins []))
              (omega (arith, listed, once))
            ∙ rw holds (ground arith),
      )
