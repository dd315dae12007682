-- ===== src/Subgraph/Token/Delegation.antt =====
-- What `handleDelegateChanged` does to the two delegates and to the holder.
use composable_nouns_monorep.Common.{
  ◌+◌, ◌≡◌, refl, ◌∙◌, ap, some, String, str_eq, eq_iff, eq_refl, arith, inl, inr, Option-cases,
  Bool-cases, List, [], ◌∷◌, ◌++◌, if◌then◌else◌, false, not, count, count-append, count-filter,
  includes, filter,
}
use composable_nouns_monorep.Subgraph.Host.{GraphNode, IsLawful}
use composable_nouns_monorep.Subgraph.Schema.{Delegate, Generated}
use composable_nouns_monorep.Subgraph.Store.{
  Store, get_or_create_account, get_or_create_delegate, get_or_create_delegate_with_null_option,
  count_delegate,
}
use composable_nouns_monorep.Subgraph.Events.{DelegateChanged}
use composable_nouns_monorep.Subgraph.Token.{
  handle_delegate_changed, log_delegations, inc_i32, dec_i32,
}
use composable_nouns_monorep.Subgraph.Transfer.Accounts.{account_of}

module _ (G : GraphNode) (N : Generated G) where
  -- The delegate that a handler gets for an id.
  abbrev pub delegate_of : Store G → String → Delegate
  delegate_of s d = (get_or_create_delegate G N d s).0

  abbrev pub HasDelegateIds : Store G → Type 0
  HasDelegateIds s = (d : String) (x : Delegate) → G.load s.delegates d ≡ some x → x.id ≡ d

  pub delegate_of-id : (s : Store G) → HasDelegateIds s → (d : String) → (delegate_of s d).id ≡ d
  unfolding get_or_create_delegate
  delegate_of-id s h d = elim (Option-cases (G.load s.delegates d)) [
    | inl e ↦ rw (e, get_or_create_delegate_with_null_option)
    | inr (x, e) ↦ rw (e, get_or_create_delegate_with_null_option) (h d x e)
  ]

  pub load-delegate_of :
      (s : Store G) (d : String) (x : Delegate)
      → G.load s.delegates d ≡ some x
      → delegate_of s d ≡ x
  unfolding get_or_create_delegate
  load-delegate_of s d x p = rw (p, get_or_create_delegate_with_null_option)

  pub same_delegate :
      (s t : Store G) (d : String)
      → G.load s.delegates d ≡ G.load t.delegates d
      → delegate_of s d ≡ delegate_of t d
  unfolding get_or_create_delegate
  same_delegate s t d p = elim (Option-cases (G.load t.delegates d)) [
    | inl e ↦ rw (p, e, get_or_create_delegate_with_null_option)
    | inr (x, e) ↦ rw (p, e, get_or_create_delegate_with_null_option)
  ]

  delegates-count_delegate :
      (d : String) (s : Store G) → (count_delegate G N d s).delegates ≡ s.delegates
  unfolding count_delegate
  delegates-count_delegate d s = ground arith

  delegates-log_delegations :
      (e : DelegateChanged G) (p n : String) (ns : List String) (s : Store G)
      → (log_delegations G N e p n ns s).delegates ≡ s.delegates
  unfolding log_delegations
  delegates-log_delegations e p n [] s = refl
  delegates-log_delegations e p n (x ∷ ns) s = delegates-log_delegations e p n ns _

  module _ (L : IsLawful G) where
    pub load-get_or_create_delegate :
        (k d : String) (s : Store G)
        → HasDelegateIds s
        → G.load (get_or_create_delegate G N k s).1.delegates d
          ≡ (if str_eq k d then some (delegate_of s k) else G.load s.delegates d)
    unfolding get_or_create_delegate
    load-get_or_create_delegate k d s h = elim (Option-cases (G.load s.delegates k)) [
      | inl e ↦
          rw (e, get_or_create_delegate_with_null_option, L.load-save)
            (rw (delegates-count_delegate k s))
      | inr (x, e) ↦ rw (e, get_or_create_delegate_with_null_option) (ground (arith, eq_iff k d))
    ]

    pub delegate_of-get_or_create_delegate :
        (k d : String) (s : Store G)
        → HasDelegateIds s
        → delegate_of (get_or_create_delegate G N k s).1 d ≡ delegate_of s d
    delegate_of-get_or_create_delegate k d s h =
        let p = load-get_or_create_delegate k d s h in
        elim (Bool-cases (str_eq k d)) [
          | inl t ↦ load-delegate_of _ d _ (rw t at p) ∙ ap (delegate_of s) ((eq_iff k d).0 t)
          | inr f ↦ same_delegate _ s d (rw f at p)
        ]

    HasDelegateIds-get_or_create_delegate :
        (k : String) (s : Store G)
        → HasDelegateIds s
        → HasDelegateIds (get_or_create_delegate G N k s).1
    HasDelegateIds-get_or_create_delegate k s h d x q =
        ground (arith, load-get_or_create_delegate k d s h, delegate_of-id s h k, eq_iff k d, h d x)

    delegates-get_or_create_account :
        (k : String) (s : Store G) → (get_or_create_account G N k s).1.delegates ≡ s.delegates
    unfolding get_or_create_account
    delegates-get_or_create_account k s = ground arith

    -- The former delegate gives up the holder's Nouns.
    abbrev pub loses : Store G → String → String → Delegate
    loses s holder d =
        let x = delegate_of s d in
        let nouns = (account_of G N s holder).nouns in
        record x {
          token_holders_represented_amount = dec_i32 G N x.token_holders_represented_amount;
          nouns_represented = filter (λ n. not (includes nouns n)) x.nouns_represented;
        }

    -- The new one takes them on.
    abbrev pub gains : Store G → String → String → Delegate
    gains s holder d =
        let x = delegate_of s d in
        record x {
          token_holders_represented_amount = inc_i32 G N x.token_holders_represented_amount;
          nouns_represented = x.nouns_represented ++ (account_of G N s holder).nouns;
        }

    pub load-handle_delegate_changed :
        (e : DelegateChanged G) (s : Store G) (d : String)
        → HasDelegateIds s
        → G.load (handle_delegate_changed G N e s).delegates d ≡ (
            if str_eq (G.to_hex e.to_delegate) d
            then some (gains s (G.to_hex e.delegator) (G.to_hex e.to_delegate))
            else if str_eq (G.to_hex e.from_delegate) d
            then some (loses s (G.to_hex e.delegator) (G.to_hex e.from_delegate))
            else G.load s.delegates d)
    unfolding handle_delegate_changed
    load-handle_delegate_changed e s d h =
        let a = G.to_hex e.delegator in
        let p = G.to_hex e.from_delegate in
        let t = G.to_hex e.to_delegate in
        let s1 = (get_or_create_account G N a s).1 in
        let same1 = delegates-get_or_create_account a s in
        let h1 : HasDelegateIds s1 = λ d' x q. h d' x (rw same1 at q) in
        let s2 = (get_or_create_delegate G N p s1).1 in
        let h2 = HasDelegateIds-get_or_create_delegate p s1 h1 in
        let new_same : delegate_of s2 t ≡ delegate_of s t =
          delegate_of-get_or_create_delegate p t s1 h1
          ∙ same_delegate s1 s t (ap (λ m. G.load m t) same1) in
        let old_same : delegate_of s1 p ≡ delegate_of s p =
          same_delegate s1 s p (ap (λ m. G.load m p) same1) in
        let load3 = load-get_or_create_delegate t d s2 h2 in
        let load2 = load-get_or_create_delegate p d s1 h1 in
        rw
          (
            delegates-log_delegations e,
            L.load-save,
            L.load-save,
            load3,
            load2,
            same1,
            new_same,
            old_same,
            delegate_of-id s h t,
            delegate_of-id s h p,
          )
          (ground arith)

    -- Where delegates are stored under their ids, a change from one delegate to another moves the
    -- holder's Nouns: the new delegate gets each as often as the holder has it, the former keeps
    -- none of them, and a third delegate does not change.
    pub handle_delegate_changed_lem :
        (e : DelegateChanged G) (s : Store G) (n d : String)
        → HasDelegateIds s
        → str_eq (G.to_hex e.from_delegate) (G.to_hex e.to_delegate) ≡ false
        → str_eq (G.to_hex e.to_delegate) d ≡ false
        → str_eq (G.to_hex e.from_delegate) d ≡ false
        → let nouns = (account_of G N s (G.to_hex e.delegator)).nouns in
          let p = G.to_hex e.from_delegate in
          let t = G.to_hex e.to_delegate in
          let s' = handle_delegate_changed G N e s in
          (count n (delegate_of s' t).nouns_represented
            ≡ count n (delegate_of s t).nouns_represented + count n nouns)
          × (count n (delegate_of s' p).nouns_represented
              ≡ (if includes nouns n then 0 else count n (delegate_of s p).nouns_represented))
          × (delegate_of s' d ≡ delegate_of s d)
    handle_delegate_changed_lem e s n d h pt td pd =
        let nouns = (account_of G N s (G.to_hex e.delegator)).nouns in
        let p = G.to_hex e.from_delegate in
        let t = G.to_hex e.to_delegate in
        let s' = handle_delegate_changed G N e s in
        let at_t =
          load-delegate_of s' t _ (rw (eq_refl t) at (load-handle_delegate_changed e s t h)) in
        let tp : str_eq t p ≡ false = ground (arith, eq_iff p t, eq_iff t p, pt) in
        let at_p =
          load-delegate_of s' p _ (rw (tp, eq_refl p) at (load-handle_delegate_changed e s p h)) in
        (
          rw (at_t, count-append),
          rw at_p (
              count-filter (λ m. not (includes nouns m)) n (delegate_of s p).nouns_represented
              ∙ ground arith),
          same_delegate s' s d (rw (td, pd) at (load-handle_delegate_changed e s d h)),
        )

    -- Where delegates are stored under their ids, a change to the delegate that the holder already
    -- has lists the holder's Nouns again: the second copy of the entity overwrites the first, from
    -- which they had been removed.
    pub handle_delegate_changed_again :
        (e : DelegateChanged G) (s : Store G) (n : String)
        → HasDelegateIds s
        → G.to_hex e.from_delegate ≡ G.to_hex e.to_delegate
        → let s' = handle_delegate_changed G N e s in
          count n (delegate_of s' (G.to_hex e.to_delegate)).nouns_represented
          ≡ count n (delegate_of s (G.to_hex e.to_delegate)).nouns_represented
            + count n (account_of G N s (G.to_hex e.delegator)).nouns
    handle_delegate_changed_again e s n h same =
        let t = G.to_hex e.to_delegate in
        let s' = handle_delegate_changed G N e s in
        let at_t =
          load-delegate_of s' t _ (rw (eq_refl t) at (load-handle_delegate_changed e s t h)) in
        rw (at_t, count-append)
