-- ===== src/Subgraph/Index/Tracking.antt =====
-- Every handler keeps the entities in step with the token contract.
use composable_nouns_monorep.Common.{
  some_path, ◌≡◌, refl, ◌∙◌, ap, Option, some, sym, subst, inl, inr, Option-cases, List, [], ◌∷◌,
}
use composable_nouns_monorep.Subgraph.Host.{GraphNode, IsLawful}
use composable_nouns_monorep.Subgraph.Schema.{Generated}
use composable_nouns_monorep.Subgraph.Store.{
  Store, save_seed, save_account, get_or_create_account, get_or_create_delegate,
}
use composable_nouns_monorep.Subgraph.Events.{NounCreated, DelegateChanged, noun_key}
use composable_nouns_monorep.Subgraph.Token.{handle_noun_created, handle_delegate_changed, seed_of}
use composable_nouns_monorep.Subgraph.Transfer.Accounts.{
  account_of, account_of-id, HasIds, HasNounIds, SameHoldings, get_or_create_delegate-SameHoldings,
  SameHoldings-trans,
}
use composable_nouns_monorep.Subgraph.Auctions.{AuctionBid, handle_auction_bid}
use composable_nouns_monorep.Subgraph.Transfer.Ownership.{
  Ownership, Tracks, IsPossible, owner_after, Tracks-handle_transfer,
}
use composable_nouns_monorep.Subgraph.Index.{
  Event, noun_created, delegate_changed, delegate_votes_changed, transfer, proposal_created,
  proposal_canceled, proposal_vetoed, proposal_executed, proposal_queued, vote_cast,
  min_quorum_votes_bps_set, max_quorum_votes_bps_set, quorum_coefficient_set, auction_created,
  auction_bid, auction_extended, auction_settled, index, index_all,
}
use composable_nouns_monorep.Subgraph.Index.View.{
  SameView, save_noun-SameView, save_account-SameView, Tracks-SameView, SameHoldings-SameView,
  get_or_create_account-SameView, SameView-trans,
}
use composable_nouns_monorep.Subgraph.Index.Frames.{
  proposal_created-SameHoldings, vote_cast-SameHoldings, log_delegations-SameHoldings,
  proposal_canceled-SameHoldings, proposal_vetoed-SameHoldings, proposal_queued-SameHoldings,
  proposal_executed-SameHoldings, min_quorum-SameHoldings, max_quorum-SameHoldings,
  coefficient-SameHoldings, votes_changed-SameHoldings, auction_created-SameHoldings,
  auction_extended-SameHoldings, auction_settled-SameHoldings,
}

module _ (G : GraphNode) where
  -- What the token contract's view becomes by an event, and what it asks of one.
  abbrev pub owners_after : Event G → Ownership → Ownership
  owners_after (transfer e) o = owner_after G e o
  owners_after _ o = o

  abbrev pub IsAllowed : Ownership → Event G → Type 0
  IsAllowed o (transfer e) = IsPossible G o e
  IsAllowed o _ = Unit {0}

  abbrev pub owners_after_all : List (Event G) → Ownership → Ownership
  owners_after_all [] o = o
  owners_after_all (e ∷ es) o = owners_after_all es (owners_after e o)

  abbrev pub AreAllowed : Ownership → List (Event G) → Type 0
  AreAllowed o [] = Unit {0}
  AreAllowed o (e ∷ es) = IsAllowed o e × AreAllowed (owners_after e o) es

module _ (G : GraphNode) (N : Generated G) (L : IsLawful G) where
  noun_created-SameView :
      (e : NounCreated G) (s : Store G)
      → HasIds G N L s
      → HasNounIds G N s.nouns
      → SameView G N L s (handle_noun_created G N e s)
  unfolding handle_noun_created
  noun_created-SameView e s i j = elim (Option-cases (G.load s.nouns (noun_key G e.token_id))) [
    | inl none_found ↦
        rw (none_found, handle_noun_created)
          (SameHoldings-SameView G N L s _ (record { accounts = refl; nouns = refl }) i j)
    | inr (x, found) ↦
        let s' = save_seed G (seed_of G N e) s in
        let seeded =
          SameHoldings-SameView G N L s s' (record { accounts = refl; nouns = refl }) i j in
        let y = record x { seed = some (noun_key G e.token_id) } in
        rw (found, handle_noun_created)
          (SameView-trans G N L seeded
            (save_noun-SameView G N L y s' x i j (ap (G.load s.nouns) (j _ x found) ∙ found) refl))
  ]

  delegate_changed-SameView :
      (e : DelegateChanged G) (s : Store G)
      → HasIds G N L s
      → HasNounIds G N s.nouns
      → SameView G N L s (handle_delegate_changed G N e s)
  unfolding handle_delegate_changed
  delegate_changed-SameView e s i j =
      let a = G.to_hex e.delegator in
      let s1 = (get_or_create_account G N a s).1 in
      let s2 = (get_or_create_delegate G N (G.to_hex e.from_delegate) s1).1 in
      let v1 = get_or_create_account-SameView G N L a s i j in
      let h2 = get_or_create_delegate-SameHoldings G N (G.to_hex e.from_delegate) s1 in
      let h3 = get_or_create_delegate-SameHoldings G N (G.to_hex e.to_delegate) s2 in
      let s3 = (get_or_create_delegate G N (G.to_hex e.to_delegate) s2).1 in
      let v3 =
        SameView-trans G N L v1
          (SameHoldings-SameView G N L s1 s3 (SameHoldings-trans G N h2 h3) v1.ids v1.noun_ids) in
      let to = (get_or_create_delegate G N (G.to_hex e.to_delegate) s2).0.id in
      let y = record (account_of G N s a) { delegate = some to } in
      let v4 =
        save_account-SameView G N L y s3 v3.ids v3.noun_ids
          (sym (ap (λ k. (account_of G N s3 k).nouns) (account_of-id G N L s i a) ∙ v3.nouns a))
          (sym (
            ap (λ k. (account_of G N s3 k).token_balance_raw) (account_of-id G N L s i a)
            ∙ v3.balances a)) in
      let logged = log_delegations-SameHoldings G N e _ _ (account_of G N s a).nouns _ in
      SameView-trans G N L v3 (
        SameView-trans G N L v4 (
          SameHoldings-SameView G N L (save_account G y s3) _
            (record { accounts = logged.accounts; nouns = logged.nouns }) v4.ids v4.noun_ids))

  auction_bid-SameView :
      (e : AuctionBid G) (s : Store G)
      → HasIds G N L s
      → HasNounIds G N s.nouns
      → SameView G N L s (handle_auction_bid G N e s)
  unfolding handle_auction_bid
  auction_bid-SameView e s i j =
      let v = get_or_create_account-SameView G N L (G.to_hex e.sender) s i j in
      let s1 = (get_or_create_account G N (G.to_hex e.sender) s).1 in
      elim (Option-cases (G.load s1.auctions (noun_key G e.noun_id))) [
        | inl f ↦
            rw (f, handle_auction_bid)
              (SameView-trans G N L v (
                SameHoldings-SameView G N L s1 _ (record { accounts = refl; nouns = refl }) v.ids
                  v.noun_ids))
        | inr (x, f) ↦
            rw (f, handle_auction_bid)
              (SameView-trans G N L v (
                SameHoldings-SameView G N L s1 _ (record { accounts = refl; nouns = refl }) v.ids
                  v.noun_ids))
      ]

  Tracks-view_some :
      (s u t : Store G) (o : Ownership)
      → Tracks G N L s o
      → SameView G N L s u
      → ◌≡◌ {A = Option (Store G)} (some u) (some t)
      → Tracks G N L t o
  Tracks-view_some s u t o k v h =
      subst (λ x. Tracks G N L x o) (some_path h) (Tracks-SameView G N L o v k)

  Tracks-same_some :
      (s u t : Store G) (o : Ownership)
      → Tracks G N L s o
      → SameHoldings G N s u
      → ◌≡◌ {A = Option (Store G)} (some u) (some t)
      → Tracks G N L t o
  Tracks-same_some s u t o k v h =
      Tracks-view_some s u t o k (SameHoldings-SameView G N L s u v k.ids k.noun_ids) h

  Tracks-index :
      (e : Event G) (s t : Store G) (o : Ownership)
      → Tracks G N L s o
      → IsAllowed G o e
      → index G N e s ≡ some t
      → Tracks G N L t (owners_after G e o)
  unfolding index
  Tracks-index (noun_created e) s t o k a h =
      Tracks-view_some s _ t o k (noun_created-SameView e s k.ids k.noun_ids) h
  Tracks-index (delegate_changed e) s t o k a h =
      Tracks-view_some s _ t o k (delegate_changed-SameView e s k.ids k.noun_ids) h
  Tracks-index (delegate_votes_changed e) s t o k a h =
      Tracks-same_some s _ t o k (votes_changed-SameHoldings G N e s) h
  Tracks-index (transfer e) s t o k a h =
      subst (λ u. Tracks G N L u (owner_after G e o)) (some_path h)
        (Tracks-handle_transfer G N L e s o k a)
  Tracks-index (proposal_created e) s t o k a h =
      Tracks-same_some s _ t o k (proposal_created-SameHoldings G N e s) h
  Tracks-index (proposal_canceled id) s t o k a h =
      Tracks-same_some s _ t o k (proposal_canceled-SameHoldings G N id s) h
  Tracks-index (proposal_vetoed id) s t o k a h =
      Tracks-same_some s _ t o k (proposal_vetoed-SameHoldings G N id s) h
  Tracks-index (proposal_executed id) s t o k a h =
      Tracks-same_some s _ t o k (proposal_executed-SameHoldings G N id s) h
  Tracks-index (proposal_queued id eta) s t o k a h =
      Tracks-same_some s _ t o k (proposal_queued-SameHoldings G N id eta s) h
  Tracks-index (vote_cast e) s t o k a h =
      Tracks-same_some s t t o k (vote_cast-SameHoldings G N e s t h) refl
  Tracks-index (min_quorum_votes_bps_set b v) s t o k a h =
      Tracks-same_some s _ t o k (min_quorum-SameHoldings G N b v s) h
  Tracks-index (max_quorum_votes_bps_set b v) s t o k a h =
      Tracks-same_some s _ t o k (max_quorum-SameHoldings G N b v s) h
  Tracks-index (quorum_coefficient_set b v) s t o k a h =
      Tracks-same_some s _ t o k (coefficient-SameHoldings G N b v s) h
  Tracks-index (auction_created e) s t o k a h =
      Tracks-same_some s _ t o k (auction_created-SameHoldings G N e s) h
  Tracks-index (auction_bid e) s t o k a h =
      Tracks-view_some s _ t o k (auction_bid-SameView e s k.ids k.noun_ids) h
  Tracks-index (auction_extended r id x) s t o k a h =
      Tracks-same_some s _ t o k (auction_extended-SameHoldings G N r id x s) h
  Tracks-index (auction_settled r id) s t o k a h =
      Tracks-same_some s _ t o k (auction_settled-SameHoldings G N r id s) h

  -- Where the entities say what the token contract says, and a history of events is indexed
  -- without an abort whose transfers each move a Noun from its holder to another address, the
  -- entities say afterwards what the contract says, whatever other events stand between the
  -- transfers.
  pub Tracks-index_all :
      (es : List (Event G)) (s t : Store G) (o : Ownership)
      → Tracks G N L s o
      → AreAllowed G o es
      → index_all G N es s ≡ some t
      → Tracks G N L t (owners_after_all G es o)
  unfolding index_all
  Tracks-index_all [] s t o k a h = subst (λ u. Tracks G N L u o) (some_path h) k
  Tracks-index_all (e ∷ es) s t o k a h = elim (Option-cases (index G N e s)) [
    | inl aborted ↦ let stopped = rw (aborted, index_all) at h in cc
    | inr (u, done) ↦
        Tracks-index_all es u t _ (Tracks-index e s u o k a.0 done) a.1 (rw (done, index_all) at h)
  ]
