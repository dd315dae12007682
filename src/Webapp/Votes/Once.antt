-- ===== src/Webapp/Votes/Once.antt =====
-- utils/getNounsVotes.ts on the data of pages/Vote/index.tsx: how often a Noun is counted.
use composable_nouns_monorep.Common.{
  ℕ, zero, suc, ◌+◌, ◌*◌, ◌≤◌, ◌≡◌, refl, ap, ◌∙◌, true, some, List, [], ◌∷◌, ◌==◌, if◌then◌else◌,
  String, str_eq, map, get_elem?, count, count-append, arith, Option-cases, Bool-cases, inl, inr,
  eq_iff, some_path, subst,
}
use composable_nouns_monorep.Webapp.Votes.{
  QueriedVote, Delegate, DelegateVote, concat, get_noun_votes, property, delegate_to_noun_ids,
  or_empty, delegate_votes,
}

abbrev pub voters : List QueriedVote → List String
voters votes = map (λ v. v.voter) votes

-- The Nouns of the snapshot.
abbrev pub snapshot_nouns : List Delegate → List String
snapshot_nouns delegates = concat (map (λ d. d.nouns_represented) delegates)

abbrev pub nouns_of : List Delegate → String → List String
nouns_of delegates voter = or_empty (property voter (delegate_to_noun_ids delegates))

abbrev delegate_vote : List Delegate → QueriedVote → DelegateVote
delegate_vote ds v = record {
  delegate = v.voter;
  support_detailed = v.support_detailed;
  nouns_represented = nouns_of ds v.voter;
}

scaled : (c m : ℕ) → c ≤ 1 → c * m ≤ m
scaled c m h = grind arith

module _ (n : String) where
  -- Over the voters.
  abbrev total : List Delegate → List QueriedVote → ℕ
  total ds [] = 0
  total ds (v ∷ votes) = count n (nouns_of ds v.voter) + total ds votes

  nouns_of-cons :
      (d : Delegate) (ds : List Delegate) (voter : String)
      → count n (nouns_of (d ∷ ds) voter)
        ≤ count n (nouns_of ds voter)
          + (if str_eq d.id voter then count n d.nouns_represented else 0)
  nouns_of-cons d ds voter = elim (Option-cases (property voter (delegate_to_noun_ids ds))) [
    | inl e ↦ rw e (elim (Bool-cases (str_eq d.id voter)) [
      | inl f ↦ rw f (omega arith)
      | inr f ↦ rw f (omega arith)
    ])
    | inr (xs, e) ↦ rw e (omega arith)
  ]

  total-cons :
      (d : Delegate) (ds : List Delegate) (votes : List QueriedVote)
      → total (d ∷ ds) votes
        ≤ total ds votes + count d.id (voters votes) * count n d.nouns_represented
  total-cons d ds [] = omega arith
  total-cons d ds (v ∷ votes) =
      let head = nouns_of-cons d ds v.voter in
      let rest = total-cons d ds votes in
      ground (arith, head, rest, eq_iff d.id v.voter, eq_iff v.voter d.id)

  total_nothing : (votes : List QueriedVote) → total [] votes ≡ 0
  total_nothing [] = refl
  total_nothing (v ∷ votes) = omega (arith, total_nothing votes)

  total-snapshot :
      (ds : List Delegate) (votes : List QueriedVote)
      → ((a : String) → count a (voters votes) ≤ 1)
      → total ds votes ≤ count n (snapshot_nouns ds)
  total-snapshot [] votes once = omega (arith, total_nothing votes)
  total-snapshot (d ∷ ds) votes once =
      let rest = total-snapshot ds votes once in
      let kept = count-append n d.nouns_represented (snapshot_nouns ds) in
      let all = total-cons d ds votes in
      let few = scaled (count d.id (voters votes)) (count n d.nouns_represented) (once d.id) in
      omega (arith, rest, kept, all, few)

  pub count-get_noun_votes :
      (s : ℕ) (v : DelegateVote) (vs : List DelegateVote)
      → count n (get_noun_votes s (v ∷ vs))
        ≡ (if v.support_detailed == s then count n v.nouns_represented else 0)
          + count n (get_noun_votes s vs)
  unfolding get_noun_votes
  count-get_noun_votes s v vs = elim (Bool-cases (v.support_detailed == s)) [
    | inl e ↦ rw e (count-append n v.nouns_represented (get_noun_votes s vs))
    | inr e ↦ rw e (omega arith)
  ]

  three_kinds :
      (vs : List DelegateVote)
      → count n (get_noun_votes 0 vs)
          + count n (get_noun_votes 1 vs)
          + count n (get_noun_votes 2 vs)
        ≤ count n (concat (map (λ v. v.nouns_represented) vs))
  unfolding get_noun_votes
  three_kinds [] = omega arith
  three_kinds (v ∷ vs) = ground (
    arith,
    count-get_noun_votes 0 v vs,
    count-get_noun_votes 1 v vs,
    count-get_noun_votes 2 v vs,
    count-append n v.nouns_represented (concat (map (λ v. v.nouns_represented) vs)),
    three_kinds vs,
  )

  count-delegate_votes :
      (ds : List Delegate) (votes : List QueriedVote)
      → count n (concat (map (λ v. v.nouns_represented) (delegate_votes votes ds))) ≡ total ds votes
  unfolding delegate_votes
  count-delegate_votes ds [] = refl
  count-delegate_votes ds (v ∷ votes) =
      count-append n (nouns_of ds v.voter)
        (concat (map (λ v. v.nouns_represented) (delegate_votes votes ds)))
      ∙ ap (λ m. count n (nouns_of ds v.voter) + m) (count-delegate_votes ds votes)

  counted :
      (ds : List Delegate) (votes : List QueriedVote) (i : ℕ) (v : QueriedVote)
      → get_elem? votes i ≡ some v
      → count n (nouns_of ds v.voter)
        ≤ count n (get_noun_votes v.support_detailed (delegate_votes votes ds))
  unfolding delegate_votes
  counted ds [] i v h = absurd (cc)
  counted ds (u ∷ votes) zero v h =
      let first = delegate_vote ds u in
      let same : u ≡ v = some_path h in
      subst
        (λ w.
          count n (nouns_of ds w.voter)
          ≤ count n (get_noun_votes w.support_detailed (first ∷ delegate_votes votes ds)))
        same
        (let cons = count-get_noun_votes u.support_detailed first (delegate_votes votes ds) in
          let here : (u.support_detailed == u.support_detailed) ≡ true = ground arith in
          ground (arith, cons, here))
  counted ds (u ∷ votes) (suc i) v h = omega (
    arith,
    count-get_noun_votes v.support_detailed (delegate_vote ds u) (delegate_votes votes ds),
    counted ds votes i v h,
  )

  -- The Nouns of a voter are in the list of the kind of the vote. Where no voter votes twice, the
  -- lists of the votes for, against and of abstention together have a Noun at most as often as the
  -- snapshot of the delegates has it: a Noun of one delegate is in one of them at most, once.
  pub get_noun_votes_once :
      (ds : List Delegate) (votes : List QueriedVote)
      → ((a : String) → count a (voters votes) ≤ 1)
      → (i : ℕ) (v : QueriedVote) → get_elem? votes i ≡ some v
      → (count n (nouns_of ds v.voter)
          ≤ count n (get_noun_votes v.support_detailed (delegate_votes votes ds)))
        × (count n (get_noun_votes 0 (delegate_votes votes ds))
              + count n (get_noun_votes 1 (delegate_votes votes ds))
              + count n (get_noun_votes 2 (delegate_votes votes ds))
            ≤ count n (snapshot_nouns ds))
  get_noun_votes_once ds votes once i v h = (
    counted ds votes i v h,
    omega (
      arith,
      three_kinds (delegate_votes votes ds),
      count-delegate_votes ds votes,
      total-snapshot ds votes once,
    ),
  )
