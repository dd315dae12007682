-- ===== src/Composer/Save/Moves.antt =====
-- What the contract's moves do to the positions of the children.
use composable_nouns_monorep.Common.{
  ℕ, ◌≡◌, refl, ap, sym, ◌∙◌, Bool, true, false, ◌&&◌, ◌==◌, if◌then◌else◌, eq_iff, eq_refl, arith,
  Bool-cases, inl, inr,
}
use composable_nouns_monorep.Composer.Save.Composition.{
  ChildToken, no_child, child_eq, is_child, Composition, remove_composed_child, clear_position,
  leave_position, compose_child, IsConsistent,
}

pub child_eq-eq : (c d : ChildToken) → child_eq c d ≡ true → c ≡ d
child_eq-eq c d h = ground (arith, eq_iff c.token_address d.token_address)

pub child_eq_refl : (c : ChildToken) → child_eq c c ≡ true
child_eq_refl c = ground (arith, eq_refl c.token_address)

pub child_eq-sym : (c d : ChildToken) → child_eq c d ≡ child_eq d c
child_eq-sym c d =
    ground (arith, eq_iff c.token_address d.token_address, eq_iff d.token_address c.token_address)

no_real_child : is_child no_child ≡ true → ⊥
no_real_child h = cc h

pub true-false : ◌≡◌ {A = Bool} true false → ⊥
true-false h = cc h

module _ (s : Composition) (S : IsConsistent s) where
  -- A child that stands at a position has that position, and no other.
  pub position-child_at :
      (c : ChildToken) (q : ℕ)
      → is_child c ≡ true
      → child_eq c (s.child_at q) ≡ true
      → s.position_of c ≡ q
  position-child_at c q h e =
      let same : c ≡ s.child_at q = child_eq-eq c (s.child_at q) e in
      rw same (S.placed q (rw (← same) h))

  child_at-position :
      (c : ChildToken) (q : ℕ)
      → is_child c ≡ true
      → s.position_of c ≡ q
      → (q == 0) ≡ false
      → s.child_at q ≡ c
  child_at-position c q h e z = rw (← e) (S.found c h (rw e z))

  remove-placed :
      (p q : ℕ)
      → is_child ((remove_composed_child p s).child_at q) ≡ true
      → (remove_composed_child p s).position_of ((remove_composed_child p s).child_at q) ≡ q
  unfolding remove_composed_child
  remove-placed p q = elim (Bool-cases (q == p)) [
    | inl e ↦ rw e (λ h. absurd (no_real_child h))
    | inr e ↦ rw e (λ h. ground (arith, S.placed q h, position-child_at (s.child_at q) p h))
  ]

  remove-found :
      (p : ℕ) (c : ChildToken)
      → is_child c ≡ true
      → ((remove_composed_child p s).position_of c == 0) ≡ false
      → (remove_composed_child p s).child_at ((remove_composed_child p s).position_of c) ≡ c
  unfolding remove_composed_child
  remove-found p c h = elim (Bool-cases (child_eq c (s.child_at p))) [
    | inl e ↦ rw e (λ z. absurd (true-false z))
    | inr e ↦ rw e (λ z. elim (Bool-cases (s.position_of c == p)) [
      | inl f ↦ absurd (
          true-false (
            sym (child_eq_refl c)
            ∙ ap (child_eq c)
                (sym (child_at-position c p h (ground (arith, f)) (ground (arith, f, z))))
            ∙ e))
      | inr f ↦ rw f (S.found c h z)
    ])
  ]

  remove-bare : (p : ℕ) → is_child ((remove_composed_child p s).child_at 0) ≡ false
  unfolding remove_composed_child
  remove-bare p = elim (Bool-cases (0 == p)) [ inl e ↦ rw e refl | inr e ↦ rw e S.bare ]

  remove-IsConsistent : (p : ℕ) → IsConsistent (remove_composed_child p s)
  remove-IsConsistent p = record {
    placed = remove-placed p;
    found = remove-found p;
    bare = remove-bare p;
  }

  clear-IsConsistent : (p : ℕ) → IsConsistent (clear_position p s)
  clear-IsConsistent p = elim (Bool-cases (is_child (s.child_at p))) [
    | inl e ↦ rw e (remove-IsConsistent p)
    | inr e ↦ rw e S
  ]

  leave-IsConsistent : (c : ChildToken) → IsConsistent (leave_position c s)
  leave-IsConsistent c = elim (Bool-cases (s.position_of c == 0)) [
    | inl e ↦ rw e S
    | inr e ↦ rw e (remove-IsConsistent (s.position_of c))
  ]

  child_at-clear :
      (p q : ℕ)
      → (clear_position p s).child_at q
        ≡ (if q == p && is_child (s.child_at p) then no_child else s.child_at q)
  unfolding remove_composed_child
  child_at-clear p q = elim (Bool-cases (is_child (s.child_at p))) [
    | inl e ↦ rw e (ground (arith))
    | inr e ↦ rw e (ground (arith))
  ]

  unplaced :
      (c : ChildToken) (q : ℕ)
      → is_child c ≡ true
      → (s.position_of c == 0) ≡ true
      → child_eq c (s.child_at q) ≡ false
  unplaced c q h z = elim (Bool-cases (child_eq c (s.child_at q))) [
    | inr f ↦ f
    | inl f ↦
        let at : s.position_of c ≡ q = position-child_at c q h f in
        let start : q ≡ 0 = ground (arith, at, z) in
        let same : c ≡ s.child_at 0 = child_eq-eq c (s.child_at q) f ∙ ap s.child_at start in
        absurd (true-false (sym h ∙ ap is_child same ∙ S.bare))
  ]

  child_at-leave :
      (c : ChildToken) (q : ℕ)
      → is_child c ≡ true
      → (leave_position c s).child_at q
        ≡ (if child_eq c (s.child_at q) then no_child else s.child_at q)
  unfolding remove_composed_child
  child_at-leave c q h = elim (Bool-cases (s.position_of c == 0)) [
    | inl e ↦ rw (e, unplaced c q h e) refl
    | inr e ↦ elim (Bool-cases (q == s.position_of c)) [
      | inl f ↦
          let same : s.child_at q ≡ c =
            child_at-position c q h (ground (arith, f)) (ground (arith, e, f)) in
          rw (e, f, same, child_eq_refl c) refl
      | inr f ↦
          let other : child_eq c (s.child_at q) ≡ false =
            ground (arith, f, position-child_at c q h) in
          rw (e, f, other) refl
    ]
  ]

  position-leave :
      (c : ChildToken) → is_child c ≡ true → ((leave_position c s).position_of c == 0) ≡ true
  unfolding remove_composed_child
  position-leave c h = elim (Bool-cases (s.position_of c == 0)) [
    | inl e ↦ rw e e
    | inr e ↦ rw (e, S.found c h e, child_eq_refl c) refl
  ]

-- A child without a position is put at a position without a child.
module _ (s : Composition) (S : IsConsistent s) (c : ChildToken) (p : ℕ) where
  abbrev put : Composition
  put = record {
    child_at = λ q. if q == p then c else s.child_at q;
    position_of = λ d. if child_eq d c then p else s.position_of d;
  }

  put-IsConsistent :
      is_child c ≡ true
      → (p == 0) ≡ false
      → is_child (s.child_at p) ≡ false
      → (s.position_of c == 0) ≡ true
      → IsConsistent put
  put-IsConsistent h z e k = record { placed = placed'; found = found'; bare = bare' }
    where
      placed' : (q : ℕ) → is_child (put.child_at q) ≡ true → put.position_of (put.child_at q) ≡ q
      placed' q = elim (Bool-cases (q == p)) [
        | inl f ↦ rw (f, child_eq_refl c) (λ l. ground (arith, f))
        | inr f ↦
            let other : child_eq (s.child_at q) c ≡ false =
              child_eq-sym (s.child_at q) c ∙ unplaced s S c q h k in
            rw (f, other) (λ l. S.placed q l)
      ]

      found' :
          (d : ChildToken)
          → is_child d ≡ true
          → (put.position_of d == 0) ≡ false
          → put.child_at (put.position_of d) ≡ d
      found' d l = elim (Bool-cases (child_eq d c)) [
        | inl f ↦
            let same : (p == p) ≡ true = ground arith in rw (f, same) (λ m. sym (child_eq-eq d c f))
        | inr f ↦ rw f (λ m. elim (Bool-cases (s.position_of d == p)) [
          | inl g ↦
              let at : s.child_at p ≡ d = child_at-position s S d p l (ground (arith, g)) z in
              absurd (true-false (sym l ∙ ap is_child (sym at) ∙ e))
          | inr g ↦ rw g (S.found d l m)
        ])
      ]

      bare' : is_child (put.child_at 0) ≡ false
      bare' = let other : (0 == p) ≡ false = ground (arith, z) in rw other S.bare

-- A child that is put at a position leaves its own, and the one that was there leaves it; the others
-- stay.
module _ (s : Composition) (S : IsConsistent s) (c : ChildToken) (p : ℕ) where
  abbrev cleared : Composition
  cleared = clear_position p s

  abbrev left : Composition
  left = leave_position c cleared

  compose_child-put :
      (p == 0) ≡ false
      → compose_child c p s ≡ put left (leave-IsConsistent cleared (clear-IsConsistent s S p) c) c p
  unfolding compose_child
  compose_child-put z = rw z refl

  pub child_at-compose_child :
      (q : ℕ)
      → is_child c ≡ true
      → (p == 0) ≡ false
      → (compose_child c p s).child_at q
        ≡ (if q == p then c else if child_eq c (s.child_at q) then no_child else s.child_at q)
  child_at-compose_child q h z = elim (Bool-cases (q == p)) [
    | inl e ↦ rw (compose_child-put z, e) refl
    | inr e ↦
        let kept : cleared.child_at q ≡ s.child_at q = child_at-clear s S p q ∙ ground (arith, e) in
        rw (compose_child-put z, e, child_at-leave cleared (clear-IsConsistent s S p) c q h, kept)
          refl
  ]

  cleared-empty : is_child (cleared.child_at p) ≡ false
  cleared-empty =
      let same : (p == p) ≡ true = ground arith in
      ap is_child (child_at-clear s S p p) ∙ elim (Bool-cases (is_child (s.child_at p))) [
        | inl e ↦ rw (same, e) refl
        | inr e ↦ rw (same, e) e
      ]

  left-empty : is_child c ≡ true → is_child (left.child_at p) ≡ false
  left-empty h =
      ap is_child (child_at-leave cleared (clear-IsConsistent s S p) c p h)
      ∙ elim (Bool-cases (child_eq c (cleared.child_at p))) [
        | inl e ↦ rw e refl
        | inr e ↦ rw e cleared-empty
      ]

  pub compose_child-IsConsistent :
      is_child c ≡ true → (p == 0) ≡ false → IsConsistent (compose_child c p s)
  compose_child-IsConsistent h z =
      let C = clear-IsConsistent s S p in
      rw (compose_child-put z) (
        put-IsConsistent left (leave-IsConsistent cleared C c) c p h z (left-empty h)
          (position-leave cleared C c h))
