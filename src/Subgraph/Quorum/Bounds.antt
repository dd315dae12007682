-- ===== src/Subgraph/Quorum/Bounds.antt =====
-- The quorum that `dynamicQuorumVotes` computes, against its formula over the natural numbers.
use native.Mathlib.Nat.{le-div_iff_mul-le, mul-le-mul_left, div-mul-le_self}
use composable_nouns_monorep.Common.{
  ℕ, suc, ◌+◌, ◌*◌, ◌/◌, ◌≤◌, ◌<◌, ◌^◌, ◌≡◌, ◌∙◌, sym, Option, none, some, arith, ℤ, pos, *ℤ_pos,
  +ℤ_pos, ltb, if◌then◌else◌,
}
use composable_nouns_monorep.Subgraph.Host.{GraphNode, IsLawful}
use composable_nouns_monorep.Subgraph.Quorum.{dynamic_quorum_votes, min_ℤ}

-- The share of the supply that has voted against, in basis points, times the coefficient, on top
-- of the minimum.
abbrev pub adjusted_bps : ℕ → ℕ → ℕ → ℕ → ℕ
adjusted_bps against supply min_bps coefficient =
    coefficient * (against * 10000 / supply) / 1000000 + min_bps

abbrev lesser : ℕ → ℕ → ℕ
lesser a b = if ltb b a then b else a

abbrev pub quorum_value : ℕ → ℕ → ℕ → ℕ → ℕ → ℕ
quorum_value against supply min_bps max_bps coefficient =
    supply * lesser max_bps (adjusted_bps against supply min_bps coefficient) / 10000

min_ℤ-pos : (a b : ℕ) → min_ℤ (pos a) (pos b) ≡ pos (lesser a b)
min_ℤ-pos a b = ground arith

module _ (G : GraphNode) (L : IsLawful G) where
  -- With a supply that is not zero and an adjusted share below 2 ^ 31, the computation returns,
  -- and returns the formula's value over the natural numbers.
  pub dynamic_quorum_votes-eq-quorum_value :
      (against m min_bps max_bps coefficient : ℕ)
      → adjusted_bps against (suc m) min_bps coefficient < 2 ^ 31
      → dynamic_quorum_votes G against (pos (suc m)) (pos min_bps) (pos max_bps) coefficient
        ≡ some (pos (quorum_value against (suc m) min_bps max_bps coefficient))
  unfolding dynamic_quorum_votes
  dynamic_quorum_votes-eq-quorum_value against m min_bps max_bps coefficient h =
      let share = against * 10000 / suc m in
      let adjusted = adjusted_bps against (suc m) min_bps coefficient in
      rw
        (
          *ℤ_pos against 10000,
          L.div-pos (against * 10000) m,
          *ℤ_pos coefficient share,
          L.div-pos (coefficient * share) 999999,
          +ℤ_pos (coefficient * share / 1000000) min_bps,
          L.to_i32-pos adjusted h,
          min_ℤ-pos max_bps adjusted,
          *ℤ_pos (suc m) (lesser max_bps adjusted),
        )
        (L.div-pos _ 9999)

  -- Without a supply the computation aborts.
  pub dynamic_quorum_votes-no_supply :
      (against : ℕ) (min_bps max_bps : ℤ) (coefficient : ℕ)
      → dynamic_quorum_votes G against (pos 0) min_bps max_bps coefficient ≡ none
  unfolding dynamic_quorum_votes
  dynamic_quorum_votes-no_supply against min_bps max_bps coefficient = rw L.div-zero

div_mono : (a b k : ℕ) → a ≤ b → a / suc k ≤ b / suc k
div_mono a b k h =
    let below = div-mul-le_self a (suc k) in
    let pos_k : 0 < suc k = omega arith in (le-div_iff_mul-le pos_k).1 (omega arith)

-- A coefficient and more votes against raise the adjusted share.
adjusted_bps_mono :
    (x y m min_bps coefficient : ℕ)
    → x ≤ y
    → adjusted_bps x (suc m) min_bps coefficient ≤ adjusted_bps y (suc m) min_bps coefficient
adjusted_bps_mono x y m min_bps coefficient h =
    let shares = div_mono (x * 10000) (y * 10000) m (omega arith) in
    let scaled = mul-le-mul_left coefficient shares in
    let parts = div_mono _ _ 999999 scaled in omega arith

lesser_bounds : (a b c : ℕ) → c ≤ a → c ≤ b → (c ≤ lesser a b) × (lesser a b ≤ a)
lesser_bounds a b c h k = (ground arith, ground arith)

lesser_mono : (a b c : ℕ) → b ≤ c → lesser a b ≤ lesser a c
lesser_mono a b c h = ground arith

quorum_value_bounds :
    (against m min_bps max_bps coefficient : ℕ)
    → min_bps ≤ max_bps
    → (suc m * min_bps / 10000 ≤ quorum_value against (suc m) min_bps max_bps coefficient)
      × (quorum_value against (suc m) min_bps max_bps coefficient ≤ suc m * max_bps / 10000)
quorum_value_bounds against m min_bps max_bps coefficient h =
    let adjusted = adjusted_bps against (suc m) min_bps coefficient in
    let bounds = lesser_bounds max_bps adjusted min_bps h (omega arith) in
    (
      div_mono _ _ 9999 (mul-le-mul_left (suc m) bounds.0),
      div_mono _ _ 9999 (mul-le-mul_left (suc m) bounds.1),
    )

quorum_value_mono :
    (x y m min_bps max_bps coefficient : ℕ)
    → x ≤ y
    → quorum_value x (suc m) min_bps max_bps coefficient
      ≤ quorum_value y (suc m) min_bps max_bps coefficient
quorum_value_mono x y m min_bps max_bps coefficient h = div_mono _ _ 9999 (
    mul-le-mul_left (suc m)
      (lesser_mono max_bps _ _ (adjusted_bps_mono x y m min_bps coefficient h)))

some_pos : {a b : ℕ} → ◌≡◌ {A = Option ℤ} (some (pos a)) (some (pos b)) → a ≡ b
some_pos h = cc

module _ (G : GraphNode) (L : IsLawful G) where
  -- With a supply, a minimum no more than the maximum and an adjusted share below 2 ^ 31, the
  -- computation returns a quorum that lies between the two bounds' shares of the supply.
  pub dynamic_quorum_votes_bounds :
      (against m min_bps max_bps coefficient : ℕ)
      → min_bps ≤ max_bps
      → adjusted_bps against (suc m) min_bps coefficient < 2 ^ 31
      → (v : ℕ) × (dynamic_quorum_votes G against
            (pos (suc m))
            (pos min_bps)
            (pos max_bps)
            coefficient
          ≡ some (pos v))
        × (suc m * min_bps / 10000 ≤ v)
        × (v ≤ suc m * max_bps / 10000)
  dynamic_quorum_votes_bounds against m min_bps max_bps coefficient h fits =
      let bounds = quorum_value_bounds against m min_bps max_bps coefficient h in
      (
        quorum_value against (suc m) min_bps max_bps coefficient,
        dynamic_quorum_votes-eq-quorum_value G L against m min_bps max_bps coefficient fits,
        bounds.0,
        bounds.1,
      )

  -- With a supply that is not zero, more votes against never lower the quorum that the computation
  -- returns, while the adjusted share of the larger number is below 2 ^ 31.
  pub dynamic_quorum_votes_mono :
      (x y m min_bps max_bps coefficient v w : ℕ)
      → x ≤ y
      → adjusted_bps y (suc m) min_bps coefficient < 2 ^ 31
      → dynamic_quorum_votes G x (pos (suc m)) (pos min_bps) (pos max_bps) coefficient
        ≡ some (pos v)
      → dynamic_quorum_votes G y (pos (suc m)) (pos min_bps) (pos max_bps) coefficient
        ≡ some (pos w)
      → v ≤ w
  dynamic_quorum_votes_mono x y m min_bps max_bps coefficient v w h fits p q =
      let less = adjusted_bps_mono x y m min_bps coefficient h in
      let at_x =
        dynamic_quorum_votes-eq-quorum_value G L x m min_bps max_bps coefficient (omega arith) in
      let at_y = dynamic_quorum_votes-eq-quorum_value G L y m min_bps max_bps coefficient fits in
      let grows = quorum_value_mono x y m min_bps max_bps coefficient h in
      let v_eq = some_pos (sym p ∙ at_x) in let w_eq = some_pos (sym q ∙ at_y) in omega arith
