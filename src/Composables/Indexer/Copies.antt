-- ===== src/Composables/Indexer/Copies.antt =====
-- Tables that take the rows of new events, in general: each index function is one.
use mathlib.Core.List.{append_assoc}
use composable_nouns_monorep.Common.{
  ◌≡◌, refl, ap, ◌∙◌, Bool, true, false, not, ◌||◌, List, [], ◌∷◌, ◌++◌, map, filter, arith,
  Bool-cases, inl, inr,
}

-- A table that takes the rows of new events, in general: `has` tells whether a table has an event.
module _ {E R : Type 0} (has : List R → E → Bool) (row : E → R) where
  abbrev pub fresh : List R → List E → List E
  fresh T = filter (λ e. not (has T e))

  abbrev pub copy_new : List R → List E → List R
  copy_new T es = T ++ map row (fresh T es)

  -- None of the later events has a row that an earlier one has.
  abbrev pub AreNew : List E → List E → Type 0
  AreNew es [] = Unit
  AreNew es (m ∷ ms) = (has (map row es) m ≡ false) × AreNew es ms

  pub record IsTest : Type 0 where
    pub has-append : (T U : List R) (e : E) → has (T ++ U) e ≡ (has T e || has U e)
    pub has-cons : (T : List R) (e : E) → has (row e ∷ T) e ≡ true

  module _ (H : IsTest) where
    has-skip : (r : R) (T : List R) (e : E) → has T e ≡ true → has (r ∷ T) e ≡ true
    has-skip r T e h = H.has-append (r ∷ []) T e ∙ ground (arith, h)

    -- Each event has a row in the table.
    abbrev IsKnown : List R → List E → Type 0
    IsKnown T [] = Unit
    IsKnown T (e ∷ es) = (has T e ≡ true) × IsKnown T es

    IsKnown-mono :
        (T U : List R) (es : List E)
        → ((e : E) → has T e ≡ true → has U e ≡ true)
        → IsKnown T es
        → IsKnown U es
    IsKnown-mono T U [] h k = tt
    IsKnown-mono T U (e ∷ es) h k = (h e k.0, IsKnown-mono T U es h k.1)

    IsKnown-rows : (es : List E) → IsKnown (map row es) es
    IsKnown-rows [] = tt
    IsKnown-rows (e ∷ es) = (
      H.has-cons (map row es) e,
      IsKnown-mono (map row es) _ es (has-skip (row e) (map row es)) (IsKnown-rows es),
    )

    has-copy_new : (T : List R) (e : E) (es : List E) → has (copy_new T (e ∷ es)) e ≡ true
    has-copy_new T e es = elim (Bool-cases (has T e)) [
      | inl h ↦ rw h (H.has-append T (map row (fresh T es)) e ∙ ground (arith, h))
      | inr h ↦ rw h (
          H.has-append T (row e ∷ map row (fresh T es)) e
          ∙ ground (arith, H.has-cons (map row (fresh T es)) e))
    ]

    copy_new-keeps :
        (T : List R) (e : E) (es : List E) (f : E)
        → has (copy_new T es) f ≡ true
        → has (copy_new T (e ∷ es)) f ≡ true
    copy_new-keeps T e es f k = elim (Bool-cases (has T e)) [
      | inl h ↦ rw h k
      | inr h ↦ rw h (
          H.has-append T (row e ∷ map row (fresh T es)) f
          ∙ ground (
            arith,
            k,
            H.has-append T (map row (fresh T es)) f,
            has-skip (row e) (map row (fresh T es)) f,
          ))
    ]

    IsKnown-copy_new : (T : List R) (es : List E) → IsKnown (copy_new T es) es
    IsKnown-copy_new T [] = tt
    IsKnown-copy_new T (e ∷ es) = (
      has-copy_new T e es,
      IsKnown-mono (copy_new T es) _ es (copy_new-keeps T e es) (IsKnown-copy_new T es),
    )

    fresh-known : (T : List R) (es : List E) → IsKnown T es → fresh T es ≡ []
    fresh-known T [] k = refl
    fresh-known T (e ∷ es) k = rw k.0 (fresh-known T es k.1)

    has-fresh :
        (T : List R) (es : List E) (m : E)
        → has (map row es) m ≡ false
        → has (map row (fresh T es)) m ≡ false
    has-fresh T [] m h = h
    has-fresh T (e ∷ es) m h =
        let one = H.has-append (row e ∷ []) (map row es) m in
        let two = H.has-append (row e ∷ []) (map row (fresh T es)) m in
        elim (Bool-cases (has T e)) [
          | inl k ↦ rw k (has-fresh T es m (ground (arith, one)))
          | inr k ↦ rw k (ground (arith, one, two, has-fresh T es m))
        ]

    fresh-new :
        (T : List R) (es more : List E) → AreNew es more → fresh (copy_new T es) more ≡ fresh T more
    fresh-new T es [] h = refl
    fresh-new T es (m ∷ ms) h =
        let same : has (copy_new T es) m ≡ has T m =
          H.has-append T (map row (fresh T es)) m ∙ ground (arith, has-fresh T es m h.0) in
        rw (same, fresh-new T es ms h.1) refl

    pub fresh-append :
        (T : List R) (es more : List E) → fresh T (es ++ more) ≡ fresh T es ++ fresh T more
    fresh-append T [] more = refl
    fresh-append T (e ∷ es) more = elim (Bool-cases (has T e)) [
      | inl h ↦ rw h (fresh-append T es more)
      | inr h ↦ rw h (ap (λ xs. e ∷ xs) (fresh-append T es more))
    ]

    pub map-append_rows : (es fs : List E) → map row (es ++ fs) ≡ map row es ++ map row fs
    map-append_rows [] fs = refl
    map-append_rows (e ∷ es) fs = ap (λ xs. row e ∷ xs) (map-append_rows es fs)

    -- A second run over a longer log takes what was added to it.
    pub fresh-again :
        (T : List R) (es more : List E)
        → AreNew es more
        → fresh (copy_new T es) (es ++ more) ≡ fresh T more
    fresh-again T es more h =
        rw
          (
            fresh-append (copy_new T es) es more,
            fresh-known (copy_new T es) es (IsKnown-copy_new T es),
          )
          (fresh-new T es more h)

    -- It ends where one run over that log ends.
    pub copy_new-again :
        (T : List R) (es more : List E)
        → AreNew es more
        → copy_new (copy_new T es) (es ++ more) ≡ copy_new T (es ++ more)
    copy_new-again T es more h =
        rw
          (
            fresh-again T es more h,
            fresh-append T es more,
            map-append_rows (fresh T es) (fresh T more),
          )
          (append_assoc T (map row (fresh T es)) (map row (fresh T more)))

    -- A table of the rows of a log becomes that of the longer log.
    pub copy_new-rows :
        (es more : List E)
        → AreNew es more
        → copy_new (map row es) (es ++ more) ≡ map row (es ++ more)
    copy_new-rows es more h =
        rw
          (
            fresh-append (map row es) es more,
            fresh-known (map row es) es (IsKnown-rows es),
            fresh-unseen more h,
            map-append_rows es more,
          )
          refl
      where
        fresh-unseen : (ms : List E) → AreNew es ms → fresh (map row es) ms ≡ ms
        fresh-unseen [] h = refl
        fresh-unseen (m ∷ ms) h = rw (h.0, fresh-unseen ms h.1) refl
