-- ===== src/Webapp/Activity/Order.antt =====
-- The history is the latest events first, without the events of the Noun's birth.
use mathlib.Core.List.{Perm}
use mathlib.Core.List.Perm
use composable_nouns_monorep.Common.{
  ℕ, zero, suc, ◌≤◌, ◌≡◌, refl, ap, List, [], ◌∷◌, if◌then◌else◌, arith, length, take,
}
use composable_nouns_monorep.Webapp.Activity.{NounProfileEvent, is_nounders}

abbrev pub NotBefore : ℕ → List NounProfileEvent → Type 0
NotBefore n [] = Unit {0}
NotBefore n (e ∷ events) = (n ≤ e.block_number) × NotBefore n events

abbrev pub NotAfter : ℕ → List NounProfileEvent → Type 0
NotAfter n [] = Unit {0}
NotAfter n (e ∷ events) = (e.block_number ≤ n) × NotAfter n events

abbrev pub IsEarliestFirst : List NounProfileEvent → Type 0
IsEarliestFirst [] = Unit {0}
IsEarliestFirst (e ∷ events) = NotBefore e.block_number events × IsEarliestFirst events

abbrev pub IsLatestFirst : List NounProfileEvent → Type 0
IsLatestFirst [] = Unit {0}
IsLatestFirst (e ∷ events) = NotAfter e.block_number events × IsLatestFirst events

NotAfter-take : (n k : ℕ) (l : List NounProfileEvent) → NotAfter n l → NotAfter n (take k l)
NotAfter-take n zero l h = tt
NotAfter-take n (suc k) [] h = tt
NotAfter-take n (suc k) (e ∷ l) (h, rest) = (h, NotAfter-take n k l rest)

IsLatestFirst-take :
    (k : ℕ) (l : List NounProfileEvent) → IsLatestFirst l → IsLatestFirst (take k l)
IsLatestFirst-take zero l h = tt
IsLatestFirst-take (suc k) [] h = tt
IsLatestFirst-take (suc k) (e ∷ l) (h, rest) =
    (NotAfter-take e.block_number k l h, IsLatestFirst-take k l rest)

length-take : (k : ℕ) (l : List NounProfileEvent) → k ≤ length l → length (take k l) ≡ k
length-take zero l h = refl
length-take (suc k) [] h = absurd (omega arith)
length-take (suc k) (e ∷ l) h = ap suc (length-take k l (omega arith))

-- How many events a Noun's birth leaves.
abbrev pub birth_events : ℕ → ℕ
birth_events id = if is_nounders id then 2 else 4
