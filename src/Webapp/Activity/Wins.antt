-- ===== src/Webapp/Activity/Wins.antt =====
-- The win of a Noun, from the first or the second of its transfers.
use composable_nouns_monorep.Common.{
  ℕ, ◌≡◌, refl, inl, inr, List, [], ◌∷◌, ltb, Bool-cases, drop, String, get_elem?,
}
use composable_nouns_monorep.Webapp.Activity.{
  NounProfileEvent, transfer_event, noun_win, insert_event, sort_events, win_at,
}

-- The events are transfers, as those of `useNounTransferEvents` are.
abbrev pub AreTransfers : List NounProfileEvent → Type 0
AreTransfers [] = Unit {0}
AreTransfers (e ∷ events) =
    ((f l h : String) × (e.payload ≡ transfer_event f l h)) × AreTransfers events

AreTransfers-insert_event :
    (e : NounProfileEvent) (l : List NounProfileEvent)
    → ((f t h : String) × (e.payload ≡ transfer_event f t h))
    → AreTransfers l
    → AreTransfers (insert_event e l)
unfolding insert_event
AreTransfers-insert_event e [] h k = (h, tt)
AreTransfers-insert_event e (x ∷ l) h k = elim (Bool-cases (ltb x.block_number e.block_number)) [
  | inl t ↦ rw (t, insert_event) (k.0, AreTransfers-insert_event e l h k.1)
  | inr t ↦ rw (t, insert_event) (h, k)
]

pub AreTransfers-sort_events :
    (l : List NounProfileEvent) → AreTransfers l → AreTransfers (sort_events l)
unfolding sort_events
AreTransfers-sort_events [] h = tt
AreTransfers-sort_events (e ∷ l) h =
    AreTransfers-insert_event e (sort_events l) h.0 (AreTransfers-sort_events l h.1)

-- The event of the win by the first of some transfers: its receiver, at its block.
abbrev pub WonBy : ℕ → List NounProfileEvent → List NounProfileEvent → Type 0
WonBy id [] won = won ≡ []
WonBy id (e ∷ transfers) won =
    (f l h : String) × (e.payload ≡ transfer_event f l h)
    × (won ≡ record { block_number = e.block_number; payload = noun_win id l h } ∷ [])

pub WonBy-first :
    (id : ℕ) (sorted : List NounProfileEvent)
    → AreTransfers sorted
    → WonBy id sorted (win_at id (get_elem? sorted 0))
WonBy-first id [] h = refl
WonBy-first id (e ∷ sorted) h = let (f, l, x, p) = h.0 in (f, l, x, p, rw p refl)

pub WonBy-second :
    (id : ℕ) (sorted : List NounProfileEvent)
    → AreTransfers sorted
    → WonBy id (drop 1 sorted) (win_at id (get_elem? sorted 1))
WonBy-second id [] h = refl
WonBy-second id (e ∷ sorted) h = WonBy-first id sorted h.1
