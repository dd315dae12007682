-- ===== src/Webapp/Proposals/Details.antt =====
-- wrappers/nounsDao.ts, `formatProposalTransactionDetails`: the transactions of a proposal, on texts as
-- lists of character codes.
use composable_nouns_monorep.Common.{
  ℕ, ◌+◌, ◌≡◌, refl, ap, true, false, Option, none, some, List, [], ◌∷◌, ◌++◌, ◌==◌, ltb,
  if◌then◌else◌, String, get_elem?, arith,
}
use composable_nouns_monorep.Sdk.Hex.{Text}

pub record ProposalTransactionDetails : Type 0 where
  pub targets : List String
  pub values : List ℕ
  pub signatures : List Text
  pub calldatas : List Text

pub record ProposalDetail : Type 0 where
  pub target : String
  -- `none` where the field is left out.
  pub value : Option Text
  pub function_sig : Text
  pub call_data : Text

-- What comes before the first d, and what comes after it if there is one.
abbrev pub before : ℕ → Text → Text
before d [] = []
before d (c ∷ cs) = let rest = before d cs in if c == d then [] else c ∷ rest

abbrev pub after : ℕ → Text → Option Text
after d [] = none
after d (c ∷ cs) = let rest = after d cs in if c == d then some cs else rest

-- The second part of `text.split(d)`, empty where it is undefined: both count as false.
abbrev pub second_part : ℕ → Text → Text
second_part d cs = elim (after d cs) [ none ↦ [] | some rest ↦ before d rest ]

-- `text.split(d)`.
abbrev pub add_char : ℕ → List Text → List Text
add_char c [] = (c ∷ []) ∷ []
add_char c (t ∷ ts) = (c ∷ t) ∷ ts

abbrev pub split : ℕ → Text → List Text
split d [] = [] ∷ []
split d (c ∷ cs) = let rest = split d cs in if c == d then [] ∷ rest else add_char c rest

-- `text.substring(0, text.length - 1)`.
abbrev pub without_last : Text → Text
without_last [] = []
without_last (c ∷ []) = []
without_last (c ∷ d ∷ cs) = c ∷ without_last (d ∷ cs)

abbrev pub transfer : Text
transfer = b't' ∷ b'r' ∷ b'a' ∷ b'n' ∷ b's' ∷ b'f' ∷ b'e' ∷ b'r' ∷ []

abbrev pub or_zero : Option ℕ → ℕ
or_zero none = 0
or_zero (some n) = n

-- `decode` gives the arguments of a call as one text, joined by commas, and none for an exception;
-- `in_ether` and `with_value` write an amount as "… ETH" and "{ value: … ETH }".
module _ (decode : List Text → Option Text → Option Text) (in_ether with_value : ℕ → Text) where
  -- A call without a name or without arguments.
  abbrev pub plain_detail : String → ℕ → Text → Text → ProposalDetail
  plain_detail target amount [] types = record {
    target = target;
    value = none;
    function_sig = transfer;
    call_data = elim types [ [] ↦ in_ether amount | ◌∷◌ c cs ↦ c ∷ cs ];
  }
  plain_detail target amount (n ∷ name) types = record {
    target = target;
    value = none;
    function_sig = n ∷ name;
    call_data = elim types [ [] ↦ in_ether amount | ◌∷◌ c cs ↦ c ∷ cs ];
  }

  abbrev pub call_detail : String → ℕ → Text → Text → Option Text → Option ProposalDetail
  call_detail target amount [] types calldata = some (plain_detail target amount [] types)
  call_detail target amount (n ∷ name) [] calldata = some (plain_detail target amount (n ∷ name) [])
  call_detail target amount (n ∷ name) (c ∷ types) calldata =
      elim (decode (split b',' (c ∷ types)) calldata) [
        | none ↦ none
        | some decoded ↦ some (record {
          target = target;
          value = some (if ltb 0 amount then with_value amount else []);
          function_sig = n ∷ name;
          call_data = decoded;
        })
      ]

  -- A missing signature is an exception.
  abbrev pub format_detail : String → Option Text → ℕ → Option Text → Option ProposalDetail
  format_detail target none amount calldata = none
  format_detail target (some signature) amount calldata =
      let body = without_last signature in
      call_detail target amount (before b'(' body) (second_part b'(' body) calldata

  -- The targets from the i-th on.
  unfoldable pub format_from :
      ProposalTransactionDetails → ℕ → List String → Option (List ProposalDetail)
  format_from d i [] = some []
  format_from d i (target ∷ targets) =
      let rest = format_from d (i + 1) targets in
      let here =
        format_detail target (get_elem? d.signatures i) (or_zero (get_elem? d.values i))
          (get_elem? d.calldatas i) in
      elim here [ none ↦ none | some x ↦ elim rest [ none ↦ none | some xs ↦ some (x ∷ xs) ] ]

  unfoldable pub format_proposal_transaction_details :
      ProposalTransactionDetails → Option (List ProposalDetail)
  unfolding format_from
  format_proposal_transaction_details d = format_from d 0 d.targets

-- A text without a character.
abbrev pub Lacks : ℕ → Text → Type 0
Lacks d [] = Unit
Lacks d (c ∷ cs) = ((c == d) ≡ false) × Lacks d cs

before-append : (d : ℕ) (t rest : Text) → Lacks d t → before d (t ++ d ∷ rest) ≡ t
before-append d [] rest h = let same : (d == d) ≡ true = ground arith in rw same refl
before-append d (c ∷ t) rest h = rw h.0 (ap (λ xs. c ∷ xs) (before-append d t rest h.1))

after-append : (d : ℕ) (t rest : Text) → Lacks d t → after d (t ++ d ∷ rest) ≡ some rest
after-append d [] rest h = let same : (d == d) ≡ true = ground arith in rw same refl
after-append d (c ∷ t) rest h = rw h.0 (after-append d t rest h.1)

before-all : (d : ℕ) (t : Text) → Lacks d t → before d t ≡ t
before-all d [] h = refl
before-all d (c ∷ t) h = rw h.0 (ap (λ xs. c ∷ xs) (before-all d t h.1))

without_last-append : (t : Text) (c : ℕ) → without_last (t ++ c ∷ []) ≡ t
without_last-append [] c = refl
without_last-append (a ∷ []) c = refl
without_last-append (a ∷ b ∷ t) c = ap (λ xs. a ∷ xs) (without_last-append (b ∷ t) c)

-- A call whose signature is a name and the types of its arguments in parentheses is shown under that
-- name, with its arguments decoded for those types.
pub format_detail-signature :
    (decode : List Text → Option Text → Option Text) (in_ether with_value : ℕ → Text)
    (target : String) (amount n c : ℕ) (name types decoded : Text) (calldata : Option Text)
    → Lacks b'(' (n ∷ name)
    → Lacks b'(' (c ∷ types)
    → decode (split b',' (c ∷ types)) calldata ≡ some decoded
    → format_detail decode in_ether with_value target
        (some (((n ∷ name) ++ (b'(' ∷ c ∷ types)) ++ (b')' ∷ [])))
        amount
        calldata
      ≡ some (record {
        target = target;
        value = some (if ltb 0 amount then with_value amount else []);
        function_sig = n ∷ name;
        call_data = decoded;
      })
format_detail-signature decode in_ether with_value target amount n c name types decoded calldata h k
      e =
    rw
      (
        without_last-append ((n ∷ name) ++ (b'(' ∷ c ∷ types)) b')',
        before-append b'(' (n ∷ name) (c ∷ types) h,
        after-append b'(' (n ∷ name) (c ∷ types) h,
        before-all b'(' (c ∷ types) k,
      )
      call
  where
    call :
        call_detail decode in_ether with_value target amount (n ∷ name) (c ∷ types) calldata
        ≡ some (record {
          target = target;
          value = some (if ltb 0 amount then with_value amount else []);
          function_sig = n ∷ name;
          call_data = decoded;
        })
    call = rw (call_detail, e) refl
