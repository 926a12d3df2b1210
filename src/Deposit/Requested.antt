-- ===== src/Deposit/Requested.antt =====
-- The list of a deposit's requests: all are valid, and at most one is open.
use kamorina.Base.{
  ℕ, ◌+◌, ◌≤◌, ◌≡◌, refl, true, false, List, [], ◌∷◌, ◌++◌, ok, arith, any, All, if◌then◌else◌,
  passed, not, ◌==◌, Bool-cases, inl, inr,
}
use kamorina.Deposit.Types.{DepositApplication, no_access_to_deposit, not_changeable}
use kamorina.Deposit.Change.Types.{DepositChangeRequest, is_open}
use kamorina.Deposit.Change.Rules.{validate_deposit_for_change, is_eligible_for_change}
use kamorina.Deposit.Change.Phases.{IsValid}

abbrev pub weight : DepositChangeRequest → ℕ
weight r = if is_open r.status then 1 else 0

abbrev pub open_requests : List DepositChangeRequest → ℕ
open_requests [] = 0
open_requests (r ∷ rs) = weight r + open_requests rs

abbrev pub IsRequested : List DepositChangeRequest → Type 0
IsRequested rs = All IsValid rs × (open_requests rs ≤ 1)

-- One request stands apart from the others.
All-middle :
    (xs ys : List DepositChangeRequest) (r : DepositChangeRequest)
    → All IsValid (xs ++ r ∷ ys)
    → All IsValid xs × IsValid r × All IsValid ys
All-middle [] ys r h = (tt, h.0, h.1)
All-middle (x ∷ xs) ys r h = let (a, b, c) = All-middle xs ys r h.1 in ((h.0, a), b, c)

All-append :
    (xs ys : List DepositChangeRequest) → All IsValid xs → All IsValid ys → All IsValid (xs ++ ys)
All-append [] ys a b = b
All-append (x ∷ xs) ys a b = (a.0, All-append xs ys a.1 b)

open_requests-append :
    (xs ys : List DepositChangeRequest)
    → open_requests (xs ++ ys) ≡ open_requests xs + open_requests ys
open_requests-append [] ys = omega arith
open_requests-append (x ∷ xs) ys = omega (arith, open_requests-append xs ys)

pub middle-IsValid :
    (xs ys : List DepositChangeRequest) (r : DepositChangeRequest)
    → IsRequested (xs ++ r ∷ ys)
    → IsValid r
middle-IsValid xs ys r h = (All-middle xs ys r h.0).1

pub replaced-IsRequested :
    (xs ys : List DepositChangeRequest) (r r' : DepositChangeRequest)
    → IsRequested (xs ++ r ∷ ys)
    → IsValid r'
    → weight r' ≤ weight r
    → IsRequested (xs ++ r' ∷ ys)
replaced-IsRequested xs ys r r' (all, n) v w =
    let (a, b, c) = All-middle xs ys r all in
    (
      All-append xs (r' ∷ ys) a (v, c),
      omega (arith, open_requests-append xs (r ∷ ys), open_requests-append xs (r' ∷ ys)),
    )

pub removed-IsRequested :
    (xs ys : List DepositChangeRequest) (r : DepositChangeRequest)
    → IsRequested (xs ++ r ∷ ys)
    → IsRequested (xs ++ ys)
removed-IsRequested xs ys r (all, n) =
    let (a, b, c) = All-middle xs ys r all in
    (
      All-append xs ys a c,
      omega (arith, open_requests-append xs (r ∷ ys), open_requests-append xs ys),
    )

none_open :
    (rs : List DepositChangeRequest) → any (λ r. is_open r.status) rs ≡ false → open_requests rs ≡ 0
none_open [] h = refl
none_open (r ∷ rs) h = elim (Bool-cases (is_open r.status)) [
  | inl t ↦ absurd (ground arith)
  | inr t ↦ rw t (omega (arith, none_open rs (ground arith)))
]

-- What a deposit has passed that may have a new request.
pub ready :
    (user : ℕ) (d : DepositApplication) (rs : List DepositChangeRequest)
    → validate_deposit_for_change user d rs ≡ ok tt
    → (is_eligible_for_change d.status ≡ true) × (any (λ r. is_open r.status) rs ≡ false)
unfolding validate_deposit_for_change
ready user d rs h =
    let (_, h1) = passed (not (d.user_id == user)) no_access_to_deposit _ h in
    let (e, h2) = passed (not (is_eligible_for_change d.status)) not_changeable _ h1 in
    (ground arith, ground arith)

pub added-IsRequested :
    (rs : List DepositChangeRequest) (r : DepositChangeRequest)
    → any (λ x. is_open x.status) rs ≡ false
    → All IsValid rs
    → IsValid r
    → IsRequested (rs ++ r ∷ [])
added-IsRequested rs r h a v =
    let one : weight r ≤ 1 = ground arith in
    (
      All-append rs (r ∷ []) a (v, tt),
      omega (arith, open_requests-append rs (r ∷ []), none_open rs h),
    )
