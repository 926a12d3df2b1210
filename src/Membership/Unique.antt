-- ===== src/Membership/Unique.antt =====
-- The unique columns of backend/prisma/schema.prisma under `submitApplication`.
use kamorina.Base.{
  ℕ, String, ◌≡◌, refl, sym, subst, ap, ◌∙◌, Bool, true, false, not, ◌&&◌, Option, some, List, [],
  ◌∷◌, find, All, ◌==◌, str_eq, Bool-cases, Option-cases, inl, inr, ok, arith,
}
use text.Mathlib.TextEquality.{eq_iff}
use kamorina.Loan.Calculation.{Settings}
use kamorina.Membership.Types.{User}
use kamorina.Membership.Submitted.{submit_application-Submitted}
use kamorina.Membership.Submission.{
  SubmitApplicationDto, holds, taken, put_user, write_submission, submit_application,
}

-- No user has a value in the column that another user has.
abbrev pub IsUnique : (User → Option String) → List User → Type 0
IsUnique column users =
    All (λ u. (value : String) → column u ≡ some value → taken column value u.id users ≡ false)
      users

holds_self : (value : String) → holds value (some value) ≡ true
holds_self value = (eq_iff value value).1 refl

some-injective : {a b : String} → some a ≡ some b → a ≡ b
some-injective e = ground arith

-- What `find` returns has what all have.
found-All :
    (P : User → Type 0) (p : User → Bool) (l : List User) {u : User}
    → All P l
    → find p l ≡ some u
    → P u × (p u ≡ true)
found-All P p [] h e = cc
found-All P p (x ∷ l) {u} (h, hs) e = elim (Bool-cases (p x)) [
  | inl t ↦ let q : x ≡ u = ground arith in subst (λ k. P k × (p k ≡ true)) q (h, t)
  | inr t ↦ found-All P p l hs (ground arith)
]

module _ (column : User → Option String) (new : User) where
  -- The put row is the user's own.
  taken-put_own :
      (value : String) (users : List User)
      → taken column value new.id (put_user new users) ≡ taken column value new.id users
  taken-put_own value [] = refl
  taken-put_own value (u ∷ users) = elim (Bool-cases (u.id == new.id)) [
    | inl t ↦ ground (arith, t, taken-put_own value users)
    | inr t ↦ ground (arith, t, taken-put_own value users)
  ]

  -- The put row takes no value that it does not hold.
  taken-put :
      (value : String) (id : ℕ) (users : List User)
      → taken column value id users ≡ false
      → holds value (column new) ≡ false
      → taken column value id (put_user new users) ≡ false
  taken-put value id [] t h = refl
  taken-put value id (u ∷ users) t h = elim (Bool-cases (u.id == new.id)) [
    | inl e ↦ ground (arith, e, h, taken-put value id users (ground arith) h)
    | inr e ↦ ground (arith, e, taken-put value id users (ground arith) h)
  ]

  -- A user that is not the owner and holds the value has taken it.
  clash :
      (value v : String) (u : User) (l : List User)
      → taken column value new.id (u ∷ l) ≡ false
      → column u ≡ some v
      → (u.id == new.id) ≡ false
      → str_eq value v ≡ true
      → ⊥
  clash value v u l t w e same =
      let held : holds value (column u) ≡ true =
        rw w ((eq_iff v value).1 (sym ((eq_iff value v).0 same))) in
      ground (arith, held, e, t)

  module _ (value : String) (written : column new ≡ some value) where
    put-kept :
        (users l : List User)
        → taken column value new.id users ≡ false
        → taken column value new.id l ≡ false
        → All (λ u. (v : String) → column u ≡ some v → taken column v u.id users ≡ false) l
        → All
            (λ u.
              (v : String) → column u ≡ some v → taken column v u.id (put_user new users) ≡ false)
            (put_user new l)
    put-kept users [] free t h = tt
    put-kept users (u ∷ l) free t (h, hs) = (
      elim (Bool-cases (u.id == new.id)) [
        | inl e ↦ rw e (λ v w.
            subst (λ k. taken column k new.id (put_user new users) ≡ false)
              (some-injective (sym written ∙ w)) (taken-put_own value users ∙ free))
        | inr e ↦ rw e (λ v w. elim (Bool-cases (str_eq value v)) [
          | inl same ↦ absurd (clash value v u l t w e same)
          | inr other ↦ taken-put v u.id users (h v w) (rw written other)
        ])
      ],
      put-kept users l free (ground arith) hs,
    )

module _ (column : User → Option String) (value : String) (users : List User) (u : User) where
  -- After the check no other user has the value.
  check_unique-free :
      ((v : String) → column u ≡ some v → taken column v u.id users ≡ false)
      → (not (holds value (column u)) && taken column value u.id users) ≡ false
      → taken column value u.id users ≡ false
  check_unique-free own h = elim (Option-cases (column u)) [
    | inl e ↦ let n : holds value (column u) ≡ false = rw e refl in ground (arith, n, h)
    | inr (v, e) ↦ elim (Bool-cases (str_eq v value)) [
      | inl t ↦ own value (e ∙ ap some ((eq_iff v value).0 t))
      | inr t ↦ let n : holds value (column u) ≡ false = rw e t in ground (arith, n, h)
    ]
  ]

  -- The check keeps the column unique.
  pub put-IsUnique :
      (new : User) (user_id : ℕ)
      → IsUnique column users
      → find (λ x. x.id == user_id) users ≡ some u
      → (not (holds value (column u)) && taken column value u.id users) ≡ false
      → new.id ≡ u.id
      → column new ≡ some value
      → IsUnique column (put_user new users)
  put-IsUnique new user_id unique found checked same written =
      let own = (found-All _ (λ x. x.id == user_id) users unique found).0 in
      let free : taken column value new.id users ≡ false =
        subst (λ k. taken column value k users ≡ false) (sym same)
          (check_unique-free own checked) in
      put-kept column new value written users users free free unique

-- A submission that succeeds keeps the NIK and the NPWP unique among all the users.
pub submit_application-IsUnique :
    (settings : Settings) (now new_id first second : ℕ) (dto : SubmitApplicationDto) (user_id : ℕ)
    (users : List User) {after : List User}
    → IsUnique (λ u. u.nik) users
    → IsUnique (λ u. u.npwp) users
    → submit_application settings now new_id first second dto user_id users ≡ ok after
    → IsUnique (λ u. u.nik) after × IsUnique (λ u. u.npwp) after
unfolding write_submission
submit_application-IsUnique settings now new_id first second dto user_id users nik npwp h =
    let (u, new, found, s, put) =
      submit_application-Submitted settings now new_id first second dto user_id users h in
    let same : new.id ≡ u.id = ap (λ k. k.id) s.written in
    subst (λ k. IsUnique (λ u. u.nik) k × IsUnique (λ u. u.npwp) k) (sym put)
      (
        put-IsUnique (λ x. x.nik) dto.nik users u new user_id nik found s.nik_free same
            (ap (λ k. k.nik) s.written),
        put-IsUnique (λ x. x.npwp) dto.npwp users u new user_id npwp found s.npwp_free same
            (ap (λ k. k.npwp) s.written),
      )
