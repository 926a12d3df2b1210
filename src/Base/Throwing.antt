-- ===== src/Base/Throwing.antt =====
-- A call that returns or throws. A throw inside a transaction rolls its writes back, so an error
-- carries no state.
use mathlib.Core.Logic.{◌⊎◌, inl, inr}
use mathlib.Core.Path.{◌≡◌, refl}
use mathlib.Core.Bool.{Bool, true, false}

pub data Result {ℓ} (E : Type 0) (A : Type ℓ) : Type ℓ where
  ok : A → Result E A
  err : E → Result E A

infixl 5 ◌>>=◌ ◌>>◌
abbrev pub ◌>>=◌ {ℓ κ} :
    {E : Type 0} {A : Type ℓ} {B : Type κ} → Result E A → (A → Result E B) → Result E B
err thrown >>= rest = err thrown
ok value >>= rest = rest value

-- A call whose result is only that it did not throw, and what comes after it.
abbrev pub ◌>>◌ {ℓ} : {E : Type 0} {B : Type ℓ} → Result E (Unit {0}) → Result E B → Result E B
err thrown >> rest = err thrown
ok _ >> rest = rest

-- `if (c) throw e`
abbrev pub throw_if : {E : Type 0} → Bool → E → Result E (Unit {0})
throw_if true e = err e
throw_if false e = ok tt

pub Result-cases {ℓ} :
    {E : Type 0} {A : Type ℓ} (r : Result E A) → ((a : A) × (r ≡ ok a)) ⊎ ((e : E) × (r ≡ err e))
Result-cases (ok a) = inl (a, refl)
Result-cases (err e) = inr (e, refl)

-- A call that returned, in two parts.
pub >>=-eq-ok {ℓ κ} :
    {E : Type 0} {A : Type ℓ} {B : Type κ} (r : Result E A) (rest : A → Result E B) {b : B}
    → (r >>= rest) ≡ ok b
    → (a : A) × (r ≡ ok a) × (rest a ≡ ok b)
>>=-eq-ok (ok value) rest h = (value, refl, h)
>>=-eq-ok (err thrown) rest h = cc

pub >>-eq-ok {ℓ} :
    {E : Type 0} {B : Type ℓ} (r : Result E (Unit {0})) (rest : Result E B) {b : B}
    → (r >> rest) ≡ ok b
    → (r ≡ ok tt) × (rest ≡ ok b)
>>-eq-ok (ok value) rest h = (refl, h)
>>-eq-ok (err thrown) rest h = cc

-- A guard that did not throw.
pub passed {ℓ} :
    {E : Type 0} {B : Type ℓ} (c : Bool) (e : E) (rest : Result E B) {b : B}
    → (throw_if c e >> rest) ≡ ok b
    → (c ≡ false) × (rest ≡ ok b)
passed true e rest h = cc
passed false e rest h = (refl, h)

pub ok-injective {ℓ} :
    {E : Type 0} {A : Type ℓ} {a b : A} → ◌≡◌ {A = Result E A} (ok a) (ok b) → a ≡ b
ok-injective h = cc
