-- ===== src/Base/Bulk.antt =====
-- Requests on one row by its id, and the bulk requests: a loop that handles each id in turn and
-- goes on past the ones that fail.
use Prim.Native.Nat.{ℕ, ◌+◌}
use mathlib.Core.Path.{◌≡◌, sym, subst, ◌∙◌}
use mathlib.Core.Logic.{inl, inr}
use mathlib.Core.Option.{none, some}
use mathlib.Core.List.{List, [], ◌∷◌}
use native.Mathlib.Omega.{arith}
use native.Mathlib.Decide.{ℕ_discrete}
use kamorina.Base.Tests.{Option-cases}
use kamorina.Base.Lists.{length}
use kamorina.Base.Throwing.{Result, ok, err, Result-cases}
use kamorina.Base.Database.{Store}

pub record BulkResults (E A : Type 0) : Type 0 where
  pub success : List (ℕ × A)
  pub failed : List (ℕ × E)

abbrev pub reported : {E A : Type 0} → BulkResults E A → ℕ
reported r = length r.success + length r.failed

module _ {E A S : Type 0} where
  abbrev add_success : ℕ → A → BulkResults E A × S → BulkResults E A × S
  add_success id a (r, s) = (record { success = (id, a) ∷ r.success; failed = r.failed }, s)

  abbrev add_failed : ℕ → E → BulkResults E A × S → BulkResults E A × S
  add_failed id e (r, s) = (record { success = r.success; failed = (id, e) ∷ r.failed }, s)

  -- `for (const id of ids) try { … success.push } catch { failed.push }`
  unfoldable pub bulk : (ℕ → S → Result E (S × A)) → List ℕ → S → BulkResults E A × S
  bulk request [] s = (record { success = []; failed = [] }, s)
  bulk request (id ∷ ids) s = elim (request id s) [
    | ok (s', a) ↦ add_success id a (bulk request ids s')
    | err e ↦ add_failed id e (bulk request ids s)
  ]

  -- Every id of the request is reported, as handled or as failed.
  pub bulk-reported :
      (request : ℕ → S → Result E (S × A)) (ids : List ℕ) (s : S)
      → reported (bulk request ids s).0 ≡ length ids
  unfolding bulk
  bulk-reported request [] s = omega arith
  bulk-reported request (id ∷ ids) s = elim (Result-cases (request id s)) [
    | inl ((s', a), e) ↦ rw (e, bulk) (omega (arith, bulk-reported request ids s'))
    | inr (x, e) ↦ rw (e, bulk) (omega (arith, bulk-reported request ids s))
  ]

  -- What each request keeps, the loop keeps, whichever requests fail.
  pub bulk_keeps :
      (P : S → Type 0) (request : ℕ → S → Result E (S × A))
      → ((id : ℕ) (s s' : S) (a : A) → P s → request id s ≡ ok (s', a) → P s')
      → (ids : List ℕ) (s : S) → P s
      → P (bulk request ids s).1
  unfolding bulk
  bulk_keeps P request keeps [] s h = h
  bulk_keeps P request keeps (id ∷ ids) s h = elim (Result-cases (request id s)) [
    | inl ((s', a), e) ↦ rw (e, bulk) (bulk_keeps P request keeps ids s' (keeps id s s' a h e))
    | inr (x, e) ↦ rw (e, bulk) (bulk_keeps P request keeps ids s h)
  ]

module _ {E Row A : Type 0} (store : Store Row) where
  open store use {State, find_unique, save, find_unique-save_self, find_unique-save_ne}

  -- `findUnique`, the handler on the row, and its writes; `not_found` if there is no such row.
  abbrev pub on_row : E → (Row → Result E (Row × A)) → ℕ → State → Result E (State × A)
  on_row not_found handler id s = elim (find_unique id s) [
    | none ↦ err not_found
    | some row ↦ elim (handler row) [ ok (row', a) ↦ ok (save id row' s, a) | err e ↦ err e ]
  ]

module _ {Row : Type 0} (store : Store Row) (P : Row → Type 0) where
  open store use {State, find_unique, save, find_unique-save_self, find_unique-save_ne}

  abbrev pub AllRows : State → Type 0
  AllRows s = (k : ℕ) (r : Row) → find_unique k s ≡ some r → P r

  pub save-AllRows : (id : ℕ) (r : Row) (s : State) → P r → AllRows s → AllRows (save id r s)
  save-AllRows id r s p h k x e = elim (ℕ_discrete id k) [
    | yes same ↦ subst P (cc (find_unique-save_self id r s, same)) p
    | no other ↦ h k x (sym (find_unique-save_ne id k r s other) ∙ e)
  ]

  -- A handler that keeps a property of rows keeps it of the whole table.
  pub on_row-AllRows :
      {E A : Type 0} (not_found : E) (handler : Row → Result E (Row × A))
      → ((r r' : Row) (a : A) → P r → handler r ≡ ok (r', a) → P r')
      → (id : ℕ) (s s' : State) (a : A) → AllRows s
      → on_row store not_found handler id s ≡ ok (s', a)
      → AllRows s'
  on_row-AllRows not_found handler keeps id s s' a h e = elim (Option-cases (find_unique id s)) [
    | inl missing ↦ absurd (ground arith)
    | inr (r, found) ↦ elim (Result-cases (handler r)) [
      | inl ((r', b), done) ↦
          let saved : s' ≡ save id r' s = ground arith in
          subst AllRows (sym saved) (save-AllRows id r' s (keeps r r' b (h id r found) done) h)
      | inr (x, failed) ↦ absurd (ground arith)
    ]
  ]

module _ {E R : Type 0} where
  -- A success that is reported by its id alone.
  abbrev pub by_id : Result E R → Result E (R × Unit {0})
  by_id (ok r) = ok (r, tt)
  by_id (err e) = err e

  pub by_id-eq-ok : (m : Result E R) {r : R} {u : Unit {0}} → by_id m ≡ ok (r, u) → m ≡ ok r
  by_id-eq-ok (ok x) h = ground arith
  by_id-eq-ok (err e) h = cc
