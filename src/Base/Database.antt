-- ===== src/Base/Database.antt =====
-- The database client, as far as the services rely on it: `find_unique` loads a row by its id with
-- the relations that the query includes, and `save` commits what a transaction wrote to that row
-- and its relations. A row that was not written stays as it is.
use Prim.Native.Nat.{ℕ}
use mathlib.Core.Path.{◌≡◌}
use mathlib.Core.Logic.{◌≢◌}
use mathlib.Core.Option.{Option, some}

pub record Store (Row : Type 0) : Type 1 where
  pub State : Type 0
  pub find_unique : ℕ → State → Option Row
  pub save : ℕ → Row → State → State
  pub find_unique-save_self : (id : ℕ) (r : Row) (s : State) → find_unique id (save id r s) ≡ some r
  pub find_unique-save_ne :
      (id k : ℕ) (r : Row) (s : State) → id ≢ k → find_unique k (save id r s) ≡ find_unique k s
