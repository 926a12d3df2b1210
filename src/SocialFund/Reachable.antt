-- ===== src/SocialFund/Reachable.antt =====
-- Every fund that a sequence of successful requests reaches.
use kamorina.Base.{ℕ, ◌≡◌, Option, ok, subst}
use kamorina.SocialFund.Types.{SocialFund}
use kamorina.SocialFund.Service.{
  CreateInitialBalanceDto, UpdateInitialBalanceDto, CreateSantunanDto, Recipient,
  create_initial_balance, update_initial_balance, delete_initial_balance, create_santunan,
  delete_santunan,
}
use kamorina.SocialFund.Solvency.{
  IsSolvent, create_initial_balance-IsSolvent, update_initial_balance-IsSolvent,
  delete_initial_balance-IsSolvent, create_santunan-IsSolvent, delete_santunan-IsSolvent,
}

-- One request that succeeds, with any arguments.
pub data Step (f g : SocialFund) : Type 0 where
  add :
      (now balance_id new_id : ℕ) (dto : CreateInitialBalanceDto) (user : ℕ)
      → create_initial_balance now balance_id new_id dto user f ≡ g
      → Step f g
  change :
      (balance_id id user : ℕ) (dto : UpdateInitialBalanceDto)
      → update_initial_balance balance_id id dto user f ≡ ok g
      → Step f g
  drop : (balance_id id user : ℕ) → delete_initial_balance balance_id id user f ≡ ok g → Step f g
  grant :
      (now balance_id new_id : ℕ) (dto : CreateSantunanDto) (recipient : Option Recipient)
      (user : ℕ)
      → create_santunan now balance_id new_id dto recipient user f ≡ ok g
      → Step f g
  revoke : (balance_id id user : ℕ) → delete_santunan balance_id id user f ≡ ok g → Step f g

pub data Reach (f : SocialFund) : SocialFund → Type 0 where
  here : Reach f f
  next : {g h : SocialFund} → Reach f g → Step g h → Reach f h

Step-IsSolvent : {f g : SocialFund} → Step f g → IsSolvent f → IsSolvent g
Step-IsSolvent {f} (add now balance_id new_id dto user e) s =
    subst IsSolvent e (create_initial_balance-IsSolvent now balance_id new_id dto user f s)
Step-IsSolvent {f} (change balance_id id user dto e) s =
    update_initial_balance-IsSolvent balance_id user f id dto s e
Step-IsSolvent {f} (drop balance_id id user e) s =
    delete_initial_balance-IsSolvent balance_id user f id s e
Step-IsSolvent {f} (grant now balance_id new_id dto recipient user e) s =
    create_santunan-IsSolvent now balance_id new_id dto recipient user f s e
Step-IsSolvent {f} (revoke balance_id id user e) s =
    delete_santunan-IsSolvent balance_id user f id s e

-- Through every sequence of successful requests, a solvent fund stays solvent: its balance is the
-- sum of its ledger, in which a santunan and the disbursement of an excess loan count as going out
-- and the rest as coming in, and is not negative.
pub Reach-IsSolvent : {f g : SocialFund} → IsSolvent f → Reach f g → IsSolvent g
Reach-IsSolvent s here = s
Reach-IsSolvent s (next r st) = Step-IsSolvent st (Reach-IsSolvent s r)
