-- ===== src/Warehouse/Movement/Guards/Original.antt =====
-- What `check_original` has found out of the original of a correction or a reversal.
use dc_inventory.Prelude.{ℕ, ◌≡◌, true, false, ◌&&◌, not, Option, none, some, List, arith}
use dc_inventory.Prelude.Tests.{is_some, is_id, opt_eq}
use dc_inventory.Prelude.Lists.{any}
use dc_inventory.Prelude.Result.{ok}
use dc_inventory.Identity.Tables.{User}
use dc_inventory.Procurement.Tables.{ProcurementRequest}
use dc_inventory.Warehouse.Tables.{
  Movement, MovementType, find_movement, is_reversal, is_correction,
}
use dc_inventory.Warehouse.Movement.Guards.{
  check_original, is_reversal_of, raises_custody, user_may_hold,
}

pub original_steps :
    (requests : List ProcurementRequest) (movements : List Movement) (type : MovementType)
    (custody : Option ℕ) (user : Option User) (k : ℕ) {o : Option Movement}
    → check_original requests movements type custody user (some k) ≡ ok o
    → (original : Movement) × (find_movement k movements ≡ some original)
      × (o ≡ some original)
      × (any (λ r. is_id r.final_movement_id k) requests ≡ false)
      × (is_reversal original.movement_type ≡ false)
      × ((is_correction type && is_some original.custody_user_id) ≡ false)
      × ((is_reversal type && not (opt_eq custody original.custody_user_id)) ≡ false)
      × ((is_reversal type && any (is_reversal_of k) movements) ≡ false)
      × ((is_reversal type
            && is_some custody
            && raises_custody type (some original)
            && not (user_may_hold user))
          ≡ false)
unfolding check_original
original_steps requests movements type custody user k h = ground arith

-- The original of a movement that passes is in the journal.
pub original_found :
    (requests : List ProcurementRequest) (movements : List Movement) (type : MovementType)
    (custody : Option ℕ) (user : Option User) (named : Option ℕ) {o : Option Movement}
    → check_original requests movements type custody user named ≡ ok o
    → (k : ℕ) → named ≡ some k
    → is_some (find_movement k movements) ≡ true
original_found requests movements type custody user none h k e = cc
original_found requests movements type custody user (some j) h k e =
    ground (arith, original_steps requests movements type custody user j h)
