-- ===== src/Identity/Administration.antt =====
-- identity/admin_api.py and reset_api.py: the calls of the administration as one type.
pub mod Governed
pub mod Holders
pub mod LoggedOut
pub mod Renewed
use dc_inventory.Prelude.{ℕ, Option, List}
use dc_inventory.Prelude.Result.{Result}
use dc_inventory.Identity.Policy.{UserRole, UserAccessStatus, AccessRequestStatus}
use dc_inventory.Identity.Tables.{TelegramIdentity}
use dc_inventory.Identity.Admin.Guards.{AdminUserError}
use dc_inventory.Identity.Admin.{
  update_user_access, decide_pending_access_request, update_user_role,
}
use dc_inventory.Identity.Reset.{reset_user_account}
use dc_inventory.Database.{Database}

pub data Administration : Type 0 where
  access : UserAccessStatus → Administration
  decide : AccessRequestStatus → Administration
  role : UserRole → Administration
  reset :
      (admin_key : ℕ → ℕ) (before : List TelegramIdentity) (expected_telegram_user_id : ℕ)
      → Administration

unfoldable pub administer :
    Administration → ℕ → ℕ → Option ℕ → ℕ → Database → Result AdminUserError Database
administer (Administration.access s) actor target recovery now db =
    update_user_access actor target s recovery now db
administer (Administration.decide d) actor target recovery now db =
    decide_pending_access_request actor target d recovery now db
administer (Administration.role r) actor target recovery now db =
    update_user_role actor target r recovery now db
administer (Administration.reset admin_key before expected) actor target recovery now db =
    reset_user_account admin_key before actor target expected recovery now db
