-- ===== src/Identity/Authentication.antt =====
-- auth/api.py: the transaction of a login, with the constraint trigger on users that runs at its
-- commit (migrations/versions/f7a8b9c0d1e2_harden_catalog_custody_invariants.py).
pub mod Steps
pub mod Grown
pub mod Holders
use dc_inventory.Prelude.{ℕ, Bool, true, ◌&&◌, ◌||◌, not, Option, none, some, List}
use dc_inventory.Prelude.Lists.{all}
use dc_inventory.Prelude.Result.{Result, ok, ◌>>=◌, ◌>>◌, raise_if}
use dc_inventory.Prelude.Table.{Row}
use dc_inventory.Identity.Policy.{role_eq, status_eq}
use dc_inventory.Identity.Tables.{User, TelegramIdentity, IdentityTables, find_user}
use dc_inventory.Identity.Admin.Guards.{has_custody}
use dc_inventory.Identity.Login.{
  AuthError, Login, upsert_telegram_identity, reconcile_recovery_owner,
}
use dc_inventory.Identity.Sessions.{issue_auth_session}
use dc_inventory.Warehouse.Movement.Guards.{may_hold_custody}
use dc_inventory.Database.{Database}

-- One updated row: the role and the status are as before, or the user may hold equipment, or has
-- none. A row that was inserted is not looked at.
abbrev pub keeps_eligibility : List Row → Option User → User → Bool
keeps_eligibility custody none new = true
keeps_eligibility custody (some old) new =
    role_eq old.role new.role && status_eq old.access_status new.access_status
    || may_hold_custody new
    || not (has_custody new.id custody)

unfoldable pub enforce_user_custody_eligibility : List Row → List User → List User → Bool
enforce_user_custody_eligibility custody before after =
    all (λ u. keeps_eligibility custody (find_user u.id before) u) after

-- The tables of the identities are committed.
unfoldable pub commit_identity : IdentityTables → Database → Result AuthError Database
commit_identity t db = do
  raise_if (not (enforce_user_custody_eligibility db.warehouse.custody db.identity.users t.users))
      AuthError.integrity
  ok (record db { identity = t })

-- What `validate_telegram_init_data`, the settings, the clock and the generators give to a login.
pub record LoginCall : Type 0 where
  pub telegram_user_id : ℕ
  pub recovery : Option ℕ
  pub user_id : ℕ
  pub session_id : ℕ
  pub raw_token : ℕ
  pub ttl_seconds : ℕ
  pub now : ℕ

unfoldable pub authenticate_with_telegram :
    (ℕ → ℕ) → LoginCall → Database → Result AuthError Database
authenticate_with_telegram hash_session_token c db = do
  login ← upsert_telegram_identity c.telegram_user_id c.recovery c.user_id c.now db.identity
  t ←
      issue_auth_session hash_session_token login.user c.session_id c.raw_token c.ttl_seconds c.now
        login.tables
  commit_identity t db

-- `get_authenticated_context`: the recovery of the owner in a transaction of its own.
unfoldable pub recover_owner :
    User → TelegramIdentity → Option ℕ → ℕ → Database → Result AuthError Database
recover_owner user identity recovery now db = do
  t ← reconcile_recovery_owner user identity recovery now db.identity
  commit_identity t db
