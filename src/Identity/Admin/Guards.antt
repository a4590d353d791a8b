-- ===== src/Identity/Admin/Guards.antt =====
-- identity/admin_service.py and locking.py: the errors and the tests that the calls share.
use dc_inventory.Prelude.{ℕ, Bool, true, false, ◌&&◌, ◌||◌, not, Option, none, some, List}
use dc_inventory.Prelude.Tests.{◌==◌, opt_eq}
use dc_inventory.Prelude.Lists.{any, find}
use dc_inventory.Prelude.Result.{Result, ok, ◌>>=◌, ◌>>◌, raise_if, or_raise}
use dc_inventory.Prelude.Table.{Row}
use dc_inventory.Identity.Policy.{UserRole, Capability, role_eq, has_capability}
use dc_inventory.Identity.Tables.{User, TelegramIdentity, IdentityTables, find_user}
use dc_inventory.Identity.Lifecycle.{is_approved}
use dc_inventory.Procurement.Tables.{ProcurementRequest, ProcurementStatus}

-- The errors of admin_service.py and of reset_service.py.
pub data AdminUserError : Type 0 where
  not_found invalid_access_transition pending_access_request_not_found forbidden : AdminUserError
  recovery_invariant outstanding_custody active_procurement : AdminUserError
  reset_identity_mismatch reset_active_procurement : AdminUserError

pub record Locked : Type 0 where
  pub actor : User
  pub target : User

unfoldable pub lock_actor_and_target : ℕ → ℕ → List User → Result AdminUserError Locked
lock_actor_and_target actor_user_id target_user_id users = do
  actor ← or_raise (find_user actor_user_id users) AdminUserError.forbidden
  raise_if
      (not (is_approved actor.access_status)
        || not (has_capability actor.role Capability.access_manage_users))
      AdminUserError.forbidden
  target ← or_raise (find_user target_user_id users) AdminUserError.not_found
  ok (record { actor = actor; target = target })

-- `SELECT telegram_user_id FROM telegram_identities WHERE user_id = k`
abbrev telegram_of : Option TelegramIdentity → Option ℕ
telegram_of none = none
telegram_of (some i) = some i.telegram_user_id

abbrev pub find_identity : ℕ → List TelegramIdentity → Option TelegramIdentity
find_identity k = find λ i. i.user_id == k

unfoldable pub is_recovery_identity : ℕ → Option ℕ → List TelegramIdentity → Bool
is_recovery_identity k none identities = false
is_recovery_identity k (some recovery) identities =
    opt_eq (telegram_of (find_identity k identities)) (some recovery)

-- The owner and the configured recovery identity are out of reach.
abbrev pub is_protected : Option ℕ → User → IdentityTables → Bool
is_protected recovery target t =
    role_eq target.role UserRole.owner || is_recovery_identity target.id recovery t.identities

-- An administrator is managed by one who may assign administrators.
abbrev pub may_manage : Locked → Bool
may_manage l = not (
    role_eq l.target.role UserRole.admin
    && not (has_capability l.actor.role Capability.access_assign_admin))

-- `SELECT id FROM user_item_custody_balances WHERE user_id = k LIMIT 1`
unfoldable pub has_custody : ℕ → List Row → Bool
has_custody k rows = any (λ r. r.key₁ == k) rows

abbrev in_agreement : ProcurementStatus → Bool
in_agreement ProcurementStatus.agreement_pending_manager = true
in_agreement ProcurementStatus.agreement_revision_required = true
in_agreement _ = false

-- `_has_active_procurement_create_responsibility`
unfoldable pub has_active_procurement_create_responsibility : ℕ → List ProcurementRequest → Bool
has_active_procurement_create_responsibility k requests =
    any (λ r. r.initiator_user_id == k && in_agreement r.status) requests
