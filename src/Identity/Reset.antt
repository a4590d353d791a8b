-- ===== src/Identity/Reset.antt =====
-- identity/reset_service.py: the login of a user is detached, and the row of the user stays.
pub mod Steps
use dc_inventory.Prelude.{ℕ, Bool, true, false, ◌&&◌, ◌||◌, not, Option, none, some, List, [], ◌∷◌}
use dc_inventory.Prelude.Tests.{◌==◌, if◌then◌else◌, is_some, is_id, opt_eq}
use dc_inventory.Prelude.Lists.{any, select}
use dc_inventory.Prelude.Result.{Result, ok, ◌>>=◌, ◌>>◌, raise_if, or_raise}
use dc_inventory.Identity.Policy.{UserRole, UserAccessStatus, role_eq}
use dc_inventory.Identity.Tables.{User, TelegramIdentity, AccessRequest, IdentityTables}
use dc_inventory.Identity.Lifecycle.{accessed, transition_user_access, change_role}
use dc_inventory.Identity.Admin.Guards.{
  AdminUserError, Locked, lock_actor_and_target, may_manage, has_custody, find_identity,
}
use dc_inventory.Identity.Admin.{is_pending_of, revoke_sessions}
use dc_inventory.Notifications.Outbox.{NotificationOutbox, OutboxStatus, is_pending_row}
use dc_inventory.Procurement.Tables.{ProcurementRequest}
use dc_inventory.Procurement.StateMachine.{is_completed}
use dc_inventory.Database.{Database}

-- The confirmation: the account still has the Telegram identity that was shown.
unfoldable pub confirm : ℕ → ℕ → List TelegramIdentity → Result AdminUserError TelegramIdentity
confirm target_user_id expected identities = do
  identity ← or_raise (find_identity target_user_id identities) AdminUserError.not_found
  raise_if (not (identity.telegram_user_id == expected)) AdminUserError.reset_identity_mismatch
  ok identity

-- A purchase that is not completed has the user as its initiator or its manager.
unfoldable pub has_open_purchase : ℕ → List ProcurementRequest → Bool
has_open_purchase k requests =
    any
      (λ r.
        not (is_completed r.status)
        && (r.initiator_user_id == k || r.assigned_manager_user_id == k))
      requests

-- The message on a pending request is given up, unless a worker has it.
unfoldable pub bury : ℕ → List NotificationOutbox → List NotificationOutbox
bury key [] = []
bury key (n ∷ ns) =
    (if n.dedupe_key == key && is_pending_row n && not (is_some n.claimed_at)
      then record n { status = OutboxStatus.dead }
      else n)
    ∷ bury key ns

-- `for request in pending_requests`
unfoldable pub bury_requests :
    (ℕ → ℕ) → ℕ → List AccessRequest → List NotificationOutbox → List NotificationOutbox
bury_requests admin_key k [] ns = ns
bury_requests admin_key k (r ∷ rs) ns =
    bury_requests admin_key k rs (if is_pending_of k r then bury (admin_key r.id) ns else ns)

-- `if target.role != UserRole.ENGINEER`
abbrev pub to_engineer : User → ℕ → ℕ → IdentityTables → IdentityTables
to_engineer target actor_user_id now t =
    if role_eq target.role UserRole.engineer
    then t
    else change_role target actor_user_id UserRole.engineer now t

-- No session of the user is left, no pending request, and no Telegram identity.
abbrev pub without_login : ℕ → ℕ → IdentityTables → IdentityTables
without_login k now t = record t {
  auth_sessions = revoke_sessions k now t.auth_sessions;
  access_requests = select (λ r. not (is_pending_of k r)) t.access_requests;
  identities = select (λ (i : TelegramIdentity). not (i.user_id == k)) t.identities;
}

abbrev pub detached : Locked → ℕ → IdentityTables → IdentityTables
detached l now t =
    to_engineer (accessed l.actor.id UserAccessStatus.blocked now l.target) l.actor.id now (
      transition_user_access l.target l.actor.id UserAccessStatus.blocked now
        (without_login l.target.id now t))

-- The tests after the confirmation, and the changes.
unfoldable pub reset_confirmed :
    (ℕ → ℕ) → Locked → Option ℕ → ℕ → Database → TelegramIdentity → Result AdminUserError Database
reset_confirmed admin_key l recovery now db identity = do
  raise_if (role_eq l.target.role UserRole.owner || is_id recovery identity.telegram_user_id)
      AdminUserError.recovery_invariant
  raise_if (not (may_manage l)) AdminUserError.forbidden
  raise_if (has_custody l.target.id db.warehouse.custody) AdminUserError.outstanding_custody
  raise_if (has_open_purchase l.target.id db.requests) AdminUserError.reset_active_procurement
  ok (record db {
    identity = detached l now db.identity;
    outbox = bury_requests admin_key l.target.id db.identity.access_requests db.outbox;
  })

unfoldable pub reset_locked :
    (ℕ → ℕ) → ℕ → Option ℕ → ℕ → Database → Locked → Result AdminUserError Database
reset_locked admin_key expected recovery now db l =
    raise_if (l.actor.id == l.target.id) AdminUserError.forbidden
    >> (confirm l.target.id expected db.identity.identities
        >>= reset_confirmed admin_key l recovery now db)

-- `before` are the identities before the locks were taken. `admin_key` is the digest
-- `notification_dedupe_key("access-request", id, "admin")`.
unfoldable pub reset_user_account :
    (ℕ → ℕ)
    → List TelegramIdentity
    → ℕ
    → ℕ
    → ℕ
    → Option ℕ
    → ℕ
    → Database
    → Result AdminUserError Database
reset_user_account admin_key before actor_user_id target_user_id expected recovery now db = do
  shown ← confirm target_user_id expected before
  l ← lock_actor_and_target actor_user_id target_user_id db.identity.users
  reset_locked admin_key expected recovery now db l
