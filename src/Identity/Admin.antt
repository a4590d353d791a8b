-- ===== src/Identity/Admin.antt =====
-- identity/admin_service.py: what an administrator may do with the access and the role of a user.
-- A call gives the tables after it: the changed row and the newest event are read from them.
pub mod Guards
pub mod Steps
use dc_inventory.Prelude.{ℕ, Bool, true, false, ◌&&◌, ◌||◌, not, Option, none, some, List, [], ◌∷◌}
use dc_inventory.Prelude.Tests.{◌==◌, if◌then◌else◌, is_some}
use dc_inventory.Prelude.Lists.{find}
use dc_inventory.Prelude.Result.{Result, ok, ◌>>=◌, ◌>>◌, raise_if, or_raise}
use dc_inventory.Identity.Policy.{
  UserRole, UserAccessStatus, AccessRequestStatus, Capability, role_eq, status_eq, has_capability,
  is_standard_assignable, is_custody_role,
}
use dc_inventory.Identity.Tables.{DecisionNote, User, AccessRequest, AuthSession, IdentityTables}
use dc_inventory.Identity.Lifecycle.{transition_user_access, change_role}
use dc_inventory.Identity.Admin.Guards.{
  AdminUserError, Locked, lock_actor_and_target, is_protected, may_manage, has_custody,
  has_active_procurement_create_responsibility,
}
use dc_inventory.Database.{Database}

-- `(before, after) in allowed`
abbrev pub access_allowed : UserAccessStatus → UserAccessStatus → Bool
access_allowed UserAccessStatus.approved UserAccessStatus.blocked = true
access_allowed UserAccessStatus.blocked UserAccessStatus.approved = true
access_allowed _ _ = false

abbrev pub is_blocking : UserAccessStatus → UserAccessStatus → Bool
is_blocking before after =
    status_eq before UserAccessStatus.approved && status_eq after UserAccessStatus.blocked

-- `UPDATE auth_sessions SET revoked_at = now WHERE user_id = k AND revoked_at IS NULL`
unfoldable pub revoke_sessions : ℕ → ℕ → List AuthSession → List AuthSession
revoke_sessions k now [] = []
revoke_sessions k now (s ∷ ss) =
    (if s.user_id == k && not (is_some s.revoked_at) then record s { revoked_at = some now } else s)
    ∷ revoke_sessions k now ss

-- The transition, and a blocked user loses the sessions.
abbrev pub access_changed : Locked → UserAccessStatus → ℕ → IdentityTables → IdentityTables
access_changed l access_status now t =
    let t' = transition_user_access l.target l.actor.id access_status now t in
    record t' {
      auth_sessions =
          if status_eq access_status UserAccessStatus.blocked
          then revoke_sessions l.target.id now t'.auth_sessions
          else t'.auth_sessions;
    }

-- `update_user_access` where the status changes.
unfoldable pub change_access :
    Locked → UserAccessStatus → Option ℕ → ℕ → Database → Result AdminUserError Database
change_access l access_status recovery now db = do
  raise_if (not (access_allowed l.target.access_status access_status))
      AdminUserError.invalid_access_transition
  raise_if (is_protected recovery l.target db.identity) AdminUserError.recovery_invariant
  raise_if (not (may_manage l)) AdminUserError.forbidden
  raise_if (l.actor.id == l.target.id) AdminUserError.forbidden
  raise_if
      (is_blocking l.target.access_status access_status
        && has_custody l.target.id db.warehouse.custody)
      AdminUserError.outstanding_custody
  raise_if
      (is_blocking l.target.access_status access_status
        && has_capability l.target.role Capability.procurement_create
        && has_active_procurement_create_responsibility l.target.id db.requests)
      AdminUserError.active_procurement
  ok (record db { identity = access_changed l access_status now db.identity })

unfoldable pub update_user_access :
    ℕ → ℕ → UserAccessStatus → Option ℕ → ℕ → Database → Result AdminUserError Database
update_user_access actor_user_id target_user_id access_status recovery now db = do
  l ← lock_actor_and_target actor_user_id target_user_id db.identity.users
  (if status_eq access_status l.target.access_status
      then ok db
      else change_access l access_status recovery now db)

abbrev pub request_status_index : AccessRequestStatus → ℕ
request_status_index AccessRequestStatus.pending = 0
request_status_index AccessRequestStatus.approved = 1
request_status_index AccessRequestStatus.rejected = 2

abbrev pub is_pending : AccessRequestStatus → Bool
is_pending s = request_status_index s == 0

abbrev pub is_pending_of : ℕ → AccessRequest → Bool
is_pending_of k r = r.user_id == k && is_pending r.status

-- The status of the user that a decision leads to.
abbrev pub decided_access : AccessRequestStatus → UserAccessStatus
decided_access AccessRequestStatus.approved = UserAccessStatus.approved
decided_access _ = UserAccessStatus.rejected

-- The pending request of the user gets its decision. A unique index leaves one of them.
unfoldable pub decide_request :
    ℕ → ℕ → AccessRequestStatus → DecisionNote → ℕ → List AccessRequest → List AccessRequest
decide_request k actor_user_id decision note now [] = []
decide_request k actor_user_id decision note now (r ∷ rs) =
    if is_pending_of k r
    then record r {
      status = decision;
      decided_at = some now;
      decided_by_user_id = some actor_user_id;
      decision_note = some note;
    }
      ∷ rs
    else r ∷ decide_request k actor_user_id decision note now rs

abbrev pub decided : Locked → AccessRequestStatus → ℕ → IdentityTables → IdentityTables
decided l decision now t =
    let t' = transition_user_access l.target l.actor.id (decided_access decision) now t in
    record t' {
      access_requests =
          decide_request l.target.id l.actor.id decision DecisionNote.web_console now
            t'.access_requests;
    }

unfoldable pub decide_locked :
    Locked → AccessRequestStatus → Option ℕ → ℕ → Database → Result AdminUserError Database
decide_locked l decision recovery now db = do
  raise_if (l.actor.id == l.target.id) AdminUserError.forbidden
  raise_if (is_protected recovery l.target db.identity) AdminUserError.recovery_invariant
  raise_if (not (may_manage l)) AdminUserError.forbidden
  raise_if (not (status_eq l.target.access_status UserAccessStatus.pending))
      AdminUserError.invalid_access_transition
  raise_if (not (is_some (find (is_pending_of l.target.id) db.identity.access_requests)))
      AdminUserError.pending_access_request_not_found
  ok (record db { identity = decided l decision now db.identity })

unfoldable pub decide_pending_access_request :
    ℕ → ℕ → AccessRequestStatus → Option ℕ → ℕ → Database → Result AdminUserError Database
decide_pending_access_request actor_user_id target_user_id decision recovery now db = do
  raise_if (is_pending decision) AdminUserError.invalid_access_transition
  l ← lock_actor_and_target actor_user_id target_user_id db.identity.users
  decide_locked l decision recovery now db

-- `can_assign`
abbrev pub can_assign : UserRole → UserRole → Bool
can_assign actor role =
    is_standard_assignable role && has_capability actor Capability.access_assign_standard_roles
    || role_eq role UserRole.admin && has_capability actor Capability.access_assign_admin

unfoldable pub assign_role : Locked → UserRole → ℕ → Database → Result AdminUserError Database
assign_role l role now db = do
  raise_if (not (is_custody_role role) && has_custody l.target.id db.warehouse.custody)
      AdminUserError.outstanding_custody
  raise_if
      (has_capability l.target.role Capability.procurement_create
        && not (has_capability role Capability.procurement_create)
        && has_active_procurement_create_responsibility l.target.id db.requests)
      AdminUserError.active_procurement
  ok (record db { identity = change_role l.target l.actor.id role now db.identity })

unfoldable pub role_locked :
    Locked → UserRole → Option ℕ → ℕ → Database → Result AdminUserError Database
role_locked l role recovery now db = do
  raise_if (l.actor.id == l.target.id) AdminUserError.forbidden
  raise_if (role_eq role UserRole.owner) AdminUserError.forbidden
  raise_if (is_protected recovery l.target db.identity) AdminUserError.recovery_invariant
  raise_if (not (may_manage l)) AdminUserError.forbidden
  raise_if (not (can_assign l.actor.role role)) AdminUserError.forbidden
  (if role_eq role l.target.role then ok db else assign_role l role now db)

unfoldable pub update_user_role :
    ℕ → ℕ → UserRole → Option ℕ → ℕ → Database → Result AdminUserError Database
update_user_role actor_user_id target_user_id role recovery now db = do
  l ← lock_actor_and_target actor_user_id target_user_id db.identity.users
  role_locked l role recovery now db
