-- ===== src/Tests/Staff.antt =====
-- Runs of the calls on users: an administrator (1) blocks an engineer (3) and resets the account, and
-- a rejected user (4) asks for access again.
use dc_inventory.Prelude.{ℕ, ◌≡◌, refl, true, false, none, some, [], ◌∷◌}
use dc_inventory.Prelude.Result.{Result}
use dc_inventory.Database.{Database}
use dc_inventory.Identity.Policy.{
  UserRole, UserAccessStatus, Capability, capabilities_for_role, has_capability,
}
use dc_inventory.Identity.Tables.{AuthSession, IdentityTables, find_user}
use dc_inventory.Identity.Lifecycle.{put_user, transition_user_access, change_role}
use dc_inventory.Identity.Admin.Guards.{
  AdminUserError, Locked, lock_actor_and_target, is_recovery_identity, is_protected, may_manage,
  has_custody, has_active_procurement_create_responsibility,
}
use dc_inventory.Identity.Admin.{
  revoke_sessions, change_access, update_user_access, decide_request, decide_locked,
  decide_pending_access_request, assign_role, role_locked, update_user_role,
}
use dc_inventory.Identity.Reset.{
  confirm, has_open_purchase, bury, bury_requests, reset_confirmed, reset_locked,
  reset_user_account,
}
use dc_inventory.Identity.Access.{
  AccessRequestError, AccessRequestResult, new_access_request, get_pending_access_request,
  create_or_get_access_request,
}
use dc_inventory.Identity.Login.{AuthError}
use dc_inventory.Identity.Sessions.{
  insert_session, oldest_first, revoke_all, make_room, issue_auth_session,
}
use dc_inventory.Identity.Administration.{Administration, administer}
use dc_inventory.Identity.Audit.{IsAudited, access_trail, role_trail}
use dc_inventory.Tests.Data.{id_hash, user, empty_tables, given, is_ok}

abbrev pub session : ℕ → ℕ → AuthSession
session k user_id = record {
  id = k;
  user_id = user_id;
  token_hash = k;
  created_at = k;
  expires_at = 1000;
  revoked_at = none;
}

abbrev pub staff : IdentityTables
staff = record {
  users =
      user 1 UserRole.admin
      ∷ user 3 UserRole.engineer
      ∷ record (user 4 UserRole.engineer) {
        access_status = UserAccessStatus.rejected;
        approved_at = none;
      }
      ∷ [];
  identities =
      record { user_id = 1; telegram_user_id = 101 }
      ∷ record { user_id = 3; telegram_user_id = 103 }
      ∷ [];
  access_requests = [];
  access_events = [];
  role_events = [];
  auth_sessions =
      session 11 3 ∷ session 12 3 ∷ session 13 3 ∷ session 14 3 ∷ session 15 3 ∷ session 16 1 ∷ [];
}

abbrev pub office : Database
office = record empty_tables { identity = staff }

abbrev pub blocking : Administration
blocking = Administration.access UserAccessStatus.blocked

abbrev pub resetting : Administration
resetting = Administration.reset id_hash staff.identities 103

abbrev pub after_blocking : Result AdminUserError Database
after_blocking = administer blocking 1 3 (some 999) 500 office

abbrev pub after_reset : Result AdminUserError Database
after_reset = reset_user_account id_hash staff.identities 1 3 103 (some 999) 500 office

abbrev pub asking : Result AccessRequestError (AccessRequestResult × IdentityTables)
asking = create_or_get_access_request 4 70 500 staff

abbrev pub no_answer : AccessRequestResult × IdentityTables
no_answer = (
  record {
    request = new_access_request 0 0 0;
    access_status = UserAccessStatus.pending;
    created = false;
  },
  staff,
)

abbrev pub issuing : Result AuthError IdentityTables
issuing = issue_auth_session id_hash (user 3 UserRole.engineer) 17 17 900 100 staff

pub staff_run :
    (is_ok after_blocking ≡ true)
    × (is_ok after_reset ≡ true)
    × (is_ok asking ≡ true)
    × (is_ok issuing ≡ true)
    × (find_user 5 (given office after_reset).identity.users ≡ none)
unfolding capabilities_for_role has_capability put_user transition_user_access change_role
    lock_actor_and_target is_recovery_identity has_custody
    has_active_procurement_create_responsibility revoke_sessions change_access update_user_access
    decide_request decide_locked decide_pending_access_request assign_role role_locked
    update_user_role confirm has_open_purchase bury bury_requests reset_confirmed reset_locked
    reset_user_account get_pending_access_request create_or_get_access_request insert_session
    oldest_first revoke_all make_room issue_auth_session administer
staff_run = (refl, refl, refl, refl, refl)

abbrev pub lock : Locked
lock = record {
  actor = user 1 UserRole.admin;
  target = record (user 4 UserRole.engineer) {
    access_status = UserAccessStatus.pending;
    approved_at = none;
    approved_by_user_id = none;
  };
}

pub asked_run :
    (find_user 1 (given no_answer asking).1.users ≡ some lock.actor)
    × (find_user 4 (given no_answer asking).1.users ≡ some lock.target)
    × (has_capability UserRole.admin Capability.access_manage_users ≡ true)
    × (is_protected (some 999) lock.target (given no_answer asking).1 ≡ false)
    × (may_manage lock ≡ true)
unfolding capabilities_for_role has_capability put_user transition_user_access is_recovery_identity
    get_pending_access_request create_or_get_access_request
asked_run = (refl, refl, refl, refl, refl)

pub office-IsAudited : IsAudited office.identity
unfolding access_trail role_trail
office-IsAudited = record { access = λ k. refl; roles = λ k. refl }
