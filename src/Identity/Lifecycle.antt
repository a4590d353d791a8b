-- ===== src/Identity/Lifecycle.antt =====
-- identity/access_lifecycle.py: the change of the access of a user, and its event.
pub mod Rows
pub mod Frame
use dc_inventory.Prelude.{ℕ, Bool, true, false, Option, none, some, List, [], ◌∷◌}
use dc_inventory.Prelude.Tests.{◌==◌, if◌then◌else◌}
use dc_inventory.Identity.Policy.{UserAccessStatus, UserRole, status_eq}
use dc_inventory.Identity.Tables.{User, UserAccessEvent, UserRoleEvent, IdentityTables}

-- The row of a user is written back.
unfoldable pub put_user : User → List User → List User
put_user u [] = []
put_user u (v ∷ vs) = if v.id == u.id then u ∷ vs else v ∷ put_user u vs

abbrev pub is_approved : UserAccessStatus → Bool
is_approved s = status_eq s UserAccessStatus.approved

-- The row with its new status: the approval is noted, or forgotten.
abbrev pub with_access : ℕ → UserAccessStatus → ℕ → User → User
with_access actor_user_id access_status now user = record user {
  access_status = access_status;
  approved_at = if is_approved access_status then some now else none;
  approved_by_user_id = if is_approved access_status then some actor_user_id else none;
}

abbrev pub access_event : ℕ → UserAccessStatus → ℕ → User → UserAccessEvent
access_event actor_user_id access_status now user = record {
  actor_user_id = actor_user_id;
  target_user_id = user.id;
  before_access_status = user.access_status;
  after_access_status = access_status;
  occurred_at = now;
}

unfoldable pub transition_user_access :
    User → ℕ → UserAccessStatus → ℕ → IdentityTables → IdentityTables
transition_user_access user actor_user_id access_status now t =
    if status_eq user.access_status access_status then t else record t {
      users = put_user (with_access actor_user_id access_status now user) t.users;
      access_events = access_event actor_user_id access_status now user ∷ t.access_events;
    }

-- The row of the user after `transition_user_access`.
abbrev pub accessed : ℕ → UserAccessStatus → ℕ → User → User
accessed actor_user_id access_status now user =
    let same = status_eq user.access_status access_status in
    let new = with_access actor_user_id access_status now user in
    record user {
      access_status = if same then user.access_status else new.access_status;
      approved_at = if same then user.approved_at else new.approved_at;
      approved_by_user_id = if same then user.approved_by_user_id else new.approved_by_user_id;
    }

abbrev pub role_event : ℕ → UserRole → ℕ → User → UserRoleEvent
role_event actor_user_id role now user = record {
  actor_user_id = actor_user_id;
  target_user_id = user.id;
  before_role = user.role;
  after_role = role;
  occurred_at = now;
}

-- `user.role = role` and `db.add(UserRoleEvent(…))`
unfoldable pub change_role : User → ℕ → UserRole → ℕ → IdentityTables → IdentityTables
change_role user actor_user_id role now t = record t {
  users = put_user (record user { role = role }) t.users;
  role_events = role_event actor_user_id role now user ∷ t.role_events;
}
