-- ===== src/Identity/Access.antt =====
-- access/service.py: a user asks for access.
pub mod Answered
use dc_inventory.Prelude.{ℕ, Bool, true, false, Option, none, some, List, ◌∷◌}
use dc_inventory.Prelude.Tests.{◌==◌, if◌then◌else◌, is_some}
use dc_inventory.Prelude.Lists.{find}
use dc_inventory.Prelude.Result.{Result, ok, ◌>>=◌, ◌>>◌, raise_if, or_raise}
use dc_inventory.Identity.Policy.{UserAccessStatus, AccessRequestStatus, status_eq}
use dc_inventory.Identity.Tables.{User, AccessRequest, IdentityTables, find_user}
use dc_inventory.Identity.Lifecycle.{accessed, transition_user_access}
use dc_inventory.Identity.Admin.{is_pending_of}

pub data AccessRequestError : Type 0 where
  already_approved blocked user_missing : AccessRequestError

pub record AccessRequestResult : Type 0 where
  pub request : AccessRequest
  pub access_status : UserAccessStatus
  pub created : Bool

-- The pending request of a user, of which a unique index leaves one.
unfoldable pub get_pending_access_request : ℕ → List AccessRequest → Option AccessRequest
get_pending_access_request user_id = find (is_pending_of user_id)

abbrev pub new_access_request : ℕ → ℕ → ℕ → AccessRequest
new_access_request request_id user_id now = record {
  id = request_id;
  user_id = user_id;
  status = AccessRequestStatus.pending;
  requested_at = now;
  decided_at = none;
  decided_by_user_id = none;
  decision_note = none;
}

-- A rejected user is pending again.
abbrev pub reopened : User → ℕ → IdentityTables → IdentityTables
reopened user now t =
    if status_eq user.access_status UserAccessStatus.rejected
    then transition_user_access user user.id UserAccessStatus.pending now t
    else t

abbrev pub reopened_status : UserAccessStatus → UserAccessStatus
reopened_status UserAccessStatus.rejected = UserAccessStatus.pending
reopened_status s = s

abbrev pub ask :
    ℕ → ℕ → User → Option AccessRequest → IdentityTables → AccessRequestResult × IdentityTables
ask request_id now user (some existing) t = (
  record {
    request = existing;
    access_status = reopened_status user.access_status;
    created = false;
  },
  t,
)
ask request_id now user none t = (
  record {
    request = new_access_request request_id user.id now;
    access_status = reopened_status user.access_status;
    created = true;
  },
  record t { access_requests = new_access_request request_id user.id now ∷ t.access_requests },
)

unfoldable pub create_or_get_access_request :
    ℕ → ℕ → ℕ → IdentityTables → Result AccessRequestError (AccessRequestResult × IdentityTables)
create_or_get_access_request user_id request_id now t = do
  user ← or_raise (find_user user_id t.users) AccessRequestError.user_missing
  raise_if (status_eq user.access_status UserAccessStatus.approved)
      AccessRequestError.already_approved
  raise_if (status_eq user.access_status UserAccessStatus.blocked) AccessRequestError.blocked
  ok (
      ask request_id now user (get_pending_access_request user.id t.access_requests)
        (reopened user now t))
