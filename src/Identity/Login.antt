-- ===== src/Identity/Login.antt =====
-- auth/service.py: the user of a Telegram identity, made at the first login, and the recovery of the
-- owner.
use dc_inventory.Prelude.{ℕ, Bool, ◌&&◌, ◌||◌, not, Option, none, some, ◌∷◌}
use dc_inventory.Prelude.Tests.{◌==◌, if◌then◌else◌, is_some, is_id}
use dc_inventory.Prelude.Lists.{any, find}
use dc_inventory.Prelude.Result.{Result, ok, ◌>>=◌, ◌>>◌, raise_if, or_raise}
use dc_inventory.Identity.Policy.{UserRole, UserAccessStatus, AccessRequestStatus, role_eq}
use dc_inventory.Identity.Tables.{DecisionNote, User, TelegramIdentity, IdentityTables, find_user}
use dc_inventory.Identity.Lifecycle.{is_approved, put_user, transition_user_access, change_role}
use dc_inventory.Identity.Admin.{is_pending_of, decide_request}

pub data AuthError : Type 0 where
  recovery_owner_conflict user_missing integrity : AuthError

-- Nothing is left to recover.
abbrev pub is_recovered : User → IdentityTables → Bool
is_recovered user t =
    role_eq user.role UserRole.owner
    && is_approved user.access_status
    && is_some user.approved_at
    && is_some user.approved_by_user_id
    && not (any (is_pending_of user.id) t.access_requests)

abbrev pub is_other_owner : ℕ → User → Bool
is_other_owner k u = role_eq u.role UserRole.owner && not (u.id == k)

abbrev pub made_owner : User → ℕ → IdentityTables → IdentityTables
made_owner user now t =
    if role_eq user.role UserRole.owner then t else change_role user user.id UserRole.owner now t

-- The access of the new owner: a transition, or the approval that was missing.
abbrev pub made_approved : User → ℕ → IdentityTables → IdentityTables
made_approved user now t =
    if is_approved user.access_status
    then if is_some user.approved_at && is_some user.approved_by_user_id then t else record t {
      users =
          put_user (record user { approved_at = some now; approved_by_user_id = some user.id })
            t.users;
    }
    else transition_user_access user user.id UserAccessStatus.approved now t

unfoldable pub recover : User → ℕ → IdentityTables → IdentityTables
recover user now t =
    let t' = made_approved (record user { role = UserRole.owner }) now (made_owner user now t) in
    record t' {
      access_requests =
          decide_request user.id user.id AccessRequestStatus.approved DecisionNote.recovery_owner
            now t'.access_requests;
    }

-- `recovery` is `settings.admin_telegram_user_id`.
unfoldable pub reconcile_recovery_owner :
    User → TelegramIdentity → Option ℕ → ℕ → IdentityTables → Result AuthError IdentityTables
reconcile_recovery_owner user identity recovery now t =
    if not (is_id recovery identity.telegram_user_id) || is_recovered user t
    then ok t
    else or_raise (find_user user.id t.users) AuthError.user_missing >>= λ locked.
        raise_if (any (is_other_owner locked.id) t.users) AuthError.recovery_owner_conflict
        >> ok (recover locked now t)

-- The user of a first login. Its identifier is a primary key.
abbrev pub new_user : ℕ → Bool → ℕ → User
new_user user_id is_recovery now = record {
  id = user_id;
  role = if is_recovery then UserRole.owner else UserRole.engineer;
  access_status = if is_recovery then UserAccessStatus.approved else UserAccessStatus.pending;
  approved_at = if is_recovery then some now else none;
  approved_by_user_id = none;
}

abbrev pub with_user : User → ℕ → IdentityTables → IdentityTables
with_user user telegram_user_id t = record t {
  users = user ∷ t.users;
  identities = record { user_id = user.id; telegram_user_id = telegram_user_id } ∷ t.identities;
}

pub record Login : Type 0 where
  pub user : User
  pub tables : IdentityTables

unfoldable pub first_login : ℕ → Option ℕ → ℕ → ℕ → IdentityTables → Result AuthError Login
first_login telegram_user_id recovery user_id now t = do
  let is_recovery = is_id recovery telegram_user_id
  raise_if (is_recovery && any (λ u. role_eq u.role UserRole.owner) t.users)
      AuthError.recovery_owner_conflict
  raise_if (is_some (find_user user_id t.users)) AuthError.integrity
  let user = new_user user_id is_recovery now
  ok (record { user = user; tables = with_user user telegram_user_id t })

-- `identity.user`, and the recovery of the owner.
unfoldable pub next_login :
    TelegramIdentity → Option ℕ → ℕ → IdentityTables → Result AuthError Login
next_login identity recovery now t = do
  user ← or_raise (find_user identity.user_id t.users) AuthError.user_missing
  t' ← reconcile_recovery_owner user identity recovery now t
  user' ← or_raise (find_user identity.user_id t'.users) AuthError.user_missing
  ok (record { user = user'; tables = t' })

-- `user_id` is the identifier for a new user.
unfoldable pub upsert_telegram_identity :
    ℕ → Option ℕ → ℕ → ℕ → IdentityTables → Result AuthError Login
upsert_telegram_identity telegram_user_id recovery user_id now t =
    elim (find (λ (i : TelegramIdentity). i.telegram_user_id == telegram_user_id) t.identities) [
      | none ↦ first_login telegram_user_id recovery user_id now t
      | some identity ↦ next_login identity recovery now t
    ]
