-- ===== src/Identity/Sessions.antt =====
-- auth/service.py and auth/dependencies.py: the sessions of a user, and who a token speaks for.
pub mod Bounded
use dc_inventory.Prelude.{
  ℕ, ◌+◌, ◌-◌, Bool, true, false, ◌&&◌, ◌||◌, not, Option, none, some, List, [], ◌∷◌, map,
}
use dc_inventory.Prelude.Tests.{◌==◌, ltb, if◌then◌else◌, is_some}
use dc_inventory.Prelude.Lists.{length, find, select, take, contains}
use dc_inventory.Prelude.Result.{Result, ok, err, ◌>>=◌, ◌>>◌, raise_if, or_raise}
use dc_inventory.Identity.Policy.{Capability, has_capability}
use dc_inventory.Identity.Tables.{User, TelegramIdentity, AuthSession, IdentityTables, find_user}
use dc_inventory.Identity.Lifecycle.{is_approved}
use dc_inventory.Identity.Admin.Guards.{find_identity}
use dc_inventory.Identity.Login.{AuthError, Login, reconcile_recovery_owner}

abbrev pub max_active_sessions_per_user : ℕ
max_active_sessions_per_user = 5

-- `revoked_at IS NULL AND expires_at > now`
abbrev pub is_live : ℕ → AuthSession → Bool
is_live now s = not (is_some s.revoked_at) && ltb now s.expires_at

-- `active_filter`
abbrev pub is_active_session : ℕ → ℕ → AuthSession → Bool
is_active_session user_id now s = s.user_id == user_id && is_live now s

-- `ORDER BY created_at, id`
abbrev pub is_before : AuthSession → AuthSession → Bool
is_before s t = ltb s.created_at t.created_at || (s.created_at == t.created_at && ltb s.id t.id)

unfoldable pub insert_session : AuthSession → List AuthSession → List AuthSession
insert_session s [] = s ∷ []
insert_session s (t ∷ ts) = if is_before s t then s ∷ t ∷ ts else t ∷ insert_session s ts

unfoldable pub oldest_first : List AuthSession → List AuthSession
oldest_first [] = []
oldest_first (s ∷ ss) = insert_session s (oldest_first ss)

abbrev pub session_ids : List AuthSession → List ℕ
session_ids = map λ (s : AuthSession). s.id

-- The sessions with these identifiers are revoked.
unfoldable pub revoke_all : List ℕ → ℕ → List AuthSession → List AuthSession
revoke_all ids now [] = []
revoke_all ids now (s ∷ ss) =
    (if contains s.id ids then record s { revoked_at = some now } else s) ∷ revoke_all ids now ss

-- The oldest of the active sessions are revoked until there is room for one more.
unfoldable pub make_room : ℕ → ℕ → List AuthSession → List AuthSession
make_room user_id now ss =
    let active = select (is_active_session user_id now) ss in
    let revoke_count = (length active + 1) - max_active_sessions_per_user in
    revoke_all (session_ids (take revoke_count (oldest_first active))) now ss

abbrev pub new_session : (ℕ → ℕ) → User → ℕ → ℕ → ℕ → ℕ → AuthSession
new_session hash_session_token user session_id raw_token ttl_seconds now = record {
  id = session_id;
  user_id = user.id;
  token_hash = hash_session_token raw_token;
  created_at = now;
  expires_at = now + ttl_seconds;
  revoked_at = none;
}

unfoldable pub issue_auth_session :
    (ℕ → ℕ) → User → ℕ → ℕ → ℕ → ℕ → IdentityTables → Result AuthError IdentityTables
issue_auth_session hash_session_token user session_id raw_token ttl_seconds now t = do
  locked ← or_raise (find_user user.id t.users) AuthError.user_missing
  ok (record t {
    auth_sessions =
        new_session hash_session_token user session_id raw_token ttl_seconds now
        ∷ make_room user.id now t.auth_sessions;
  })

pub record AuthenticatedContext : Type 0 where
  pub session : AuthSession
  pub user : User
  pub identity : TelegramIdentity

abbrev pub context_of :
    AuthSession → Option User → Option TelegramIdentity → Option AuthenticatedContext
context_of s none identity = none
context_of s (some user) none = none
context_of s (some user) (some identity) =
    some (record { session = s; user = user; identity = identity })

abbrev session_context : IdentityTables → Option AuthSession → Option AuthenticatedContext
session_context t none = none
session_context t (some s) =
    context_of s (find_user s.user_id t.users) (find_identity s.user_id t.identities)

unfoldable pub load_auth_context : (ℕ → ℕ) → ℕ → ℕ → IdentityTables → Option AuthenticatedContext
load_auth_context hash_session_token raw_token now t =
    session_context t
      (find (λ s. s.token_hash == hash_session_token raw_token && is_live now s) t.auth_sessions)

pub data HttpError : Type 0 where
  unauthorized forbidden conflict : HttpError

abbrev user_after : IdentityTables → Option User → Option Login
user_after t none = none
user_after t (some user) = some (record { user = user; tables = t })

abbrev reconciled : AuthenticatedContext → Result AuthError IdentityTables → Result HttpError Login
reconciled c (err e) = err HttpError.conflict
reconciled c (ok t) = or_raise (user_after t (find_user c.user.id t.users)) HttpError.conflict

-- `get_authenticated_context`: who the cookie speaks for, after the recovery of the owner.
unfoldable pub get_authenticated_context :
    (ℕ → ℕ) → Option ℕ → ℕ → ℕ → IdentityTables → Result HttpError Login
get_authenticated_context hash_session_token recovery raw_token now t = do
  c ← or_raise (load_auth_context hash_session_token raw_token now t) HttpError.unauthorized
  reconciled c (reconcile_recovery_owner c.user c.identity recovery now t)

-- `require_capability(capability)`, on top of `get_approved_context`.
unfoldable pub require_capability :
    (ℕ → ℕ) → Capability → Option ℕ → ℕ → ℕ → IdentityTables → Result HttpError Login
require_capability hash_session_token capability recovery raw_token now t = do
  authenticated ← get_authenticated_context hash_session_token recovery raw_token now t
  raise_if (not (is_approved authenticated.user.access_status)) HttpError.forbidden
  raise_if (not (has_capability authenticated.user.role capability)) HttpError.forbidden
  ok authenticated

-- `auth_session.revoked_at = now`
unfoldable pub revoke_auth_session : ℕ → ℕ → IdentityTables → IdentityTables
revoke_auth_session session_id now t = record t {
  auth_sessions = revoke_all (session_id ∷ []) now t.auth_sessions;
}
