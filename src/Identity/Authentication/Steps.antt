-- ===== src/Identity/Authentication/Steps.antt =====
-- What a login, a recovery of the owner and a request for access that succeed went through.
use dc_inventory.Prelude.{ℕ, ◌≡◌, ◌⊎◌, inl, inr, false, ◌||◌, not, Option, none, some, arith}
use dc_inventory.Prelude.Tests.{◌==◌, is_id, Bool-cases, Option-cases}
use dc_inventory.Prelude.Lists.{find}
use dc_inventory.Prelude.Result.{ok, ◌>>=◌, >>=-Through}
use dc_inventory.Identity.Tables.{User, TelegramIdentity, IdentityTables, find_user}
use dc_inventory.Identity.Lifecycle.{is_approved}
use dc_inventory.Identity.Login.{
  Login, upsert_telegram_identity, first_login, next_login, reconcile_recovery_owner, recover,
  with_user, new_user, is_recovered,
}
use dc_inventory.Identity.Access.{AccessRequestResult, reopened, create_or_get_access_request}
use dc_inventory.Identity.Sessions.{issue_auth_session}
use dc_inventory.Identity.Authentication.{
  commit_identity, LoginCall, authenticate_with_telegram, recover_owner,
}
use dc_inventory.Database.{Database}

-- What the recovery of the owner does, where it does anything.
pub reconcile_steps :
    (u : User) (identity : TelegramIdentity) (recovery : Option ℕ) (now : ℕ) (t t' : IdentityTables)
    → reconcile_recovery_owner u identity recovery now t ≡ ok t'
    → (t' ≡ t)
      ⊎ (locked : User) × (find_user u.id t.users ≡ some locked) × (t' ≡ recover locked now t)
unfolding reconcile_recovery_owner
reconcile_steps u identity recovery now t t' h =
    elim (Bool-cases (not (is_id recovery identity.telegram_user_id) || is_recovered u t)) [
      | inl idle ↦ inl (ground (arith, h, idle))
      | inr active ↦ inr (ground (arith, h, active))
    ]

pub next_login_steps :
    (identity : TelegramIdentity) (recovery : Option ℕ) (now : ℕ) (t : IdentityTables)
    (login : Login)
    → next_login identity recovery now t ≡ ok login
    → (user : User) × (reconcile_recovery_owner user identity recovery now t ≡ ok login.tables)
      × (find_user identity.user_id t.users ≡ some user)
unfolding next_login
next_login_steps identity recovery now t login h = ground (arith, h)

-- A login is a first one, or one of an identity that is known.
pub upsert_steps :
    (telegram : ℕ) (recovery : Option ℕ) (user_id now : ℕ) (t : IdentityTables) (login : Login)
    → upsert_telegram_identity telegram recovery user_id now t ≡ ok login
    → (find_user user_id t.users ≡ none)
        × (login.tables ≡ with_user (new_user user_id (is_id recovery telegram) now) telegram t)
      ⊎ (identity : TelegramIdentity) × (next_login identity recovery now t ≡ ok login)
unfolding upsert_telegram_identity first_login
upsert_steps telegram recovery user_id now t login h =
    elim (Option-cases
      (find (λ (i : TelegramIdentity). i.telegram_user_id == telegram) t.identities)) [
        | inl unknown ↦ inl (ground (arith, h, unknown), ground (arith, h, unknown))
        | inr (identity, known) ↦ inr (identity, rw (upsert_telegram_identity, known) at h)
      ]

pub commit_steps :
    (t : IdentityTables) (db db' : Database)
    → commit_identity t db ≡ ok db'
    → db' ≡ record db { identity = t }
unfolding commit_identity
commit_steps t db db' h = ground arith

pub issue_users :
    (hash_session_token : ℕ → ℕ) (user : User) (session_id raw_token ttl now : ℕ)
    (t t' : IdentityTables)
    → issue_auth_session hash_session_token user session_id raw_token ttl now t ≡ ok t'
    → t'.users ≡ t.users
unfolding issue_auth_session
issue_users hash_session_token user session_id raw_token ttl now t t' h = ground arith

pub authenticate_steps :
    (hash_session_token : ℕ → ℕ) (c : LoginCall) (db db' : Database)
    → authenticate_with_telegram hash_session_token c db ≡ ok db'
    → (login : Login) × (upsert_telegram_identity c.telegram_user_id c.recovery c.user_id c.now
          db.identity
        ≡ ok login)
      × (t : IdentityTables) × (issue_auth_session hash_session_token login.user c.session_id
            c.raw_token c.ttl_seconds c.now login.tables
          ≡ ok t)
      × (commit_identity t db ≡ ok db')
unfolding authenticate_with_telegram
authenticate_steps hash_session_token c db db' h =
    let (login, made, g) =
      >>=-Through
        (upsert_telegram_identity c.telegram_user_id c.recovery c.user_id c.now db.identity)
        (λ (login : Login).
          issue_auth_session hash_session_token login.user c.session_id c.raw_token c.ttl_seconds
            c.now login.tables
          >>= λ t. commit_identity t db)
        h in
    let (t, issued, e) =
      >>=-Through
        (issue_auth_session hash_session_token login.user c.session_id c.raw_token c.ttl_seconds
          c.now login.tables)
        (λ t. commit_identity t db) g in
    (login, made, t, issued, e)

pub recover_owner_steps :
    (u : User) (identity : TelegramIdentity) (recovery : Option ℕ) (now : ℕ) (db db' : Database)
    → recover_owner u identity recovery now db ≡ ok db'
    → (t : IdentityTables) × (reconcile_recovery_owner u identity recovery now db.identity ≡ ok t)
      × (commit_identity t db ≡ ok db')
unfolding recover_owner
recover_owner_steps u identity recovery now db db' h =
    >>=-Through (reconcile_recovery_owner u identity recovery now db.identity)
      (λ t. commit_identity t db) h

pub create_or_get_steps :
    (user_id request_id now : ℕ) (t : IdentityTables) (r : AccessRequestResult)
    (t' : IdentityTables)
    → create_or_get_access_request user_id request_id now t ≡ ok (r, t')
    → (u : User) × (find_user user_id t.users ≡ some u)
      × (is_approved u.access_status ≡ false)
      × (t'.users ≡ (reopened u now t).users)
unfolding create_or_get_access_request
create_or_get_steps user_id request_id now t r t' h = ground (arith, h)

commit_frame :
    (t : IdentityTables) (db db' : Database)
    → commit_identity t db ≡ ok db'
    → db' ≡ record db { identity = db'.identity; outbox = db'.outbox }
unfolding commit_identity
commit_frame t db db' h = ground arith

pub authenticate-frame :
    (hash_session_token : ℕ → ℕ) (c : LoginCall) (db db' : Database)
    → authenticate_with_telegram hash_session_token c db ≡ ok db'
    → db' ≡ record db { identity = db'.identity; outbox = db'.outbox }
authenticate-frame hash_session_token c db db' h =
    let (_, _, t, _, e) = authenticate_steps hash_session_token c db db' h in
    commit_frame t db db' e

pub recover_owner-frame :
    (u : User) (identity : TelegramIdentity) (recovery : Option ℕ) (now : ℕ) (db db' : Database)
    → recover_owner u identity recovery now db ≡ ok db'
    → db' ≡ record db { identity = db'.identity; outbox = db'.outbox }
recover_owner-frame u identity recovery now db db' h =
    let (t, _, e) = recover_owner_steps u identity recovery now db db' h in commit_frame t db db' e
