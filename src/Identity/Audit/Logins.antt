-- ===== src/Identity/Audit/Logins.antt =====
-- Logins, the recovery of the owner and requests for access write their events too.
use mathlib.Core.Path.{subst}
use dc_inventory.Prelude.{
  ℕ, ◌≡◌, refl, sym, ap, ◌∙◌, inl, inr, true, ◌&&◌, Option, none, some, arith,
}
use dc_inventory.Prelude.Tests.{◌==◌, is_some, is_id, Bool-cases}
use dc_inventory.Prelude.Result.{ok}
use dc_inventory.Identity.Policy.{UserRole, UserAccessStatus, role_eq, status_eq}
use dc_inventory.Identity.Tables.{User, TelegramIdentity, IdentityTables, find_user}
use dc_inventory.Identity.Lifecycle.{is_approved}
use dc_inventory.Identity.Lifecycle.Rows.{find_user_id}
use dc_inventory.Identity.Lifecycle.Frame.{change_role-row}
use dc_inventory.Identity.Login.{
  Login, made_owner, made_approved, recover, with_user, new_user, reconcile_recovery_owner,
  upsert_telegram_identity,
}
use dc_inventory.Identity.Access.{AccessRequestResult, reopened, create_or_get_access_request}
use dc_inventory.Identity.Sessions.{issue_auth_session}
use dc_inventory.Identity.Authentication.{LoginCall, authenticate_with_telegram, recover_owner}
use dc_inventory.Identity.Authentication.Steps.{
  reconcile_steps, next_login_steps, upsert_steps, commit_steps, authenticate_steps,
  recover_owner_steps,
}
use dc_inventory.Identity.Audit.{
  IsAudited, access_trail, role_trail, access_unborn, role_unborn, status_of, role_of,
  same-IsAudited, transition-IsAudited, change_role-IsAudited, noted-IsAudited,
}
use dc_inventory.Identity.Sessions.Bounded.{issue_steps}
use dc_inventory.Database.{Database}

is_owner : (r : UserRole) → role_eq r UserRole.owner ≡ true → r ≡ UserRole.owner
is_owner UserRole.engineer h = absurd (ground (arith, h))
is_owner UserRole.senior_engineer h = absurd (ground (arith, h))
is_owner UserRole.manager h = absurd (ground (arith, h))
is_owner UserRole.admin h = absurd (ground (arith, h))
is_owner UserRole.owner h = refl

module _ (user : User) (now : ℕ) (t : IdentityTables) (here : find_user user.id t.users ≡ some user)
    (v : IsAudited t) where
  owner_row :
      find_user user.id (made_owner user now t).users ≡ some (record user { role = UserRole.owner })
  owner_row = elim (Bool-cases (role_eq user.role UserRole.owner)) [
    | inl owner ↦
        rw owner (here ∙ ap (λ r. some (record user { role = r })) (is_owner user.role owner))
    | inr other ↦ rw other (change_role-row user user.id now t UserRole.owner here)
  ]

  owner-IsAudited : IsAudited (made_owner user now t)
  owner-IsAudited = elim (Bool-cases (role_eq user.role UserRole.owner)) [
    | inl owner ↦ rw owner v
    | inr other ↦ rw other (change_role-IsAudited user user.id now t here v UserRole.owner other)
  ]

  approved-IsAudited : IsAudited (made_approved user now t)
  approved-IsAudited = elim (Bool-cases (is_approved user.access_status)) [
    | inr other ↦
        rw other (transition-IsAudited user user.id now t here v UserAccessStatus.approved)
    | inl approved ↦
        elim (Bool-cases (is_some user.approved_at && is_some user.approved_by_user_id)) [
          | inl noted ↦ rw (approved, noted) v
          | inr missing ↦
              rw (approved, missing)
                (noted-IsAudited user user.id now t here v (some now) (some user.id))
        ]
  ]

recover-IsAudited :
    (user : User) (now : ℕ) (t : IdentityTables)
    → find_user user.id t.users ≡ some user
    → IsAudited t
    → IsAudited (recover user now t)
unfolding recover
recover-IsAudited user now t here v =
    same-IsAudited (λ k. refl) refl refl
      (approved-IsAudited (record user { role = UserRole.owner }) now (made_owner user now t)
        (owner_row user now t here v) (owner-IsAudited user now t here v))

reconcile-IsAudited :
    (u : User) (identity : TelegramIdentity) (recovery : Option ℕ) (now : ℕ) (t t' : IdentityTables)
    → IsAudited t
    → reconcile_recovery_owner u identity recovery now t ≡ ok t'
    → IsAudited t'
reconcile-IsAudited u identity recovery now t t' v h =
    elim (reconcile_steps u identity recovery now t t' h) [
      | inl same ↦ subst IsAudited (sym same) v
      | inr (locked, there, same) ↦ subst IsAudited (sym same) (
          recover-IsAudited locked now t
            (subst (λ k. find_user k t.users ≡ some locked)
              (sym (find_user_id u.id t.users locked there)) there)
            v)
    ]

-- A new user has no events, and none are needed.
new_user-IsAudited :
    (user : User) (telegram : ℕ) (t : IdentityTables)
    → find_user user.id t.users ≡ none
    → IsAudited t
    → IsAudited (with_user user telegram t)
new_user-IsAudited user telegram t fresh v = record {
  access = λ k. elim (Bool-cases (user.id == k)) [
    | inl same ↦ rw same (
        access_unborn k t.access_events user.access_status (unborn_access k (ground (arith, same))))
    | inr other ↦ rw other (v.access k)
  ];
  roles = λ k. elim (Bool-cases (user.id == k)) [
    | inl same ↦
        rw same (role_unborn k t.role_events user.role (unborn_role k (ground (arith, same))))
    | inr other ↦ rw other (v.roles k)
  ];
}
  where
    unborn_access : (k : ℕ) → user.id ≡ k → access_trail k t.access_events none ≡ true
    unborn_access k same =
        ap (λ o. access_trail k t.access_events (status_of o))
          (sym (subst (λ j. find_user j t.users ≡ none) same fresh))
        ∙ v.access k

    unborn_role : (k : ℕ) → user.id ≡ k → role_trail k t.role_events none ≡ true
    unborn_role k same =
        ap (λ o. role_trail k t.role_events (role_of o))
          (sym (subst (λ j. find_user j t.users ≡ none) same fresh))
        ∙ v.roles k

upsert-IsAudited :
    (telegram : ℕ) (recovery : Option ℕ) (user_id now : ℕ) (t : IdentityTables) (login : Login)
    → IsAudited t
    → upsert_telegram_identity telegram recovery user_id now t ≡ ok login
    → IsAudited login.tables
upsert-IsAudited telegram recovery user_id now t login v h =
    elim (upsert_steps telegram recovery user_id now t login h) [
      | inl (fresh, same) ↦
          subst IsAudited (sym same)
            (new_user-IsAudited (new_user user_id (is_id recovery telegram) now) telegram t fresh v)
      | inr (identity, known) ↦
          let (user, made, _) = next_login_steps identity recovery now t login known in
          reconcile-IsAudited user identity recovery now t login.tables v made
    ]

issue-IsAudited :
    (hash_session_token : ℕ → ℕ) (user : User) (session_id raw_token ttl now : ℕ)
    (t t' : IdentityTables)
    → IsAudited t
    → issue_auth_session hash_session_token user session_id raw_token ttl now t ≡ ok t'
    → IsAudited t'
issue-IsAudited hash_session_token user session_id raw_token ttl now t t' v h =
    subst IsAudited (sym (issue_steps hash_session_token user session_id raw_token ttl now t t' h))
      (same-IsAudited (λ k. refl) refl refl v)

pub authenticate-IsAudited :
    (hash_session_token : ℕ → ℕ) (c : LoginCall) (db db' : Database)
    → IsAudited db.identity
    → authenticate_with_telegram hash_session_token c db ≡ ok db'
    → IsAudited db'.identity
authenticate-IsAudited hash_session_token c db db' v h =
    let (login, made, t, issued, e) = authenticate_steps hash_session_token c db db' h in
    subst (λ (d : Database). IsAudited d.identity) (sym (commit_steps t db db' e))
      (issue-IsAudited hash_session_token login.user c.session_id c.raw_token c.ttl_seconds c.now
        login.tables t
        (upsert-IsAudited c.telegram_user_id c.recovery c.user_id c.now db.identity login v made)
        issued)

pub recover_owner-IsAudited :
    (u : User) (identity : TelegramIdentity) (recovery : Option ℕ) (now : ℕ) (db db' : Database)
    → IsAudited db.identity
    → recover_owner u identity recovery now db ≡ ok db'
    → IsAudited db'.identity
recover_owner-IsAudited u identity recovery now db db' v h =
    let (t, made, e) = recover_owner_steps u identity recovery now db db' h in
    subst (λ (d : Database). IsAudited d.identity) (sym (commit_steps t db db' e))
      (reconcile-IsAudited u identity recovery now db.identity t v made)

asked_frame :
    (user_id request_id now : ℕ) (t : IdentityTables) (r : AccessRequestResult)
    (t' : IdentityTables)
    → create_or_get_access_request user_id request_id now t ≡ ok (r, t')
    → (u : User) × (find_user user_id t.users ≡ some u)
      × (t'.users ≡ (reopened u now t).users)
      × (t'.access_events ≡ (reopened u now t).access_events)
      × (t'.role_events ≡ (reopened u now t).role_events)
unfolding create_or_get_access_request
asked_frame user_id request_id now t r t' h = ground (arith, h)

reopened-IsAudited :
    (u : User) (now : ℕ) (t : IdentityTables)
    → find_user u.id t.users ≡ some u
    → IsAudited t
    → IsAudited (reopened u now t)
reopened-IsAudited u now t here v =
    elim (Bool-cases (status_eq u.access_status UserAccessStatus.rejected)) [
      | inl rejected ↦
          rw rejected (transition-IsAudited u u.id now t here v UserAccessStatus.pending)
      | inr other ↦ rw other v
    ]

pub ask-IsAudited :
    (user_id request_id now : ℕ) (t : IdentityTables) (r : AccessRequestResult)
    (t' : IdentityTables)
    → IsAudited t
    → create_or_get_access_request user_id request_id now t ≡ ok (r, t')
    → IsAudited t'
ask-IsAudited user_id request_id now t r t' v h =
    let (u, found, users, access, roles) = asked_frame user_id request_id now t r t' h in
    same-IsAudited (λ k. ap (find_user k) users) access roles
      (reopened-IsAudited u now t
        (subst (λ k. find_user k t.users ≡ some u) (sym (find_user_id user_id t.users u found))
          found)
        v)
