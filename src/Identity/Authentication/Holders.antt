-- ===== src/Identity/Authentication/Holders.antt =====
-- Logins and requests for access leave who holds equipment eligible.
use mathlib.Core.Path.{subst}
use dc_inventory.Prelude.{
  ℕ, ◌≡◌, refl, sym, ap, ◌∙◌, inl, inr, Bool, true, false, ◌&&◌, Option, some, List, [], ◌∷◌, arith,
}
use dc_inventory.Prelude.Tests.{◌==◌, Bool-cases, Option-cases}
use dc_inventory.Prelude.Lists.{all}
use dc_inventory.Prelude.Result.{ok}
use dc_inventory.Prelude.Table.{Row}
use dc_inventory.Identity.Tables.{User, TelegramIdentity, IdentityTables, find_user}
use dc_inventory.Identity.Policy.{UserAccessStatus, role_eq, status_eq}
use dc_inventory.Identity.Lifecycle.Rows.{find_user_id}
use dc_inventory.Identity.Admin.Guards.{has_custody}
use dc_inventory.Identity.Access.{AccessRequestResult, reopened, create_or_get_access_request}
use dc_inventory.Identity.Lifecycle.Frame.{transition-others}
use dc_inventory.Identity.Sessions.{revoke_auth_session}
use dc_inventory.Identity.Administration.Holders.{HoldersEligible, has_custody-row}
use dc_inventory.Identity.Authentication.{
  keeps_eligibility, enforce_user_custody_eligibility, commit_identity, LoginCall,
  authenticate_with_telegram, recover_owner,
}
use dc_inventory.Warehouse.Movement.Guards.{may_hold_custody, user_may_hold}
use dc_inventory.Database.{Database}
use dc_inventory.Identity.Authentication.Grown.{Grown, reconcile-Grown, upsert-Grown}
use dc_inventory.Identity.Authentication.Steps.{
  issue_users, authenticate_steps, recover_owner_steps, create_or_get_steps,
}

both : (a b : Bool) → a && b ≡ true → (a ≡ true) × (b ≡ true)
both true true h = (refl, refl)
both true false h = absurd (ground (arith, h))
both false b h = absurd (ground (arith, h))

some_same : {u v : User} → some u ≡ some v → u ≡ v
some_same h = cc

kept_row :
    (custody : List Row) (before after : List User) (k : ℕ) (u : User)
    → enforce_user_custody_eligibility custody before after ≡ true
    → find_user k after ≡ some u
    → keeps_eligibility custody (find_user k before) u ≡ true
unfolding enforce_user_custody_eligibility
kept_row custody before [] k u h found = cc
kept_row custody before (v ∷ vs) k u h found =
    let (here, there) =
      both (keeps_eligibility custody (find_user v.id before) v)
        (all (λ u. keeps_eligibility custody (find_user u.id before) u) vs) h in
    elim (Bool-cases (v.id == k)) [
      | inr other ↦ kept_row custody before vs k u there (rw other at found)
      | inl same ↦
          subst (λ w. keeps_eligibility custody (find_user k before) w ≡ true)
            (some_same (rw same at found))
            (subst (λ j. keeps_eligibility custody (find_user j before) v ≡ true)
              (ground (arith, same)) here)
    ]

same_may_hold :
    (old new : User)
    → role_eq old.role new.role && status_eq old.access_status new.access_status ≡ true
    → may_hold_custody old ≡ true
    → may_hold_custody new ≡ true
same_may_hold old new h may = ground (arith, h, may)

eligible_after :
    (custody : List Row) (old u : User)
    → keeps_eligibility custody (some old) u ≡ true
    → may_hold_custody old ≡ true
    → has_custody u.id custody ≡ true
    → may_hold_custody u ≡ true
eligible_after custody old u h may held = ground (arith, h, may, held, same_may_hold old u)

commit-HoldersEligible :
    (t : IdentityTables) (db db' : Database)
    → Grown db.identity.users t.users
    → HoldersEligible db
    → commit_identity t db ≡ ok db'
    → HoldersEligible db'
unfolding commit_identity Grown
commit-HoldersEligible t db db' grown holders h =
    let same : db' ≡ record db { identity = t } = ground (arith, h) in
    let kept : enforce_user_custody_eligibility db.warehouse.custody db.identity.users t.users
        ≡ true =
      ground (arith, h) in
    subst HoldersEligible (sym same) (record {
      holder = λ user item quantity held.
          let may = holders.holder user item quantity held in
          elim (Option-cases (find_user user db.identity.users)) [
            | inl gone ↦ absurd (ground (arith, may, gone))
            | inr (old, here) ↦ elim (Option-cases (find_user user t.users)) [
              | inl lost ↦ absurd (ground (arith, grown user, here, lost))
              | inr (new, there) ↦
                  ap user_may_hold there
                  ∙ eligible_after db.warehouse.custody old new
                      (ap (λ o. keeps_eligibility db.warehouse.custody o new) (sym here)
                        ∙ kept_row db.warehouse.custody db.identity.users t.users user new kept
                            there)
                      (ap user_may_hold (sym here) ∙ may)
                      (ap (λ k. has_custody k db.warehouse.custody)
                          (find_user_id user t.users new there)
                        ∙ has_custody-row user item quantity db.warehouse.custody held)
            ]
          ];
    })

-- A login keeps the holders of equipment eligible.
pub authenticate-HoldersEligible :
    (hash_session_token : ℕ → ℕ) (c : LoginCall) (db db' : Database)
    → HoldersEligible db
    → authenticate_with_telegram hash_session_token c db ≡ ok db'
    → HoldersEligible db'
authenticate-HoldersEligible hash_session_token c db db' holders h =
    let (login, made, t, issued, e) = authenticate_steps hash_session_token c db db' h in
    commit-HoldersEligible t db db'
      (subst (Grown db.identity.users)
        (sym (
          issue_users hash_session_token login.user c.session_id c.raw_token c.ttl_seconds c.now
            login.tables t issued))
        (upsert-Grown c.telegram_user_id c.recovery c.user_id c.now db.identity login made))
      holders e

pub recover_owner-HoldersEligible :
    (u : User) (identity : TelegramIdentity) (recovery : Option ℕ) (now : ℕ) (db db' : Database)
    → HoldersEligible db
    → recover_owner u identity recovery now db ≡ ok db'
    → HoldersEligible db'
recover_owner-HoldersEligible u identity recovery now db db' holders h =
    let (t, made, e) = recover_owner_steps u identity recovery now db db' h in
    commit-HoldersEligible t db db' (reconcile-Grown u identity recovery now db.identity t made)
      holders e

reopened-others :
    (u : User) (now : ℕ) (t : IdentityTables) (k : ℕ)
    → (u.id == k) ≡ false
    → find_user k (reopened u now t).users ≡ find_user k t.users
reopened-others u now t k other =
    ground (arith, transition-others u u.id now t UserAccessStatus.pending k other)

-- Who asks for access has none, and so holds nothing.
pub ask-HoldersEligible :
    (user_id request_id now : ℕ) (db : Database) (r : AccessRequestResult) (t : IdentityTables)
    → HoldersEligible db
    → create_or_get_access_request user_id request_id now db.identity ≡ ok (r, t)
    → HoldersEligible (record db { identity = t })
ask-HoldersEligible user_id request_id now db r t holders h =
    let (u, here, idle, same) = create_or_get_steps user_id request_id now db.identity r t h in
    record {
      holder = λ user item quantity held.
          let may = holders.holder user item quantity held in
          elim (Bool-cases (u.id == user)) [
            | inl asker ↦ absurd (
                ground (
                  arith,
                  idle,
                  ap user_may_hold (sym here)
                      ∙ subst (λ k. user_may_hold (find_user k db.identity.users) ≡ true)
                          (sym (ground (arith, asker))
                            ∙ find_user_id user_id db.identity.users u here)
                          may,
                ))
            | inr other ↦
                ap user_may_hold
                  (ap (find_user user) same ∙ reopened-others u now db.identity user other)
                ∙ may
          ];
    }

pub logout-HoldersEligible :
    (session_id now : ℕ) (db : Database)
    → HoldersEligible db
    → HoldersEligible (record db { identity = revoke_auth_session session_id now db.identity })
unfolding revoke_auth_session
logout-HoldersEligible session_id now db holders = record { holder = holders.holder }
