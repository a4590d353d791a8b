-- ===== src/Identity/Authentication/Grown.antt =====
-- No call on users removes one.
use mathlib.Core.Path.{subst}
use dc_inventory.Prelude.{ℕ, ◌≡◌, sym, inl, inr, true, Option, some, List, [], ◌∷◌, arith}
use dc_inventory.Prelude.Tests.{is_some, is_id}
use dc_inventory.Prelude.Result.{ok}
use dc_inventory.Identity.Tables.{User, TelegramIdentity, IdentityTables, find_user}
use dc_inventory.Identity.Policy.{UserRole, UserAccessStatus}
use dc_inventory.Identity.Lifecycle.{put_user, with_access, transition_user_access, change_role}
use dc_inventory.Identity.Login.{
  Login, upsert_telegram_identity, reconcile_recovery_owner, recover, made_owner, made_approved,
  with_user, new_user,
}
use dc_inventory.Identity.Authentication.Steps.{reconcile_steps, next_login_steps, upsert_steps}

-- No row is lost.
unfoldable pub Grown : List User → List User → Type 0
Grown before after =
    (k : ℕ) → is_some (find_user k before) ≡ true → is_some (find_user k after) ≡ true

Grown-put_user : (u : User) (us : List User) → Grown us (put_user u us)
unfolding Grown put_user
Grown-put_user u [] k h = h
Grown-put_user u (v ∷ vs) k h = ground (arith, Grown-put_user u vs k)

transition-Grown :
    (u : User) (actor_user_id : ℕ) (status : UserAccessStatus) (now : ℕ) (t : IdentityTables)
    → Grown t.users (transition_user_access u actor_user_id status now t).users
unfolding Grown transition_user_access
transition-Grown u actor_user_id status now t k h =
    ground (arith, h, Grown-put_user (with_access actor_user_id status now u) t.users k)

change_role-Grown :
    (u : User) (actor_user_id : ℕ) (role : UserRole) (now : ℕ) (t : IdentityTables)
    → Grown t.users (change_role u actor_user_id role now t).users
unfolding Grown change_role
change_role-Grown u actor_user_id role now t k h =
    Grown-put_user (record u { role = role }) t.users k h

made_owner-Grown :
    (u : User) (now : ℕ) (t : IdentityTables) → Grown t.users (made_owner u now t).users
unfolding Grown
made_owner-Grown u now t k h = ground (arith, h, change_role-Grown u u.id UserRole.owner now t k)

made_approved-Grown :
    (u : User) (now : ℕ) (t : IdentityTables) → Grown t.users (made_approved u now t).users
unfolding Grown
made_approved-Grown u now t k h = ground (
  arith,
  h,
  transition-Grown u u.id UserAccessStatus.approved now t k,
  Grown-put_user (record u { approved_at = some now; approved_by_user_id = some u.id }) t.users k,
)

pub reconcile-Grown :
    (u : User) (identity : TelegramIdentity) (recovery : Option ℕ) (now : ℕ) (t t' : IdentityTables)
    → reconcile_recovery_owner u identity recovery now t ≡ ok t'
    → Grown t.users t'.users
unfolding Grown recover
reconcile-Grown u identity recovery now t t' h k found =
    elim (reconcile_steps u identity recovery now t t' h) [
      | inl same ↦
          subst (λ (s : IdentityTables). is_some (find_user k s.users) ≡ true) (sym same) found
      | inr (locked, there, same) ↦
          subst (λ (s : IdentityTables). is_some (find_user k s.users) ≡ true) (sym same)
            (made_approved-Grown (record locked { role = UserRole.owner }) now
              (made_owner locked now t) k (made_owner-Grown locked now t k found))
    ]

new_user-Grown :
    (user : User) (telegram : ℕ) (t : IdentityTables)
    → Grown t.users (with_user user telegram t).users
unfolding Grown
new_user-Grown user telegram t k found = ground (arith, found)

pub upsert-Grown :
    (telegram : ℕ) (recovery : Option ℕ) (user_id now : ℕ) (t : IdentityTables) (login : Login)
    → upsert_telegram_identity telegram recovery user_id now t ≡ ok login
    → Grown t.users login.tables.users
upsert-Grown telegram recovery user_id now t login h =
    elim (upsert_steps telegram recovery user_id now t login h) [
      | inl (_, same) ↦
          subst (λ (s : IdentityTables). Grown t.users s.users) (sym same)
            (new_user-Grown (new_user user_id (is_id recovery telegram) now) telegram t)
      | inr (identity, known) ↦
          let (user, made, _) = next_login_steps identity recovery now t login known in
          reconcile-Grown user identity recovery now t login.tables made
    ]
