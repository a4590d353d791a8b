-- ===== src/Identity/Lifecycle/Frame.antt =====
-- What the changes of a user leave as it was.
use dc_inventory.Prelude.{ℕ, ◌≡◌, refl, false, some, inl, inr}
use dc_inventory.Prelude.Tests.{◌==◌, Bool-cases}
use dc_inventory.Identity.Policy.{UserRole, UserAccessStatus, status_eq}
use dc_inventory.Identity.Tables.{User, IdentityTables, find_user}
use dc_inventory.Identity.Lifecycle.{with_access, accessed, transition_user_access, change_role}
use dc_inventory.Identity.Lifecycle.Rows.{find_user-put_user, find_user-other}

module _ (user : User) (actor_user_id : ℕ) (now : ℕ) (t : IdentityTables) where
  pub transition-row :
      (access_status : UserAccessStatus)
      → find_user user.id t.users ≡ some user
      → find_user user.id (transition_user_access user actor_user_id access_status now t).users
        ≡ some (accessed actor_user_id access_status now user)
  unfolding transition_user_access
  transition-row access_status h = elim (Bool-cases (status_eq user.access_status access_status)) [
    | inl same ↦ rw (same, h) refl
    | inr differs ↦ rw differs (
        find_user-put_user user.id t.users user (with_access actor_user_id access_status now user) h
          refl)
  ]

  pub transition-others :
      (access_status : UserAccessStatus) (k : ℕ)
      → (user.id == k) ≡ false
      → find_user k (transition_user_access user actor_user_id access_status now t).users
        ≡ find_user k t.users
  unfolding transition_user_access
  transition-others access_status k other =
      elim (Bool-cases (status_eq user.access_status access_status)) [
        | inl same ↦ rw same refl
        | inr differs ↦
            rw differs
              (find_user-other k t.users (with_access actor_user_id access_status now user) other)
      ]

  pub change_role-row :
      (role : UserRole)
      → find_user user.id t.users ≡ some user
      → find_user user.id (change_role user actor_user_id role now t).users
        ≡ some (record user { role = role })
  unfolding change_role
  change_role-row role h =
      find_user-put_user user.id t.users user (record user { role = role }) h refl

  pub change_role-others :
      (role : UserRole) (k : ℕ)
      → (user.id == k) ≡ false
      → find_user k (change_role user actor_user_id role now t).users ≡ find_user k t.users
  unfolding change_role
  change_role-others role k other = find_user-other k t.users (record user { role = role }) other
