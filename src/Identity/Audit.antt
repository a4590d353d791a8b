-- ===== src/Identity/Audit.antt =====
-- The events of users in identity/models.py as an account of how the users came to be as they are,
-- which the triggers of migrations/versions/f6a7b8c9d0e1_harden_identity_audit_invariants.py ask of
-- each change.
pub mod Operations
pub mod Logins
use mathlib.Core.Path.{subst}
use dc_inventory.Prelude.{
  ℕ, ◌≡◌, refl, sym, ap, ◌∙◌, inl, inr, Bool, true, false, ◌&&◌, not, Option, none, some, List, [],
  ◌∷◌, arith,
}
use dc_inventory.Prelude.Tests.{◌==◌, if◌then◌else◌, Bool-cases, ==_refl}
use dc_inventory.Identity.Policy.{UserRole, UserAccessStatus, role_eq, status_eq}
use dc_inventory.Identity.Tables.{User, UserAccessEvent, UserRoleEvent, IdentityTables, find_user}
use dc_inventory.Identity.Lifecycle.{
  with_access, access_event, role_event, accessed, transition_user_access, change_role, put_user,
}
use dc_inventory.Identity.Lifecycle.Rows.{find_user-put_user, find_user-other}

-- The events of a user, newest first, lead to the status, each from another status; who is not in
-- the table has none.
unfoldable pub access_trail : ℕ → List UserAccessEvent → Option UserAccessStatus → Bool
access_trail k [] s = true
access_trail k (e ∷ es) none = not (e.target_user_id == k) && access_trail k es none
access_trail k (e ∷ es) (some s) =
    let before = access_trail k es (some e.before_access_status) in
    let rest = access_trail k es (some s) in
    if e.target_user_id == k
    then status_eq e.after_access_status s
      && not (status_eq e.before_access_status e.after_access_status)
      && before
    else rest

unfoldable pub role_trail : ℕ → List UserRoleEvent → Option UserRole → Bool
role_trail k [] s = true
role_trail k (e ∷ es) none = not (e.target_user_id == k) && role_trail k es none
role_trail k (e ∷ es) (some s) =
    let before = role_trail k es (some e.before_role) in
    let rest = role_trail k es (some s) in
    if e.target_user_id == k
    then role_eq e.after_role s && not (role_eq e.before_role e.after_role) && before
    else rest

abbrev pub status_of : Option User → Option UserAccessStatus
status_of none = none
status_of (some u) = some u.access_status

abbrev pub role_of : Option User → Option UserRole
role_of none = none
role_of (some u) = some u.role

-- Every status and every role is the outcome of its events.
pub record IsAudited (t : IdentityTables) : Type 0 where
  pub access : (k : ℕ) → access_trail k t.access_events (status_of (find_user k t.users)) ≡ true
  pub roles : (k : ℕ) → role_trail k t.role_events (role_of (find_user k t.users)) ≡ true

pub same-IsAudited :
    {t t' : IdentityTables}
    → ((k : ℕ) → find_user k t'.users ≡ find_user k t.users)
    → t'.access_events ≡ t.access_events
    → t'.role_events ≡ t.role_events
    → IsAudited t
    → IsAudited t'
same-IsAudited {t} {t'} users access roles v = record {
  access = λ k. rw (users k, access) (v.access k);
  roles = λ k. rw (users k, roles) (v.roles k);
}

access_other :
    (k : ℕ) (e : UserAccessEvent) (es : List UserAccessEvent) (o : Option UserAccessStatus)
    → (e.target_user_id == k) ≡ false
    → access_trail k (e ∷ es) o ≡ access_trail k es o
unfolding access_trail
access_other k e es none other = rw other refl
access_other k e es (some s) other = rw other refl

role_other :
    (k : ℕ) (e : UserRoleEvent) (es : List UserRoleEvent) (o : Option UserRole)
    → (e.target_user_id == k) ≡ false
    → role_trail k (e ∷ es) o ≡ role_trail k es o
unfolding role_trail
role_other k e es none other = rw other refl
role_other k e es (some s) other = rw other refl

pub access_unborn :
    (k : ℕ) (es : List UserAccessEvent) (s : UserAccessStatus)
    → access_trail k es none ≡ true
    → access_trail k es (some s) ≡ true
unfolding access_trail
access_unborn k [] s h = refl
access_unborn k (e ∷ es) s h = ground (arith, h, access_unborn k es s)

pub role_unborn :
    (k : ℕ) (es : List UserRoleEvent) (s : UserRole)
    → role_trail k es none ≡ true
    → role_trail k es (some s) ≡ true
unfolding role_trail
role_unborn k [] s h = refl
role_unborn k (e ∷ es) s h = ground (arith, h, role_unborn k es s)

module _ (user : User) (actor_user_id now : ℕ) (t : IdentityTables)
    (here : find_user user.id t.users ≡ some user) (v : IsAudited t) where
  access_changed_here :
      (s : UserAccessStatus)
      → status_eq user.access_status s ≡ false
      → access_trail user.id (access_event actor_user_id s now user ∷ t.access_events) (some s)
        ≡ true
  unfolding access_trail
  access_changed_here s differs = ground (
    arith,
    differs,
    ==_refl user.id,
    ap (λ o. access_trail user.id t.access_events (status_of o)) (sym here) ∙ v.access user.id,
  )

  role_changed_here :
      (r : UserRole)
      → role_eq user.role r ≡ false
      → role_trail user.id (role_event actor_user_id r now user ∷ t.role_events) (some r) ≡ true
  unfolding role_trail
  role_changed_here r differs = ground (
    arith,
    differs,
    ==_refl user.id,
    ap (λ o. role_trail user.id t.role_events (role_of o)) (sym here) ∙ v.roles user.id,
  )

  -- A row of the user with the role and the status as they were.
  put-access :
      (u : User) (es : List UserAccessEvent)
      → u.id ≡ user.id
      → access_trail user.id es (some u.access_status) ≡ true
      → ((k : ℕ)
          → (user.id == k) ≡ false
          → access_trail k es (status_of (find_user k t.users)) ≡ true)
      → (k : ℕ) → access_trail k es (status_of (find_user k (put_user u t.users))) ≡ true
  put-access u es id changed rest k = elim (Bool-cases (user.id == k)) [
    | inl same ↦
        subst (λ j. access_trail j es (status_of (find_user j (put_user u t.users))) ≡ true)
          (ground (arith, same))
          (ap (λ o. access_trail user.id es (status_of o))
              (find_user-put_user user.id t.users user u here id)
            ∙ changed)
    | inr other ↦
        ap (λ o. access_trail k es (status_of o))
          (find_user-other k t.users u (ap (λ j. j == k) id ∙ other))
        ∙ rest k other
  ]

  put-roles :
      (u : User) (es : List UserRoleEvent)
      → u.id ≡ user.id
      → role_trail user.id es (some u.role) ≡ true
      → ((k : ℕ) → (user.id == k) ≡ false → role_trail k es (role_of (find_user k t.users)) ≡ true)
      → (k : ℕ) → role_trail k es (role_of (find_user k (put_user u t.users))) ≡ true
  put-roles u es id changed rest k = elim (Bool-cases (user.id == k)) [
    | inl same ↦
        subst (λ j. role_trail j es (role_of (find_user j (put_user u t.users))) ≡ true)
          (ground (arith, same))
          (ap (λ o. role_trail user.id es (role_of o))
              (find_user-put_user user.id t.users user u here id)
            ∙ changed)
    | inr other ↦
        ap (λ o. role_trail k es (role_of o))
          (find_user-other k t.users u (ap (λ j. j == k) id ∙ other))
        ∙ rest k other
  ]

  own_access : access_trail user.id t.access_events (some user.access_status) ≡ true
  own_access =
      ap (λ o. access_trail user.id t.access_events (status_of o)) (sym here) ∙ v.access user.id

  own_roles : role_trail user.id t.role_events (some user.role) ≡ true
  own_roles = ap (λ o. role_trail user.id t.role_events (role_of o)) (sym here) ∙ v.roles user.id

  pub transition-IsAudited :
      (s : UserAccessStatus) → IsAudited (transition_user_access user actor_user_id s now t)
  unfolding transition_user_access
  transition-IsAudited s = elim (Bool-cases (status_eq user.access_status s)) [
    | inl same ↦ rw same v
    | inr differs ↦
        let event = access_event actor_user_id s now user in
        rw differs (record {
          access =
              put-access (with_access actor_user_id s now user) (event ∷ t.access_events) refl
                (access_changed_here s differs)
                (λ k other. access_other k event t.access_events _ other ∙ v.access k);
          roles =
              put-roles (with_access actor_user_id s now user) t.role_events refl own_roles
                (λ k other. v.roles k);
        })
  ]

  pub change_role-IsAudited :
      (r : UserRole)
      → role_eq user.role r ≡ false
      → IsAudited (change_role user actor_user_id r now t)
  unfolding change_role
  change_role-IsAudited r differs =
      let event = role_event actor_user_id r now user in
      record {
        access =
            put-access (record user { role = r }) t.access_events refl own_access
              (λ k other. v.access k);
        roles =
            put-roles (record user { role = r }) (event ∷ t.role_events) refl
              (role_changed_here r differs)
              (λ k other. role_other k event t.role_events _ other ∙ v.roles k);
      }

  -- The approval of a row is noted, and its role and its status stay.
  pub noted-IsAudited :
      (approved_at approved_by_user_id : Option ℕ)
      → IsAudited (record t {
        users =
            put_user
              (record user { approved_at = approved_at; approved_by_user_id = approved_by_user_id })
              t.users;
      })
  noted-IsAudited at by = record {
    access =
        put-access (record user { approved_at = at; approved_by_user_id = by }) t.access_events refl
          own_access (λ k other. v.access k);
    roles =
        put-roles (record user { approved_at = at; approved_by_user_id = by }) t.role_events refl
          own_roles (λ k other. v.roles k);
  }
