-- ===== src/Identity/Administration/Governed.antt =====
-- Who may change whom.
use mathlib.Core.Path.{subst}
use dc_inventory.Notifications.Outbox.{NotificationOutbox}
use dc_inventory.Prelude.{
  ℕ, ◌≡◌, refl, sym, ◌∙◌, ◌⊎◌, inl, inr, true, false, ◌&&◌, not, Option, some, List, arith,
}
use dc_inventory.Prelude.Tests.{◌==◌, Bool-cases}
use dc_inventory.Prelude.Result.{ok}
use dc_inventory.Prelude.Table.{Row}
use dc_inventory.Warehouse.Movement.Guards.{may_hold_custody}
use dc_inventory.Identity.Policy.{
  UserRole, UserAccessStatus, Capability, role_eq, has_capability, is_custody_role,
}
use dc_inventory.Identity.Tables.{User, IdentityTables, find_user}
use dc_inventory.Identity.Lifecycle.{accessed, transition_user_access, change_role}
use dc_inventory.Identity.Lifecycle.Rows.{find_user_id}
use dc_inventory.Identity.Lifecycle.Frame.{
  transition-row, transition-others, change_role-row, change_role-others,
}
use dc_inventory.Identity.Admin.Guards.{Locked, is_protected, may_manage, has_custody}
use dc_inventory.Identity.Admin.{can_assign, decided_access}
use dc_inventory.Identity.Admin.Steps.{
  IsLocked, MayChange, update_user_access_steps, decide_steps, update_user_role_steps,
}
use dc_inventory.Identity.Reset.{detached, without_login}
use dc_inventory.Identity.Reset.Steps.{account_steps}
use dc_inventory.Identity.Administration.{Administration, administer}
use dc_inventory.Database.{Database}

-- The rows of the users after a change of the target: one row is new, and it shows no owner, and an
-- administrator only under an actor who may assign administrators.
pub record Governed (l : Locked) (custody : List Row) (before after : List User) : Type 0 where
  pub row : User
  pub found : find_user l.target.id after ≡ some row
  pub not_owner : role_eq row.role UserRole.owner ≡ false
  pub assigned :
      role_eq row.role UserRole.admin ≡ true
      → has_capability l.actor.role Capability.access_assign_admin ≡ true
  pub eligible :
      has_custody l.target.id custody ≡ true
      → may_hold_custody l.target ≡ true
      → may_hold_custody row ≡ true
  pub others : (k : ℕ) → (l.target.id == k) ≡ false → find_user k after ≡ find_user k before

module _ (l : Locked) (t : IdentityTables) (now : ℕ) (custody : List Row)
    (here : find_user l.target.id t.users ≡ some l.target) where
  access-Governed :
      (s : UserAccessStatus)
      → role_eq l.target.role UserRole.owner ≡ false
      → may_manage l ≡ true
      → (has_custody l.target.id custody ≡ true
          → may_hold_custody l.target ≡ true
          → may_hold_custody (accessed l.actor.id s now l.target) ≡ true)
      → Governed l custody t.users (transition_user_access l.target l.actor.id s now t).users
  access-Governed s free manages holds = record {
    row = accessed l.actor.id s now l.target;
    found = transition-row l.target l.actor.id now t s here;
    not_owner = ground (arith, free);
    assigned = λ h. ground (arith, manages, h);
    eligible = holds;
    others = λ k other. transition-others l.target l.actor.id now t s k other;
  }

  role-Governed :
      (r : UserRole)
      → role_eq r UserRole.owner ≡ false
      → can_assign l.actor.role r ≡ true
      → not (is_custody_role r) && has_custody l.target.id custody ≡ false
      → Governed l custody t.users (change_role l.target l.actor.id r now t).users
  role-Governed r free assignable empty = record {
    row = record l.target { role = r };
    found = change_role-row l.target l.actor.id now t r here;
    not_owner = free;
    assigned = λ h. ground (arith, assignable, h);
    eligible = λ held may. ground (arith, empty, held, may);
    others = λ k other. change_role-others l.target l.actor.id now t r k other;
  }

reset-Governed :
    (l : Locked) (t : IdentityTables) (now : ℕ) (custody : List Row)
    → find_user l.target.id t.users ≡ some l.target
    → role_eq l.target.role UserRole.owner ≡ false
    → may_manage l ≡ true
    → has_custody l.target.id custody ≡ false
    → Governed l custody t.users (detached l now t).users
reset-Governed l t now custody here free manages empty =
    elim (Bool-cases (role_eq l.target.role UserRole.engineer)) [
      | inl engineer ↦ rw engineer moved
      | inr other ↦ rw other (record {
        row = record gone { role = UserRole.engineer };
        found = change_role-row gone l.actor.id now blocked UserRole.engineer (
            transition-row l.target l.actor.id now (without_login l.target.id now t)
              UserAccessStatus.blocked here);
        not_owner = refl;
        assigned = λ h. absurd (ground (arith, h));
        eligible = λ held _. absurd (ground (arith, empty, held));
        others = λ k away.
            change_role-others gone l.actor.id now blocked UserRole.engineer k away
            ∙ moved.others k away;
      })
    ]
  where
    gone : User
    gone = accessed l.actor.id UserAccessStatus.blocked now l.target

    blocked : IdentityTables
    blocked =
        transition_user_access l.target l.actor.id UserAccessStatus.blocked now
          (without_login l.target.id now t)

    moved : Governed l custody t.users blocked.users
    moved =
        access-Governed l (without_login l.target.id now t) now custody here
          UserAccessStatus.blocked free manages (λ held _. absurd (ground (arith, empty, held)))

role_not_owner :
    (recovery : Option ℕ) (u : User) (t : IdentityTables)
    → is_protected recovery u t ≡ false
    → role_eq u.role UserRole.owner ≡ false
role_not_owner recovery u t h = ground (arith, h)

-- The row of the target stands under its own identifier.
pub target_here :
    {a k : ℕ} {users : List User} {l : Locked}
    → IsLocked a k users l
    → find_user l.target.id users ≡ some l.target
target_here {a} {k} {users} {l} locked =
    subst (λ j. find_user j users ≡ some l.target)
      (sym (find_user_id k users l.target locked.target_found)) locked.target_found

governed :
    (l : Locked) (recovery : Option ℕ) (db db' : Database) (t : IdentityTables)
    (outbox : List NotificationOutbox)
    → db' ≡ record db { identity = t; outbox = outbox }
    → MayChange recovery l db
    → Governed l db.warehouse.custody db.identity.users t.users
    → MayChange recovery l db
      × Governed l db.warehouse.custody db.identity.users db'.identity.users
      × (db' ≡ record db { identity = db'.identity; outbox = db'.outbox })
governed l recovery db db' t outbox same may g = (
  may,
  subst (λ (d : Database). Governed l db.warehouse.custody db.identity.users d.identity.users)
      (sym same) g,
  subst (λ (d : Database). d ≡ record db { identity = d.identity; outbox = d.outbox }) (sym same)
      refl,
)

-- A call of the administration that succeeds was made by an approved user who may manage users, and
-- changes nothing, or changes users and the outbox only, and of the users the target alone: not the
-- actor, not the owner and not the recovery identity. No user becomes an owner, and a target that was
-- or is then an administrator has an actor who may assign administrators.
pub administer-Governed :
    (op : Administration) (actor_user_id target_user_id : ℕ) (recovery : Option ℕ) (now : ℕ)
    (db db' : Database)
    → administer op actor_user_id target_user_id recovery now db ≡ ok db'
    → (l : Locked) × IsLocked actor_user_id target_user_id db.identity.users l
      × ((db' ≡ db)
          ⊎ MayChange recovery l db
            × Governed l db.warehouse.custody db.identity.users db'.identity.users
            × (db' ≡ record db { identity = db'.identity; outbox = db'.outbox }))
unfolding administer
administer-Governed (Administration.access s) a k recovery now db db' h =
    let (l, locked, how) = update_user_access_steps a k s recovery now db db' h in
    (
      l,
      locked,
      elim how [
        | inl (same, _) ↦ inl same
        | inr (how, same) ↦ inr (
            governed l recovery db db' _ _ same how.may (
              access-Governed l db.identity now db.warehouse.custody (target_here locked) s
                (role_not_owner recovery l.target db.identity how.may.unprotected) how.may.manages
                (λ held may. absurd (ground (arith, how.free, how.allowed, held, may)))))
      ],
    )
administer-Governed (Administration.decide d) a k recovery now db db' h =
    let (l, locked, how, same) = decide_steps a k d recovery now db db' h in
    (
      l,
      locked,
      inr (
          governed l recovery db db' _ _ same how.may (
            access-Governed l db.identity now db.warehouse.custody (target_here locked)
              (decided_access d) (role_not_owner recovery l.target db.identity how.may.unprotected)
              how.may.manages (λ _ may. absurd (ground (arith, how.was_pending, may))))),
    )
administer-Governed (Administration.role r) a k recovery now db db' h =
    let (l, locked, how) = update_user_role_steps a k r recovery now db db' h in
    (
      l,
      locked,
      elim how [
        | inl (same, _) ↦ inl same
        | inr (_, how, same) ↦ inr (
            governed l recovery db db' _ _ same how.may (
              role-Governed l db.identity now db.warehouse.custody (target_here locked) r
                how.not_owner how.assignable how.free))
      ],
    )
administer-Governed (Administration.reset admin_key before expected) a k recovery now db db' h =
    let (l, locked, how, same) =
      account_steps admin_key before a k expected recovery now db db' h in
    (
      l,
      locked,
      inr (
          governed l recovery db db' _ _ same how.may (
            reset-Governed l db.identity now db.warehouse.custody (target_here locked)
              (role_not_owner recovery l.target db.identity how.may.unprotected) how.may.manages
              how.free)),
    )

pub administer-frame :
    (op : Administration) (actor_user_id target_user_id : ℕ) (recovery : Option ℕ) (now : ℕ)
    (db db' : Database)
    → administer op actor_user_id target_user_id recovery now db ≡ ok db'
    → db' ≡ record db { identity = db'.identity; outbox = db'.outbox }
administer-frame op a k recovery now db db' h =
    let (_, _, how) = administer-Governed op a k recovery now db db' h in
    elim how [
      | inl same ↦
          subst (λ (d : Database). d ≡ record db { identity = d.identity; outbox = d.outbox })
            (sym same) refl
      | inr (_, _, frame) ↦ frame
    ]
