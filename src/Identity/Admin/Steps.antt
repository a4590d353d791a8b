-- ===== src/Identity/Admin/Steps.antt =====
-- What a call of the administration that succeeds went through.
use dc_inventory.Prelude.{ℕ, ◌≡◌, ◌⊎◌, inl, inr, true, false, ◌&&◌, not, Option, some, List, arith}
use dc_inventory.Prelude.Tests.{◌==◌, is_some, Bool-cases, if◌then◌else◌}
use dc_inventory.Prelude.Lists.{find}
use dc_inventory.Prelude.Result.{ok, >>=-Through}
use dc_inventory.Identity.Policy.{
  UserRole, UserAccessStatus, AccessRequestStatus, Capability, role_eq, status_eq, has_capability,
  is_custody_role,
}
use dc_inventory.Identity.Tables.{User, find_user}
use dc_inventory.Identity.Lifecycle.{is_approved, change_role}
use dc_inventory.Identity.Admin.Guards.{
  Locked, lock_actor_and_target, is_protected, may_manage, has_custody,
}
use dc_inventory.Identity.Admin.{
  is_pending, is_pending_of, decided, decide_locked, decide_pending_access_request, role_locked,
  update_user_role, assign_role, can_assign, access_allowed, access_changed, change_access,
  is_blocking, update_user_access,
}
use dc_inventory.Database.{Database}

-- The actor is approved and may manage users, and both rows are there.
pub record IsLocked (actor_user_id target_user_id : ℕ) (users : List User) (l : Locked)
    : Type 0 where
  pub actor_found : find_user actor_user_id users ≡ some l.actor
  pub target_found : find_user target_user_id users ≡ some l.target
  pub actor_approved : is_approved l.actor.access_status ≡ true
  pub actor_manages : has_capability l.actor.role Capability.access_manage_users ≡ true

pub locked_steps :
    (actor_user_id target_user_id : ℕ) (users : List User) (l : Locked)
    → lock_actor_and_target actor_user_id target_user_id users ≡ ok l
    → IsLocked actor_user_id target_user_id users l
unfolding lock_actor_and_target
locked_steps a k users l h = record {
  actor_found = ground arith;
  target_found = ground arith;
  actor_approved = ground arith;
  actor_manages = ground arith;
}

-- The target is neither the owner nor the recovery identity nor the actor, and an administrator only
-- for an actor who may assign administrators.
pub record MayChange (recovery : Option ℕ) (l : Locked) (db : Database) : Type 0 where
  pub other : (l.actor.id == l.target.id) ≡ false
  pub unprotected : is_protected recovery l.target db.identity ≡ false
  pub manages : may_manage l ≡ true

pub record AccessChanged (recovery : Option ℕ) (l : Locked) (access_status : UserAccessStatus)
    (db : Database) : Type 0 where
  pub may : MayChange recovery l db
  pub allowed : access_allowed l.target.access_status access_status ≡ true
  pub free :
      (is_blocking l.target.access_status access_status
        && has_custody l.target.id db.warehouse.custody)
      ≡ false

pub change_access_steps :
    (l : Locked) (access_status : UserAccessStatus) (recovery : Option ℕ) (now : ℕ)
    (db db' : Database)
    → change_access l access_status recovery now db ≡ ok db'
    → AccessChanged recovery l access_status db
      × (db' ≡ record db { identity = access_changed l access_status now db.identity })
unfolding change_access
change_access_steps l access_status recovery now db db' h = (
  record {
    may = record { other = ground arith; unprotected = ground arith; manages = ground arith };
    allowed = ground arith;
    free = ground arith;
  },
  ground arith,
)

-- A call either finds the status as asked for, or changes it.
pub update_user_access_steps :
    (actor_user_id target_user_id : ℕ) (access_status : UserAccessStatus) (recovery : Option ℕ)
    (now : ℕ) (db db' : Database)
    → update_user_access actor_user_id target_user_id access_status recovery now db ≡ ok db'
    → (l : Locked) × IsLocked actor_user_id target_user_id db.identity.users l
      × ((db' ≡ db) × (status_eq access_status l.target.access_status ≡ true)
          ⊎ AccessChanged recovery l access_status db
            × (db' ≡ record db { identity = access_changed l access_status now db.identity }))
unfolding update_user_access
update_user_access_steps a k access_status recovery now db db' h =
    let (l, locked, e) =
      >>=-Through (lock_actor_and_target a k db.identity.users)
        (λ l.
          if status_eq access_status l.target.access_status
          then ok db
          else change_access l access_status recovery now db)
        h in
    (
      l,
      locked_steps a k db.identity.users l locked,
      elim (Bool-cases (status_eq access_status l.target.access_status)) [
        | inl same ↦ inl (ground (arith, e, same), same)
        | inr changed ↦
            inr
              (change_access_steps l access_status recovery now db db' (ground (arith, e, changed)))
      ],
    )

pub record Decided (recovery : Option ℕ) (l : Locked) (decision : AccessRequestStatus)
    (db : Database) : Type 0 where
  pub may : MayChange recovery l db
  pub decision_made : is_pending decision ≡ false
  pub was_pending : status_eq l.target.access_status UserAccessStatus.pending ≡ true
  pub request_pending :
      is_some (find (is_pending_of l.target.id) db.identity.access_requests) ≡ true

decide_locked_steps :
    (l : Locked) (decision : AccessRequestStatus) (recovery : Option ℕ) (now : ℕ)
    (db db' : Database)
    → is_pending decision ≡ false
    → decide_locked l decision recovery now db ≡ ok db'
    → Decided recovery l decision db
      × (db' ≡ record db { identity = decided l decision now db.identity })
unfolding decide_locked
decide_locked_steps l decision recovery now db db' made h = (
  record {
    may = record { other = ground arith; unprotected = ground arith; manages = ground arith };
    decision_made = made;
    was_pending = ground arith;
    request_pending = ground arith;
  },
  ground arith,
)

pub decide_steps :
    (actor_user_id target_user_id : ℕ) (decision : AccessRequestStatus) (recovery : Option ℕ)
    (now : ℕ) (db db' : Database)
    → decide_pending_access_request actor_user_id target_user_id decision recovery now db ≡ ok db'
    → (l : Locked) × IsLocked actor_user_id target_user_id db.identity.users l
      × Decided recovery l decision db
      × (db' ≡ record db { identity = decided l decision now db.identity })
unfolding decide_pending_access_request
decide_steps a k decision recovery now db db' h =
    let made : is_pending decision ≡ false = ground (arith, h) in
    let (l, locked, e) =
      >>=-Through (lock_actor_and_target a k db.identity.users)
        (λ l. decide_locked l decision recovery now db) (ground (arith, h, made)) in
    let (how, same) = decide_locked_steps l decision recovery now db db' made e in
    (l, locked_steps a k db.identity.users l locked, how, same)

pub record RoleAssigned (recovery : Option ℕ) (l : Locked) (role : UserRole) (db : Database)
    : Type 0 where
  pub may : MayChange recovery l db
  pub not_owner : role_eq role UserRole.owner ≡ false
  pub assignable : can_assign l.actor.role role ≡ true
  pub free : not (is_custody_role role) && has_custody l.target.id db.warehouse.custody ≡ false

assign_role_steps :
    (l : Locked) (role : UserRole) (now : ℕ) (db db' : Database)
    → assign_role l role now db ≡ ok db'
    → (not (is_custody_role role) && has_custody l.target.id db.warehouse.custody ≡ false)
      × (db' ≡ record db { identity = change_role l.target l.actor.id role now db.identity })
unfolding assign_role
assign_role_steps l role now db db' h = (ground arith, ground arith)

role_locked_steps :
    (l : Locked) (role : UserRole) (recovery : Option ℕ) (now : ℕ) (db db' : Database)
    → role_locked l role recovery now db ≡ ok db'
    → (db' ≡ db) × (role_eq role l.target.role ≡ true)
      ⊎ (role_eq role l.target.role ≡ false)
        × RoleAssigned recovery l role db
        × (db' ≡ record db { identity = change_role l.target l.actor.id role now db.identity })
unfolding role_locked
role_locked_steps l role recovery now db db' h = elim (Bool-cases (role_eq role l.target.role)) [
  | inl same ↦ inl (ground (arith, h, same), same)
  | inr differs ↦
      let (free, e) = assign_role_steps l role now db db' (ground (arith, h, differs)) in
      inr (
        differs,
        record {
          may = record {
            other = ground (arith, h);
            unprotected = ground (arith, h);
            manages = ground (arith, h);
          };
          not_owner = ground (arith, h);
          assignable = ground (arith, h);
          free = free;
        },
        e,
      )
]

-- A call either finds the role as asked for, or changes it.
pub update_user_role_steps :
    (actor_user_id target_user_id : ℕ) (role : UserRole) (recovery : Option ℕ) (now : ℕ)
    (db db' : Database)
    → update_user_role actor_user_id target_user_id role recovery now db ≡ ok db'
    → (l : Locked) × IsLocked actor_user_id target_user_id db.identity.users l
      × ((db' ≡ db) × (role_eq role l.target.role ≡ true)
          ⊎ (role_eq role l.target.role ≡ false)
            × RoleAssigned recovery l role db
            × (db' ≡ record db { identity = change_role l.target l.actor.id role now db.identity }))
unfolding update_user_role
update_user_role_steps a k role recovery now db db' h =
    let (l, locked, e) =
      >>=-Through (lock_actor_and_target a k db.identity.users)
        (λ l. role_locked l role recovery now db) h in
    (l, locked_steps a k db.identity.users l locked, role_locked_steps l role recovery now db db' e)
