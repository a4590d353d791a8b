-- ===== src/Identity/Audit/Operations.antt =====
-- Every call that changes users writes the events that account for the change.
use mathlib.Core.Path.{subst}
use dc_inventory.Prelude.{ℕ, ◌≡◌, refl, sym, ap, inl, inr, Option, some, arith}
use dc_inventory.Prelude.Tests.{Bool-cases}
use dc_inventory.Prelude.Result.{ok}
use dc_inventory.Identity.Policy.{UserRole, UserAccessStatus, role_eq}
use dc_inventory.Identity.Tables.{IdentityTables, find_user}
use dc_inventory.Identity.Lifecycle.{accessed, transition_user_access}
use dc_inventory.Identity.Lifecycle.Frame.{transition-row}
use dc_inventory.Identity.Admin.{access_changed, decided, decided_access}
use dc_inventory.Identity.Admin.Guards.{Locked}
use dc_inventory.Identity.Admin.Steps.{
  update_user_access_steps, decide_steps, update_user_role_steps,
}
use dc_inventory.Identity.Reset.{detached, without_login}
use dc_inventory.Identity.Reset.Steps.{account_steps}
use dc_inventory.Identity.Administration.{Administration, administer}
use dc_inventory.Identity.Administration.Governed.{target_here}
use dc_inventory.Identity.Audit.{
  IsAudited, same-IsAudited, transition-IsAudited, change_role-IsAudited,
}
use dc_inventory.Database.{Database}

detached-IsAudited :
    (l : Locked) (now : ℕ) (t : IdentityTables)
    → find_user l.target.id t.users ≡ some l.target
    → IsAudited t
    → IsAudited (detached l now t)
detached-IsAudited l now t here v = elim (Bool-cases (role_eq l.target.role UserRole.engineer)) [
  | inl engineer ↦ rw engineer moved
  | inr other ↦ rw other (
      change_role-IsAudited (accessed l.actor.id UserAccessStatus.blocked now l.target) l.actor.id
        now after
        (transition-row l.target l.actor.id now (without_login l.target.id now t)
          UserAccessStatus.blocked here)
        moved UserRole.engineer other)
]
  where
    after : IdentityTables
    after =
        transition_user_access l.target l.actor.id UserAccessStatus.blocked now
          (without_login l.target.id now t)

    moved : IsAudited after
    moved =
        transition-IsAudited l.target l.actor.id now (without_login l.target.id now t) here
          (same-IsAudited {t = t} (λ k. refl) refl refl v) UserAccessStatus.blocked

changed-IsAudited :
    (l : Locked) (s : UserAccessStatus) (now : ℕ) (t t' : IdentityTables)
    → find_user l.target.id t.users ≡ some l.target
    → IsAudited t
    → t'.users ≡ (transition_user_access l.target l.actor.id s now t).users
    → t'.access_events ≡ (transition_user_access l.target l.actor.id s now t).access_events
    → t'.role_events ≡ (transition_user_access l.target l.actor.id s now t).role_events
    → IsAudited t'
changed-IsAudited l s now t t' here v users access roles =
    same-IsAudited (λ k. ap (find_user k) users) access roles
      (transition-IsAudited l.target l.actor.id now t here v s)

pub administer-IsAudited :
    (op : Administration) (actor_user_id target_user_id : ℕ) (recovery : Option ℕ) (now : ℕ)
    (db db' : Database)
    → IsAudited db.identity
    → administer op actor_user_id target_user_id recovery now db ≡ ok db'
    → IsAudited db'.identity
unfolding administer
administer-IsAudited (Administration.access s) a k recovery now db db' v h =
    let (l, locked, how) = update_user_access_steps a k s recovery now db db' h in
    elim how [
      | inl (same, _) ↦ subst (λ (d : Database). IsAudited d.identity) (sym same) v
      | inr (_, same) ↦
          subst (λ (d : Database). IsAudited d.identity) (sym same)
            (changed-IsAudited l s now db.identity (access_changed l s now db.identity)
              (target_here locked) v refl refl refl)
    ]
administer-IsAudited (Administration.decide d) a k recovery now db db' v h =
    let (l, locked, _, same) = decide_steps a k d recovery now db db' h in
    subst (λ (d : Database). IsAudited d.identity) (sym same)
      (changed-IsAudited l (decided_access d) now db.identity (decided l d now db.identity)
        (target_here locked) v refl refl refl)
administer-IsAudited (Administration.role r) a k recovery now db db' v h =
    let (l, locked, how) = update_user_role_steps a k r recovery now db db' h in
    elim how [
      | inl (same, _) ↦ subst (λ (d : Database). IsAudited d.identity) (sym same) v
      | inr (differs, _, same) ↦
          subst (λ (d : Database). IsAudited d.identity) (sym same)
            (change_role-IsAudited l.target l.actor.id now db.identity (target_here locked) v r
              (ground (arith, differs)))
    ]
administer-IsAudited (Administration.reset admin_key before expected) a k recovery now db db' v h =
    let (l, locked, _, same) = account_steps admin_key before a k expected recovery now db db' h in
    subst (λ (d : Database). IsAudited d.identity) (sym same)
      (detached-IsAudited l now db.identity (target_here locked) v)
