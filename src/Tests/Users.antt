-- ===== src/Tests/Users.antt =====
-- The theorems on users at the runs of Tests/Staff.antt.
use dc_inventory.Prelude.{◌≤◌, ◌≡◌, ◌⊎◌, refl, true, false, some, arith}
use dc_inventory.Prelude.Lists.{length, select}
use dc_inventory.Prelude.Result.{ok}
use dc_inventory.Database.{Database}
use dc_inventory.Identity.Policy.{
  UserRole, UserAccessStatus, AccessRequestStatus, role_eq, status_eq,
}
use dc_inventory.Identity.Tables.{User, find_user}
use dc_inventory.Identity.Admin.{decided_access, decide_pending_access_request}
use dc_inventory.Identity.Admin.Guards.{Locked}
use dc_inventory.Identity.Admin.Steps.{IsLocked, MayChange}
use dc_inventory.Identity.Administration.Governed.{Governed, administer-Governed}
use dc_inventory.Identity.Administration.LoggedOut.{LoggedOut, removed-LoggedOut}
use dc_inventory.Identity.Administration.Renewed.{reset-Renewed}
use dc_inventory.Identity.Login.{new_user, with_user, upsert_telegram_identity}
use dc_inventory.Identity.Sessions.{
  is_active_session, max_active_sessions_per_user, new_session, load_auth_context,
}
use dc_inventory.Identity.Sessions.Bounded.{issue-Bounded, issue-load}
use dc_inventory.Identity.Access.Answered.{asked-decided}
use dc_inventory.Identity.Audit.{IsAudited}
use dc_inventory.Maintenance.{retain_sessions}
use dc_inventory.Maintenance.Kept.{retain-load}
use dc_inventory.System.{Step}
use dc_inventory.System.Audited.{step-IsAudited}
use dc_inventory.Tests.Data.{id_hash, user, given, succeeded}
use dc_inventory.Tests.Purchases.{platform}
use dc_inventory.Tests.Staff.{
  staff, office, blocking, after_blocking, after_reset, asking, no_answer, issuing, lock, staff_run,
  asked_run, office-IsAudited,
}

administer-Governed_example :
    (l : Locked) × IsLocked 1 3 office.identity.users l
    × ((given office after_blocking ≡ office)
        ⊎ MayChange (some 999) l office
          × Governed l office.warehouse.custody office.identity.users
              (given office after_blocking).identity.users
          × (given office after_blocking ≡ record office {
            identity = (given office after_blocking).identity;
            outbox = (given office after_blocking).outbox;
          }))
administer-Governed_example =
    administer-Governed blocking 1 3 (some 999) 500 office (given office after_blocking)
      (succeeded office after_blocking staff_run.0)

removed-LoggedOut_example :
    (l : Locked) × IsLocked 1 3 office.identity.users l
    × ((given office after_blocking ≡ office)
          × (status_eq UserAccessStatus.blocked l.target.access_status ≡ true)
        ⊎ LoggedOut 3 (given office after_blocking).identity)
removed-LoggedOut_example =
    removed-LoggedOut blocking 1 3 (some 999) 500 office (given office after_blocking) refl
      (succeeded office after_blocking staff_run.0)

reset-Renewed_example :
    (u : User) × (find_user 3 (given office after_reset).identity.users ≡ some u)
    × (role_eq u.role UserRole.engineer ≡ true)
    × (status_eq u.access_status UserAccessStatus.blocked ≡ true)
    × (upsert_telegram_identity 103 (some 999) 5 600 (given office after_reset).identity
        ≡ ok (record {
          user = new_user 5 false 600;
          tables = with_user (new_user 5 false 600) 103 (given office after_reset).identity;
        }))
reset-Renewed_example =
    reset-Renewed id_hash staff.identities 1 3 103 (some 999) 500 5 600 office
      (given office after_reset) refl (succeeded office after_reset staff_run.1) staff_run.4

issue-Bounded_example :
    length (select (is_active_session 3 200) (given staff issuing).auth_sessions)
    ≤ max_active_sessions_per_user
issue-Bounded_example =
    issue-Bounded id_hash (user 3 UserRole.engineer) 17 17 900 100 200 staff (given staff issuing)
      (succeeded staff issuing staff_run.3) (ground arith)

issue-load_example :
    load_auth_context id_hash 17 200 (given staff issuing)
    ≡ some (record {
      session = new_session id_hash (user 3 UserRole.engineer) 17 17 900 100;
      user = user 3 UserRole.engineer;
      identity = record { user_id = 3; telegram_user_id = 103 };
    })
issue-load_example =
    issue-load id_hash (user 3 UserRole.engineer) 17 17 900 100 200 staff (given staff issuing)
      (user 3 UserRole.engineer) (record { user_id = 3; telegram_user_id = 103 })
      (succeeded staff issuing staff_run.3) refl refl (ground arith)

asked-decided_example :
    (db' : Database) × (decide_pending_access_request 1 4 AccessRequestStatus.approved
        (some 999)
        600
        (record office { identity = (given no_answer asking).1 })
      ≡ ok db')
    × (u : User) × (find_user 4 db'.identity.users ≡ some u)
    × (status_eq u.access_status (decided_access AccessRequestStatus.approved) ≡ true)
asked-decided_example =
    asked-decided 4 70 500 office (given no_answer asking).0 (given no_answer asking).1 1 lock
      AccessRequestStatus.approved (some 999) 600 (succeeded no_answer asking staff_run.2)
      (record {
        actor_found = asked_run.0;
        target_found = asked_run.1;
        actor_approved = refl;
        actor_manages = asked_run.2;
      })
      refl asked_run.3 asked_run.4 refl

step-IsAudited_example : IsAudited (given office after_blocking).identity
step-IsAudited_example =
    step-IsAudited id_hash platform office (given office after_blocking) office-IsAudited
      (Step.administered blocking 1 3 (some 999) 500 (succeeded office after_blocking staff_run.0))

retain-load_example :
    load_auth_context id_hash 13 200 (retain_sessions 0 2 150 staff)
    ≡ load_auth_context id_hash 13 200 staff
retain-load_example = retain-load id_hash 0 2 150 200 13 staff refl (omega arith)
