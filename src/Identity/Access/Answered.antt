-- ===== src/Identity/Access/Answered.antt =====
-- From a request for access to its decision.
use mathlib.Core.Path.{subst}
use dc_inventory.Prelude.{
  ℕ, ◌≡◌, refl, sym, ap, ◌∙◌, inl, inr, true, false, Option, none, some, List, arith,
}
use dc_inventory.Prelude.Tests.{◌==◌, is_some, ==_refl, Bool-cases}
use dc_inventory.Prelude.Lists.{find}
use dc_inventory.Prelude.Result.{ok}
use dc_inventory.Identity.Policy.{UserAccessStatus, AccessRequestStatus, status_eq}
use dc_inventory.Identity.Tables.{User, AccessRequest, IdentityTables, find_user}
use dc_inventory.Identity.Lifecycle.{is_approved, accessed, transition_user_access}
use dc_inventory.Identity.Lifecycle.Rows.{find_user_id}
use dc_inventory.Identity.Lifecycle.Frame.{transition-row}
use dc_inventory.Identity.Admin.Guards.{Locked, lock_actor_and_target, is_protected, may_manage}
use dc_inventory.Identity.Admin.{
  is_pending, is_pending_of, decided_access, decided, decide_locked, decide_pending_access_request,
}
use dc_inventory.Identity.Admin.Steps.{IsLocked}
use dc_inventory.Identity.Access.{
  AccessRequestResult, get_pending_access_request, reopened, ask, create_or_get_access_request,
}
use dc_inventory.Database.{Database}

-- A user who has asked is pending, with a pending request.
pub record Waiting (k : ℕ) (t : IdentityTables) : Type 0 where
  pub row : User
  pub found : find_user k t.users ≡ some row
  pub status : status_eq row.access_status UserAccessStatus.pending ≡ true
  pub request : is_some (find (is_pending_of k) t.access_requests) ≡ true

asked_steps :
    (user_id request_id now : ℕ) (t : IdentityTables) (r : AccessRequestResult)
    (t' : IdentityTables)
    → create_or_get_access_request user_id request_id now t ≡ ok (r, t')
    → (u : User) × (find_user user_id t.users ≡ some u)
      × (is_approved u.access_status ≡ false)
      × (status_eq u.access_status UserAccessStatus.blocked ≡ false)
      × ((r, t')
          ≡ ask request_id now u
              (get_pending_access_request u.id t.access_requests)
              (reopened u now t))
unfolding create_or_get_access_request
asked_steps user_id request_id now t r t' h = ground (arith, h)

reopened_row :
    (u : User) (now : ℕ) (t : IdentityTables)
    → find_user u.id t.users ≡ some u
    → is_approved u.access_status ≡ false
    → status_eq u.access_status UserAccessStatus.blocked ≡ false
    → (v : User) × (find_user u.id (reopened u now t).users ≡ some v)
      × (status_eq v.access_status UserAccessStatus.pending ≡ true)
reopened_row u now t here free open_ =
    elim (Bool-cases (status_eq u.access_status UserAccessStatus.rejected)) [
      | inl rejected ↦ (
        accessed u.id UserAccessStatus.pending now u,
        rw rejected (transition-row u u.id now t UserAccessStatus.pending here),
        ground (arith, rejected),
      )
      | inr other ↦ (u, rw other here, ground (arith, free, open_, other))
    ]

reopened_requests :
    (u : User) (now : ℕ) (t : IdentityTables)
    → (reopened u now t).access_requests ≡ t.access_requests
unfolding transition_user_access
reopened_requests u now t = ground arith

asked_tables :
    (request_id now : ℕ) (u : User) (o : Option AccessRequest) (t t' : IdentityTables)
    (r : AccessRequestResult)
    → find (is_pending_of u.id) t.access_requests ≡ o
    → (r, t') ≡ ask request_id now u o t
    → (t'.users ≡ t.users) × (is_some (find (is_pending_of u.id) t'.access_requests) ≡ true)
asked_tables request_id now u none t t' r o h = (ground (arith, h), ground (arith, h, ==_refl u.id))
asked_tables request_id now u (some existing) t t' r o h = (ground (arith, h), ground (arith, h, o))

-- A user whose request for access is taken is pending and has a pending request.
pub asked-Waiting :
    (user_id request_id now : ℕ) (t : IdentityTables) (r : AccessRequestResult)
    (t' : IdentityTables)
    → create_or_get_access_request user_id request_id now t ≡ ok (r, t')
    → Waiting user_id t'
unfolding get_pending_access_request
asked-Waiting user_id request_id now t r t' h =
    let (u, found, free, open_, same) = asked_steps user_id request_id now t r t' h in
    let id = find_user_id user_id t.users u found in
    let here : find_user u.id t.users ≡ some u =
      subst (λ k. find_user k t.users ≡ some u) (sym id) found in
    let (v, row, status) = reopened_row u now t here free open_ in
    let (users, request) =
      asked_tables request_id now u _ (reopened u now t) t' r
        (ap (find (is_pending_of u.id)) (reopened_requests u now t)) same in
    subst (λ k. Waiting k t') id
      (record {
        row = v;
        found = ap (find_user u.id) users ∙ row;
        status = status;
        request = request;
      })

some_same : {u v : User} → some u ≡ some v → u ≡ v
some_same h = cc

lock_ok :
    (a k : ℕ) (users : List User) (l : Locked)
    → IsLocked a k users l
    → lock_actor_and_target a k users ≡ ok l
unfolding lock_actor_and_target
lock_ok a k users l locked =
    ground
      (arith, locked.actor_found, locked.target_found, locked.actor_approved, locked.actor_manages)

decide_locked_ok :
    (l : Locked) (decision : AccessRequestStatus) (recovery : Option ℕ) (now : ℕ) (db : Database)
    → (l.actor.id == l.target.id) ≡ false
    → is_protected recovery l.target db.identity ≡ false
    → may_manage l ≡ true
    → status_eq l.target.access_status UserAccessStatus.pending ≡ true
    → is_some (find (is_pending_of l.target.id) db.identity.access_requests) ≡ true
    → decide_locked l decision recovery now db
      ≡ ok (record db { identity = decided l decision now db.identity })
unfolding decide_locked
decide_locked_ok l decision recovery now db other free manages pending request =
    rw (decide_locked, other, free, manages, pending, request) refl

decided_status :
    (l : Locked) (decision : AccessRequestStatus) (now : ℕ) (t : IdentityTables)
    → find_user l.target.id t.users ≡ some l.target
    → is_pending decision ≡ false
    → (u : User) × (find_user l.target.id (decided l decision now t).users ≡ some u)
      × (status_eq u.access_status (decided_access decision) ≡ true)
decided_status l AccessRequestStatus.pending now t here made = absurd (ground (arith, made))
decided_status l AccessRequestStatus.approved now t here made = (
  accessed l.actor.id UserAccessStatus.approved now l.target,
  transition-row l.target l.actor.id now t UserAccessStatus.approved here,
  ground arith,
)
decided_status l AccessRequestStatus.rejected now t here made = (
  accessed l.actor.id UserAccessStatus.rejected now l.target,
  transition-row l.target l.actor.id now t UserAccessStatus.rejected here,
  ground arith,
)

-- Once a request for access is taken, an approved user who may manage users, and who is not the user
-- that asked, can approve or reject it, unless that user is the owner, the recovery identity or an
-- administrator out of reach: the decision succeeds, and the user gets the status decided on.
pub asked-decided :
    (user_id request_id asked_at : ℕ) (db : Database) (r : AccessRequestResult) (t : IdentityTables)
    (actor_user_id : ℕ) (l : Locked) (decision : AccessRequestStatus) (recovery : Option ℕ)
    (now : ℕ)
    → create_or_get_access_request user_id request_id asked_at db.identity ≡ ok (r, t)
    → IsLocked actor_user_id user_id t.users l
    → (l.actor.id == l.target.id) ≡ false
    → is_protected recovery l.target t ≡ false
    → may_manage l ≡ true
    → is_pending decision ≡ false
    → (db' : Database) × (decide_pending_access_request actor_user_id user_id decision recovery now
          (record db { identity = t })
        ≡ ok db')
      × (u : User) × (find_user user_id db'.identity.users ≡ some u)
      × (status_eq u.access_status (decided_access decision) ≡ true)
unfolding decide_pending_access_request
asked-decided user_id request_id asked_at db r t a l decision recovery now h locked other free
      manages made =
    let waiting = asked-Waiting user_id request_id asked_at db.identity r t h in
    let id = find_user_id user_id t.users l.target locked.target_found in
    let same : waiting.row ≡ l.target = some_same (sym waiting.found ∙ locked.target_found) in
    let (u, row, status) =
      decided_status l decision now t
        (subst (λ k. find_user k t.users ≡ some l.target) (sym id) locked.target_found) made in
    (
      record db { identity = decided l decision now t },
      rw (made, lock_ok a user_id t.users l locked)
          (decide_locked_ok l decision recovery now (record db { identity = t }) other free manages
            (subst (λ (v : User). status_eq v.access_status UserAccessStatus.pending ≡ true) same
              waiting.status)
            (subst (λ k. is_some (find (is_pending_of k) t.access_requests) ≡ true) (sym id)
              waiting.request)),
      u,
      subst (λ k. find_user k (decided l decision now t).users ≡ some u) id row,
      status,
    )
