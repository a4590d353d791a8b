-- ===== src/Procurement/Actions/Offered.antt =====
-- Whatever an operation does to a request was offered to its user.
use dc_inventory.Prelude.{
  ℕ, ◌≡◌, refl, sym, ap, ◌∙◌, ◌⊎◌, inl, inr, Bool, true, false, ◌||◌, Option, some, List, [], ◌∷◌,
  ◌++◌, arith,
}
use dc_inventory.Prelude.Tests.{◌==◌}
use dc_inventory.Prelude.Lists.{any, find}
use dc_inventory.Prelude.Result.{ok}
use dc_inventory.Core.Idempotency.{Text}
use dc_inventory.Database.{Database}
use dc_inventory.Identity.Policy.{Capability}
use dc_inventory.Identity.Tables.{User, find_user}
use dc_inventory.Identity.Lifecycle.Rows.{find_user_id}
use dc_inventory.Procurement.Tables.{
  ProcurementRequest, ProcurementRevision, ProcurementRevisionLine, ProcurementStatus,
  ProcurementEventType, find_request,
}
use dc_inventory.Procurement.StateMachine.{is_active, is_completed, transition_allowed, among}
use dc_inventory.Procurement.Payload.{Platform, Actor, ExpectedStateMutation, LineCreate, Payload}
use dc_inventory.Procurement.Guards.{
  is_allowed, require_actor_capabilities, require_status, set_status,
}
use dc_inventory.Procurement.Workflow.{
  current_revision, accept_body, correction_body, revision_body, assignment_body, delivery_body,
}
use dc_inventory.Procurement.Acceptance.{binding_body, discrepancy_body, delivered_quantities}
use dc_inventory.Procurement.Operation.{Operation, run, call_of, body_of, run-mutate}
use dc_inventory.Procurement.Progress.{mutate_steps}
use dc_inventory.Procurement.Progress.Delivery.{acceptance_steps}
use dc_inventory.Warehouse.Movement.Payload.{MovementLineCreate}
use dc_inventory.Procurement.Actions.{
  ActionName, offers, action_of, is_unbound, manager_actions, initiator_actions, acceptance_actions,
  available_actions,
}

any-append :
    (p : ActionName → Bool) (xs ys : List ActionName) → any p (xs ++ ys) ≡ (any p xs || any p ys)
any-append p [] ys = refl
any-append p (x ∷ xs) ys = ground (arith, any-append p xs ys)

offers_parts :
    (a : ActionName) (r : ProcurementRequest) (v : ProcurementRevision) (u : User)
    → offers a (available_actions r v u) ≡ (
        offers a (manager_actions r u)
        || (offers a (initiator_actions r u) || offers a (acceptance_actions r v u)))
unfolding available_actions
offers_parts a r v u =
    any-append _ (manager_actions r u) (initiator_actions r u ++ acceptance_actions r v u)
    ∙ ap (λ b. offers a (manager_actions r u) || b)
        (any-append _ (initiator_actions r u) (acceptance_actions r v u))

-- What the tests of an operation say of the request, the revision and the actor.
abbrev Fits : Operation → ProcurementRequest → ProcurementRevision → ℕ → Type 0
Fits (Operation.accept p) r v actor = r.status ≡ ProcurementStatus.agreement_pending_manager
Fits (Operation.deliver p) r v actor = r.status ≡ ProcurementStatus.purchasing
Fits (Operation.correct p comment proposal) r v actor =
    (r.status ≡ ProcurementStatus.agreement_pending_manager)
    ⊎ (r.status ≡ ProcurementStatus.awaiting_acceptance)
Fits (Operation.revise p comment lines) r v actor =
    (r.status ≡ ProcurementStatus.agreement_revision_required)
    × ((r.initiator_user_id == actor) ≡ true)
Fits (Operation.take p manager) r v actor =
    (is_active r.status ≡ true) × ((r.assigned_manager_user_id == actor) ≡ false)
Fits (Operation.transfer p manager target) r v actor = is_active r.status ≡ true
Fits (Operation.bind p item line) r v actor =
    (is_completed r.status ≡ false) × (any is_unbound v.lines ≡ true)
Fits (Operation.report p comment) r v actor = r.status ≡ ProcurementStatus.awaiting_acceptance
Fits (Operation.complete p location) r v actor = r.status ≡ ProcurementStatus.awaiting_acceptance

from_status :
    (s : ProcurementStatus)
    → (transition_allowed s ProcurementStatus.purchasing ≡ true
        → s ≡ ProcurementStatus.agreement_pending_manager)
      × (transition_allowed s ProcurementStatus.awaiting_acceptance ≡ true
          → s ≡ ProcurementStatus.purchasing)
      × (transition_allowed s ProcurementStatus.agreement_revision_required ≡ true
          → (s ≡ ProcurementStatus.agreement_pending_manager)
            ⊎ (s ≡ ProcurementStatus.awaiting_acceptance))
      × (transition_allowed s ProcurementStatus.agreement_pending_manager ≡ true
          → s ≡ ProcurementStatus.agreement_revision_required)
      × (among s (ProcurementStatus.awaiting_acceptance ∷ []) ≡ true
          → s ≡ ProcurementStatus.awaiting_acceptance)
unfolding transition_allowed
from_status s = (
  λ h. ground (arith, h),
  λ h. ground (arith, h),
  λ h. ground (arith, h),
  λ h. ground (arith, h),
  λ h. ground (arith, h),
)

find-any :
    (k : ℕ) (ls : List ProcurementRevisionLine) (l : ProcurementRevisionLine)
    → find (λ j. j.id == k) ls ≡ some l
    → is_unbound l ≡ true
    → any is_unbound ls ≡ true
find-any k [] l h e = cc
find-any k (j ∷ js) l h e = ground (arith, h, e, find-any k js l)

delivered_awaiting :
    (db : Database) (r : ProcurementRequest) {qs : List MovementLineCreate}
    → delivered_quantities db r ≡ ok qs
    → among r.status (ProcurementStatus.awaiting_acceptance ∷ []) ≡ true
unfolding delivered_quantities require_status
delivered_awaiting db r h = ground arith

module _ (x : Platform) (actor : Actor) (db : Database) (r : ProcurementRequest) (key : Text)
    {db' : Database} where
  accept_moves :
      (p : ExpectedStateMutation)
      → accept_body x actor p db r key ≡ ok db'
      → transition_allowed r.status ProcurementStatus.purchasing ≡ true
  unfolding accept_body set_status
  accept_moves p h = ground arith

  delivery_moves :
      (p : ExpectedStateMutation)
      → delivery_body x actor p db r key ≡ ok db'
      → transition_allowed r.status ProcurementStatus.awaiting_acceptance ≡ true
  unfolding delivery_body set_status
  delivery_moves p h = ground arith

  correction_moves :
      (p : ExpectedStateMutation) (comment : Text) (proposal : Option (List LineCreate))
      → correction_body x actor p comment proposal db r key ≡ ok db'
      → transition_allowed r.status ProcurementStatus.agreement_revision_required ≡ true
  unfolding correction_body set_status
  correction_moves p comment proposal h = ground arith

  revision_moves :
      (p : ExpectedStateMutation) (comment : Option Text) (lines : List LineCreate)
      → revision_body x actor p comment lines db r key ≡ ok db'
      → (transition_allowed r.status ProcurementStatus.agreement_pending_manager ≡ true)
        × ((r.initiator_user_id == actor.user_id) ≡ true)
  unfolding revision_body set_status
  revision_moves p comment lines h = (ground arith, ground arith)

  assignment_stays :
      (payload : Payload) (expected target : ℕ) (type : ProcurementEventType)
      → assignment_body x actor payload expected target type db r key ≡ ok db'
      → (is_active r.status ≡ true) × ((r.assigned_manager_user_id == target) ≡ false)
  unfolding assignment_body
  assignment_stays payload expected target type h = (ground arith, ground arith)

  binding_stays :
      (p : ExpectedStateMutation) (item line : ℕ) (v : ProcurementRevision)
      → current_revision r ≡ ok v
      → binding_body x actor p item line db r key ≡ ok db'
      → (is_completed r.status ≡ false)
        × (l : ProcurementRevisionLine) × (find (λ j. j.id == line) v.lines ≡ some l)
        × (is_unbound l ≡ true)
  unfolding binding_body
  binding_stays p item line v current h = ground (arith, current)

  discrepancy_stays :
      (p : ExpectedStateMutation) (comment : Text)
      → discrepancy_body x actor p comment db r key ≡ ok db'
      → among r.status (ProcurementStatus.awaiting_acceptance ∷ []) ≡ true
  unfolding discrepancy_body require_status
  discrepancy_stays p comment h = ground arith

  body-Fits :
      (v : ProcurementRevision)
      → current_revision r ≡ ok v
      → (o : Operation) → body_of x actor o db r key ≡ ok db'
      → Fits o r v actor.user_id
  body-Fits v current (Operation.accept p) h = (from_status r.status).0 (accept_moves p h)
  body-Fits v current (Operation.deliver p) h = (from_status r.status).1 (delivery_moves p h)
  body-Fits v current (Operation.correct p comment proposal) h =
      (from_status r.status).2 (correction_moves p comment proposal h)
  body-Fits v current (Operation.revise p comment lines) h =
      let (moves, own) = revision_moves p comment lines h in ((from_status r.status).3 moves, own)
  body-Fits v current (Operation.take p manager) h = assignment_stays _ _ _ _ h
  body-Fits v current (Operation.transfer p manager target) h = (assignment_stays _ _ _ _ h).0
  body-Fits v current (Operation.bind p item line) h =
      let (open_, l, found, unbound) = binding_stays p item line v current h in
      (open_, find-any line v.lines l found unbound)
  body-Fits v current (Operation.report p comment) h =
      (from_status r.status).4 (discrepancy_stays p comment h)
  body-Fits v current (Operation.complete p location) h =
      let (quantities, counted, _, _, _, _, _, _) =
        acceptance_steps x actor p location db r key h in
      (from_status r.status).4 (delivered_awaiting db r counted)

actions_offered :
    (o : Operation) (x : Platform) (actor : Actor) (r : ProcurementRequest)
    (v : ProcurementRevision) (u : User)
    → u.id ≡ actor.user_id
    → is_allowed (some u) (call_of x actor o).capabilities ≡ true
    → Fits o r v actor.user_id
    → offers (action_of o) (available_actions r v u) ≡ true
unfolding manager_actions initiator_actions acceptance_actions
actions_offered (Operation.accept p) x actor r v u id allowed fits =
    offers_parts ActionName.manager_accept r v u ∙ rw fits (ground (arith, allowed))
actions_offered (Operation.deliver p) x actor r v u id allowed fits =
    offers_parts ActionName.transfer_to_acceptance r v u ∙ rw fits (ground (arith, allowed))
actions_offered (Operation.correct p comment proposal) x actor r v u id allowed (inl fits) =
    offers_parts ActionName.return_for_correction r v u ∙ rw fits (ground (arith, allowed))
actions_offered (Operation.correct p comment proposal) x actor r v u id allowed (inr fits) =
    offers_parts ActionName.return_for_correction r v u ∙ rw fits (ground (arith, allowed))
actions_offered (Operation.revise p comment lines) x actor r v u id allowed (fits, own) =
    offers_parts ActionName.submit_revision r v u ∙ rw fits (ground (arith, allowed, own, id))
actions_offered (Operation.take p manager) x actor r v u id allowed (fits, other) =
    offers_parts ActionName.take_ownership r v u ∙ ground (arith, allowed, fits, other, id)
actions_offered (Operation.transfer p manager target) x actor r v u id allowed fits =
    offers_parts ActionName.transfer_manager r v u ∙ ground (arith, allowed, fits)
actions_offered (Operation.bind p item line) x actor r v u id allowed (fits, unbound) =
    offers_parts ActionName.bind_lines r v u ∙ ground (arith, allowed, fits, unbound)
actions_offered (Operation.report p comment) x actor r v u id allowed fits =
    offers_parts ActionName.report_discrepancy r v u ∙ rw fits (ground (arith, allowed))
actions_offered (Operation.complete p location) x actor r v u id allowed fits =
    offers_parts ActionName.complete_acceptance r v u ∙ rw fits (ground (arith, allowed))

allowed_user :
    (users : List User) (actor : ℕ) (capabilities : List Capability)
    → require_actor_capabilities users actor capabilities ≡ ok tt
    → (u : User) × (find_user actor users ≡ some u) × (is_allowed (some u) capabilities ≡ true)
unfolding require_actor_capabilities
allowed_user users actor capabilities h = ground arith

-- A successful operation on a request either repeats an earlier call and changes nothing, or it is
-- one of the actions that `available_actions` offers to its user on the request as it was.
pub run-offered :
    (x : Platform) (actor : Actor) (o : Operation) (request_id : ℕ) (db : Database) {db' : Database}
    → run x actor o request_id db ≡ ok db'
    → (db' ≡ db)
      ⊎ (r : ProcurementRequest) × (find_request request_id db.requests ≡ some r)
        × (u : User) × (find_user actor.user_id db.identity.users ≡ some u)
        × ((v : ProcurementRevision)
            → current_revision r ≡ ok v
            → offers (action_of o) (available_actions r v u) ≡ true)
run-offered x actor o request_id db h =
    let (r, found, validated, _, able, how) =
      mutate_steps x actor (call_of x actor o) (body_of x actor o db) request_id db
        (sym (run-mutate x actor o request_id db) ∙ h) in
    let (u, user, allowed) =
      allowed_user db.identity.users actor.user_id (call_of x actor o).capabilities able in
    elim how [
      | inl (_, same) ↦ inl same
      | inr (_, e) ↦ inr (
        r,
        found,
        u,
        user,
        λ v current.
            actions_offered o x actor r v u (find_user_id actor.user_id db.identity.users u user)
              allowed (body-Fits x actor db r validated.key v current o e),
      )
    ]
