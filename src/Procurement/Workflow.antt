-- ===== src/Procurement/Workflow.antt =====
-- procurement/service.py: the operations up to the delivery of a purchase. Each operation on a
-- request goes through the same tests first; a replay of an earlier call changes nothing.
use dc_inventory.Prelude.{ℕ, suc, max, not, true, false, Option, none, some, List, [], ◌∷◌}
use dc_inventory.Prelude.Tests.{◌==◌}
use dc_inventory.Prelude.Lists.{find}
use dc_inventory.Prelude.Result.{Result, ok, ◌>>=◌, ◌>>◌, raise_if, or_raise}
use dc_inventory.Core.Idempotency.{Text}
use dc_inventory.Identity.Policy.{Capability}
use dc_inventory.Database.{Database}
use dc_inventory.Notifications.Outbox.{Action}
use dc_inventory.Procurement.Tables.{
  ProcurementRequest, ProcurementRevision, ProcurementRevisionLine, ProcurementStatus,
  ProcurementEventType, find_request,
}
use dc_inventory.Procurement.StateMachine.{is_active}
use dc_inventory.Procurement.Errors.{ProcurementError}
use dc_inventory.Procurement.Payload.{Payload, Platform, Actor, ExpectedStateMutation, LineCreate}
use dc_inventory.Procurement.Guards.{
  normalize_comment, validate_manager, require_actor_capabilities, lock_and_validate_expected,
  require_status, set_status, add_event, bump, put_request, EventDetails,
}
use dc_inventory.Procurement.Lines.{prepare_lines}
use dc_inventory.Procurement.Notify.{
  enqueue_procurement_notifications, technical_recipient_user_ids,
}

abbrev pub Outcome : Type 0
Outcome = Result ProcurementError Database

-- `current_revision`
unfoldable pub current_revision : ProcurementRequest → Result ProcurementError ProcurementRevision
current_revision request =
    or_raise (find (λ v. v.id == request.current_revision_id) request.revisions)
      ProcurementError.revision_not_loaded

-- The request is written back.
abbrev pub write : ProcurementRequest → Database → Database
write request db = record db { requests = put_request request db.requests }

-- An event that moves the status, and one that does not.
abbrev pub moves :
    ProcurementEventType → ProcurementStatus → ProcurementStatus → Option Text → EventDetails
moves type a b comment = record {
  event_type = type;
  from_status = some a;
  to_status = some b;
  comment = comment;
}

abbrev pub stays : ProcurementEventType → Option Text → EventDetails
stays type comment = record {
  event_type = type;
  from_status = none;
  to_status = none;
  comment = comment;
}

-- The call that an operation is part of.
pub record Call : Type 0 where
  pub expected : ExpectedStateMutation
  pub payload : Payload
  pub event_type : ProcurementEventType
  pub capabilities : List Capability

-- `max(revision.revision_number for revision in record.revisions)`
abbrev pub last_number : List ProcurementRevision → ℕ
last_number [] = 0
last_number (v ∷ vs) = max v.revision_number (last_number vs)

module _ (x : Platform) (actor : Actor) where
  -- The tests with which every operation on a request begins, in their order, and the return on a
  -- replay. `body` is what the operation does for a new call, given the request and the key.
  unfoldable pub mutate : Call → (ProcurementRequest → Text → Outcome) → ℕ → Database → Outcome
  mutate call body request_id db = do
    request ← or_raise (find_request request_id db.requests) ProcurementError.request_not_found
    validated ←
        lock_and_validate_expected request call.expected (x.payload_fingerprint call.payload)
          actor.user_id call.event_type
    require_actor_capabilities db.identity.users actor.user_id call.capabilities
    elim validated.replay [ some previous ↦ ok db | none ↦ body request validated.key ]

  abbrev pub log : Payload → Text → EventDetails → ProcurementRequest → ProcurementRequest
  log payload key = add_event actor key (x.payload_fingerprint payload)

  abbrev pub notify : ProcurementRequest → Action → List ℕ → Database → Database
  notify request action recipients db =
      enqueue_procurement_notifications x actor request.id action recipients (write request db)

  abbrev pub accept_call : ExpectedStateMutation → Call
  accept_call p = record {
    expected = p;
    payload = Payload.expected_state p;
    event_type = ProcurementEventType.manager_accepted;
    capabilities = Capability.procurement_manage ∷ [];
  }

  unfoldable pub accept_body :
      ExpectedStateMutation → Database → ProcurementRequest → Text → Outcome
  accept_body p db request key = do
    moved ← set_status request ProcurementStatus.purchasing
    ok (
        write
          (log (Payload.expected_state p) key
            (moves ProcurementEventType.manager_accepted request.status moved.status none) moved)
          db)

  unfoldable pub manager_accept : ExpectedStateMutation → ℕ → Database → Outcome
  manager_accept p request_id db = mutate (accept_call p) (accept_body p db) request_id db

  abbrev pub correction_call : ExpectedStateMutation → Text → Option (List LineCreate) → Call
  correction_call p comment proposal = record {
    expected = p;
    payload = Payload.correction p comment proposal;
    event_type = ProcurementEventType.correction_requested;
    capabilities = Capability.procurement_manage ∷ [];
  }

  -- An alternative proposal is prepared, and goes into the metadata of the event only.
  abbrev prepare_proposal :
      Database → Option (List LineCreate) → Result ProcurementError (List ProcurementRevisionLine)
  prepare_proposal db none = ok []
  prepare_proposal db (some []) = ok []
  prepare_proposal db (some (l ∷ ls)) = prepare_lines x actor db.warehouse.items (l ∷ ls)

  unfoldable pub correction_body :
      ExpectedStateMutation
      → Text
      → Option (List LineCreate)
      → Database
      → ProcurementRequest
      → Text
      → Outcome
  correction_body p comment proposal db request key = do
    require_status request
        (ProcurementStatus.agreement_pending_manager ∷ ProcurementStatus.awaiting_acceptance ∷ [])
    prepared ← prepare_proposal db proposal
    moved ← set_status request ProcurementStatus.agreement_revision_required
    text ← normalize_comment (some comment) true
    revision ← current_revision request
    ok (
        notify
          (log (Payload.correction p comment proposal) key
            (moves ProcurementEventType.correction_requested request.status moved.status text)
            moved)
          Action.returned_for_correction (request.initiator_user_id ∷ []) db)

  unfoldable pub return_for_correction :
      ExpectedStateMutation → Text → Option (List LineCreate) → ℕ → Database → Outcome
  return_for_correction p comment proposal request_id db =
      mutate (correction_call p comment proposal) (correction_body p comment proposal db) request_id
        db

  abbrev pub revision_call : ExpectedStateMutation → Option Text → List LineCreate → Call
  revision_call p comment lines = record {
    expected = p;
    payload = Payload.revision p comment lines;
    event_type = ProcurementEventType.revision_submitted;
    capabilities = Capability.procurement_create ∷ [];
  }

  unfoldable pub revision_body :
      ExpectedStateMutation
      → Option Text
      → List LineCreate
      → Database
      → ProcurementRequest
      → Text
      → Outcome
  revision_body p comment lines db request key = do
    raise_if (not (request.initiator_user_id == actor.user_id)) ProcurementError.forbidden
    require_status request (ProcurementStatus.agreement_revision_required ∷ [])
    rows ← prepare_lines x actor db.warehouse.items lines
    general ← normalize_comment comment false
    moved ← set_status request ProcurementStatus.agreement_pending_manager
    let revision : ProcurementRevision = record {
      id = actor.new_id;
      revision_number = suc (last_number request.revisions);
      submitted_by_user_id = actor.user_id;
      general_comment = general;
      lines = rows;
    }
    ok (
        notify
          (log (Payload.revision p comment lines) key
            (moves ProcurementEventType.revision_submitted request.status moved.status none)
            (record moved {
              current_revision_id = actor.new_id;
              revisions = revision ∷ request.revisions;
            }))
          Action.new_revision (request.assigned_manager_user_id ∷ []) db)

  unfoldable pub submit_revision :
      ExpectedStateMutation → Option Text → List LineCreate → ℕ → Database → Outcome
  submit_revision p comment lines request_id db =
      mutate (revision_call p comment lines) (revision_body p comment lines db) request_id db

  unfoldable pub assignment_body :
      Payload → ℕ → ℕ → ProcurementEventType → Database → ProcurementRequest → Text → Outcome
  assignment_body payload expected_manager target type db request key = do
    raise_if (not (is_active request.status)) ProcurementError.completed_request
    raise_if (not (request.assigned_manager_user_id == expected_manager))
        ProcurementError.stale_assignment
    manager ← validate_manager db.identity.users target
    raise_if (request.assigned_manager_user_id == target) ProcurementError.assignment_unchanged
    revision ← current_revision request
    ok (
        notify
          (log payload key (stays type none)
            (bump (record request { assigned_manager_user_id = target })))
          Action.manager_assigned (target ∷ []) db)

  -- `_change_assignment`
  unfoldable pub change_assignment :
      ExpectedStateMutation → Payload → ℕ → ℕ → ProcurementEventType → ℕ → Database → Outcome
  change_assignment p payload expected_manager target type request_id db =
      mutate
        (record {
          expected = p;
          payload = payload;
          event_type = type;
          capabilities = Capability.procurement_manage ∷ [];
        })
        (assignment_body payload expected_manager target type db) request_id db

  unfoldable pub take_ownership : ExpectedStateMutation → ℕ → ℕ → Database → Outcome
  take_ownership p expected_manager =
      change_assignment p (Payload.assignment p expected_manager) expected_manager actor.user_id
        ProcurementEventType.assignment_taken

  unfoldable pub transfer_manager : ExpectedStateMutation → ℕ → ℕ → ℕ → Database → Outcome
  transfer_manager p expected_manager target =
      change_assignment p (Payload.transfer p expected_manager target) expected_manager target
        ProcurementEventType.assignment_transferred

  abbrev pub delivery_call : ExpectedStateMutation → Call
  delivery_call p = record {
    expected = p;
    payload = Payload.expected_state p;
    event_type = ProcurementEventType.transferred_to_acceptance;
    capabilities = Capability.procurement_manage ∷ [];
  }

  unfoldable pub delivery_body :
      ExpectedStateMutation → Database → ProcurementRequest → Text → Outcome
  delivery_body p db request key = do
    moved ← set_status request ProcurementStatus.awaiting_acceptance
    revision ← current_revision request
    ok (
        notify
          (log (Payload.expected_state p) key
            (moves ProcurementEventType.transferred_to_acceptance request.status moved.status none)
            moved)
          Action.transferred_to_acceptance (technical_recipient_user_ids db.identity.users) db)

  unfoldable pub transfer_to_acceptance : ExpectedStateMutation → ℕ → Database → Outcome
  transfer_to_acceptance p request_id db =
      mutate (delivery_call p) (delivery_body p db) request_id db
