-- ===== src/Procurement/Acceptance.antt =====
-- procurement/service.py: the binding of proposed lines, discrepancies, and the acceptance of a
-- delivery, which receives its items into the warehouse.
use dc_inventory.Prelude.{ℕ, not, Bool, true, false, Option, none, some, List, [], ◌∷◌, ◌++◌, map}
use dc_inventory.Prelude.Tests.{◌==◌, is_some}
use dc_inventory.Prelude.Lists.{find, any, contains, select}
use dc_inventory.Prelude.Result.{Result, ok, err, ◌>>=◌, ◌>>◌, raise_if, or_raise}
use dc_inventory.Core.Idempotency.{Text}
use dc_inventory.Identity.Policy.{Capability}
use dc_inventory.Database.{Database}
use dc_inventory.Notifications.Outbox.{Action}
use dc_inventory.Warehouse.Tables.{Item, MovementType, find_item, is_active_item}
use dc_inventory.Warehouse.Errors.{InventoryError}
use dc_inventory.Warehouse.Movement.Payload.{MovementCreate, MovementLineCreate, Caller, sort_lines}
use dc_inventory.Warehouse.Movement.Create.{MovementResult, create_movement}
use dc_inventory.Procurement.Tables.{
  ProcurementRequest, ProcurementRevision, ProcurementRevisionLine, ProcurementStatus,
  ProcurementEvent, ProcurementLineType, ProcurementEventType,
}
use dc_inventory.Procurement.StateMachine.{is_completed}
use dc_inventory.Procurement.Errors.{ProcurementError}
use dc_inventory.Procurement.Payload.{Payload, Platform, Actor, ExpectedStateMutation}
use dc_inventory.Procurement.Guards.{normalize_comment, require_status, set_status, bump}
use dc_inventory.Procurement.Lines.{bound_item_id, validate_aggregated_item_quantities}
use dc_inventory.Procurement.Workflow.{
  Outcome, Call, current_revision, mutate, log, notify, write, moves, stays,
}

abbrev pub is_proposed : ProcurementLineType → Bool
is_proposed ProcurementLineType.proposed_item = true
is_proposed ProcurementLineType.existing_item = false

-- The new row of `ProcurementLineCatalogBinding`.
unfoldable pub bind : ℕ → ℕ → ProcurementRevisionLine → ProcurementRevisionLine
bind line_id item_id l = elim (l.id == line_id) [
  | true ↦ record l { binding = some item_id }
  | false ↦ l
]

abbrev pub bind_revision : ℕ → ℕ → ProcurementRevision → ProcurementRevision
bind_revision line_id item_id v = record v { lines = map (bind line_id item_id) v.lines }

-- The items of the lines, once each.
abbrev pub add_item_id : Option ℕ → List ℕ → List ℕ
add_item_id none ids = ids
add_item_id (some k) ids = elim (contains k ids) [ true ↦ ids | false ↦ k ∷ ids ]

abbrev pub bound_item_ids : List ProcurementRevisionLine → List ℕ
bound_item_ids [] = []
bound_item_ids (l ∷ ls) = add_item_id (bound_item_id l) (bound_item_ids ls)

-- One line of a delivery against its catalog item.
unfoldable pub check_item :
    Option Item → ProcurementRevisionLine → Result ProcurementError (Unit {0})
check_item none l = err ProcurementError.catalog_item_not_found
check_item (some item) l = do
  raise_if (not (is_active_item item.status)) ProcurementError.catalog_item_archived
  raise_if (not (item.identity_signature == l.expected_identity_signature))
      ProcurementError.item_identity_mismatch

unfoldable pub check_delivered :
    List Item → List ProcurementRevisionLine → Result ProcurementError (Unit {0})
check_delivered items [] = ok tt
check_delivered items (l ∷ ls) = elim (bound_item_id l) [
  | none ↦ check_delivered items ls
  | some k ↦ check_item (find_item k items) l >> check_delivered items ls
]

-- `"procurement:"`
abbrev pub procurement_prefix : Text
procurement_prefix = 112 ∷ 114 ∷ 111 ∷ 99 ∷ 117 ∷ 114 ∷ 101 ∷ 109 ∷ 101 ∷ 110 ∷ 116 ∷ 58 ∷ []

-- The receipt of the summed quantities at a location.
abbrev pub receipt : Text → ℕ → List MovementLineCreate → MovementCreate
receipt request_id location quantities = record {
  movement_type = MovementType.receipt;
  source_location_id = none;
  destination_location_id = some location;
  original_movement_id = none;
  client_request_id = procurement_prefix ++ request_id;
  lines = sort_lines quantities;
}

abbrev pub receipt_caller : Actor → Caller
receipt_caller actor = record {
  actor_user_id = actor.user_id;
  actor_display_name = actor.display_name;
  custody_user_id = none;
  movement_id = actor.new_id;
  now = actor.now;
}

-- An error of the warehouse goes through.
abbrev pub of_inventory :
    Result InventoryError (MovementResult × Database)
    → Result ProcurementError (MovementResult × Database)
of_inventory (ok a) = ok a
of_inventory (err e) = err (ProcurementError.inventory e)

-- The types of event whose actors take part in a request.
abbrev pub takes_part : ProcurementEvent → Bool
takes_part e = elim e.event_type [
  | ProcurementEventType.manager_accepted ↦ true
  | ProcurementEventType.correction_requested ↦ true
  | ProcurementEventType.assignment_taken ↦ true
  | ProcurementEventType.assignment_transferred ↦ true
  | ProcurementEventType.transferred_to_acceptance ↦ true
  | _ ↦ false
]

abbrev pub participants : ProcurementRequest → List ℕ
participants request =
    request.initiator_user_id
    ∷ request.assigned_manager_user_id
    ∷ map (λ e. e.actor_user_id) (select takes_part request.events)

-- The tests of a delivery, and the quantities that it brings.
unfoldable pub delivered_quantities :
    Database → ProcurementRequest → Result ProcurementError (List MovementLineCreate)
delivered_quantities db request = do
  require_status request (ProcurementStatus.awaiting_acceptance ∷ [])
  revision ← current_revision request
  raise_if
      (any (λ k. not (is_some (find_item k db.warehouse.items))) (bound_item_ids revision.lines))
      ProcurementError.catalog_item_not_found
  check_delivered db.warehouse.items revision.lines
  raise_if (any (λ l. not (is_some (bound_item_id l))) revision.lines)
      ProcurementError.unbound_procurement_line
  validate_aggregated_item_quantities revision.lines none

module _ (x : Platform) (actor : Actor) where
  abbrev pub binding_call : ExpectedStateMutation → ℕ → ℕ → Call
  binding_call p item_id line_id = record {
    expected = p;
    payload = Payload.binding p item_id line_id;
    event_type = ProcurementEventType.line_bound;
    capabilities = Capability.procurement_accept ∷ [];
  }

  unfoldable pub binding_body :
      ExpectedStateMutation → ℕ → ℕ → Database → ProcurementRequest → Text → Outcome
  binding_body p item_id line_id db request key = do
    raise_if (is_completed request.status) ProcurementError.completed_request
    revision ← current_revision request
    line ← or_raise (find (λ l. l.id == line_id) revision.lines) ProcurementError.line_not_found
    raise_if (not (is_proposed line.line_type)) ProcurementError.line_not_proposed
    raise_if (is_some line.binding) ProcurementError.line_already_bound
    item ← or_raise (find_item item_id db.warehouse.items) ProcurementError.catalog_item_not_found
    check_item (some item) line
    quantities ← validate_aggregated_item_quantities revision.lines (some (line.id, item.id))
    ok (
        write
          (log x actor (Payload.binding p item_id line_id) key
            (stays ProcurementEventType.line_bound none)
            (bump (record request {
              revisions = map (bind_revision line.id item.id) request.revisions;
            })))
          db)

  unfoldable pub bind_line : ExpectedStateMutation → ℕ → ℕ → ℕ → Database → Outcome
  bind_line p item_id line_id request_id db =
      mutate x actor (binding_call p item_id line_id) (binding_body p item_id line_id db) request_id
        db

  abbrev pub discrepancy_call : ExpectedStateMutation → Text → Call
  discrepancy_call p comment = record {
    expected = p;
    payload = Payload.discrepancy p comment;
    event_type = ProcurementEventType.discrepancy_reported;
    capabilities = Capability.procurement_accept ∷ [];
  }

  unfoldable pub discrepancy_body :
      ExpectedStateMutation → Text → Database → ProcurementRequest → Text → Outcome
  discrepancy_body p comment db request key = do
    require_status request (ProcurementStatus.awaiting_acceptance ∷ [])
    text ← normalize_comment (some comment) true
    revision ← current_revision request
    ok (
        notify x actor
          (log x actor (Payload.discrepancy p comment) key
            (stays ProcurementEventType.discrepancy_reported text) (bump request))
          Action.discrepancy_reported (request.assigned_manager_user_id ∷ []) db)

  unfoldable pub report_discrepancy : ExpectedStateMutation → Text → ℕ → Database → Outcome
  report_discrepancy p comment request_id db =
      mutate x actor (discrepancy_call p comment) (discrepancy_body p comment db) request_id db

  abbrev pub acceptance_call : ExpectedStateMutation → ℕ → Call
  acceptance_call p location = record {
    expected = p;
    payload = Payload.acceptance p location;
    event_type = ProcurementEventType.completed;
    capabilities = Capability.procurement_accept ∷ [];
  }

  -- The request after the receipt.
  unfoldable pub completion :
      ExpectedStateMutation
      → ℕ
      → MovementResult
      → ProcurementRequest
      → Text
      → Result ProcurementError ProcurementRequest
  completion p location received request key = do
    raise_if received.replayed ProcurementError.receipt_already_exists
    moved ← set_status request ProcurementStatus.completed
    ok (
        log x actor (Payload.acceptance p location) key
          (moves ProcurementEventType.completed request.status moved.status none)
          (record moved {
            final_movement_id = some received.movement.id;
            completed_at = some actor.now;
          }))

  unfoldable pub acceptance_body :
      ExpectedStateMutation → ℕ → Database → ProcurementRequest → Text → Outcome
  acceptance_body p location db request key = do
    quantities ← delivered_quantities db request
    received ← of_inventory (
        create_movement x.canonical_fingerprint db
          (receipt (x.uuid_text request.id) location quantities) (receipt_caller actor))
    completed ← completion p location received.0 request key
    ok (notify x actor completed Action.acceptance_completed (participants request) received.1)

  unfoldable pub complete_acceptance : ExpectedStateMutation → ℕ → ℕ → Database → Outcome
  complete_acceptance p location request_id db =
      mutate x actor (acceptance_call p location) (acceptance_body p location db) request_id db
