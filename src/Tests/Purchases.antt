-- ===== src/Tests/Purchases.antt =====
-- A run of a purchase: an administrator asks for four cables of the catalog and three proposed ones,
-- the manager accepts the request and hands the delivery over, the proposed line is bound to the
-- cable, and the delivery is accepted.
use dc_inventory.Prelude.{
  ℕ, ◌+◌, ◌*◌, ◌≡◌, refl, ap, arith, Option, none, some, List, [], ◌∷◌, true,
}
use dc_inventory.Prelude.Result.{Result, ok}
use dc_inventory.Database.{Database}
use dc_inventory.Identity.Policy.{Capability}
use dc_inventory.Warehouse.Movement.Payload.{MovementLineCreate}
use dc_inventory.Procurement.Tables.{
  ProcurementRequest, ProcurementStatus, ProcurementLineType, ProcurementRevisionLine, find_request,
}
use dc_inventory.Procurement.Payload.{
  Payload, Platform, Actor, ExpectedStateMutation, ProcurementRequestCreate, LineItem, ItemCreate,
}
use dc_inventory.Procurement.Errors.{ProcurementError}
use dc_inventory.Prelude.Int.{◌+ℤ◌, neg}
use dc_inventory.Prelude.Table.{lookup, upsert, delete}
use dc_inventory.Core.Idempotency.{text_eq, is_space, split, join, normalize_idempotency_key}
use dc_inventory.Identity.Policy.{capabilities_for_role, has_capability}
use dc_inventory.Warehouse.Errors.{normalize_inline_text}
use dc_inventory.Warehouse.Journal.{sum_lines, journal_stock, custody_over}
use dc_inventory.Warehouse.Projection.{
  store_sum, refresh_at, refresh_custody, refresh_warehouse_projection, refresh_lines,
}
use dc_inventory.Warehouse.Movement.Payload.{
  insert_line, sort_lines, canonical, validate_positions, check_custody_arguments,
}
use dc_inventory.Warehouse.Movement.Guards.{
  existing_idempotent_result, lock_custody_user, custody_delta, check_original, check_locations,
  check_items, check_correction,
}
use dc_inventory.Warehouse.Movement.Lines.{
  times, check_balance, check_stock, check_custody, movement_line, check_line, check_lines,
}
use dc_inventory.Warehouse.Movement.Insert.{
  validate_movement_custody, validate_warehouse_correction_header,
  validate_warehouse_correction_line, insert_movement,
}
use dc_inventory.Warehouse.Movement.Create.{
  make_movement, record_movement, create_movement', create_movement, reverse_movement,
}
use dc_inventory.Notifications.Outbox.{enqueue_telegram_call}
use dc_inventory.Procurement.StateMachine.{transition_allowed}
use dc_inventory.Procurement.Guards.{
  normalize_client_request_id, normalize_comment, validate_manager, require_actor_capabilities,
  lock_and_validate_expected, require_status, set_status, add_event, put_request,
}
use dc_inventory.Procurement.Lines.{
  add_quantity, aggregate, validate_aggregated_item_quantities, prepare_line, prepare_rows,
  prepare_lines,
}
use dc_inventory.Procurement.Notify.{
  telegram_user_ids_for_users, technical_recipient_user_ids, enqueue_all,
  enqueue_procurement_notifications,
}
use dc_inventory.Procurement.Workflow.{
  current_revision, mutate, accept_body, manager_accept, correction_body, return_for_correction,
  revision_body, submit_revision, assignment_body, change_assignment, take_ownership,
  transfer_manager, delivery_body, transfer_to_acceptance,
}
use dc_inventory.Procurement.Acceptance.{
  bind, check_item, check_delivered, delivered_quantities, binding_body, bind_line,
  discrepancy_body, report_discrepancy, completion, acceptance_body, complete_acceptance,
}
use dc_inventory.Procurement.Submission.{new_request, create_request}
use dc_inventory.Procurement.Operation.{run}
use dc_inventory.Procurement.Workflow.{Outcome}
use dc_inventory.Procurement.Operation.{Operation}
use dc_inventory.Tests.Data.{empty_tables, digest, is_ok, given, succeeded}

abbrev payload_digest : Payload → ℕ
payload_digest (Payload.request p) = 1
payload_digest (Payload.expected_state p) = 2 + p.expected_state_version
payload_digest (Payload.correction p comment proposal) = 3
payload_digest (Payload.revision p comment lines) = 4
payload_digest (Payload.assignment p manager) = 5
payload_digest (Payload.transfer p manager target) = 6
payload_digest (Payload.binding p item line) = 7
payload_digest (Payload.discrepancy p comment) = 8
payload_digest (Payload.acceptance p location) = 9

abbrev pub platform : Platform
platform = record {
  payload_fingerprint = payload_digest;
  canonical_fingerprint = digest;
  notification_dedupe_key = λ event user. 100 * event + user;
  uuid_text = λ k. (48 + k) ∷ [];
  validate_item = λ i. ok 77;
}

-- The user of an identifier in the call of a number.
abbrev pub actor : ℕ → ℕ → Actor
actor k n = record {
  user_id = k;
  display_name = 78 ∷ [];
  now = 1000 + n;
  event_id = n;
  new_id = 500 + n;
  line_id = λ i. 10 * n + i;
}

abbrev pub expected : ℕ → ExpectedStateMutation
expected n = record {
  expected_state_version = n;
  expected_revision_id = 501;
  client_request_id = (64 + n) ∷ [];
}

abbrev proposal : ItemCreate
proposal = record { category_key = 99 ∷ []; manufacturer_id = none; name = 67 ∷ []; model = none }

abbrev pub wanted : ProcurementRequestCreate
wanted = record {
  assigned_manager_user_id = 2;
  general_comment = none;
  client_request_id = 114 ∷ [];
  lines =
      record { item = LineItem.existing 10; quantity = 4 }
      ∷ record { item = LineItem.proposed proposal; quantity = 3 }
      ∷ [];
}

abbrev pub requesting : Outcome
requesting = create_request platform (actor 1 1) wanted 50 empty_tables

abbrev pub requested : Database
requested = given empty_tables requesting

abbrev pub accepting : Outcome
accepting = run platform (actor 2 2) (Operation.accept (expected 1)) 50 requested

abbrev pub accepted : Database
accepted = given empty_tables accepting

abbrev pub delivering : Outcome
delivering = run platform (actor 2 3) (Operation.deliver (expected 2)) 50 accepted

abbrev pub delivered : Database
delivered = given empty_tables delivering

abbrev pub binding : Outcome
binding = run platform (actor 1 4) (Operation.bind (expected 3) 10 12) 50 delivered

abbrev pub bound : Database
bound = given empty_tables binding

abbrev pub completing : Outcome
completing = complete_acceptance platform (actor 1 5) (expected 4) 1 50 bound

abbrev pub completed : Database
completed = given empty_tables completing

-- A second call that expects the version which the acceptance of the request was made for.
abbrev pub accepting_again : Outcome
accepting_again = run platform (actor 2 6) (Operation.accept (expected 1)) 50 accepted

abbrev StatusIs : ProcurementStatus → Option ProcurementRequest → Type 0
StatusIs s none = ⊥
StatusIs s (some r) = r.status ≡ s

abbrev row_or : ProcurementRequest → Option ProcurementRequest → ProcurementRequest
row_or d none = d
row_or d (some r) = r

abbrev pub final_row : ProcurementRequest
final_row =
    row_or (new_request platform (actor 1 1) wanted 50 [] none [])
      (find_request 50 completed.requests)

abbrev pub completing_again : Outcome
completing_again = run platform (actor 1 7) (Operation.complete (expected 4) 1) 50 completed

abbrev pub summed_lines : List ProcurementRevisionLine
summed_lines =
    (record {
      id = 1;
      line_no = 1;
      line_type = ProcurementLineType.existing_item;
      catalog_item_id = some 10;
      expected_identity_signature = 77;
      quantity = 4;
      binding = none;
    }
      ∷ record {
        id = 2;
        line_no = 2;
        line_type = ProcurementLineType.proposed_item;
        catalog_item_id = none;
        expected_identity_signature = 77;
        quantity = 3;
        binding = none;
      }
      ∷ [])

abbrev pub summing : Result ProcurementError (List MovementLineCreate)
summing = validate_aggregated_item_quantities summed_lines (some (2, 10))

pub purchase_run :
    (is_ok requesting ≡ true)
    × (is_ok accepting ≡ true)
    × (is_ok delivering ≡ true)
    × (is_ok binding ≡ true)
    × (is_ok completing ≡ true)
    × (is_ok accepting_again ≡ true)
    × StatusIs ProcurementStatus.purchasing (find_request 50 accepted.requests)
    × StatusIs ProcurementStatus.completed (find_request 50 completed.requests)
    × (lookup 10 1 completed.warehouse.stock ≡ some 7)
    × (find_request 50 completed.requests ≡ some final_row)
    × (final_row.status ≡ ProcurementStatus.completed)
    × (is_ok completing_again ≡ true)
    × (is_ok summing ≡ true)
    × (require_actor_capabilities accepted.identity.users 2 (Capability.procurement_manage ∷ [])
        ≡ ok tt)
unfolding ◌+ℤ◌ neg lookup upsert delete text_eq is_space split join normalize_idempotency_key
    capabilities_for_role has_capability normalize_inline_text sum_lines journal_stock custody_over
    store_sum refresh_at refresh_custody refresh_warehouse_projection refresh_lines insert_line
    sort_lines canonical validate_positions check_custody_arguments existing_idempotent_result
    lock_custody_user custody_delta check_original check_locations check_items check_correction
    times check_balance check_stock check_custody movement_line check_line check_lines
    validate_movement_custody validate_warehouse_correction_header
    validate_warehouse_correction_line insert_movement make_movement record_movement
    create_movement' create_movement reverse_movement enqueue_telegram_call transition_allowed
    normalize_client_request_id normalize_comment validate_manager require_actor_capabilities
    lock_and_validate_expected require_status set_status add_event put_request add_quantity
    aggregate validate_aggregated_item_quantities prepare_line prepare_rows prepare_lines
    telegram_user_ids_for_users technical_recipient_user_ids enqueue_all
    enqueue_procurement_notifications current_revision mutate accept_body manager_accept
    correction_body return_for_correction revision_body submit_revision assignment_body
    change_assignment take_ownership transfer_manager delivery_body transfer_to_acceptance bind
    check_item check_delivered delivered_quantities binding_body bind_line discrepancy_body
    report_discrepancy completion acceptance_body complete_acceptance new_request create_request run
purchase_run = (refl, refl, refl, refl, refl, refl, refl, refl, refl, refl, refl, refl, refl, refl)

pub request_made : requesting ≡ ok (given empty_tables requesting)
request_made = succeeded empty_tables requesting purchase_run.0

pub request_accepted : accepting ≡ ok (given empty_tables accepting)
request_accepted = succeeded empty_tables accepting purchase_run.1

pub delivery_handed_over : delivering ≡ ok (given empty_tables delivering)
delivery_handed_over = succeeded empty_tables delivering purchase_run.2

pub line_bound : binding ≡ ok (given empty_tables binding)
line_bound = succeeded empty_tables binding purchase_run.3

pub delivery_accepted : completing ≡ ok (given empty_tables completing)
delivery_accepted = succeeded empty_tables completing purchase_run.4

pub accepted_again : accepting_again ≡ ok (given empty_tables accepting_again)
accepted_again = succeeded empty_tables accepting_again purchase_run.5

pub completed_again : completing_again ≡ ok (given empty_tables completing_again)
completed_again = succeeded empty_tables completing_again purchase_run.11

pub summed_up : summing ≡ ok (given [] summing)
summed_up = succeeded [] summing purchase_run.12

abbrev version_of : List ProcurementRequest → ℕ
version_of [] = 0
version_of (r ∷ rs) = r.state_version

abbrev first_version : Database → ℕ
first_version db = version_of db.requests

pub acceptance_changes : ¬ (accepted ≡ requested)
unfolding ◌+ℤ◌ neg lookup upsert delete text_eq is_space split join normalize_idempotency_key
    capabilities_for_role has_capability normalize_inline_text sum_lines journal_stock custody_over
    store_sum refresh_at refresh_custody refresh_warehouse_projection refresh_lines insert_line
    sort_lines canonical validate_positions check_custody_arguments existing_idempotent_result
    lock_custody_user custody_delta check_original check_locations check_items check_correction
    times check_balance check_stock check_custody movement_line check_line check_lines
    validate_movement_custody validate_warehouse_correction_header
    validate_warehouse_correction_line insert_movement make_movement record_movement
    create_movement' create_movement reverse_movement enqueue_telegram_call transition_allowed
    normalize_client_request_id normalize_comment validate_manager require_actor_capabilities
    lock_and_validate_expected require_status set_status add_event put_request add_quantity
    aggregate validate_aggregated_item_quantities prepare_line prepare_rows prepare_lines
    telegram_user_ids_for_users technical_recipient_user_ids enqueue_all
    enqueue_procurement_notifications current_revision mutate accept_body manager_accept
    correction_body return_for_correction revision_body submit_revision assignment_body
    change_assignment take_ownership transfer_manager delivery_body transfer_to_acceptance bind
    check_item check_delivered delivered_quantities binding_body bind_line discrepancy_body
    report_discrepancy completion acceptance_body complete_acceptance new_request create_request run
acceptance_changes h = let e : 2 ≡ 1 = ap first_version h in absurd (omega (arith, e))
