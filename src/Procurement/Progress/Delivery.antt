-- ===== src/Procurement/Progress/Delivery.antt =====
-- procurement/service.py: what the operations on a delivery do to a request.
use dc_inventory.Prelude.{
  ℕ, ◌≡◌, refl, ap, ◌∙◌, inr, not, true, false, Option, none, some, List, map, arith,
}
use dc_inventory.Prelude.Tests.{◌==◌, is_some}
use dc_inventory.Prelude.Lists.{find, any}
use dc_inventory.Prelude.Result.{Result, ok, err, >>=-Through}
use dc_inventory.Core.Idempotency.{Text}
use dc_inventory.Notifications.Outbox.{Action}
use dc_inventory.Database.{Database}
use dc_inventory.Warehouse.Tables.{Item, find_item}
use dc_inventory.Warehouse.Errors.{InventoryError}
use dc_inventory.Warehouse.Movement.Payload.{MovementLineCreate}
use dc_inventory.Warehouse.Movement.Create.{MovementResult, create_movement}
use dc_inventory.Warehouse.Effect.Frame.{create-requests}
use dc_inventory.Procurement.Tables.{
  ProcurementRequest, ProcurementStatus, ProcurementEventType, ProcurementRevisionLine,
  ProcurementRevision,
}
use dc_inventory.Procurement.StateMachine.{transition_allowed, is_completed}
use dc_inventory.Procurement.Payload.{Platform, Actor, ExpectedStateMutation, Payload}
use dc_inventory.Procurement.Guards.{
  normalize_comment, require_status, set_status, put_request, bump,
}
use dc_inventory.Procurement.Lines.{bound_item_id, validate_aggregated_item_quantities}
use dc_inventory.Procurement.Notify.{enqueue_procurement_notifications}
use dc_inventory.Procurement.Workflow.{Outcome, log, moves, stays, current_revision, notify}
use dc_inventory.Procurement.Acceptance.{
  binding_body, discrepancy_body, acceptance_body, completion, receipt, receipt_caller,
  bind_revision, check_delivered, participants, delivered_quantities, of_inventory,
}
use dc_inventory.Procurement.Progress.{Worked, stamp, with_status, moved_Advanced, stayed_Advanced}

of_inventory_ok :
    (m : Result InventoryError (MovementResult × Database)) {a : MovementResult × Database}
    → of_inventory m ≡ ok a
    → m ≡ ok a
of_inventory_ok (ok b) h = cc
of_inventory_ok (err e) h = cc

ok_same : (m : Outcome) {a b : Database} → m ≡ ok a → m ≡ ok b → b ≡ a
ok_same m h k = cc

module _ (x : Platform) (actor : Actor) where
  binding_steps :
      (p : ExpectedStateMutation) (item line : ℕ) (db : Database) (r : ProcurementRequest)
      (key : Text) {db' : Database}
      → binding_body x actor p item line db r key ≡ ok db'
      → (is_completed r.status ≡ false)
        × (revision : ProcurementRevision) × (current_revision r ≡ ok revision)
        × (l : ProcurementRevisionLine) × (find (λ k. k.id == line) revision.lines ≡ some l)
        × (i : Item) × (find_item item db.warehouse.items ≡ some i)
        × (db'.requests
            ≡ put_request
                (log x actor
                  (Payload.binding p item line)
                  key
                  (stays ProcurementEventType.line_bound none)
                  (bump (record r { revisions = map (bind_revision l.id i.id) r.revisions })))
                db.requests)
  unfolding binding_body
  binding_steps p item line db r key h = ground arith

  discrepancy_steps :
      (p : ExpectedStateMutation) (comment : Text) (db : Database) (r : ProcurementRequest)
      (key : Text) {db' : Database}
      → discrepancy_body x actor p comment db r key ≡ ok db'
      → (is_completed r.status ≡ false)
        × (text : Option Text) × (normalize_comment (some comment) true ≡ ok text)
        × (db'.requests
            ≡ put_request
                (log x actor
                  (Payload.discrepancy p comment)
                  key
                  (stays ProcurementEventType.discrepancy_reported text)
                  (bump r))
                db.requests)
  unfolding discrepancy_body enqueue_procurement_notifications require_status
  discrepancy_steps p comment db r key h = ground arith

  pub binding_Worked :
      (p : ExpectedStateMutation) (item line : ℕ) (db : Database) (r : ProcurementRequest)
      (key : Text) {db' : Database}
      → binding_body x actor p item line db r key ≡ ok db'
      → Worked
          (stamp actor key
            (x.payload_fingerprint (Payload.binding p item line))
            ProcurementEventType.line_bound)
          r
          db
          db'
  binding_Worked p item line db r key h =
      let (active, _, _, l, _, i, _, same) = binding_steps p item line db r key h in
      (_, same, stayed_Advanced actor key _ _ _ r _ active refl refl (refl, refl, refl, refl))

  pub discrepancy_Worked :
      (p : ExpectedStateMutation) (comment : Text) (db : Database) (r : ProcurementRequest)
      (key : Text) {db' : Database}
      → discrepancy_body x actor p comment db r key ≡ ok db'
      → Worked
          (stamp actor key
            (x.payload_fingerprint (Payload.discrepancy p comment))
            ProcurementEventType.discrepancy_reported)
          r
          db
          db'
  discrepancy_Worked p comment db r key h =
      let (active, _, _, same) = discrepancy_steps p comment db r key h in
      (_, same, stayed_Advanced actor key _ _ _ r _ active refl refl (refl, refl, refl, refl))

  pub delivered_steps :
      (db : Database) (r : ProcurementRequest) {quantities : List MovementLineCreate}
      → delivered_quantities db r ≡ ok quantities
      → (revision : ProcurementRevision) × (current_revision r ≡ ok revision)
        × (any (λ l. not (is_some (bound_item_id l))) revision.lines ≡ false)
        × (check_delivered db.warehouse.items revision.lines ≡ ok tt)
        × (validate_aggregated_item_quantities revision.lines none ≡ ok quantities)
  unfolding delivered_quantities
  delivered_steps db r h = ground arith

  -- What an acceptance has passed: the receipt that it recorded, of the summed quantities of the
  -- lines, and the request that it completed.
  pub acceptance_steps :
      (p : ExpectedStateMutation) (location : ℕ) (db : Database) (r : ProcurementRequest)
      (key : Text) {db' : Database}
      → acceptance_body x actor p location db r key ≡ ok db'
      → (quantities : List MovementLineCreate) × (delivered_quantities db r ≡ ok quantities)
        × (received : MovementResult) × (stocked : Database) × (create_movement
              x.canonical_fingerprint db
              (receipt (x.uuid_text r.id) location quantities)
              (receipt_caller actor)
            ≡ ok (received, stocked))
        × (completed : ProcurementRequest) × (completion x actor p location received r key
            ≡ ok completed)
        × (db' ≡ notify x actor completed Action.acceptance_completed (participants r) stocked)
  unfolding acceptance_body
  acceptance_steps p location db r key h =
      let (quantities, counted, h₁) = >>=-Through (delivered_quantities db r) _ h in
      let (received, stocked, h₂) =
        >>=-Through
          (of_inventory (
            create_movement x.canonical_fingerprint db
              (receipt (x.uuid_text r.id) location quantities) (receipt_caller actor)))
          _ h₁ in
      let (completed, made, h₃) =
        >>=-Through (completion x actor p location received.0 r key) _ h₂ in
      (
        quantities,
        counted,
        received.0,
        received.1,
        of_inventory_ok _ stocked,
        completed,
        made,
        ok_same _ refl h₃,
      )

  pub completion_steps :
      (p : ExpectedStateMutation) (location : ℕ) (received : MovementResult)
      (r : ProcurementRequest) (key : Text) {completed : ProcurementRequest}
      → completion x actor p location received r key ≡ ok completed
      → (received.replayed ≡ false)
        × (transition_allowed r.status ProcurementStatus.completed ≡ true)
        × (completed
            ≡ log x actor
                (Payload.acceptance p location)
                key
                (moves ProcurementEventType.completed r.status ProcurementStatus.completed none)
                (record (with_status r ProcurementStatus.completed) {
                  final_movement_id = some received.movement.id;
                  completed_at = some actor.now;
                }))
  unfolding completion set_status
  completion_steps p location received r key h = ground arith

  pub acceptance_Worked :
      (p : ExpectedStateMutation) (location : ℕ) (db : Database) (r : ProcurementRequest)
      (key : Text) {db' : Database}
      → acceptance_body x actor p location db r key ≡ ok db'
      → Worked
          (stamp actor key
            (x.payload_fingerprint (Payload.acceptance p location))
            ProcurementEventType.completed)
          r
          db
          db'
  unfolding enqueue_procurement_notifications
  acceptance_Worked p location db r key h =
      let (quantities, _, received, stocked, made, completed, done, same) =
        acceptance_steps p location db r key h in
      let (_, allowed, final) = completion_steps p location received r key done in
      (
        _,
        ap (λ (d : Database). d.requests) same
            ∙ ap (put_request completed) (
                create-requests x.canonical_fingerprint db
                  (receipt (x.uuid_text r.id) location quantities) (receipt_caller actor) made)
            ∙ ap (λ c. put_request c db.requests) final,
        moved_Advanced actor key _ _ _ _ r _ allowed refl (inr (refl, refl))
            (refl, refl, refl, refl),
      )
