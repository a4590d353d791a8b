-- ===== src/Procurement/Progress/Frame.antt =====
-- procurement/service.py: what the operations leave alone in the warehouse and of the users.
use mathlib.Core.Path.{subst}
use dc_inventory.Prelude.{ℕ, ◌≡◌, refl, sym, Option, List, arith}
use dc_inventory.Prelude.Result.{ok}
use dc_inventory.Core.Idempotency.{Text}
use dc_inventory.Database.{Database}
use dc_inventory.Warehouse.Stocked.{Untouched}
use dc_inventory.Warehouse.Movement.Payload.{MovementCreate, Caller}
use dc_inventory.Warehouse.Movement.Create.{MovementResult, create_movement'}
use dc_inventory.Warehouse.Effect.Frame.{create_is}
use dc_inventory.Procurement.Tables.{ProcurementRequest, ProcurementEventType}
use dc_inventory.Procurement.Payload.{Platform, Actor, ExpectedStateMutation, LineCreate, Payload}
use dc_inventory.Procurement.Notify.{enqueue_procurement_notifications}
use dc_inventory.Procurement.Workflow.{
  accept_body, correction_body, revision_body, assignment_body, delivery_body,
}
use dc_inventory.Procurement.Acceptance.{
  binding_body, discrepancy_body, acceptance_body, receipt, receipt_caller,
}
use dc_inventory.Procurement.Progress.Delivery.{acceptance_steps}

module _ (x : Platform) (actor : Actor) (db : Database) (r : ProcurementRequest) (key : Text) where
  pub accept_frame :
      (p : ExpectedStateMutation) {db' : Database}
      → accept_body x actor p db r key ≡ ok db'
      → Untouched db db'
  unfolding accept_body
  accept_frame p h = (ground arith, ground arith)

  pub correction_frame :
      (p : ExpectedStateMutation) (comment : Text) (proposal : Option (List LineCreate))
      {db' : Database}
      → correction_body x actor p comment proposal db r key ≡ ok db'
      → Untouched db db'
  unfolding correction_body enqueue_procurement_notifications
  correction_frame p comment proposal h = (ground arith, ground arith)

  pub revision_frame :
      (p : ExpectedStateMutation) (comment : Option Text) (lines : List LineCreate) {db' : Database}
      → revision_body x actor p comment lines db r key ≡ ok db'
      → Untouched db db'
  unfolding revision_body enqueue_procurement_notifications
  revision_frame p comment lines h = (ground arith, ground arith)

  pub assignment_frame :
      (payload : Payload) (expected target : ℕ) (type : ProcurementEventType) {db' : Database}
      → assignment_body x actor payload expected target type db r key ≡ ok db'
      → Untouched db db'
  unfolding assignment_body enqueue_procurement_notifications
  assignment_frame payload expected target type h = (ground arith, ground arith)

  pub delivery_frame :
      (p : ExpectedStateMutation) {db' : Database}
      → delivery_body x actor p db r key ≡ ok db'
      → Untouched db db'
  unfolding delivery_body enqueue_procurement_notifications
  delivery_frame p h = (ground arith, ground arith)

  pub binding_frame :
      (p : ExpectedStateMutation) (item line : ℕ) {db' : Database}
      → binding_body x actor p item line db r key ≡ ok db'
      → Untouched db db'
  unfolding binding_body
  binding_frame p item line h = (ground arith, ground arith)

  pub discrepancy_frame :
      (p : ExpectedStateMutation) (comment : Text) {db' : Database}
      → discrepancy_body x actor p comment db r key ≡ ok db'
      → Untouched db db'
  unfolding discrepancy_body enqueue_procurement_notifications
  discrepancy_frame p comment h = (ground arith, ground arith)

  -- What movements keep, and calls that leave the warehouse and the users alone, an acceptance keeps.
  pub acceptance_keeps :
      (P : Database → Type 0)
      → ((d d' : Database) → Untouched d d' → P d → P d')
      → ((d d' : Database) (order : MovementCreate) (c : Caller) (result : MovementResult)
          → create_movement' x.canonical_fingerprint d order c ≡ ok (result, d')
          → P d
          → P d')
      → (p : ExpectedStateMutation) (location : ℕ) {db' : Database} → P db
      → acceptance_body x actor p location db r key ≡ ok db'
      → P db'
  unfolding enqueue_procurement_notifications
  acceptance_keeps P untouched moves p location v h =
      let (quantities, _, _, stocked, made, _, _, same) =
        acceptance_steps x actor p location db r key h in
      let order = receipt (x.uuid_text r.id) location quantities in
      subst P (sym same) (
        untouched _ _ (refl, refl)
          (moves db _ order (receipt_caller actor) _
            (create_is x.canonical_fingerprint db order (receipt_caller actor) made) v))
