-- ===== src/System/Keeps.antt =====
-- What the operations on purchases keep because they touch the warehouse and the users only by
-- movements.
use mathlib.Core.Path.{subst}
use dc_inventory.Prelude.{ℕ, ◌≡◌, sym, ◌∙◌, inl, inr}
use dc_inventory.Prelude.Result.{ok}
use dc_inventory.Core.Idempotency.{Text}
use dc_inventory.Database.{Database}
use dc_inventory.Warehouse.Stocked.{Untouched}
use dc_inventory.Warehouse.Movement.Payload.{MovementCreate, Caller}
use dc_inventory.Warehouse.Movement.Create.{MovementResult, create_movement'}
use dc_inventory.Procurement.Tables.{ProcurementRequest}
use dc_inventory.Procurement.Payload.{Platform, Actor}
use dc_inventory.Procurement.Progress.Frame.{
  accept_frame, correction_frame, revision_frame, assignment_frame, delivery_frame, binding_frame,
  discrepancy_frame, acceptance_keeps,
}
use dc_inventory.Procurement.Operation.{Operation, run, body_of, call_of, run-mutate}
use dc_inventory.Procurement.Progress.{mutate_steps}

-- What movements keep, and calls that leave the warehouse and the users alone, every operation on a
-- request keeps.
module _ (P : Database → Type 0) (x : Platform)
    (untouched : (d d' : Database) → Untouched d d' → P d → P d')
    (moves : (d d' : Database) (order : MovementCreate) (c : Caller) (result : MovementResult)
      → create_movement' x.canonical_fingerprint d order c ≡ ok (result, d')
      → P d
      → P d') where
  body_keeps :
      (actor : Actor) (o : Operation) (db : Database) (r : ProcurementRequest) (key : Text)
      {db' : Database}
      → P db
      → body_of x actor o db r key ≡ ok db'
      → P db'
  body_keeps actor (Operation.accept p) db r key v h =
      untouched db _ (accept_frame x actor db r key p h) v
  body_keeps actor (Operation.deliver p) db r key v h =
      untouched db _ (delivery_frame x actor db r key p h) v
  body_keeps actor (Operation.correct p comment proposal) db r key v h =
      untouched db _ (correction_frame x actor db r key p comment proposal h) v
  body_keeps actor (Operation.revise p comment lines) db r key v h =
      untouched db _ (revision_frame x actor db r key p comment lines h) v
  body_keeps actor (Operation.take p manager) db r key v h =
      untouched db _ (assignment_frame x actor db r key _ _ _ _ h) v
  body_keeps actor (Operation.transfer p manager target) db r key v h =
      untouched db _ (assignment_frame x actor db r key _ _ _ _ h) v
  body_keeps actor (Operation.bind p item line) db r key v h =
      untouched db _ (binding_frame x actor db r key p item line h) v
  body_keeps actor (Operation.report p comment) db r key v h =
      untouched db _ (discrepancy_frame x actor db r key p comment h) v
  body_keeps actor (Operation.complete p location) db r key v h =
      acceptance_keeps x actor db r key P untouched moves p location v h

  pub run_keeps :
      (actor : Actor) (o : Operation) (request_id : ℕ) (db : Database) {db' : Database}
      → P db
      → run x actor o request_id db ≡ ok db'
      → P db'
  run_keeps actor o request_id db {db'} v h =
      let (r, found, u, _, _, how) =
        mutate_steps x actor (call_of x actor o) (body_of x actor o db) request_id db
          (sym (run-mutate x actor o request_id db) ∙ h) in
      elim how [
        | inl (_, same) ↦ subst P (sym same) v
        | inr (_, e) ↦ body_keeps actor o db r u.key v e
      ]
