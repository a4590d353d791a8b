-- ===== src/Procurement/Received.antt =====
-- procurement/service.py: what `complete_acceptance` receives into the warehouse.
use dc_inventory.Prelude.{
  ℕ, ◌+◌, ◌≡◌, refl, ap, ◌∙◌, ◌⊎◌, inl, inr, not, Bool, true, false, none, some, List, [], ◌∷◌,
  arith,
}
use dc_inventory.Prelude.Tests.{◌==◌, if◌then◌else◌, is_some, ==_refl}
use dc_inventory.Prelude.Lists.{any}
use dc_inventory.Prelude.Int.{ℤ, pos, ◌+ℤ◌, sub_ℕ, int_laws, zero-+ℤ}
use dc_inventory.Prelude.Result.{ok}
use dc_inventory.Core.Idempotency.{Text}
use dc_inventory.Database.{Database}
use dc_inventory.Warehouse.Consistent.{IsConsistent}
use dc_inventory.Warehouse.Movement.Payload.{MovementLineCreate}
use dc_inventory.Warehouse.Movement.Payload.Sorted.{sum_payload, sum-sort_lines}
use dc_inventory.Warehouse.Effect.Stock.{stock_of, custody_of, payload_delta, create'-Moved}
use dc_inventory.Warehouse.Effect.Frame.{create_is}
use dc_inventory.Procurement.Tables.{ProcurementRequest, ProcurementRevision, find_request}
use dc_inventory.Procurement.Payload.{Platform, Actor, ExpectedStateMutation}
use dc_inventory.Procurement.Notify.{enqueue_procurement_notifications}
use dc_inventory.Procurement.Workflow.{current_revision}
use dc_inventory.Procurement.Acceptance.{
  acceptance_body, acceptance_call, complete_acceptance, receipt, receipt_caller,
}
use dc_inventory.Procurement.Lines.{bound_item_id}
use dc_inventory.Procurement.Progress.{mutate_steps}
use dc_inventory.Procurement.Totals.{total, line_total, validate-totals}
use dc_inventory.Procurement.Progress.Delivery.{acceptance_steps, delivered_steps, completion_steps}

sum-total :
    (f : ℕ → ℤ) (item : ℕ) (qs : List MovementLineCreate)
    → ((q : ℕ) → f q ≡ pos q)
    → sum_payload f item qs ≡ pos (total item qs)
unfolding sum_payload total
sum-total f item [] h = refl
sum-total f item (l ∷ ls) h =
    added (l.item_id == item) (f l.quantity) l.quantity (h l.quantity) (sum-total f item ls h)
  where
    added :
        (b : Bool) (x : ℤ) (q : ℕ) {s : ℤ} {n : ℕ}
        → x ≡ pos q
        → s ≡ pos n
        → (if b then x else pos 0) +ℤ s ≡ pos ((if b then q else 0) + n)
    added true x q e k = rw (e, k) (omega int_laws)
    added false x q e k = rw k (omega int_laws)

sum-zero :
    (f : ℕ → ℤ) (item : ℕ) (qs : List MovementLineCreate)
    → ((q : ℕ) → f q ≡ pos 0)
    → sum_payload f item qs ≡ pos 0
unfolding sum_payload
sum-zero f item [] h = refl
sum-zero f item (l ∷ ls) h =
    added (l.item_id == item) (f l.quantity) (h l.quantity) (sum-zero f item ls h)
  where
    added :
        (b : Bool) (x : ℤ) {s : ℤ} → x ≡ pos 0 → s ≡ pos 0 → (if b then x else pos 0) +ℤ s ≡ pos 0
    added true x e k = rw (e, k) (omega int_laws)
    added false x e k = rw k (omega int_laws)

-- Every balance at the location grows by the quantities of the lines bound to its item, and no other
-- stock balance and no custody changes.
pub record Received (db : Database) (location : ℕ) (revision : ProcurementRevision) (db' : Database)
    : Type 0 where
  pub stock :
      (item : ℕ)
      → stock_of db' item location
        ≡ pos (line_total none item revision.lines) +ℤ stock_of db item location
  pub elsewhere :
      (item other : ℕ)
      → (location == other) ≡ false
      → stock_of db' item other ≡ stock_of db item other
  pub custody : (user item : ℕ) → custody_of db' user item ≡ custody_of db user item

pub acceptance-Received :
    (x : Platform) (actor : Actor) (p : ExpectedStateMutation) (location : ℕ) (db : Database)
    (r : ProcurementRequest) (key : Text) {db' : Database}
    → IsConsistent db.warehouse
    → acceptance_body x actor p location db r key ≡ ok db'
    → (revision : ProcurementRevision) × (current_revision r ≡ ok revision)
      × (any (λ l. not (is_some (bound_item_id l))) revision.lines ≡ false)
      × Received db location revision db'
unfolding enqueue_procurement_notifications
acceptance-Received x actor p location db r key v h =
    let (quantities, counted, received, stocked, made, completed, done, same) =
      acceptance_steps x actor p location db r key h in
    let (revision, current, bound, _, summed) = delivered_steps x actor db r counted in
    let (new, _, _) = completion_steps x actor p location received r key done in
    let order = receipt (x.uuid_text r.id) location quantities in
    let moved =
      create'-Moved x.canonical_fingerprint db order (receipt_caller actor) v
        (create_is x.canonical_fingerprint db order (receipt_caller actor) made) new in
    let (_, sums) = validate-totals revision.lines none summed in
    (
      revision,
      current,
      bound,
      record {
        stock = λ item.
            ap (λ (d : Database). stock_of d item location) same
            ∙ moved.stock item location
            ∙ ap (λ t. t +ℤ stock_of db item location)
                (sum-sort_lines (payload_delta order location) item quantities
                  ∙ sum-total (payload_delta order location) item quantities (λ q. at_location q)
                  ∙ ap pos (sums item).0);
        elsewhere = λ item other apart.
            ap (λ (d : Database). stock_of d item other) same
            ∙ moved.stock item other
            ∙ ap (λ t. t +ℤ stock_of db item other)
                (sum-zero (payload_delta order other) item order.lines (λ q. away other q apart))
            ∙ zero-+ℤ (stock_of db item other);
        custody = λ user item.
            ap (λ (d : Database). custody_of d user item) same
            ∙ moved.custody user item
            ∙ zero-+ℤ (custody_of db user item);
      },
    )
  where
    at_location : (q : ℕ) → sub_ℕ (if location == location then q else 0) 0 ≡ pos q
    at_location q = ground (arith, ==_refl location)

    away :
        (other q : ℕ)
        → (location == other) ≡ false
        → sub_ℕ (if location == other then q else 0) 0 ≡ pos 0
    away other q apart = rw apart refl

-- A successful `complete_acceptance` on consistent tables changed nothing, being a repeated call, or
-- it found the request and its current revision with every line bound to an item, and received
-- exactly the lines: each balance at the receiving location has grown by the sum of the quantities
-- of the lines bound to its item, and no other stock balance and no custody has changed.
pub complete_acceptance-Received :
    (x : Platform) (actor : Actor) (p : ExpectedStateMutation) (location request_id : ℕ)
    (db : Database) {db' : Database}
    → IsConsistent db.warehouse
    → complete_acceptance x actor p location request_id db ≡ ok db'
    → (db' ≡ db)
      ⊎ (r : ProcurementRequest) × (find_request request_id db.requests ≡ some r)
        × (revision : ProcurementRevision) × (current_revision r ≡ ok revision)
        × (any (λ l. not (is_some (bound_item_id l))) revision.lines ≡ false)
        × Received db location revision db'
unfolding complete_acceptance
complete_acceptance-Received x actor p location request_id db v h =
    let (r, found, u, _, _, how) =
      mutate_steps x actor (acceptance_call x actor p location)
        (acceptance_body x actor p location db) request_id db h in
    elim how [
      | inl (_, same) ↦ inl same
      | inr (_, e) ↦
          let (revision, current, bound, received) =
            acceptance-Received x actor p location db r u.key v e in
          inr (r, found, revision, current, bound, received)
    ]
