-- ===== src/Warehouse/Effect/Create.antt =====
-- The movement operations keep the projections in step with the journal.
use mathlib.Core.Path.{subst}
use dc_inventory.Prelude.{ℕ, ◌≡◌, sym, inl, inr, ◌∷◌}
use dc_inventory.Prelude.Result.{ok}
use dc_inventory.Core.Idempotency.{Text}
use dc_inventory.Database.{Database}
use dc_inventory.Warehouse.Consistent.{IsConsistent}
use dc_inventory.Warehouse.Consistent.Insert.{insert-IsConsistent}
use dc_inventory.Warehouse.Movement.Payload.{MovementCreate, Caller, Canonical}
use dc_inventory.Warehouse.Movement.Guards.Original.{original_found}
use dc_inventory.Warehouse.Movement.Create.{
  MovementResult, record_movement, create_movement', make_movement,
}
use dc_inventory.Warehouse.Movement.Create.Steps.{record_steps, create_steps}

-- A recorded movement heads the journal, and the tables are consistent again.
pub record-IsConsistent :
    (db : Database) (p : MovementCreate) (c : Caller) (request_id : Text) (fingerprint : ℕ)
    {r : MovementResult} {db' : Database}
    → IsConsistent db.warehouse
    → record_movement db p c request_id fingerprint ≡ ok (r, db')
    → IsConsistent db'.warehouse × (db'.warehouse.movements ≡ r.movement ∷ db.warehouse.movements)
record-IsConsistent db p c request_id fingerprint {r} {db'} v h =
    let (user, _, _, original, e, _, _, _, actor, _, lines, _, inserted, made, _) =
      record_steps db p c request_id fingerprint h in
    subst
      (λ (x : MovementResult).
        IsConsistent db'.warehouse
        × (db'.warehouse.movements ≡ x.movement ∷ db.warehouse.movements))
      (sym made)
      (insert-IsConsistent db.identity.users
        (make_movement db.warehouse.locations p c request_id fingerprint actor lines) db.warehouse v
        (λ k named.
          original_found db.requests db.warehouse.movements p.movement_type c.custody_user_id user
            p.original_movement_id e k (unfold make_movement in named))
        inserted)

module _ (canonical_fingerprint : Canonical → ℕ) where
  -- A successful call of `_create_movement` on consistent tables leaves consistent tables: both
  -- projections show the sums of the journal, and every row is positive and in range.
  pub create'-IsConsistent :
      (db : Database) (p : MovementCreate) (c : Caller) {r : MovementResult} {db' : Database}
      → IsConsistent db.warehouse
      → create_movement' canonical_fingerprint db p c ≡ ok (r, db')
      → IsConsistent db'.warehouse
  create'-IsConsistent db p c v h =
      let (request_id, _, _, how) = create_steps canonical_fingerprint db p c h in
      elim how [
        | inl (_, _, same) ↦ subst (λ (d : Database). IsConsistent d.warehouse) (sym same) v
        | inr (_, recorded) ↦ (record-IsConsistent db p c request_id _ v recorded).0
      ]
