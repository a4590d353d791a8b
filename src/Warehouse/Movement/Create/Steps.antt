-- ===== src/Warehouse/Movement/Create/Steps.antt =====
-- What a successful call of the movement operations has passed, step by step.
use dc_inventory.Prelude.{ℕ, ◌≡◌, ◌⊎◌, true, false, Option, none, some, List, arith}
use dc_inventory.Prelude.Result.{ok}
use dc_inventory.Core.Idempotency.{Text}
use dc_inventory.Identity.Tables.{User}
use dc_inventory.Database.{Database}
use dc_inventory.Warehouse.Tables.{Movement, MovementLine, find_movement}
use dc_inventory.Warehouse.Errors.{Field, normalize_inline_text}
use dc_inventory.Warehouse.Movement.Payload.{
  MovementCreate, Caller, Canonical, canonical, sort_lines, validate_positions,
  check_custody_arguments,
}
use dc_inventory.Warehouse.Movement.Guards.{
  existing_idempotent_result, lock_custody_user, check_original, check_locations, check_items,
  check_correction,
}
use dc_inventory.Warehouse.Movement.Lines.{check_lines}
use dc_inventory.Warehouse.Movement.Insert.{insert_movement}
use dc_inventory.Warehouse.Movement.Create.{
  MovementResult, make_movement, line_context, record_movement, create_movement', reverse_movement,
  reversal_payload,
}

-- A movement that is recorded has passed each test, for the values that the tests gave.
pub record_steps :
    (db : Database) (p : MovementCreate) (c : Caller) (request_id : Text) (fingerprint : ℕ)
    {r : MovementResult} {db' : Database}
    → record_movement db p c request_id fingerprint ≡ ok (r, db')
    → (user : Option User) × (lock_custody_user db.identity.users p.movement_type c.custody_user_id
        ≡ ok user)
      × (validate_positions p ≡ ok tt)
      × (original : Option Movement) × (check_original db.requests db.warehouse.movements
            p.movement_type c.custody_user_id user p.original_movement_id
          ≡ ok original)
      × (check_locations db.warehouse.locations p ≡ ok tt)
      × (check_items db.warehouse.items p ≡ ok tt)
      × (check_correction p original ≡ ok tt)
      × (actor : Text) × (normalize_inline_text c.actor_display_name Field.actor 579 ≡ ok actor)
      × (lines : List MovementLine) × (check_lines db.warehouse
            (line_context p c original)
            1
            (sort_lines p.lines)
          ≡ ok lines)
      × (insert_movement db.identity.users
            (make_movement db.warehouse.locations p c request_id fingerprint actor lines)
            db.warehouse
          ≡ ok db'.warehouse)
      × (r ≡ record {
        movement = make_movement db.warehouse.locations p c request_id fingerprint actor lines;
        replayed = false;
      })
      × (db' ≡ record db { warehouse = db'.warehouse })
unfolding record_movement
record_steps db p c request_id fingerprint h = ground arith

-- A successful call found an earlier movement of the same key and fingerprint, and changed nothing,
-- or recorded a new one.
pub create_steps :
    (canonical_fingerprint : Canonical → ℕ) (db : Database) (p : MovementCreate) (c : Caller)
    {r : MovementResult} {db' : Database}
    → create_movement' canonical_fingerprint db p c ≡ ok (r, db')
    → (request_id : Text) × (normalize_inline_text p.client_request_id Field.client_request_id 128
        ≡ ok request_id)
      × (check_custody_arguments p c ≡ ok tt)
      × ((existing_idempotent_result db.warehouse.movements c.actor_user_id request_id
                (canonical_fingerprint (canonical p c.custody_user_id request_id))
              ≡ ok (some r.movement))
            × (r.replayed ≡ true)
            × (db' ≡ db)
          ⊎ (existing_idempotent_result db.warehouse.movements c.actor_user_id request_id
                (canonical_fingerprint (canonical p c.custody_user_id request_id))
              ≡ ok none)
            × (record_movement db p c request_id
                  (canonical_fingerprint (canonical p c.custody_user_id request_id))
                ≡ ok (r, db')))
unfolding create_movement'
create_steps canonical_fingerprint db p c h = ground arith

pub reverse_steps :
    (canonical_fingerprint : Canonical → ℕ) (db : Database) (original_id : ℕ) (request_id : Text)
    (c : Caller) {r : MovementResult} {db' : Database}
    → reverse_movement canonical_fingerprint db original_id request_id c ≡ ok (r, db')
    → (original : Movement) × (find_movement original_id db.warehouse.movements ≡ some original)
      × (create_movement' canonical_fingerprint db
            (reversal_payload original request_id)
            (record c { custody_user_id = original.custody_user_id })
          ≡ ok (r, db'))
unfolding reverse_movement
reverse_steps canonical_fingerprint db original_id request_id c h = ground arith
