-- ===== src/Warehouse/Movement/Create.antt =====
-- inventory/service.py: `create_movement`, `_create_movement` and `reverse_movement`. The function
-- `canonical_fingerprint` of core/idempotency.py, a SHA-256 digest, is a parameter.
pub mod Steps
use dc_inventory.Prelude.{ℕ, Bool, true, false, Option, none, some, List, map}
use dc_inventory.Prelude.Tests.{if◌then◌else◌}
use dc_inventory.Prelude.Lists.{length}
use dc_inventory.Prelude.Result.{Result, ok, err, ◌>>=◌, ◌>>◌, or_raise}
use dc_inventory.Core.Idempotency.{Text}
use dc_inventory.Database.{Database}
use dc_inventory.Warehouse.Tables.{
  Movement, MovementLine, MovementType, Location, find_location, find_movement, is_reversal,
}
use dc_inventory.Warehouse.Errors.{InventoryError, Field, normalize_inline_text}
use dc_inventory.Warehouse.Movement.Payload.{
  MovementCreate, MovementLineCreate, Caller, Canonical, canonical, sort_lines, validate_positions,
  check_custody_arguments,
}
use dc_inventory.Warehouse.Movement.Guards.{
  existing_idempotent_result, lock_custody_user, check_original, check_locations, check_items,
  check_correction,
}
use dc_inventory.Warehouse.Movement.Lines.{LineContext, check_lines}
use dc_inventory.Warehouse.Movement.Insert.{insert_movement}

pub record MovementResult : Type 0 where
  pub movement : Movement
  pub replayed : Bool

abbrev pub Outcome : Type 0
Outcome = Result InventoryError (MovementResult × Database)

abbrev pub location_of : List Location → Option ℕ → Option Location
location_of locations none = none
location_of locations (some k) = find_location k locations

abbrev pub code_of : Option Location → Option Text
code_of none = none
code_of (some l) = some l.code

abbrev pub name_of : Option Location → Option Text
name_of none = none
name_of (some l) = some l.name

-- The row of a movement.
unfoldable pub make_movement :
    List Location → MovementCreate → Caller → Text → ℕ → Text → List MovementLine → Movement
make_movement locations p c request_id fingerprint actor lines = record {
  id = c.movement_id;
  movement_type = p.movement_type;
  line_count = length p.lines;
  actor_user_id = c.actor_user_id;
  custody_user_id = c.custody_user_id;
  actor_display_name_snapshot = actor;
  source_location_id = p.source_location_id;
  destination_location_id = p.destination_location_id;
  source_location_code_snapshot = code_of (location_of locations p.source_location_id);
  source_location_name_snapshot = name_of (location_of locations p.source_location_id);
  destination_location_code_snapshot = code_of (location_of locations p.destination_location_id);
  destination_location_name_snapshot = name_of (location_of locations p.destination_location_id);
  original_movement_id = p.original_movement_id;
  client_request_id = request_id;
  request_fingerprint = fingerprint;
  occurred_at = c.now;
  lines = lines;
}

abbrev pub line_context : MovementCreate → Caller → Option Movement → LineContext
line_context p c original = record {
  movement_type = p.movement_type;
  original = original;
  source = p.source_location_id;
  destination = p.destination_location_id;
  custody_user_id = c.custody_user_id;
}

-- The part of `_create_movement` behind the test for an earlier call.
unfoldable pub record_movement : Database → MovementCreate → Caller → Text → ℕ → Outcome
record_movement db p c request_id fingerprint = do
  user ← lock_custody_user db.identity.users p.movement_type c.custody_user_id
  validate_positions p
  original ←
      check_original db.requests db.warehouse.movements p.movement_type c.custody_user_id user
        p.original_movement_id
  check_locations db.warehouse.locations p
  check_items db.warehouse.items p
  check_correction p original
  actor ← normalize_inline_text c.actor_display_name Field.actor 579
  lines ← check_lines db.warehouse (line_context p c original) 1 (sort_lines p.lines)
  let m = make_movement db.warehouse.locations p c request_id fingerprint actor lines
  w ← insert_movement db.identity.users m db.warehouse
  ok (record { movement = m; replayed = false }, record db { warehouse = w })

abbrev pub reversal_line : MovementLine → MovementLineCreate
reversal_line l = record { item_id = l.item_id; quantity = l.quantity }

-- The payload that `reverse_movement` makes of the original.
abbrev pub reversal_payload : Movement → Text → MovementCreate
reversal_payload original request_id = record {
  movement_type = MovementType.reversal;
  source_location_id = original.destination_location_id;
  destination_location_id = original.source_location_id;
  original_movement_id = some original.id;
  client_request_id = request_id;
  lines = map reversal_line original.lines;
}

module _ (canonical_fingerprint : Canonical → ℕ) where
  unfoldable pub create_movement' : Database → MovementCreate → Caller → Outcome
  create_movement' db p c = do
    check_custody_arguments p c
    request_id ← normalize_inline_text p.client_request_id Field.client_request_id 128
    let fingerprint = canonical_fingerprint (canonical p c.custody_user_id request_id)
    existing ←
        existing_idempotent_result db.warehouse.movements c.actor_user_id request_id fingerprint
    elim existing [
      | some m ↦ ok (record { movement = m; replayed = true }, db)
      | none ↦ record_movement db p c request_id fingerprint
    ]

  unfoldable pub create_movement : Database → MovementCreate → Caller → Outcome
  create_movement db p c =
      if is_reversal p.movement_type
      then err InventoryError.reversal_endpoint
      else create_movement' db p c

  unfoldable pub reverse_movement : Database → ℕ → Text → Caller → Outcome
  reverse_movement db original_id request_id c = do
    original ←
        or_raise (find_movement original_id db.warehouse.movements)
          InventoryError.movement_not_found
    create_movement' db (reversal_payload original request_id)
        (record c { custody_user_id = original.custody_user_id })
