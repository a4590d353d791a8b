-- ===== src/Warehouse/Movement/Payload.antt =====
-- inventory/schemas.py and inventory/service.py: the payload of a movement, the arguments that go
-- with it, and what is decided from them alone.
pub mod Sorted
use dc_inventory.Prelude.{ℕ, Bool, true, false, ◌&&◌, ◌||◌, not, Option, List, [], ◌∷◌, map}
use dc_inventory.Prelude.Tests.{leb, opt_eq, is_some, is_id, if◌then◌else◌}
use dc_inventory.Prelude.Result.{Result, ◌>>◌, raise_if}
use dc_inventory.Core.Idempotency.{Text}
use dc_inventory.Warehouse.Tables.{MovementType, is_reversal, is_correction, is_issue_or_return}
use dc_inventory.Warehouse.Errors.{InventoryError}

pub record MovementLineCreate : Type 0 where
  pub item_id : ℕ
  pub quantity : ℕ

pub record MovementCreate : Type 0 where
  pub movement_type : MovementType
  pub source_location_id : Option ℕ
  pub destination_location_id : Option ℕ
  pub original_movement_id : Option ℕ
  pub client_request_id : Text
  pub lines : List MovementLineCreate

-- The keyword arguments of `_create_movement`, with the identifier that `uuid4` and the time that
-- the database clock give to the movement.
pub record Caller : Type 0 where
  pub actor_user_id : ℕ
  pub actor_display_name : Text
  pub custody_user_id : Option ℕ
  pub movement_id : ℕ
  pub now : ℕ

abbrev pub item_ids : List MovementLineCreate → List ℕ
item_ids = map λ l. l.item_id

-- `sorted(lines, key=lambda line: line.item_id)`: a line goes before the first that is not smaller.
unfoldable pub insert_line : MovementLineCreate → List MovementLineCreate → List MovementLineCreate
insert_line l [] = l ∷ []
insert_line l (k ∷ ks) = if leb l.item_id k.item_id then l ∷ k ∷ ks else k ∷ insert_line l ks

unfoldable pub sort_lines : List MovementLineCreate → List MovementLineCreate
sort_lines [] = []
sort_lines (l ∷ ls) = insert_line l (sort_lines ls)

-- The object whose fingerprint decides whether a retry is the same request.
pub record Canonical : Type 0 where
  pub movement_type : MovementType
  pub source_location_id : Option ℕ
  pub destination_location_id : Option ℕ
  pub original_movement_id : Option ℕ
  pub client_request_id : Text
  pub custody_user_id : Option ℕ
  pub lines : List MovementLineCreate

unfoldable pub canonical : MovementCreate → Option ℕ → Text → Canonical
canonical p custody request_id = record {
  movement_type = p.movement_type;
  source_location_id = p.source_location_id;
  destination_location_id = p.destination_location_id;
  original_movement_id = p.original_movement_id;
  client_request_id = request_id;
  custody_user_id = custody;
  lines = sort_lines p.lines;
}

-- `shape in allowed[movement_type]`: whether the source and the destination are given.
abbrev pub shape_allowed : MovementType → Bool → Bool → Bool
shape_allowed MovementType.receipt source destination = not source && destination
shape_allowed MovementType.return source destination = not source && destination
shape_allowed MovementType.issue source destination = source && not destination
shape_allowed MovementType.write_off source destination = source && not destination
shape_allowed MovementType.transfer source destination = source && destination
shape_allowed MovementType.correction source destination = source || destination
shape_allowed MovementType.reversal source destination = source || destination

abbrev pub bool_ne : Bool → Bool → Bool
bool_ne true b = not b
bool_ne false b = b

unfoldable pub validate_positions : MovementCreate → Result InventoryError (Unit {0})
validate_positions p = do
  raise_if (is_some p.source_location_id && opt_eq p.source_location_id p.destination_location_id)
      InventoryError.same_location
  raise_if
      (not (
        shape_allowed p.movement_type (is_some p.source_location_id)
          (is_some p.destination_location_id)))
      InventoryError.movement_positions_invalid
  raise_if
      (bool_ne (is_correction p.movement_type || is_reversal p.movement_type)
        (is_some p.original_movement_id))
      InventoryError.original_relationship_invalid

-- The first test of `_create_movement`: whose custody a movement may change.
unfoldable pub check_custody_arguments : MovementCreate → Caller → Result InventoryError (Unit {0})
check_custody_arguments p c = do
  raise_if
      (not (is_reversal p.movement_type)
        && is_some c.custody_user_id
        && not (is_issue_or_return p.movement_type))
      InventoryError.custody_movement_type_invalid
  raise_if
      (not (is_reversal p.movement_type)
        && is_some c.custody_user_id
        && not (is_id c.custody_user_id c.actor_user_id))
      InventoryError.custody_actor_mismatch
