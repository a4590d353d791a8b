-- ===== src/Warehouse/Movement/Insert.antt =====
-- The insertion of a movement and of its lines, with what the database tests there: the primary key
-- and the unique indexes of inventory/models.py, and the triggers `validate_movement_custody`
-- (backend/migrations/versions/a1b2c3d4e5f6_add_rbac_foundation.py) and
-- `validate_warehouse_correction_header`, `validate_warehouse_correction_line`
-- (backend/migrations/versions/b3c4d5e6f7a8_warehouse_domain_v2.py).
use dc_inventory.Prelude.{ℕ, Bool, true, false, ◌&&◌, ◌||◌, not, Option, none, some, List, ◌∷◌}
use dc_inventory.Prelude.Tests.{◌==◌, if◌then◌else◌, opt_eq, is_id, is_some}
use dc_inventory.Prelude.Lists.{any, all}
use dc_inventory.Prelude.Result.{Result, ok, err, ◌>>◌, raise_if}
use dc_inventory.Identity.Policy.{UserRole, is_custody_role}
use dc_inventory.Identity.Tables.{User, find_user}
use dc_inventory.Warehouse.Tables.{
  Movement, MovementLine, WarehouseTables, find_movement, is_reversal, is_correction,
  is_issue_or_return,
}
use dc_inventory.Warehouse.Errors.{InventoryError}
use dc_inventory.Warehouse.Projection.{ProjectionError, refresh_lines}
use dc_inventory.Warehouse.Movement.Guards.{same_key}

-- `actor_role IN ('ADMIN', 'OWNER')`
abbrev pub is_administrative_role : UserRole → Bool
is_administrative_role UserRole.admin = true
is_administrative_role UserRole.owner = true
is_administrative_role _ = false

-- Whether the role of the actor allows the custody of an issue or a return.
abbrev pub actor_custody_valid : Option User → Movement → Bool
actor_custody_valid none m = true
actor_custody_valid (some actor) m =
    not (is_custody_role actor.role && not (is_id m.custody_user_id m.actor_user_id))
    && not (is_administrative_role actor.role && is_some m.custody_user_id)

abbrev pub correction_custody_valid : Option Movement → Bool
correction_custody_valid none = true
correction_custody_valid (some o) = not (is_some o.custody_user_id)

abbrev pub reversal_custody_valid : Option Movement → Movement → Bool
reversal_custody_valid none m = false
reversal_custody_valid (some o) m =
    opt_eq m.custody_user_id o.custody_user_id
    && not (is_some m.custody_user_id && not (is_issue_or_return o.movement_type))

abbrev pub original_row : List Movement → Option ℕ → Option Movement
original_row movements none = none
original_row movements (some k) = find_movement k movements

-- The trigger on the header: whether it lets the row through.
unfoldable pub validate_movement_custody : List User → List Movement → Movement → Bool
validate_movement_custody users movements m =
    not (
      is_some m.custody_user_id
      && not (is_issue_or_return m.movement_type || is_reversal m.movement_type))
    && (not (is_issue_or_return m.movement_type)
        || actor_custody_valid (find_user m.actor_user_id users) m)
    && (not (is_correction m.movement_type)
        || correction_custody_valid (original_row movements m.original_movement_id))
    && (not (is_reversal m.movement_type)
        || reversal_custody_valid (original_row movements m.original_movement_id) m)

-- `x IN (original.source_location_id, original.destination_location_id)`, false for NULL.
abbrev pub among_locations : Option ℕ → Movement → Bool
among_locations none o = false
among_locations (some k) o = is_id o.source_location_id k || is_id o.destination_location_id k

abbrev pub header_fits : Option Movement → Movement → Bool
header_fits none m = false
header_fits (some o) m =
    not (is_reversal o.movement_type)
    && (if is_reversal m.movement_type
        then m.line_count == o.line_count
          && opt_eq m.source_location_id o.destination_location_id
          && opt_eq m.destination_location_id o.source_location_id
        else among_locations m.source_location_id o || among_locations m.destination_location_id o)

unfoldable pub validate_warehouse_correction_header : List Movement → Movement → Bool
validate_warehouse_correction_header movements m =
    not (is_correction m.movement_type || is_reversal m.movement_type)
    || header_fits (original_row movements m.original_movement_id) m

abbrev pub line_fits : Option Movement → Movement → MovementLine → Bool
line_fits none m l = false
line_fits (some o) m l =
    any (λ k. k.item_id == l.item_id && (is_correction m.movement_type || k.quantity == l.quantity))
      o.lines

unfoldable pub validate_warehouse_correction_line : List Movement → Movement → MovementLine → Bool
validate_warehouse_correction_line movements m l =
    not (is_correction m.movement_type || is_reversal m.movement_type)
    || line_fits (original_row movements m.original_movement_id) m l

-- The primary key, the key of the request, and one reversal for an original.
abbrev pub duplicates : List Movement → Movement → Bool
duplicates movements m =
    is_some (find_movement m.id movements)
    || any (same_key m.actor_user_id m.client_request_id) movements
    || (is_reversal m.movement_type
        && any
            (λ x.
              is_reversal x.movement_type
              && is_some x.original_movement_id
              && opt_eq x.original_movement_id m.original_movement_id)
            movements)

abbrev pub of_projection :
    Result ProjectionError WarehouseTables → Result InventoryError WarehouseTables
of_projection (ok w) = ok w
of_projection (err e) = err (InventoryError.projection e)

-- The movement joins the journal, and its lines refresh the projections.
unfoldable pub insert_movement :
    List User → Movement → WarehouseTables → Result InventoryError WarehouseTables
insert_movement users m w = do
  raise_if
      (not (
        validate_movement_custody users w.movements m
        && validate_warehouse_correction_header w.movements m))
      InventoryError.check_violation
  raise_if (duplicates w.movements m) InventoryError.duplicate_key
  raise_if (not (all (validate_warehouse_correction_line w.movements m) m.lines))
      InventoryError.check_violation
  of_projection (refresh_lines m.id m.lines (record w { movements = m ∷ w.movements }))
