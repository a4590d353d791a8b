-- ===== src/Tests/Movements.antt =====
-- Runs of the movement operations: five cables come in, an engineer takes two, and gives them back
-- by a reversal.
use dc_inventory.Prelude.{◌≡◌, refl, none, some, [], ◌∷◌, true, false}
use dc_inventory.Prelude.Result.{Result, ok}
use dc_inventory.Warehouse.Tables.{WarehouseTables}
use dc_inventory.Warehouse.Errors.{InventoryError}
use dc_inventory.Warehouse.Location.{set_location_archived, has_stock, put_location}
use dc_inventory.Core.Idempotency.{Text}
use dc_inventory.Database.{Database}
use dc_inventory.Prelude.Int.{◌+ℤ◌, neg}
use dc_inventory.Prelude.Table.{lookup, upsert, delete}
use dc_inventory.Core.Idempotency.{text_eq, is_space, split, join, normalize_idempotency_key}
use dc_inventory.Identity.Policy.{capabilities_for_role, has_capability}
use dc_inventory.Warehouse.Errors.{normalize_inline_text}
use dc_inventory.Warehouse.Journal.{sum_lines, journal_stock, custody_over}
use dc_inventory.Warehouse.Projection.{
  store_sum, refresh_at, refresh_custody, refresh_warehouse_projection, refresh_lines,
}
use dc_inventory.Warehouse.Movement.Payload.{
  insert_line, sort_lines, canonical, validate_positions, check_custody_arguments,
}
use dc_inventory.Warehouse.Movement.Guards.{
  existing_idempotent_result, lock_custody_user, custody_delta, check_original, check_locations,
  check_items, check_correction,
}
use dc_inventory.Warehouse.Movement.Lines.{
  times, check_balance, check_stock, check_custody, movement_line, check_line, check_lines,
}
use dc_inventory.Warehouse.Movement.Insert.{
  validate_movement_custody, validate_warehouse_correction_header,
  validate_warehouse_correction_line, insert_movement,
}
use dc_inventory.Warehouse.Movement.Create.{
  make_movement, record_movement, create_movement', create_movement, reverse_movement,
}
use dc_inventory.Tests.Data.{
  empty_tables, digest, receipt_of_five, issue_of_two, caller, is_ok, given, succeeded, nothing,
}
use dc_inventory.Warehouse.Movement.Create.{Outcome}

abbrev pub receiving : Outcome
receiving = create_movement' digest empty_tables receipt_of_five (caller 1 none 100)

abbrev pub stocked : Database
stocked = (given nothing receiving).1

abbrev pub issuing : Outcome
issuing = create_movement' digest stocked issue_of_two (caller 3 (some 3) 101)

abbrev pub issued : Database
issued = (given nothing issuing).1

abbrev pub back_key : Text
back_key = 98 ∷ []

abbrev pub reversing : Outcome
reversing = reverse_movement digest issued 101 back_key (caller 1 none 102)

abbrev pub reversed : Database
reversed = (given nothing reversing).1

pub movements_run :
    (is_ok receiving ≡ true)
    × (is_ok issuing ≡ true)
    × (is_ok reversing ≡ true)
    × ((given nothing issuing).0.replayed ≡ false)
    × ((given nothing reversing).0.replayed ≡ false)
    × (lookup 10 1 stocked.warehouse.stock ≡ some 5)
    × (lookup 10 1 issued.warehouse.stock ≡ some 3)
    × (lookup 3 10 issued.warehouse.custody ≡ some 2)
    × (lookup 10 1 reversed.warehouse.stock ≡ some 5)
    × (lookup 3 10 reversed.warehouse.custody ≡ none)
unfolding ◌+ℤ◌ neg lookup upsert delete text_eq is_space split join normalize_idempotency_key
    capabilities_for_role has_capability normalize_inline_text sum_lines journal_stock custody_over
    store_sum refresh_at refresh_custody refresh_warehouse_projection refresh_lines insert_line
    sort_lines canonical validate_positions check_custody_arguments existing_idempotent_result
    lock_custody_user custody_delta check_original check_locations check_items check_correction
    times check_balance check_stock check_custody movement_line check_line check_lines
    validate_movement_custody validate_warehouse_correction_header
    validate_warehouse_correction_line insert_movement make_movement record_movement
    create_movement' create_movement reverse_movement
movements_run = (refl, refl, refl, refl, refl, refl, refl, refl, refl, refl)

pub received_ok : receiving ≡ ok (given nothing receiving)
received_ok = succeeded nothing receiving movements_run.0

pub issued_ok : issuing ≡ ok (given nothing issuing)
issued_ok = succeeded nothing issuing movements_run.1

pub reversed_ok : reversing ≡ ok (given nothing reversing)
reversed_ok = succeeded nothing reversing movements_run.2

abbrev pub archiving : Result InventoryError WarehouseTables
archiving = set_location_archived 1 true 2000 empty_tables.warehouse

abbrev pub archived : WarehouseTables
archived = given empty_tables.warehouse archiving

archive_run :
    (is_ok archiving ≡ true) × (is_ok (set_location_archived 1 true 2000 stocked.warehouse) ≡ false)
unfolding set_location_archived has_stock put_location ◌+ℤ◌ neg lookup upsert delete text_eq
    is_space split join normalize_idempotency_key capabilities_for_role has_capability
    normalize_inline_text sum_lines journal_stock custody_over store_sum refresh_at refresh_custody
    refresh_warehouse_projection refresh_lines insert_line sort_lines canonical validate_positions
    check_custody_arguments existing_idempotent_result lock_custody_user custody_delta
    check_original check_locations check_items check_correction times check_balance check_stock
    check_custody movement_line check_line check_lines validate_movement_custody
    validate_warehouse_correction_header validate_warehouse_correction_line insert_movement
    make_movement record_movement create_movement' create_movement reverse_movement
archive_run = (refl, refl)

pub archived_ok : archiving ≡ ok (given empty_tables.warehouse archiving)
archived_ok = succeeded empty_tables.warehouse archiving archive_run.0
