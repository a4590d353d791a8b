-- ===== src/Warehouse/Projection.antt =====
-- The database function `refresh_warehouse_projection` of
-- backend/migrations/versions/d2e3f4a5b6c7_journal_controlled_projections.py: it writes the rows that
-- a movement line touches from the journal's sums.
pub mod Exact
use dc_inventory.Prelude.{ℕ, Bool, true, false, ◌&&◌, ◌||◌, not, Option, none, some, List, [], ◌∷◌}
use dc_inventory.Prelude.Tests.{◌==◌, if◌then◌else◌, opt_eq}
use dc_inventory.Prelude.Lists.{any}
use dc_inventory.Prelude.Int.{ℤ, pos_part, is_negative, exceeds}
use dc_inventory.Prelude.Result.{Result, ok, err, ◌>>=◌, ◌>>◌, raise_if, or_raise}
use dc_inventory.Prelude.Table.{Row, upsert, delete}
use dc_inventory.Warehouse.Tables.{
  Movement, MovementLine, WarehouseTables, max_quantity, find_movement,
}
use dc_inventory.Warehouse.Journal.{journal_stock, journal_custody}
use dc_inventory.Warehouse.Journal.Extend.{has_line}

-- The errors that the function raises.
pub data ProjectionError : Type 0 where
  movement_missing line_missing stock_out_of_range custody_out_of_range : ProjectionError

-- Write one row: a sum of zero has no row.
unfoldable pub store_sum :
    ProjectionError → ℕ → ℕ → ℤ → List Row → Result ProjectionError (List Row)
store_sum error a b expected rows = do
  raise_if (is_negative expected || exceeds expected max_quantity) error
  ok (if pos_part expected == 0 then delete a b rows else upsert a b (pos_part expected) rows)

-- The row of an item at a location, where the movement names one.
unfoldable pub refresh_at :
    List Movement → ℕ → Option ℕ → List Row → Result ProjectionError (List Row)
refresh_at journal item none rows = ok rows
refresh_at journal item (some location) rows =
    store_sum ProjectionError.stock_out_of_range item location (journal_stock item location journal)
      rows

-- The row of a user and an item, where the movement names a user.
unfoldable pub refresh_custody :
    List Movement → ℕ → Option ℕ → List Row → Result ProjectionError (List Row)
refresh_custody journal item none rows = ok rows
refresh_custody journal item (some user) rows =
    store_sum ProjectionError.custody_out_of_range user item (journal_custody user item journal)
      rows

-- `destination_location_id IS DISTINCT FROM source_location_id`
abbrev pub distinct_destination : Movement → Option ℕ
distinct_destination m =
    if opt_eq m.destination_location_id m.source_location_id
    then none
    else m.destination_location_id

unfoldable pub refresh_warehouse_projection :
    ℕ → ℕ → WarehouseTables → Result ProjectionError WarehouseTables
refresh_warehouse_projection movement_id item w = do
  header ← or_raise (find_movement movement_id w.movements) ProjectionError.movement_missing
  raise_if (not (has_line item header.lines)) ProjectionError.line_missing
  stock ← refresh_at w.movements item header.source_location_id w.stock
  stock' ← refresh_at w.movements item (distinct_destination header) stock
  custody ← refresh_custody w.movements item header.custody_user_id w.custody
  ok (record w { stock = stock'; custody = custody })

-- The calls of `_create_movement`, one for each line.
unfoldable pub refresh_lines :
    ℕ → List MovementLine → WarehouseTables → Result ProjectionError WarehouseTables
refresh_lines movement_id [] w = ok w
refresh_lines movement_id (l ∷ ls) w = do
  w' ← refresh_warehouse_projection movement_id l.item_id w
  refresh_lines movement_id ls w'
