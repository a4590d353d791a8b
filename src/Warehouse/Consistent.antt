-- ===== src/Warehouse/Consistent.antt =====
-- The invariant of the warehouse tables: both projections show the journal's sums.
pub mod Insert
use dc_inventory.Prelude.{ℕ, ◌≡◌, refl, sym, ap, ◌∙◌, Option, none, some, List, [], ◌∷◌, arith}
use dc_inventory.Prelude.Table.{lookup}
use dc_inventory.Warehouse.Tables.{WarehouseTables}
use dc_inventory.Warehouse.Journal.{journal_stock, journal_custody}
use dc_inventory.Warehouse.Journal.Extend.{Closed}
use dc_inventory.Warehouse.Projection.Exact.{Shows}

-- Every original is in the journal, each stock row is the net quantity that the journal brought to
-- its location, each custody row the net quantity issued to its user, and rows are positive and at
-- most 2 ^ 53 - 1; a sum without a row is zero.
pub record IsConsistent (w : WarehouseTables) : Type 0 where
  pub closed : Closed w.movements w.movements
  pub stock : (i l : ℕ) → Shows (lookup i l w.stock) (journal_stock i l w.movements)
  pub custody : (u i : ℕ) → Shows (lookup u i w.custody) (journal_custody u i w.movements)
