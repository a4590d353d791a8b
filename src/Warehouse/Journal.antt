-- ===== src/Warehouse/Journal.antt =====
-- The sums that the projections stand for, as the database function `refresh_warehouse_projection`
-- of backend/migrations/versions/d2e3f4a5b6c7_journal_controlled_projections.py takes them over the
-- whole journal.
pub mod Extend
use dc_inventory.Prelude.{ℕ, Option, none, some, List, [], ◌∷◌}
use dc_inventory.Prelude.Tests.{◌==◌, if◌then◌else◌, is_id}
use dc_inventory.Prelude.Int.{ℤ, pos, ◌+ℤ◌, neg, sub_ℕ}
use dc_inventory.Warehouse.Tables.{Movement, MovementLine, MovementType, find_movement}

-- What one line adds at a location: in at the destination, out at the source.
abbrev pub stock_delta : Movement → ℕ → ℕ → ℤ
stock_delta m location q =
    sub_ℕ (if is_id m.destination_location_id location then q else 0)
      (if is_id m.source_location_id location then q else 0)

-- The sum of `f` over the quantities of the lines of an item.
unfoldable pub sum_lines : (ℕ → ℤ) → ℕ → List MovementLine → ℤ
sum_lines f item [] = pos 0
sum_lines f item (l ∷ ls) =
    (if l.item_id == item then f l.quantity else pos 0) +ℤ sum_lines f item ls

-- `expected_quantity`
unfoldable pub journal_stock : ℕ → ℕ → List Movement → ℤ
journal_stock item location [] = pos 0
journal_stock item location (m ∷ ms) =
    sum_lines (stock_delta m location) item m.lines +ℤ journal_stock item location ms

-- How a movement of a type, with the type of its original, changes the custody of its user.
abbrev pub custody_sign : MovementType → Option Movement → ℕ → ℤ
custody_sign MovementType.issue original q = pos q
custody_sign MovementType.return original q = neg (pos q)
custody_sign MovementType.reversal none q = pos 0
custody_sign MovementType.reversal (some o) q = elim o.movement_type [
  | MovementType.issue ↦ neg (pos q)
  | MovementType.return ↦ pos q
  | _ ↦ pos 0
]
custody_sign _ original q = pos 0

-- `LEFT JOIN movements original ON original.id = m.original_movement_id`
abbrev pub original_of : List Movement → Option ℕ → Option Movement
original_of journal none = none
original_of journal (some k) = find_movement k journal

-- The custody sum over `ms`, whose originals are looked up in the whole journal.
unfoldable pub custody_over : List Movement → ℕ → ℕ → List Movement → ℤ
custody_over journal user item [] = pos 0
custody_over journal user item (m ∷ ms) =
    (if is_id m.custody_user_id user
      then sum_lines (custody_sign m.movement_type (original_of journal m.original_movement_id))
          item m.lines
      else pos 0)
    +ℤ custody_over journal user item ms

-- `expected_custody`
abbrev pub journal_custody : ℕ → ℕ → List Movement → ℤ
journal_custody user item journal = custody_over journal user item journal
