-- ===== src/Warehouse/Movement/Lines.antt =====
-- inventory/service.py: the loop of `_create_movement` over the sorted lines. It tests each line
-- against the projections as they were before the movement, and builds its journal line.
pub mod Passed
use dc_inventory.Prelude.{ℕ, suc, ◌+◌, ◌*◌, Bool, Option, none, some, List, [], ◌∷◌}
use dc_inventory.Prelude.Tests.{◌==◌, if◌then◌else◌}
use dc_inventory.Prelude.Lists.{find}
use dc_inventory.Prelude.Int.{ℤ, pos, pos_part, neg_part, sub_ℕ, ◌+ℤ◌, neg, is_negative, exceeds}
use dc_inventory.Prelude.Result.{Result, ok, ◌>>=◌, ◌>>◌, raise_if, or_raise}
use dc_inventory.Prelude.Table.{Row, lookup}
use dc_inventory.Core.Idempotency.{Text}
use dc_inventory.Warehouse.Tables.{
  Movement, MovementLine, MovementType, Item, Manufacturer, WarehouseTables, max_quantity,
  find_item,
}
use dc_inventory.Warehouse.Errors.{InventoryError}
use dc_inventory.Warehouse.Movement.Payload.{MovementLineCreate}
use dc_inventory.Warehouse.Movement.Guards.{custody_delta}

-- `balance.quantity if balance else 0`
abbrev pub quantity_or_zero : Option ℕ → ℕ
quantity_or_zero none = 0
quantity_or_zero (some q) = q

-- `_custody_delta(…) * line.quantity`
unfoldable pub times : ℤ → ℕ → ℤ
times sign q = sub_ℕ (pos_part sign * q) (neg_part sign * q)

-- A balance that a delta would leave out of range is refused.
unfoldable pub check_balance : InventoryError → Option ℕ → ℤ → Result InventoryError (Unit {0})
check_balance short balance delta = do
  raise_if (is_negative (pos (quantity_or_zero balance) +ℤ delta)) short
  raise_if (exceeds (pos (quantity_or_zero balance) +ℤ delta) max_quantity)
      InventoryError.quantity_overflow

unfoldable pub check_stock : List Row → ℕ → Option ℕ → ℤ → Result InventoryError (Unit {0})
check_stock stock item none delta = ok tt
check_stock stock item (some location) delta =
    check_balance InventoryError.insufficient_stock (lookup item location stock) delta

abbrev pub is_zero : ℤ → Bool
is_zero a = pos_part a + neg_part a == 0

unfoldable pub check_custody : List Row → ℕ → Option ℕ → ℤ → Result InventoryError (Unit {0})
check_custody custody item none delta = ok tt
check_custody custody item (some user) delta =
    if is_zero delta
    then ok tt
    else check_balance InventoryError.insufficient_custody (lookup user item custody) delta

abbrev pub manufacturer_name : List Manufacturer → Option ℕ → Option Text
manufacturer_name manufacturers none = none
manufacturer_name manufacturers (some k) = elim (find (λ m. m.id == k) manufacturers) [
  | none ↦ none
  | some m ↦ some m.name
]

unfoldable pub movement_line :
    List Item → List Manufacturer → ℕ → MovementLineCreate → Result InventoryError MovementLine
movement_line items manufacturers number l = do
  item ← or_raise (find_item l.item_id items) InventoryError.item_not_found
  ok (record {
    line_no = number;
    item_id = l.item_id;
    quantity = l.quantity;
    item_name_snapshot = item.name;
    model_snapshot = item.model;
    manufacturer_name_snapshot = manufacturer_name manufacturers item.manufacturer_id;
  })

-- What the lines of one call have in common.
pub record LineContext : Type 0 where
  pub movement_type : MovementType
  pub original : Option Movement
  pub source : Option ℕ
  pub destination : Option ℕ
  pub custody_user_id : Option ℕ

-- The body of the loop.
unfoldable pub check_line :
    WarehouseTables → LineContext → ℕ → MovementLineCreate → Result InventoryError MovementLine
check_line w c number l = do
  raise_if (l.quantity == 0) InventoryError.quantity_not_positive
  check_stock w.stock l.item_id c.source (neg (pos l.quantity))
  check_stock w.stock l.item_id c.destination (pos l.quantity)
  check_custody w.custody l.item_id c.custody_user_id
      (times (custody_delta c.movement_type c.original) l.quantity)
  movement_line w.items w.manufacturers number l

-- The loop, `enumerate(…, 1)`.
unfoldable pub check_lines :
    WarehouseTables
    → LineContext
    → ℕ
    → List MovementLineCreate
    → Result InventoryError (List MovementLine)
check_lines w c number [] = ok []
check_lines w c number (l ∷ ls) = do
  line ← check_line w c number l
  lines ← check_lines w c (suc number) ls
  ok (line ∷ lines)
