-- ===== src/Procurement/Lines.antt =====
-- procurement/service.py: the lines of a revision.
use dc_inventory.Prelude.{ℕ, suc, ◌+◌, not, Option, none, some, List, [], ◌∷◌}
use dc_inventory.Prelude.Tests.{ltb, ◌==◌, if◌then◌else◌}
use dc_inventory.Prelude.Result.{Result, ok, ◌>>=◌, ◌>>◌, raise_if, or_raise}
use dc_inventory.Warehouse.Tables.{Item, find_item, is_active_item, max_quantity}
use dc_inventory.Warehouse.Movement.Payload.{MovementLineCreate}
use dc_inventory.Procurement.Tables.{ProcurementRevisionLine, ProcurementLineType}
use dc_inventory.Procurement.Errors.{ProcurementError}
use dc_inventory.Procurement.Payload.{LineItem, LineCreate, Platform, Actor}

-- `_bound_item_id`
abbrev pub bound_item_id : ProcurementRevisionLine → Option ℕ
bound_item_id l = elim l.catalog_item_id [ some k ↦ some k | none ↦ l.binding ]

-- `quantities[item_id] += quantity`: the sums in the order in which their items come up, and the
-- new sum.
abbrev pub added_quantity : ℕ → ℕ → List MovementLineCreate → ℕ
added_quantity item q [] = q
added_quantity item q (l ∷ ls) =
    if l.item_id == item then l.quantity + q else added_quantity item q ls

unfoldable pub add_quantity : ℕ → ℕ → List MovementLineCreate → List MovementLineCreate
add_quantity item q [] = record { item_id = item; quantity = q } ∷ []
add_quantity item q (l ∷ ls) =
    if l.item_id == item
    then record l { quantity = l.quantity + q } ∷ ls
    else l ∷ add_quantity item q ls

-- The pending binding of a line, as identifiers of the line and of the item.
abbrev pub Pending : Type 0
Pending = Option (ℕ × ℕ)

abbrev pub effective_item : Pending → ProcurementRevisionLine → Option ℕ
effective_item none l = bound_item_id l
effective_item (some (line, item)) l = if l.id == line then some item else bound_item_id l

unfoldable pub aggregate :
    Pending
    → List ProcurementRevisionLine
    → List MovementLineCreate
    → Result ProcurementError (List MovementLineCreate)
aggregate pending [] quantities = ok quantities
aggregate pending (l ∷ ls) quantities = elim (effective_item pending l) [
  | none ↦ aggregate pending ls quantities
  | some item ↦
      raise_if (ltb max_quantity (added_quantity item l.quantity quantities))
        ProcurementError.aggregated_item_quantity_too_large
      >> aggregate pending ls (add_quantity item l.quantity quantities)
]

unfoldable pub validate_aggregated_item_quantities :
    List ProcurementRevisionLine → Pending → Result ProcurementError (List MovementLineCreate)
validate_aggregated_item_quantities lines pending = aggregate pending lines []

-- One line of `_prepare_lines`.
unfoldable pub prepare_line :
    Platform → Actor → List Item → ℕ → LineCreate → Result ProcurementError ProcurementRevisionLine
prepare_line x actor items line_no l = elim l.item [
  | LineItem.existing k ↦ (do
    item ← or_raise (find_item k items) ProcurementError.catalog_item_not_found
    raise_if (not (is_active_item item.status)) ProcurementError.catalog_item_archived
    ok (record {
      id = actor.line_id line_no;
      line_no = line_no;
      line_type = ProcurementLineType.existing_item;
      catalog_item_id = some item.id;
      expected_identity_signature = item.identity_signature;
      quantity = l.quantity;
      binding = none;
    }))
  | LineItem.proposed p ↦ (do
    signature ← x.validate_item p
    ok (record {
      id = actor.line_id line_no;
      line_no = line_no;
      line_type = ProcurementLineType.proposed_item;
      catalog_item_id = none;
      expected_identity_signature = signature;
      quantity = l.quantity;
      binding = none;
    }))
]

unfoldable pub prepare_rows :
    Platform
    → Actor
    → List Item
    → ℕ
    → List LineCreate
    → Result ProcurementError (List ProcurementRevisionLine)
prepare_rows x actor items line_no [] = ok []
prepare_rows x actor items line_no (l ∷ ls) = do
  row ← prepare_line x actor items line_no l
  rows ← prepare_rows x actor items (suc line_no) ls
  ok (row ∷ rows)

unfoldable pub prepare_lines :
    Platform
    → Actor
    → List Item
    → List LineCreate
    → Result ProcurementError (List ProcurementRevisionLine)
prepare_lines x actor items lines = do
  rows ← prepare_rows x actor items 1 lines
  quantities ← validate_aggregated_item_quantities rows none
  ok rows
