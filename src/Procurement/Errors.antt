-- ===== src/Procurement/Errors.antt =====
-- The errors of backend/app/modules/procurement/service.py.
use dc_inventory.Warehouse.Errors.{InventoryError}

pub data ProcurementError : Type 0 where
  client_request_id_required client_request_id_too_long comment_required : ProcurementError
  manager_not_found manager_not_active forbidden : ProcurementError
  request_not_found revision_not_loaded : ProcurementError
  idempotency_action_conflict idempotency_payload_conflict stale_state : ProcurementError
  invalid_transition completed_request stale_assignment assignment_unchanged : ProcurementError
  catalog_item_not_found catalog_item_archived item_identity_mismatch : ProcurementError
  line_not_found line_not_proposed line_already_bound unbound_procurement_line : ProcurementError
  aggregated_item_quantity_too_large receipt_already_exists : ProcurementError
  -- raised by the validation of a proposed item in catalog/service.py
  item_invalid : ProcurementError
  -- raised by the database
  duplicate_key : ProcurementError
  -- raised by inventory/service.py
  inventory : InventoryError → ProcurementError
