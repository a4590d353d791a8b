-- ===== src/Warehouse/Errors.antt =====
-- The errors that backend/app/modules/inventory/service.py raises, and those that the database
-- raises under it.
use dc_inventory.Prelude.{ℕ, ◌≤◌, ◌≡◌, ap, [], ◌∷◌, arith}
use dc_inventory.Prelude.Tests.{ltb}
use dc_inventory.Prelude.Lists.{length}
use dc_inventory.Prelude.Result.{Result, ok, err, ◌>>◌, raise_if}
use dc_inventory.Core.Idempotency.{Text, normalize_idempotency_key}
use dc_inventory.Warehouse.Projection.{ProjectionError}

pub data Field : Type 0 where
  code name client_request_id actor : Field

pub data InventoryError : Type 0 where
  required too_long : Field → InventoryError
  reversal_endpoint : InventoryError
  custody_movement_type_invalid custody_actor_mismatch : InventoryError
  idempotency_payload_conflict : InventoryError
  custody_user_not_found custody_user_not_approved : InventoryError
  same_location movement_positions_invalid original_relationship_invalid : InventoryError
  procurement_movement_protected movement_not_found adjustment_target_invalid : InventoryError
  custody_correction_forbidden reversal_custody_mismatch movement_already_reversed : InventoryError
  location_not_found location_archived location_not_empty normalized_code_too_long : InventoryError
  item_repeated item_not_found item_archived correction_out_of_scope : InventoryError
  quantity_not_positive insufficient_stock quantity_overflow insufficient_custody : InventoryError
  -- raised by the database
  duplicate_key : InventoryError
  check_violation : InventoryError
  projection : ProjectionError → InventoryError

pub data ErrorKind : Type 0 where
  validation not_found conflict integrity : ErrorKind

-- The class of each error.
abbrev pub kind : InventoryError → ErrorKind
kind (InventoryError.required f) = ErrorKind.validation
kind (InventoryError.too_long f) = ErrorKind.validation
kind InventoryError.reversal_endpoint = ErrorKind.validation
kind InventoryError.custody_movement_type_invalid = ErrorKind.validation
kind InventoryError.custody_actor_mismatch = ErrorKind.validation
kind InventoryError.same_location = ErrorKind.validation
kind InventoryError.movement_positions_invalid = ErrorKind.validation
kind InventoryError.original_relationship_invalid = ErrorKind.validation
kind InventoryError.adjustment_target_invalid = ErrorKind.validation
kind InventoryError.custody_correction_forbidden = ErrorKind.validation
kind InventoryError.reversal_custody_mismatch = ErrorKind.validation
kind InventoryError.normalized_code_too_long = ErrorKind.validation
kind InventoryError.item_repeated = ErrorKind.validation
kind InventoryError.correction_out_of_scope = ErrorKind.validation
kind InventoryError.quantity_not_positive = ErrorKind.validation
kind InventoryError.custody_user_not_found = ErrorKind.not_found
kind InventoryError.movement_not_found = ErrorKind.not_found
kind InventoryError.location_not_found = ErrorKind.not_found
kind InventoryError.item_not_found = ErrorKind.not_found
kind InventoryError.duplicate_key = ErrorKind.integrity
kind InventoryError.check_violation = ErrorKind.integrity
kind (InventoryError.projection e) = ErrorKind.integrity
kind _ = ErrorKind.conflict

check_text : Field → ℕ → Text → Result InventoryError Text
check_text field max_length [] = err (InventoryError.required field)
check_text field max_length (c ∷ cs) = do
  raise_if (ltb max_length (length (c ∷ cs))) (InventoryError.too_long field)
  ok (c ∷ cs)

unfoldable pub normalize_inline_text : Text → Field → ℕ → Result InventoryError Text
unfolding check_text
normalize_inline_text value field max_length =
    check_text field max_length (normalize_idempotency_key value)

-- A text that passes is its normal form.
pub normalize_inline_text_ok :
    (value : Text) (field : Field) (max_length : ℕ) {t : Text}
    → normalize_inline_text value field max_length ≡ ok t
    → normalize_idempotency_key value ≡ t
unfolding normalize_inline_text
normalize_inline_text_ok value field max_length h = checked (normalize_idempotency_key value) h
  where
    checked : (s : Text) {t : Text} → check_text field max_length s ≡ ok t → s ≡ t
    checked [] h = cc
    checked (c ∷ cs) h = ground arith

-- Only the normal form of a text counts.
pub normalize_inline_text_same :
    (a b : Text) (field : Field) (max_length : ℕ)
    → normalize_idempotency_key a ≡ normalize_idempotency_key b
    → normalize_inline_text a field max_length ≡ normalize_inline_text b field max_length
unfolding normalize_inline_text
normalize_inline_text_same a b field max_length h = ap (check_text field max_length) h

-- A text that passes is neither empty nor too long.
pub normalize_inline_text_bounds :
    (value : Text) (field : Field) (max_length : ℕ) {t : Text}
    → normalize_inline_text value field max_length ≡ ok t
    → (1 ≤ length t) × (length t ≤ max_length)
unfolding normalize_inline_text
normalize_inline_text_bounds value field max_length h = checked (normalize_idempotency_key value) h
  where
    checked :
        (s : Text) {t : Text}
        → check_text field max_length s ≡ ok t
        → (1 ≤ length t) × (length t ≤ max_length)
    checked [] h = cc
    checked (c ∷ cs) h = (ground arith, ground arith)
