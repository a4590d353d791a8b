-- ===== src/Warehouse/Tables.antt =====
-- backend/app/modules/inventory/enums.py, models.py and the rows of catalog/models.py that the
-- warehouse reads. Identifiers and times are numbers, texts are lists of code points.
use dc_inventory.Prelude.{ℕ, Bool, true, false, Option, List}
use dc_inventory.Prelude.Tests.{◌==◌}
use dc_inventory.Prelude.Lists.{find}
use dc_inventory.Prelude.Table.{Row}
use dc_inventory.Core.Idempotency.{Text}

pub data LocationStatus : Type 0 where
  active archived : LocationStatus

pub data LocationType : Type 0 where
  warehouse datacenter : LocationType

pub data MovementType : Type 0 where
  receipt issue return transfer write_off correction reversal : MovementType

pub data ItemStatus : Type 0 where
  active archived : ItemStatus

pub record Location : Type 0 where
  pub id : ℕ
  pub code : Text
  pub normalized_code : Text
  pub name : Text
  pub address : Option Text
  pub location_type : LocationType
  pub status : LocationStatus
  pub archived_at : Option ℕ

pub record Item : Type 0 where
  pub id : ℕ
  pub name : Text
  pub model : Option Text
  pub manufacturer_id : Option ℕ
  pub status : ItemStatus
  pub identity_signature : ℕ

pub record Manufacturer : Type 0 where
  pub id : ℕ
  pub name : Text

pub record MovementLine : Type 0 where
  pub line_no : ℕ
  pub item_id : ℕ
  pub quantity : ℕ
  pub item_name_snapshot : Text
  pub model_snapshot : Option Text
  pub manufacturer_name_snapshot : Option Text

-- A movement with its lines, `Movement.lines`.
pub record Movement : Type 0 where
  pub id : ℕ
  pub movement_type : MovementType
  pub line_count : ℕ
  pub actor_user_id : ℕ
  pub custody_user_id : Option ℕ
  pub actor_display_name_snapshot : Text
  pub source_location_id : Option ℕ
  pub destination_location_id : Option ℕ
  pub source_location_code_snapshot : Option Text
  pub source_location_name_snapshot : Option Text
  pub destination_location_code_snapshot : Option Text
  pub destination_location_name_snapshot : Option Text
  pub original_movement_id : Option ℕ
  pub client_request_id : Text
  pub request_fingerprint : ℕ
  pub occurred_at : ℕ
  pub lines : List MovementLine

-- The movements are listed newest first. The rows of `stock` are keyed by item and location, those
-- of `custody` by user and item.
pub record WarehouseTables : Type 0 where
  pub locations : List Location
  pub items : List Item
  pub manufacturers : List Manufacturer
  pub movements : List Movement
  pub stock : List Row
  pub custody : List Row

-- `2**53 - 1`
abbrev pub max_quantity : ℕ
max_quantity = 9007199254740991

abbrev pub find_location : ℕ → List Location → Option Location
find_location k = find λ l. l.id == k

abbrev pub find_item : ℕ → List Item → Option Item
find_item k = find λ i. i.id == k

abbrev pub find_movement : ℕ → List Movement → Option Movement
find_movement k = find λ m. m.id == k

abbrev pub is_reversal : MovementType → Bool
is_reversal MovementType.reversal = true
is_reversal _ = false

abbrev pub is_correction : MovementType → Bool
is_correction MovementType.correction = true
is_correction _ = false

-- `movement_type in {ISSUE, RETURN}`
abbrev pub is_issue_or_return : MovementType → Bool
is_issue_or_return MovementType.issue = true
is_issue_or_return MovementType.return = true
is_issue_or_return _ = false

-- `movement_type in {RECEIPT, ISSUE}`
abbrev pub is_receipt_or_issue : MovementType → Bool
is_receipt_or_issue MovementType.receipt = true
is_receipt_or_issue MovementType.issue = true
is_receipt_or_issue _ = false

abbrev pub is_active_location : LocationStatus → Bool
is_active_location LocationStatus.active = true
is_active_location LocationStatus.archived = false

abbrev pub is_active_item : ItemStatus → Bool
is_active_item ItemStatus.active = true
is_active_item ItemStatus.archived = false
