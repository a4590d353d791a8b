-- ===== src/Procurement/Payload.antt =====
-- backend/app/modules/procurement/schemas.py: the payloads of the operations; and what the
-- operations take from outside the modelled code.
use dc_inventory.Prelude.{ℕ, Option, List}
use dc_inventory.Prelude.Result.{Result}
use dc_inventory.Core.Idempotency.{Text}
use dc_inventory.Procurement.Errors.{ProcurementError}
use dc_inventory.Warehouse.Movement.Payload.{Canonical}

-- A proposed item, as the catalog reads it.
pub record ItemCreate : Type 0 where
  pub category_key : Text
  pub manufacturer_id : Option ℕ
  pub name : Text
  pub model : Option Text

pub data LineItem : Type 0 where
  existing : ℕ → LineItem
  proposed : ItemCreate → LineItem

pub record LineCreate : Type 0 where
  pub item : LineItem
  pub quantity : ℕ

pub record ExpectedStateMutation : Type 0 where
  pub expected_state_version : ℕ
  pub expected_revision_id : ℕ
  pub client_request_id : Text

pub record ProcurementRequestCreate : Type 0 where
  pub assigned_manager_user_id : ℕ
  pub general_comment : Option Text
  pub client_request_id : Text
  pub lines : List LineCreate

-- The payloads, whose digests tell one request from another.
pub data Payload : Type 0 where
  request : ProcurementRequestCreate → Payload
  expected_state : ExpectedStateMutation → Payload
  correction : ExpectedStateMutation → Text → Option (List LineCreate) → Payload
  revision : ExpectedStateMutation → Option Text → List LineCreate → Payload
  assignment : ExpectedStateMutation → ℕ → Payload
  transfer : ExpectedStateMutation → ℕ → ℕ → Payload
  binding : ExpectedStateMutation → ℕ → ℕ → Payload
  discrepancy : ExpectedStateMutation → Text → Payload
  acceptance : ExpectedStateMutation → ℕ → Payload

-- SHA-256 digests of payloads and of notification keys, the text of a UUID, and the validation of a
-- proposed item by the catalog, which gives its identity signature.
pub record Platform : Type 0 where
  pub payload_fingerprint : Payload → ℕ
  pub canonical_fingerprint : Canonical → ℕ
  pub notification_dedupe_key : ℕ → ℕ → ℕ
  pub uuid_text : ℕ → Text
  pub validate_item : ItemCreate → Result ProcurementError ℕ

-- Who calls, and what `uuid4`, the clock and `_actor_snapshot` give to the call.
pub record Actor : Type 0 where
  pub user_id : ℕ
  pub display_name : Text
  pub now : ℕ
  pub event_id : ℕ
  pub new_id : ℕ
  pub line_id : ℕ → ℕ
