-- ===== src/Procurement/Tables.antt =====
-- backend/app/modules/procurement/enums.py and models.py: the rows of the procurement tables.
use dc_inventory.Prelude.{ℕ, Option, List}
use dc_inventory.Prelude.Tests.{◌==◌}
use dc_inventory.Prelude.Lists.{find}
use dc_inventory.Core.Idempotency.{Text}

pub data ProcurementStatus : Type 0 where
  agreement_pending_manager agreement_revision_required purchasing : ProcurementStatus
  awaiting_acceptance completed : ProcurementStatus

pub data ProcurementLineType : Type 0 where
  existing_item proposed_item : ProcurementLineType

pub data ProcurementEventType : Type 0 where
  request_created revision_submitted manager_accepted correction_requested : ProcurementEventType
  assignment_taken assignment_transferred transferred_to_acceptance : ProcurementEventType
  line_bound discrepancy_reported completed : ProcurementEventType

-- A line of a revision with the item of its catalog binding, `line.binding`.
pub record ProcurementRevisionLine : Type 0 where
  pub id : ℕ
  pub line_no : ℕ
  pub line_type : ProcurementLineType
  pub catalog_item_id : Option ℕ
  pub expected_identity_signature : ℕ
  pub quantity : ℕ
  pub binding : Option ℕ

pub record ProcurementRevision : Type 0 where
  pub id : ℕ
  pub revision_number : ℕ
  pub submitted_by_user_id : ℕ
  pub general_comment : Option Text
  pub lines : List ProcurementRevisionLine

pub record ProcurementEvent : Type 0 where
  pub id : ℕ
  pub event_type : ProcurementEventType
  pub actor_user_id : ℕ
  pub client_request_id : Text
  pub request_fingerprint : ℕ
  pub from_status : Option ProcurementStatus
  pub to_status : Option ProcurementStatus
  pub revision_id : Option ℕ
  pub comment : Option Text

-- A request with its revisions and its events, both newest first.
pub record ProcurementRequest : Type 0 where
  pub id : ℕ
  pub status : ProcurementStatus
  pub initiator_user_id : ℕ
  pub assigned_manager_user_id : ℕ
  pub current_revision_id : ℕ
  pub creation_client_request_id : Text
  pub request_fingerprint : ℕ
  pub state_version : ℕ
  pub final_movement_id : Option ℕ
  pub completed_at : Option ℕ
  pub revisions : List ProcurementRevision
  pub events : List ProcurementEvent

abbrev pub find_request : ℕ → List ProcurementRequest → Option ProcurementRequest
find_request k = find λ r. r.id == k
