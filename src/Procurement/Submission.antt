-- ===== src/Procurement/Submission.antt =====
-- procurement/service.py: the creation of a request.
use dc_inventory.Prelude.{ℕ, ◌&&◌, not, Bool, false, Option, none, some, List, [], ◌∷◌}
use dc_inventory.Prelude.Tests.{◌==◌, is_some}
use dc_inventory.Prelude.Lists.{find}
use dc_inventory.Prelude.Result.{ok, ◌>>=◌, ◌>>◌, raise_if}
use dc_inventory.Core.Idempotency.{Text, text_eq}
use dc_inventory.Identity.Policy.{Capability}
use dc_inventory.Database.{Database}
use dc_inventory.Notifications.Outbox.{Action}
use dc_inventory.Procurement.Tables.{
  ProcurementRequest, ProcurementRevisionLine, ProcurementStatus, ProcurementEventType,
  find_request,
}
use dc_inventory.Procurement.Errors.{ProcurementError}
use dc_inventory.Procurement.Payload.{Payload, Platform, Actor, ProcurementRequestCreate}
use dc_inventory.Procurement.Guards.{
  normalize_client_request_id, normalize_comment, validate_manager, require_actor_capabilities,
  add_event,
}
use dc_inventory.Procurement.Lines.{prepare_lines}
use dc_inventory.Procurement.Notify.{enqueue_procurement_notifications}
use dc_inventory.Procurement.Workflow.{Outcome}

abbrev pub same_creation : ℕ → Text → ProcurementRequest → Bool
same_creation actor key r = r.initiator_user_id == actor && text_eq r.creation_client_request_id key

module _ (x : Platform) (actor : Actor) where
  -- The request with its first revision and its first event; its own identifier is that of the call.
  unfoldable pub new_request :
      ProcurementRequestCreate
      → ℕ
      → Text
      → Option Text
      → List ProcurementRevisionLine
      → ProcurementRequest
  new_request p request_id key comment lines =
      add_event actor key (x.payload_fingerprint (Payload.request p))
        (record {
          event_type = ProcurementEventType.request_created;
          from_status = none;
          to_status = some ProcurementStatus.agreement_pending_manager;
          comment = none;
        })
        (record {
          id = request_id;
          status = ProcurementStatus.agreement_pending_manager;
          initiator_user_id = actor.user_id;
          assigned_manager_user_id = p.assigned_manager_user_id;
          current_revision_id = actor.new_id;
          creation_client_request_id = key;
          request_fingerprint = x.payload_fingerprint (Payload.request p);
          state_version = 1;
          final_movement_id = none;
          completed_at = none;
          revisions =
              record {
                id = actor.new_id;
                revision_number = 1;
                submitted_by_user_id = actor.user_id;
                general_comment = comment;
                lines = lines;
              }
              ∷ [];
          events = [];
        })

  -- An identifier that is taken already violates the primary key.
  unfoldable pub create_request : ProcurementRequestCreate → ℕ → Database → Outcome
  create_request p request_id db = do
    require_actor_capabilities db.identity.users actor.user_id (Capability.procurement_create ∷ [])
    key ← normalize_client_request_id p.client_request_id
    elim (find (same_creation actor.user_id key) db.requests) [
      | some existing ↦
          raise_if (not (existing.request_fingerprint == x.payload_fingerprint (Payload.request p)))
            ProcurementError.idempotency_payload_conflict
          >> ok db
      | none ↦ (do
        manager ← validate_manager db.identity.users p.assigned_manager_user_id
        lines ← prepare_lines x actor db.warehouse.items p.lines
        comment ← normalize_comment p.general_comment false
        raise_if (is_some (find_request request_id db.requests)) ProcurementError.duplicate_key
        ok (
            enqueue_procurement_notifications x actor request_id Action.new_request
              (p.assigned_manager_user_id ∷ [])
              (record db { requests = new_request p request_id key comment lines ∷ db.requests })))
    ]
