-- ===== src/Procurement/Progress.antt =====
-- procurement/service.py: how an operation changes a request.
pub mod Agreement
pub mod Delivery
pub mod Frame
use dc_inventory.Prelude.{
  ℕ, suc, ◌+◌, ◌≡◌, refl, sym, ap, ◌∙◌, ◌⊎◌, inl, inr, not, Bool, true, false, Option, none, some,
  List, [], ◌∷◌, map, arith,
}
use dc_inventory.Prelude.Tests.{◌==◌, is_some}
use dc_inventory.Prelude.Lists.{find}
use dc_inventory.Prelude.Result.{Result, ok, err}
use dc_inventory.Core.Idempotency.{Text}
use dc_inventory.Database.{Database}
use dc_inventory.Procurement.Tables.{
  ProcurementRequest, ProcurementEvent, ProcurementStatus, ProcurementEventType, find_request,
}
use dc_inventory.Procurement.StateMachine.{
  transition_allowed, is_completed, is_active, among, completed_is_final,
}
use dc_inventory.Procurement.Errors.{ProcurementError}
use dc_inventory.Procurement.Payload.{Platform, Actor, ExpectedStateMutation, LineCreate, Payload}
use dc_inventory.Procurement.Guards.{
  lock_and_validate_expected, require_actor_capabilities, Validated, require_status, set_status,
  add_event, make_event, put_request,
}
use dc_inventory.Procurement.Notify.{enqueue_procurement_notifications}
use dc_inventory.Procurement.Workflow.{
  Outcome, Call, mutate, accept_body, correction_body, revision_body, assignment_body,
  delivery_body, log, moves, stays,
}
use dc_inventory.Procurement.Acceptance.{
  binding_body, discrepancy_body, acceptance_body, completion,
}

-- What an event says of the status before and after it.
abbrev pub Logged : ProcurementEvent → ProcurementStatus → ProcurementStatus → Type 0
Logged e a b =
    ((e.from_status ≡ none) × (e.to_status ≡ none) × (b ≡ a))
    ⊎ ((e.from_status ≡ some a) × (e.to_status ≡ some b) × (transition_allowed a b ≡ true))

-- Who logged an event in which call, and as what.
pub record Stamp : Type 0 where
  pub actor_user_id : ℕ
  pub client_request_id : Text
  pub request_fingerprint : ℕ
  pub event_type : ProcurementEventType

abbrev pub stamp_of : ProcurementEvent → Stamp
stamp_of e = record {
  actor_user_id = e.actor_user_id;
  client_request_id = e.client_request_id;
  request_fingerprint = e.request_fingerprint;
  event_type = e.event_type;
}

-- A change of a request: it was not completed; its version grows by one and one event is logged, with
-- the stamp of the call, which tells its move, if it moves; and it has a receipt exactly if it is
-- completed now.
pub record Advanced (stamp : Stamp) (r r' : ProcurementRequest) : Type 0 where
  pub event : ProcurementEvent
  pub events : r'.events ≡ event ∷ r.events
  pub stamped : stamp_of event ≡ stamp
  pub logged : Logged event r.status r'.status
  pub not_completed : is_completed r.status ≡ false
  pub version : r'.state_version ≡ r.state_version + 1
  pub same : (r'.id ≡ r.id) × (r'.initiator_user_id ≡ r.initiator_user_id)
  pub receipt :
      (r'.final_movement_id ≡ r.final_movement_id) × (is_completed r'.status ≡ false)
      ⊎ (is_some r'.final_movement_id ≡ true) × (is_completed r'.status ≡ true)

-- A successful operation replayed an earlier call, and changed nothing, or did its work.
pub mutate_steps :
    (x : Platform) (actor : Actor) (call : Call) (body : ProcurementRequest → Text → Outcome)
    (request_id : ℕ) (db : Database) {db' : Database}
    → mutate x actor call body request_id db ≡ ok db'
    → (r : ProcurementRequest) × (find_request request_id db.requests ≡ some r)
      × (v : Validated) × (lock_and_validate_expected r call.expected
            (x.payload_fingerprint call.payload)
            actor.user_id
            call.event_type
          ≡ ok v)
      × (require_actor_capabilities db.identity.users actor.user_id call.capabilities ≡ ok tt)
      × ((is_some v.replay ≡ true) × (db' ≡ db)
          ⊎ (is_some v.replay ≡ false) × (body r v.key ≡ ok db'))
unfolding mutate
mutate_steps x actor call body request_id db h = ground arith

abbrev pub stamp : Actor → Text → ℕ → ProcurementEventType → Stamp
stamp actor key fingerprint type = record {
  actor_user_id = actor.user_id;
  client_request_id = key;
  request_fingerprint = fingerprint;
  event_type = type;
}

-- What an operation did to the request `r`.
abbrev pub Worked : Stamp → ProcurementRequest → Database → Database → Type 0
Worked s r db db' =
    (r' : ProcurementRequest) × (db'.requests ≡ put_request r' db.requests) × Advanced s r r'

-- What an operation leaves alone beside the fields that `Advanced` speaks of.
abbrev Kept : ProcurementRequest → ProcurementRequest → Type 0
Kept r m =
    (m.events ≡ r.events)
    × (m.state_version ≡ r.state_version + 1)
    × (m.id ≡ r.id)
    × (m.initiator_user_id ≡ r.initiator_user_id)

pub moved_Advanced :
    (actor : Actor) (key : Text) (fingerprint : ℕ) (type : ProcurementEventType)
    (target : ProcurementStatus) (comment : Option Text) (r m : ProcurementRequest)
    → transition_allowed r.status target ≡ true
    → m.status ≡ target
    → ((m.final_movement_id ≡ r.final_movement_id) × (is_completed m.status ≡ false)
        ⊎ (is_some m.final_movement_id ≡ true) × (is_completed m.status ≡ true))
    → Kept r m
    → Advanced
        (stamp actor key fingerprint type)
        r
        (add_event actor key fingerprint (moves type r.status target comment) m)
unfolding add_event
moved_Advanced actor key fingerprint type target comment r m allowed status receipt
      (events, version, id, initiator) =
    let e = make_event actor key fingerprint (moves type r.status target comment) m in
    record {
      event = e;
      events = ap (λ es. e ∷ es) events;
      stamped = refl;
      logged = inr (refl, ap some (sym status), ap (transition_allowed r.status) status ∙ allowed);
      not_completed = completed_is_final r.status target allowed;
      version = version;
      same = (id, initiator);
      receipt = receipt;
    }

pub stayed_Advanced :
    (actor : Actor) (key : Text) (fingerprint : ℕ) (type : ProcurementEventType)
    (comment : Option Text) (r m : ProcurementRequest)
    → is_completed r.status ≡ false
    → m.status ≡ r.status
    → m.final_movement_id ≡ r.final_movement_id
    → Kept r m
    → Advanced
        (stamp actor key fingerprint type)
        r
        (add_event actor key fingerprint (stays type comment) m)
unfolding add_event
stayed_Advanced actor key fingerprint type comment r m active status final
      (events, version, id, initiator) =
    let e = make_event actor key fingerprint (stays type comment) m in
    record {
      event = e;
      events = ap (λ es. e ∷ es) events;
      stamped = refl;
      logged = inl (refl, refl, status);
      not_completed = active;
      version = version;
      same = (id, initiator);
      receipt = inl (final, ap is_completed status ∙ active);
    }

-- What `_set_status` makes of a request.
abbrev pub with_status : ProcurementRequest → ProcurementStatus → ProcurementRequest
with_status r target = record r { status = target; state_version = r.state_version + 1 }
