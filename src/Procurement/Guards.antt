-- ===== src/Procurement/Guards.antt =====
-- procurement/service.py: the tests that the operations share, and the changes of a request.
use dc_inventory.Prelude.{
  ℕ, ◌+◌, ◌&&◌, ◌||◌, not, Bool, true, false, Option, none, some, List, [], ◌∷◌, reverse,
}
use dc_inventory.Prelude.Tests.{ltb, ◌==◌, if◌then◌else◌}
use dc_inventory.Prelude.Lists.{find, all, length}
use dc_inventory.Prelude.Result.{Result, ok, err, ◌>>=◌, ◌>>◌, raise_if, or_raise}
use dc_inventory.Core.Idempotency.{Text, text_eq, is_space, normalize_idempotency_key}
use dc_inventory.Identity.Policy.{
  UserRole, UserAccessStatus, Capability, role_eq, status_eq, has_capability,
}
use dc_inventory.Identity.Tables.{User, find_user}
use dc_inventory.Procurement.Tables.{
  ProcurementRequest, ProcurementEvent, ProcurementStatus, ProcurementEventType,
}
use dc_inventory.Procurement.StateMachine.{event_type_eq, transition_allowed, among}
use dc_inventory.Procurement.Errors.{ProcurementError}
use dc_inventory.Procurement.Payload.{ExpectedStateMutation, Actor}

abbrev check_key : Text → Result ProcurementError Text
check_key [] = err ProcurementError.client_request_id_required
check_key (c ∷ cs) =
    raise_if (ltb 128 (length (c ∷ cs))) ProcurementError.client_request_id_too_long >> ok (c ∷ cs)

unfoldable pub normalize_client_request_id : Text → Result ProcurementError Text
normalize_client_request_id value = check_key (normalize_idempotency_key value)

abbrev pub lstrip : Text → Text
lstrip [] = []
lstrip (c ∷ cs) = if is_space c then lstrip cs else c ∷ cs

-- `value.strip()`
abbrev pub strip : Text → Text
strip t = reverse (lstrip (reverse (lstrip t)))

-- `raise` where a comment is required, and `None` where it is not.
abbrev no_comment : Bool → Result ProcurementError (Option Text)
no_comment true = err ProcurementError.comment_required
no_comment false = ok none

abbrev kept_comment : Bool → Text → Result ProcurementError (Option Text)
kept_comment required [] = no_comment required
kept_comment required (c ∷ cs) = ok (some (c ∷ cs))

unfoldable pub normalize_comment : Option Text → Bool → Result ProcurementError (Option Text)
normalize_comment none required = no_comment required
normalize_comment (some value) required = kept_comment required (strip value)

unfoldable pub validate_manager : List User → ℕ → Result ProcurementError User
validate_manager users k = do
  manager ← or_raise (find_user k users) ProcurementError.manager_not_found
  raise_if
      (not (role_eq manager.role UserRole.manager)
        || not (status_eq manager.access_status UserAccessStatus.approved))
      ProcurementError.manager_not_active
  ok manager

abbrev pub is_allowed : Option User → List Capability → Bool
is_allowed none capabilities = false
is_allowed (some u) capabilities =
    status_eq u.access_status UserAccessStatus.approved && all (has_capability u.role) capabilities

unfoldable pub require_actor_capabilities :
    List User → ℕ → List Capability → Result ProcurementError (Unit {0})
require_actor_capabilities users actor capabilities =
    raise_if (not (is_allowed (find_user actor users) capabilities)) ProcurementError.forbidden

abbrev pub same_call : ℕ → Text → ProcurementEvent → Bool
same_call actor key e = e.actor_user_id == actor && text_eq e.client_request_id key

-- What `_lock_and_validate_expected` gives: the normal form of the key, and the earlier event of the
-- same call.
pub record Validated : Type 0 where
  pub key : Text
  pub replay : Option ProcurementEvent

unfoldable pub lock_and_validate_expected :
    ProcurementRequest
    → ExpectedStateMutation
    → ℕ
    → ℕ
    → ProcurementEventType
    → Result ProcurementError Validated
lock_and_validate_expected request payload fingerprint actor event_type = do
  key ← normalize_client_request_id payload.client_request_id
  elim (find (same_call actor key) request.events) [
    | some previous ↦
        raise_if (not (event_type_eq previous.event_type event_type))
          ProcurementError.idempotency_action_conflict
        >> raise_if (not (previous.request_fingerprint == fingerprint))
            ProcurementError.idempotency_payload_conflict
        >> ok (record { key = key; replay = some previous })
    | none ↦
        raise_if
          (not (request.state_version == payload.expected_state_version)
            || not (request.current_revision_id == payload.expected_revision_id))
          ProcurementError.stale_state
        >> ok (record { key = key; replay = none })
  ]

unfoldable pub require_status :
    ProcurementRequest → List ProcurementStatus → Result ProcurementError (Unit {0})
require_status request expected =
    raise_if (not (among request.status expected)) ProcurementError.invalid_transition

unfoldable pub set_status :
    ProcurementRequest → ProcurementStatus → Result ProcurementError ProcurementRequest
set_status request target =
    raise_if (not (transition_allowed request.status target)) ProcurementError.invalid_transition
    >> ok (record request { status = target; state_version = request.state_version + 1 })

-- What an event says beside its request, its caller and its key.
pub record EventDetails : Type 0 where
  pub event_type : ProcurementEventType
  pub from_status : Option ProcurementStatus
  pub to_status : Option ProcurementStatus
  pub comment : Option Text

abbrev pub make_event : Actor → Text → ℕ → EventDetails → ProcurementRequest → ProcurementEvent
make_event actor key fingerprint d request = record {
  id = actor.event_id;
  event_type = d.event_type;
  actor_user_id = actor.user_id;
  client_request_id = key;
  request_fingerprint = fingerprint;
  from_status = d.from_status;
  to_status = d.to_status;
  revision_id = some request.current_revision_id;
  comment = d.comment;
}

unfoldable pub add_event : Actor → Text → ℕ → EventDetails → ProcurementRequest → ProcurementRequest
add_event actor key fingerprint d request = record request {
  events = make_event actor key fingerprint d request ∷ request.events;
}

-- `request.state_version += 1`
abbrev pub bump : ProcurementRequest → ProcurementRequest
bump request = record request { state_version = request.state_version + 1 }

-- The row of a request is written back.
unfoldable pub put_request : ProcurementRequest → List ProcurementRequest → List ProcurementRequest
put_request request [] = []
put_request request (r ∷ rs) =
    if r.id == request.id then request ∷ rs else r ∷ put_request request rs
