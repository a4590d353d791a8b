-- ===== src/Procurement/Calls.antt =====
-- procurement/service.py: how a call is told from an earlier one.
use dc_inventory.Prelude.{
  ℕ, ◌≡◌, refl, sym, ap, ◌∙◌, ◌⊎◌, inl, inr, true, false, some, List, [], ◌∷◌, arith,
}
use dc_inventory.Prelude.Tests.{is_some, ==_refl, Option-cases}
use dc_inventory.Prelude.Lists.{find}
use dc_inventory.Prelude.Result.{ok}
use dc_inventory.Core.Idempotency.{Text, text_eq, text_eq_refl, text_eq_sound}
use dc_inventory.Database.{Database}
use dc_inventory.Procurement.Tables.{
  ProcurementRequest, ProcurementEvent, ProcurementEventType, find_request,
}
use dc_inventory.Procurement.StateMachine.{event_type_eq, event_index}
use dc_inventory.Procurement.Payload.{Platform, Actor, ExpectedStateMutation}
use dc_inventory.Procurement.Guards.{
  Validated, lock_and_validate_expected, normalize_client_request_id, require_actor_capabilities,
  same_call,
}
use dc_inventory.Procurement.Workflow.{Outcome, Call, mutate}
use dc_inventory.Procurement.Progress.{stamp_of}
use dc_inventory.Procurement.Operation.{Operation, call_of}

-- A call that `_lock_and_validate_expected` lets through replays an event of the same call, or
-- expects the state that the request is in.
pub validated_steps :
    (r : ProcurementRequest) (p : ExpectedStateMutation) (fingerprint actor : ℕ)
    (type : ProcurementEventType) {v : Validated}
    → lock_and_validate_expected r p fingerprint actor type ≡ ok v
    → (normalize_client_request_id p.client_request_id ≡ ok v.key)
      × (find (same_call actor v.key) r.events ≡ v.replay)
      × ((is_some v.replay ≡ true)
          ⊎ (is_some v.replay ≡ false)
            × (r.state_version ≡ p.expected_state_version)
            × (r.current_revision_id ≡ p.expected_revision_id))
unfolding lock_and_validate_expected
validated_steps r p fingerprint actor type h = ground arith

-- A call whose event is known is let through as a replay.
pub known_call :
    (r : ProcurementRequest) (p : ExpectedStateMutation) (fingerprint actor : ℕ)
    (type : ProcurementEventType) (key : Text) (e : ProcurementEvent)
    → normalize_client_request_id p.client_request_id ≡ ok key
    → find (same_call actor key) r.events ≡ some e
    → e.event_type ≡ type
    → e.request_fingerprint ≡ fingerprint
    → lock_and_validate_expected r p fingerprint actor type
      ≡ ok (record { key = key; replay = some e })
unfolding lock_and_validate_expected
known_call r p fingerprint actor type key e normal found same_type same_fingerprint =
    ground (arith, normal, found, same_type, same_fingerprint, ==_refl (event_index type))

pub mutate_replay :
    (x : Platform) (actor : Actor) (call : Call) (body : ProcurementRequest → Text → Outcome)
    (request_id : ℕ) (db : Database) (r : ProcurementRequest) (v : Validated)
    → find_request request_id db.requests ≡ some r
    → lock_and_validate_expected r call.expected
        (x.payload_fingerprint call.payload)
        actor.user_id
        call.event_type
      ≡ ok v
    → is_some v.replay ≡ true
    → require_actor_capabilities db.identity.users actor.user_id call.capabilities ≡ ok tt
    → mutate x actor call body request_id db ≡ ok db
unfolding mutate
mutate_replay x actor call body request_id db r v found valid replayed allowed = ground arith

-- The event of a call is found by its key.
pub stamped_call :
    (actor : ℕ) (key : Text) (e : ProcurementEvent) (es : List ProcurementEvent)
    → e.actor_user_id ≡ actor
    → e.client_request_id ≡ key
    → find (same_call actor key) (e ∷ es) ≡ some e
stamped_call actor key e es same_actor same_key =
    ground (arith, same_actor, same_key, text_eq_refl key)

-- The call does not depend on what the clock and `uuid4` give.
pub call_of_same :
    (x : Platform) (actor actor' : Actor) (o : Operation) → call_of x actor' o ≡ call_of x actor o
call_of_same x actor actor' (Operation.accept p) = refl
call_of_same x actor actor' (Operation.deliver p) = refl
call_of_same x actor actor' (Operation.correct p comment proposal) = refl
call_of_same x actor actor' (Operation.revise p comment lines) = refl
call_of_same x actor actor' (Operation.take p manager) = refl
call_of_same x actor actor' (Operation.transfer p manager target) = refl
call_of_same x actor actor' (Operation.bind p item line) = refl
call_of_same x actor actor' (Operation.report p comment) = refl
call_of_same x actor actor' (Operation.complete p location) = refl

event_type_sound : (a b : ProcurementEventType) → event_type_eq a b ≡ true → a ≡ b
event_type_sound a b h = ground arith

found_call :
    (actor : ℕ) (key : Text) (es : List ProcurementEvent) (e : ProcurementEvent)
    → find (same_call actor key) es ≡ some e
    → (e.actor_user_id ≡ actor) × (text_eq e.client_request_id key ≡ true)
found_call actor key [] e h = cc
found_call actor key (f ∷ es) e h = ground (arith, found_call actor key es e)

replay_facts :
    (r : ProcurementRequest) (p : ExpectedStateMutation) (fingerprint actor : ℕ)
    (type : ProcurementEventType) (e : ProcurementEvent) {v : Validated}
    → lock_and_validate_expected r p fingerprint actor type ≡ ok v
    → v.replay ≡ some e
    → (event_type_eq e.event_type type ≡ true) × (e.request_fingerprint ≡ fingerprint)
unfolding lock_and_validate_expected
replay_facts r p fingerprint actor type e h replay = ground arith

stamp_equal :
    (e : ProcurementEvent) (actor fingerprint : ℕ) (type : ProcurementEventType)
    → e.actor_user_id ≡ actor
    → e.request_fingerprint ≡ fingerprint
    → e.event_type ≡ type
    → stamp_of e ≡ record {
      actor_user_id = actor;
      client_request_id = e.client_request_id;
      request_fingerprint = fingerprint;
      event_type = type;
    }
stamp_equal e actor fingerprint type a f t = rw (a, f, t) refl

-- A replay is of the same user, key, type and digest.
pub replayed_steps :
    (r : ProcurementRequest) (p : ExpectedStateMutation) (fingerprint actor : ℕ)
    (type : ProcurementEventType) {v : Validated}
    → lock_and_validate_expected r p fingerprint actor type ≡ ok v
    → is_some v.replay ≡ true
    → (e : ProcurementEvent) × (stamp_of e ≡ record {
      actor_user_id = actor;
      client_request_id = e.client_request_id;
      request_fingerprint = fingerprint;
      event_type = type;
    })
      × (normalize_client_request_id p.client_request_id ≡ ok e.client_request_id)
      × (find (same_call actor e.client_request_id) r.events ≡ some e)
replayed_steps r p fingerprint actor type {v} h replayed =
    let (normal, known, _) = validated_steps r p fingerprint actor type h in
    elim (Option-cases v.replay) [
      | inl unknown ↦ absurd (ground (arith, unknown, replayed))
      | inr (e, some_e) ↦
          let (same_type, same_fingerprint) = replay_facts r p fingerprint actor type e h some_e in
          let (same_actor, same_key) = found_call actor v.key r.events e (known ∙ some_e) in
          let key = text_eq_sound e.client_request_id v.key same_key in
          (
            e,
            stamp_equal e actor fingerprint type same_actor same_fingerprint
                (event_type_sound e.event_type type same_type),
            normal ∙ ap ok (sym key),
            ap (λ k. find (same_call actor k) r.events) key ∙ known ∙ some_e,
          )
    ]
