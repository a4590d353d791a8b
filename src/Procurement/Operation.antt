-- ===== src/Procurement/Operation.antt =====
-- procurement/service.py: the operations on a request that exists, as one type.
use dc_inventory.Prelude.{ℕ, ◌≡◌, refl, Option, List, [], ◌∷◌}
use dc_inventory.Prelude.Result.{ok}
use dc_inventory.Core.Idempotency.{Text}
use dc_inventory.Identity.Policy.{Capability}
use dc_inventory.Database.{Database}
use dc_inventory.Procurement.Tables.{ProcurementRequest, ProcurementEventType}
use dc_inventory.Procurement.Payload.{Payload, Platform, Actor, ExpectedStateMutation, LineCreate}
use dc_inventory.Procurement.Workflow.{
  Outcome, Call, mutate, manager_accept, return_for_correction, submit_revision, take_ownership,
  transfer_manager, transfer_to_acceptance, change_assignment, accept_call, correction_call,
  revision_call, delivery_call, accept_body, correction_body, revision_body, assignment_body,
  delivery_body,
}
use dc_inventory.Procurement.Acceptance.{
  bind_line, report_discrepancy, complete_acceptance, binding_call, discrepancy_call,
  acceptance_call, binding_body, discrepancy_body, acceptance_body,
}
use dc_inventory.Procurement.Progress.{Worked, Stamp, stamp}
use dc_inventory.Procurement.Progress.Agreement.{
  accept_Worked, correction_Worked, revision_Worked, assignment_Worked, delivery_Worked,
}
use dc_inventory.Procurement.Progress.Delivery.{
  binding_Worked, discrepancy_Worked, acceptance_Worked,
}

-- An operation with the arguments of its payload.
pub data Operation : Type 0 where
  accept deliver : ExpectedStateMutation → Operation
  correct : ExpectedStateMutation → Text → Option (List LineCreate) → Operation
  revise : ExpectedStateMutation → Option Text → List LineCreate → Operation
  take : ExpectedStateMutation → ℕ → Operation
  transfer : ExpectedStateMutation → ℕ → ℕ → Operation
  bind : ExpectedStateMutation → ℕ → ℕ → Operation
  report : ExpectedStateMutation → Text → Operation
  complete : ExpectedStateMutation → ℕ → Operation

module _ (x : Platform) (actor : Actor) where
  -- The operation on the request of an identifier.
  unfoldable pub run : Operation → ℕ → Database → Outcome
  run (Operation.accept p) = manager_accept x actor p
  run (Operation.deliver p) = transfer_to_acceptance x actor p
  run (Operation.correct p comment proposal) = return_for_correction x actor p comment proposal
  run (Operation.revise p comment lines) = submit_revision x actor p comment lines
  run (Operation.take p manager) = take_ownership x actor p manager
  run (Operation.transfer p manager target) = transfer_manager x actor p manager target
  run (Operation.bind p item line) = bind_line x actor p item line
  run (Operation.report p comment) = report_discrepancy x actor p comment
  run (Operation.complete p location) = complete_acceptance x actor p location

  abbrev assignment_call : ExpectedStateMutation → Payload → ProcurementEventType → Call
  assignment_call p payload type = record {
    expected = p;
    payload = payload;
    event_type = type;
    capabilities = Capability.procurement_manage ∷ [];
  }

  -- What the operation goes through first, and what it does then.
  abbrev pub call_of : Operation → Call
  call_of (Operation.accept p) = accept_call x actor p
  call_of (Operation.deliver p) = delivery_call x actor p
  call_of (Operation.correct p comment proposal) = correction_call x actor p comment proposal
  call_of (Operation.revise p comment lines) = revision_call x actor p comment lines
  call_of (Operation.take p manager) =
      assignment_call p (Payload.assignment p manager) ProcurementEventType.assignment_taken
  call_of (Operation.transfer p manager target) =
      assignment_call p (Payload.transfer p manager target)
        ProcurementEventType.assignment_transferred
  call_of (Operation.bind p item line) = binding_call x actor p item line
  call_of (Operation.report p comment) = discrepancy_call x actor p comment
  call_of (Operation.complete p location) = acceptance_call x actor p location

  abbrev pub body_of : Operation → Database → ProcurementRequest → Text → Outcome
  body_of (Operation.accept p) = accept_body x actor p
  body_of (Operation.deliver p) = delivery_body x actor p
  body_of (Operation.correct p comment proposal) = correction_body x actor p comment proposal
  body_of (Operation.revise p comment lines) = revision_body x actor p comment lines
  body_of (Operation.take p manager) =
      assignment_body x actor (Payload.assignment p manager) manager actor.user_id
        ProcurementEventType.assignment_taken
  body_of (Operation.transfer p manager target) =
      assignment_body x actor (Payload.transfer p manager target) manager target
        ProcurementEventType.assignment_transferred
  body_of (Operation.bind p item line) = binding_body x actor p item line
  body_of (Operation.report p comment) = discrepancy_body x actor p comment
  body_of (Operation.complete p location) = acceptance_body x actor p location

  pub run-mutate :
      (o : Operation) (request_id : ℕ) (db : Database)
      → run o request_id db ≡ mutate x actor (call_of o) (body_of o db) request_id db
  unfolding run manager_accept transfer_to_acceptance return_for_correction submit_revision
      take_ownership transfer_manager change_assignment bind_line report_discrepancy
      complete_acceptance
  run-mutate (Operation.accept p) request_id db = refl
  run-mutate (Operation.deliver p) request_id db = refl
  run-mutate (Operation.correct p comment proposal) request_id db = refl
  run-mutate (Operation.revise p comment lines) request_id db = refl
  run-mutate (Operation.take p manager) request_id db = refl
  run-mutate (Operation.transfer p manager target) request_id db = refl
  run-mutate (Operation.bind p item line) request_id db = refl
  run-mutate (Operation.report p comment) request_id db = refl
  run-mutate (Operation.complete p location) request_id db = refl

  abbrev pub call_stamp : Operation → Text → Stamp
  call_stamp o key =
      stamp actor key (x.payload_fingerprint (call_of o).payload) (call_of o).event_type

  pub body_Worked :
      (o : Operation) (db : Database) (r : ProcurementRequest) (key : Text) {db' : Database}
      → body_of o db r key ≡ ok db'
      → Worked (call_stamp o key) r db db'
  body_Worked (Operation.accept p) db r key h = accept_Worked x actor p db r key h
  body_Worked (Operation.deliver p) db r key h = delivery_Worked x actor p db r key h
  body_Worked (Operation.correct p comment proposal) db r key h =
      correction_Worked x actor p comment proposal db r key h
  body_Worked (Operation.revise p comment lines) db r key h =
      revision_Worked x actor p comment lines db r key h
  body_Worked (Operation.take p manager) db r key h =
      assignment_Worked x actor (Payload.assignment p manager) manager actor.user_id
        ProcurementEventType.assignment_taken db r key h
  body_Worked (Operation.transfer p manager target) db r key h =
      assignment_Worked x actor (Payload.transfer p manager target) manager target
        ProcurementEventType.assignment_transferred db r key h
  body_Worked (Operation.bind p item line) db r key h =
      binding_Worked x actor p item line db r key h
  body_Worked (Operation.report p comment) db r key h =
      discrepancy_Worked x actor p comment db r key h
  body_Worked (Operation.complete p location) db r key h =
      acceptance_Worked x actor p location db r key h
