-- ===== src/Procurement/Actions.antt =====
-- procurement/service.py: `available_actions`, what the user interface offers on a request.
pub mod Offered
use dc_inventory.Prelude.{ℕ, Bool, true, false, ◌&&◌, not, List, [], ◌∷◌, ◌++◌}
use dc_inventory.Prelude.Tests.{◌==◌, is_some, if◌then◌else◌}
use dc_inventory.Prelude.Lists.{any}
use dc_inventory.Identity.Policy.{Capability, has_capability}
use dc_inventory.Identity.Tables.{User}
use dc_inventory.Procurement.Tables.{
  ProcurementRequest, ProcurementRevision, ProcurementRevisionLine, ProcurementStatus,
}
use dc_inventory.Procurement.StateMachine.{status_eq, is_active, is_completed}
use dc_inventory.Procurement.Acceptance.{is_proposed}
use dc_inventory.Procurement.Operation.{Operation}

pub data ActionName : Type 0 where
  take_ownership transfer_manager manager_accept return_for_correction : ActionName
  transfer_to_acceptance submit_revision bind_lines report_discrepancy : ActionName
  complete_acceptance : ActionName

abbrev pub action_index : ActionName → ℕ
action_index ActionName.take_ownership = 0
action_index ActionName.transfer_manager = 1
action_index ActionName.manager_accept = 2
action_index ActionName.return_for_correction = 3
action_index ActionName.transfer_to_acceptance = 4
action_index ActionName.submit_revision = 5
action_index ActionName.bind_lines = 6
action_index ActionName.report_discrepancy = 7
action_index ActionName.complete_acceptance = 8

abbrev pub offers : ActionName → List ActionName → Bool
offers a = any λ b. action_index a == action_index b

abbrev pub status_actions : ProcurementStatus → List ActionName
status_actions ProcurementStatus.agreement_pending_manager =
    ActionName.manager_accept ∷ ActionName.return_for_correction ∷ []
status_actions ProcurementStatus.purchasing = ActionName.transfer_to_acceptance ∷ []
status_actions ProcurementStatus.awaiting_acceptance = ActionName.return_for_correction ∷ []
status_actions _ = []

unfoldable pub manager_actions : ProcurementRequest → User → List ActionName
manager_actions request actor =
    if has_capability actor.role Capability.procurement_manage && is_active request.status
    then (if request.assigned_manager_user_id == actor.id
        then []
        else ActionName.take_ownership ∷ [])
      ++ (ActionName.transfer_manager ∷ status_actions request.status)
    else []

unfoldable pub initiator_actions : ProcurementRequest → User → List ActionName
initiator_actions request actor =
    if has_capability actor.role Capability.procurement_create
      && actor.id == request.initiator_user_id
      && status_eq request.status ProcurementStatus.agreement_revision_required
    then ActionName.submit_revision ∷ []
    else []

abbrev pub is_unbound : ProcurementRevisionLine → Bool
is_unbound l = is_proposed l.line_type && not (is_some l.binding)

unfoldable pub acceptance_actions :
    ProcurementRequest → ProcurementRevision → User → List ActionName
acceptance_actions request revision actor =
    if has_capability actor.role Capability.procurement_accept
    then (if not (is_completed request.status) && any is_unbound revision.lines
        then ActionName.bind_lines ∷ []
        else [])
      ++ (if status_eq request.status ProcurementStatus.awaiting_acceptance
          then ActionName.report_discrepancy ∷ ActionName.complete_acceptance ∷ []
          else [])
    else []

-- `revision` is `record.current_revision`.
unfoldable pub available_actions : ProcurementRequest → ProcurementRevision → User → List ActionName
available_actions request revision actor =
    manager_actions request actor
    ++ (initiator_actions request actor ++ acceptance_actions request revision actor)

-- The name under which an operation is offered.
abbrev pub action_of : Operation → ActionName
action_of (Operation.accept p) = ActionName.manager_accept
action_of (Operation.deliver p) = ActionName.transfer_to_acceptance
action_of (Operation.correct p comment proposal) = ActionName.return_for_correction
action_of (Operation.revise p comment lines) = ActionName.submit_revision
action_of (Operation.take p manager) = ActionName.take_ownership
action_of (Operation.transfer p manager target) = ActionName.transfer_manager
action_of (Operation.bind p item line) = ActionName.bind_lines
action_of (Operation.report p comment) = ActionName.report_discrepancy
action_of (Operation.complete p location) = ActionName.complete_acceptance
