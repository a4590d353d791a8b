-- ===== src/Procurement/StateMachine.antt =====
-- backend/app/modules/procurement/state_machine.py: which status may follow which.
use dc_inventory.Prelude.{ℕ, ◌≡◌, Bool, true, false, List, [], ◌∷◌, arith}
use dc_inventory.Prelude.Tests.{◌==◌, if◌then◌else◌}
use dc_inventory.Procurement.Tables.{ProcurementStatus, ProcurementEventType}

abbrev pub status_index : ProcurementStatus → ℕ
status_index ProcurementStatus.agreement_pending_manager = 0
status_index ProcurementStatus.agreement_revision_required = 1
status_index ProcurementStatus.purchasing = 2
status_index ProcurementStatus.awaiting_acceptance = 3
status_index ProcurementStatus.completed = 4

abbrev pub status_eq : ProcurementStatus → ProcurementStatus → Bool
status_eq a b = status_index a == status_index b

abbrev pub event_index : ProcurementEventType → ℕ
event_index ProcurementEventType.request_created = 0
event_index ProcurementEventType.revision_submitted = 1
event_index ProcurementEventType.manager_accepted = 2
event_index ProcurementEventType.correction_requested = 3
event_index ProcurementEventType.assignment_taken = 4
event_index ProcurementEventType.assignment_transferred = 5
event_index ProcurementEventType.transferred_to_acceptance = 6
event_index ProcurementEventType.line_bound = 7
event_index ProcurementEventType.discrepancy_reported = 8
event_index ProcurementEventType.completed = 9

abbrev pub event_type_eq : ProcurementEventType → ProcurementEventType → Bool
event_type_eq a b = event_index a == event_index b

-- `ALLOWED_TRANSITIONS`
abbrev pub allowed_transitions : ProcurementStatus → List ProcurementStatus
allowed_transitions ProcurementStatus.agreement_pending_manager =
    ProcurementStatus.agreement_revision_required ∷ ProcurementStatus.purchasing ∷ []
allowed_transitions ProcurementStatus.agreement_revision_required =
    ProcurementStatus.agreement_pending_manager ∷ []
allowed_transitions ProcurementStatus.purchasing = ProcurementStatus.awaiting_acceptance ∷ []
allowed_transitions ProcurementStatus.awaiting_acceptance =
    ProcurementStatus.agreement_revision_required ∷ ProcurementStatus.completed ∷ []
allowed_transitions ProcurementStatus.completed = []

-- `status in statuses`
abbrev pub among : ProcurementStatus → List ProcurementStatus → Bool
among s [] = false
among s (t ∷ ts) = if status_eq s t then true else among s ts

unfoldable pub transition_allowed : ProcurementStatus → ProcurementStatus → Bool
transition_allowed current target = among target (allowed_transitions current)

-- `status in ACTIVE_PROCUREMENT_STATUSES`
abbrev pub is_active : ProcurementStatus → Bool
is_active ProcurementStatus.completed = false
is_active _ = true

abbrev pub is_completed : ProcurementStatus → Bool
is_completed ProcurementStatus.completed = true
is_completed _ = false

pub completed_is_final :
    (a b : ProcurementStatus) → transition_allowed a b ≡ true → is_completed a ≡ false
unfolding transition_allowed
completed_is_final a b h = ground arith
