-- ===== src/Tests/Orders.antt =====
-- The theorems on purchases at the run of Tests/Purchases.antt.
use dc_inventory.Prelude.{ℕ, ◌≤◌, ◌≡◌, ◌⊎◌, refl, true, false, not, some, [], ◌∷◌}
use dc_inventory.Prelude.Tests.{is_some}
use dc_inventory.Prelude.Lists.{find, any, is_nodup}
use dc_inventory.Prelude.Result.{ok}
use dc_inventory.Core.Idempotency.{Text}
use dc_inventory.Warehouse.Tables.{max_quantity}
use dc_inventory.Warehouse.Consistent.{IsConsistent}
use dc_inventory.Warehouse.Movement.Payload.{item_ids}
use dc_inventory.Procurement.Tables.{
  ProcurementRequest, ProcurementRevision, ProcurementEvent, find_request,
}
use dc_inventory.Procurement.Guards.{
  require_actor_capabilities, normalize_client_request_id, same_call,
}
use dc_inventory.Procurement.Lines.{bound_item_id}
use dc_inventory.Procurement.Totals.{total, line_total, validate-totals}
use dc_inventory.Procurement.Workflow.{current_revision}
use dc_inventory.Procurement.Received.{Received, complete_acceptance-Received}
use dc_inventory.Procurement.Progress.{Worked, stamp_of}
use dc_inventory.Procurement.Operation.{Operation, run, call_of, call_stamp}
use dc_inventory.Procurement.Concurrency.{run-outcome, run-stale, run-retry, run-completed}
use dc_inventory.Identity.Tables.{User, find_user}
use dc_inventory.Procurement.Actions.{ActionName, offers, available_actions}
use dc_inventory.Procurement.Actions.Offered.{run-offered}
use dc_inventory.System.{Step, Reachable}
use dc_inventory.System.Invariant.{IsValid, Reachable-IsValid}
use dc_inventory.Tests.Data.{id_hash, room, cable, people, empty_tables, given}
use dc_inventory.Tests.Purchases.{
  platform, actor, expected, wanted, requested, accepted, delivered, bound, completed, purchase_run,
  final_row, request_made, request_accepted, delivery_handed_over, line_bound, delivery_accepted,
  accepted_again, completed_again, summing, summed_up, summed_lines, accepting_again,
  completing_again, acceptance_changes,
}

reached : Reachable id_hash platform bound
reached =
    Reachable.stepped delivered bound
      (Reachable.stepped accepted delivered
        (Reachable.stepped requested accepted
          (Reachable.stepped empty_tables requested
            (Reachable.started people (room ∷ []) (cable ∷ []) [] [])
            (Step.requested (actor 1 1) wanted 50 request_made))
          (Step.operated (actor 2 2) (Operation.accept (expected 1)) 50 request_accepted))
        (Step.operated (actor 2 3) (Operation.deliver (expected 2)) 50 delivery_handed_over))
      (Step.operated (actor 1 4) (Operation.bind (expected 3) 10 12) 50 line_bound)

Reachable-IsValid_example : IsValid bound
Reachable-IsValid_example = Reachable-IsValid id_hash platform bound reached

bound-IsConsistent : IsConsistent bound.warehouse
bound-IsConsistent = (Reachable-IsValid id_hash platform bound reached).stocked.warehouse

complete_acceptance-Received_example :
    (completed ≡ bound)
    ⊎ (r : ProcurementRequest) × (find_request 50 bound.requests ≡ some r)
      × (revision : ProcurementRevision) × (current_revision r ≡ ok revision)
      × (any (λ l. not (is_some (bound_item_id l))) revision.lines ≡ false)
      × Received bound 1 revision completed
complete_acceptance-Received_example =
    complete_acceptance-Received platform (actor 1 5) (expected 4) 1 50 bound bound-IsConsistent
      delivery_accepted

run-outcome_example :
    (require_actor_capabilities requested.identity.users 2
        (call_of platform (actor 2 2) (Operation.accept (expected 1))).capabilities
      ≡ ok tt)
    × (r : ProcurementRequest) × (find_request 50 requested.requests ≡ some r)
    × ((accepted ≡ requested)
          × ((e : ProcurementEvent) × (stamp_of e
                ≡ call_stamp platform
                    (actor 2 2)
                    (Operation.accept (expected 1))
                    e.client_request_id)
              × (normalize_client_request_id (expected 1).client_request_id
                  ≡ ok e.client_request_id)
              × (find (same_call 2 e.client_request_id) r.events ≡ some e))
        ⊎ (r.state_version ≡ 1)
          × (r.current_revision_id ≡ 501)
          × (key : Text) × (normalize_client_request_id (expected 1).client_request_id ≡ ok key)
          × Worked
              (call_stamp platform (actor 2 2) (Operation.accept (expected 1)) key)
              r
              requested
              accepted)
run-outcome_example =
    run-outcome platform (actor 2 2) (Operation.accept (expected 1)) 50 requested request_accepted

run-stale_example : given empty_tables accepting_again ≡ accepted
run-stale_example =
    run-stale platform (actor 2 2) (actor 2 6) (Operation.accept (expected 1))
      (Operation.accept (expected 1)) 50 requested request_accepted acceptance_changes
      accepted_again refl

run-retry_example :
    run platform (actor 2 9) (Operation.accept (expected 1)) 50 accepted ≡ ok accepted
run-retry_example =
    run-retry platform (actor 2 2) (actor 2 9) (Operation.accept (expected 1)) 50 requested
      request_accepted refl purchase_run.13

run-completed_example : given empty_tables completing_again ≡ completed
run-completed_example =
    run-completed platform (actor 1 7) (Operation.complete (expected 4) 1) 50 completed final_row
      purchase_run.9 purchase_run.10 completed_again

validate-totals_example :
    (is_nodup (item_ids (given [] summing)) ≡ true)
    × ((k : ℕ)
        → (total k (given [] summing) ≡ line_total (some (2, 10)) k summed_lines)
          × (line_total (some (2, 10)) k summed_lines ≤ max_quantity))
validate-totals_example = validate-totals summed_lines (some (2, 10)) summed_up

run-offered_example :
    (accepted ≡ requested)
    ⊎ (r : ProcurementRequest) × (find_request 50 requested.requests ≡ some r)
      × (u : User) × (find_user 2 requested.identity.users ≡ some u)
      × ((v : ProcurementRevision)
          → current_revision r ≡ ok v
          → offers ActionName.manager_accept (available_actions r v u) ≡ true)
run-offered_example =
    run-offered platform (actor 2 2) (Operation.accept (expected 1)) 50 requested request_accepted
