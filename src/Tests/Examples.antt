-- ===== src/Tests/Examples.antt =====
-- The theorems at the runs of this module's siblings.
use dc_inventory.Prelude.{ℕ, ◌≡◌, ◌⊎◌, ◌↔◌, refl, true, false, ◌&&◌, not, none, some, [], ◌∷◌}
use dc_inventory.Prelude.Tests.{◌==◌, if◌then◌else◌}
use dc_inventory.Prelude.Result.{ok, err}
use dc_inventory.Core.Idempotency.{Text, split, normalize_idempotency_key}
use dc_inventory.Core.Idempotency.Normal.{normalize_keeps_words}
use dc_inventory.Identity.Policy.{UserRole, Capability, has_capability, is_custody_role}
use dc_inventory.Identity.Policy.Separation.{duties_separated}
use dc_inventory.Prelude.Table.{lookup}
use dc_inventory.Database.{Database}
use dc_inventory.Warehouse.Tables.{Movement, find_movement}
use dc_inventory.Warehouse.Consistent.{IsConsistent}
use dc_inventory.Warehouse.Errors.{InventoryError}
use dc_inventory.Warehouse.Movement.Payload.{MovementCreate, Caller, check_custody_arguments}
use dc_inventory.Warehouse.Movement.Create.{MovementResult, create_movement', reverse_movement}
use dc_inventory.Warehouse.Location.Closed.{archived_location_closed}
use dc_inventory.Warehouse.Effect.Create.{create'-IsConsistent}
use dc_inventory.Warehouse.Effect.Replay.{create'-retry, request_fingerprint}
use dc_inventory.Warehouse.Effect.Reversal.{Restored, reverse-Restored}
use dc_inventory.System.Invariant.{start-IsConsistent}
use dc_inventory.Tests.Data.{
  room, cable, empty_tables, digest, receipt_of_five, issue_of_two, caller, given, nothing,
}
use dc_inventory.Tests.Movements.{
  archived, archived_ok, receiving, stocked, issued, reversed, back_key, movements_run, received_ok,
  issued_ok, reversed_ok,
}

empty-IsConsistent : IsConsistent empty_tables.warehouse
empty-IsConsistent = start-IsConsistent (room ∷ []) (cable ∷ []) []

create'-IsConsistent_example : IsConsistent stocked.warehouse
create'-IsConsistent_example =
    create'-IsConsistent digest empty_tables receipt_of_five (caller 1 none 100) empty-IsConsistent
      received_ok

stocked-IsConsistent : IsConsistent stocked.warehouse
stocked-IsConsistent =
    create'-IsConsistent digest empty_tables receipt_of_five (caller 1 none 100) empty-IsConsistent
      received_ok

issued-IsConsistent : IsConsistent issued.warehouse
issued-IsConsistent =
    create'-IsConsistent digest stocked issue_of_two (caller 3 (some 3) 101) stocked-IsConsistent
      issued_ok

reverse-Restored_example :
    (o : Movement) × (find_movement 101 issued.warehouse.movements ≡ some o)
    × Restored issued o reversed
    × ((request_id' : Text) (c' : Caller) (r' : MovementResult) (db'' : Database)
        → reverse_movement digest reversed 101 request_id' c' ≡ ok (r', db'')
        → r'.replayed ≡ true)
reverse-Restored_example =
    reverse-Restored digest issued 101 back_key (caller 1 none 102) issued-IsConsistent reversed_ok
      movements_run.4

create'-retry_example : create_movement' digest stocked receipt_of_five (caller 1 none 999) ≡ (
    if request_fingerprint digest receipt_of_five (caller 1 none 100)
      == request_fingerprint digest receipt_of_five (caller 1 none 999)
    then ok (record { movement = (given nothing receiving).0.movement; replayed = true }, stocked)
    else err InventoryError.idempotency_payload_conflict)
unfolding check_custody_arguments
create'-retry_example =
    create'-retry digest empty_tables receipt_of_five receipt_of_five (caller 1 none 100)
      (caller 1 none 999) empty-IsConsistent received_ok refl refl refl

normalize_keeps_words_example :
    (split (normalize_idempotency_key (32 ∷ 97 ∷ 32 ∷ 32 ∷ 98 ∷ []))
      ≡ split (32 ∷ 97 ∷ 32 ∷ 32 ∷ 98 ∷ []))
    × (normalize_idempotency_key (normalize_idempotency_key (32 ∷ 97 ∷ 32 ∷ 32 ∷ 98 ∷ []))
        ≡ normalize_idempotency_key (32 ∷ 97 ∷ 32 ∷ 32 ∷ 98 ∷ []))
    × ((normalize_idempotency_key (32 ∷ 97 ∷ 32 ∷ 32 ∷ 98 ∷ [])
          ≡ normalize_idempotency_key (97 ∷ 32 ∷ 98 ∷ []))
        ↔ (split (32 ∷ 97 ∷ 32 ∷ 32 ∷ 98 ∷ []) ≡ split (97 ∷ 32 ∷ 98 ∷ [])))
normalize_keeps_words_example =
    normalize_keeps_words (32 ∷ 97 ∷ 32 ∷ 32 ∷ 98 ∷ []) (97 ∷ 32 ∷ 98 ∷ [])

duties_separated_example :
    (has_capability UserRole.manager Capability.procurement_create
        && has_capability UserRole.manager Capability.procurement_manage
      ≡ false)
    × (has_capability UserRole.manager Capability.procurement_manage
          && has_capability UserRole.manager Capability.procurement_accept
        ≡ false)
    × (is_custody_role UserRole.manager ≡ (
        has_capability UserRole.manager Capability.inventory_operate
        && not (has_capability UserRole.manager Capability.inventory_admin)))
    × (has_capability UserRole.manager Capability.access_assign_admin ≡ true
        → (has_capability UserRole.manager Capability.access_assign_standard_roles ≡ true)
          × (has_capability UserRole.manager Capability.access_manage_users ≡ true))
duties_separated_example = duties_separated UserRole.manager

archived_location_closed_example :
    ((item : ℕ) → lookup item 1 archived.stock ≡ none)
    × (archived ≡ record empty_tables.warehouse { locations = archived.locations })
    × ((p : MovementCreate) (c : Caller) (r : MovementResult) (db' : Database)
        → ((p.source_location_id ≡ some 1) ⊎ (p.destination_location_id ≡ some 1))
        → create_movement' digest (record empty_tables { warehouse = archived }) p c ≡ ok (r, db')
        → r.replayed ≡ true)
archived_location_closed_example = archived_location_closed digest 1 2000 empty_tables archived_ok
