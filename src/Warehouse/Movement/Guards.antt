-- ===== src/Warehouse/Movement/Guards.antt =====
-- inventory/service.py: the tests of `_create_movement` against the tables.
pub mod Original
use dc_inventory.Prelude.{
  ℕ, zero, suc, Bool, true, false, ◌&&◌, ◌||◌, not, Option, none, some, List, map,
}
use dc_inventory.Prelude.Tests.{◌==◌, opt_eq, is_some, is_id}
use dc_inventory.Prelude.Lists.{any, all, find, contains, is_nodup}
use dc_inventory.Prelude.Int.{ℤ, pos, negsuc}
use dc_inventory.Prelude.Result.{Result, ok, ◌>>=◌, ◌>>◌, raise_if, or_raise}
use dc_inventory.Core.Idempotency.{Text, text_eq}
use dc_inventory.Identity.Policy.{UserAccessStatus, is_custody_role, status_eq}
use dc_inventory.Identity.Tables.{User, find_user}
use dc_inventory.Procurement.Tables.{ProcurementRequest}
use dc_inventory.Warehouse.Tables.{
  Movement, MovementType, Location, Item, find_location, find_item, find_movement, is_reversal,
  is_correction, is_receipt_or_issue, is_active_location, is_active_item,
}
use dc_inventory.Warehouse.Errors.{InventoryError}
use dc_inventory.Warehouse.Movement.Payload.{MovementCreate, item_ids}

-- The movement that an earlier call with the same key recorded.
abbrev pub same_key : ℕ → Text → Movement → Bool
same_key actor request_id m = m.actor_user_id == actor && text_eq m.client_request_id request_id

unfoldable pub existing_idempotent_result :
    List Movement → ℕ → Text → ℕ → Result InventoryError (Option Movement)
existing_idempotent_result movements actor request_id fingerprint =
    elim (find (same_key actor request_id) movements) [
      | none ↦ ok none
      | some m ↦
          raise_if (not (m.request_fingerprint == fingerprint))
            InventoryError.idempotency_payload_conflict
          >> ok (some m)
    ]

-- `role in CUSTODY_ROLES and access_status == APPROVED`
abbrev pub may_hold_custody : User → Bool
may_hold_custody u = is_custody_role u.role && status_eq u.access_status UserAccessStatus.approved

unfoldable pub lock_custody_user :
    List User → MovementType → Option ℕ → Result InventoryError (Option User)
lock_custody_user users type none = ok none
lock_custody_user users type (some k) = do
  user ← or_raise (find_user k users) InventoryError.custody_user_not_found
  raise_if (not (is_reversal type) && not (may_hold_custody user))
      InventoryError.custody_user_not_approved
  ok (some user)

unfoldable pub custody_delta : MovementType → Option Movement → ℤ
custody_delta MovementType.issue original = pos 1
custody_delta MovementType.return original = negsuc 0
custody_delta MovementType.reversal none = pos 0
custody_delta MovementType.reversal (some o) = elim o.movement_type [
  | MovementType.issue ↦ negsuc 0
  | MovementType.return ↦ pos 1
  | _ ↦ pos 0
]
custody_delta _ original = pos 0

-- `_custody_delta(…) > 0`
abbrev pub raises_custody : MovementType → Option Movement → Bool
raises_custody type original = elim (custody_delta type original) [
  | pos zero ↦ false
  | pos (suc n) ↦ true
  | negsuc n ↦ false
]

abbrev pub is_reversal_of : ℕ → Movement → Bool
is_reversal_of k m = is_id m.original_movement_id k && is_reversal m.movement_type

abbrev pub user_may_hold : Option User → Bool
user_may_hold none = false
user_may_hold (some u) = may_hold_custody u

-- The tests of a correction or a reversal against its original.
unfoldable pub check_original :
    List ProcurementRequest
    → List Movement
    → MovementType
    → Option ℕ
    → Option User
    → Option ℕ
    → Result InventoryError (Option Movement)
check_original requests movements type custody user none = ok none
check_original requests movements type custody user (some k) = do
  raise_if (any (λ r. is_id r.final_movement_id k) requests)
      InventoryError.procurement_movement_protected
  original ← or_raise (find_movement k movements) InventoryError.movement_not_found
  raise_if (is_reversal original.movement_type) InventoryError.adjustment_target_invalid
  raise_if (is_correction type && is_some original.custody_user_id)
      InventoryError.custody_correction_forbidden
  raise_if (is_reversal type && not (opt_eq custody original.custody_user_id))
      InventoryError.reversal_custody_mismatch
  raise_if (is_reversal type && any (is_reversal_of k) movements)
      InventoryError.movement_already_reversed
  raise_if
      (is_reversal type
        && is_some custody
        && raises_custody type (some original)
        && not (user_may_hold user))
      InventoryError.custody_user_not_approved
  ok (some original)

abbrev pub location_missing : List Location → Option ℕ → Bool
location_missing locations none = false
location_missing locations (some k) = not (is_some (find_location k locations))

abbrev pub location_inactive : List Location → Option ℕ → Bool
location_inactive locations none = false
location_inactive locations (some k) = elim (find_location k locations) [
  | none ↦ false
  | some l ↦ not (is_active_location l.status)
]

unfoldable pub check_locations : List Location → MovementCreate → Result InventoryError (Unit {0})
check_locations locations p = do
  raise_if
      (location_missing locations p.source_location_id
        || location_missing locations p.destination_location_id)
      InventoryError.location_not_found
  raise_if
      (location_inactive locations p.source_location_id
        || location_inactive locations p.destination_location_id)
      InventoryError.location_archived

abbrev pub item_missing : List Item → ℕ → Bool
item_missing items k = not (is_some (find_item k items))

abbrev pub item_inactive : List Item → ℕ → Bool
item_inactive items k = elim (find_item k items) [
  | none ↦ false
  | some i ↦ not (is_active_item i.status)
]

unfoldable pub check_items : List Item → MovementCreate → Result InventoryError (Unit {0})
check_items items p = do
  raise_if (not (is_nodup (item_ids p.lines))) InventoryError.item_repeated
  raise_if (any (item_missing items) (item_ids p.lines)) InventoryError.item_not_found
  raise_if (is_receipt_or_issue p.movement_type && any (item_inactive items) (item_ids p.lines))
      InventoryError.item_archived

-- `location_id in original_locations`, where `None` is taken out of both sets.
abbrev pub shares_location : Option ℕ → Movement → Bool
shares_location none m = false
shares_location (some k) m = is_id m.source_location_id k || is_id m.destination_location_id k

unfoldable pub check_correction :
    MovementCreate → Option Movement → Result InventoryError (Unit {0})
check_correction p none = ok tt
check_correction p (some original) =
    raise_if
      (is_correction p.movement_type
        && (not (
              shares_location p.source_location_id original
              || shares_location p.destination_location_id original)
            || not
                (all (λ k. contains k (map (λ l. l.item_id) original.lines)) (item_ids p.lines))))
      InventoryError.correction_out_of_scope
