-- ===== src/Tests/Places.antt =====
-- The theorem on the calls on locations, where a hall is opened beside the room.
use dc_inventory.Prelude.{◌≡◌, refl, sym, true, none, [], ◌∷◌, arith}
use dc_inventory.Prelude.Result.{Result}
use dc_inventory.Core.Idempotency.{Text, text_eq, is_space, split, join, normalize_idempotency_key}
use dc_inventory.Warehouse.Tables.{LocationType, WarehouseTables}
use dc_inventory.Warehouse.Errors.{InventoryError, normalize_inline_text}
use dc_inventory.Warehouse.Location.{
  LocationCreate, identity_text, normalize_optional_text, create_location,
}
use dc_inventory.Warehouse.Location.Sound.{
  LocationsSound, LocationCall, call_location, call-LocationsSound,
}
use dc_inventory.Tests.Data.{empty_tables, is_ok, given, succeeded}

-- A second location beside the room.
abbrev hall : LocationCreate
hall = record {
  code = 66 ∷ [];
  name = 72 ∷ [];
  location_type = LocationType.datacenter;
  address = none;
}

abbrev unchanged_text : Text → Text
unchanged_text t = t

abbrev opening : Result InventoryError WarehouseTables
opening =
    call_location unchanged_text unchanged_text (LocationCall.create 2 hall) empty_tables.warehouse

opening_run :
    (is_ok opening ≡ true) × (identity_text unchanged_text unchanged_text (65 ∷ []) ≡ 65 ∷ [])
unfolding text_eq is_space split join normalize_idempotency_key normalize_inline_text identity_text
    create_location call_location normalize_optional_text
opening_run = (refl, refl)

call-LocationsSound_example :
    LocationsSound unchanged_text unchanged_text (given empty_tables.warehouse opening).locations
call-LocationsSound_example =
    call-LocationsSound unchanged_text unchanged_text (LocationCall.create 2 hall)
      empty_tables.warehouse
      (record {
        proper = (
          record {
            code = (omega arith, omega arith);
            normalized = sym opening_run.1;
            normalized_bound = omega arith;
            visible = refl;
            name = (omega arith, omega arith);
            archive = refl;
          },
          tt,
        );
        distinct = refl;
      })
      (succeeded empty_tables.warehouse opening opening_run.0)
