-- ===== src/Warehouse/Location.antt =====
-- inventory/service.py: `create_location`, `update_location` and `set_location_archived`.
pub mod Closed
pub mod Sound
use dc_inventory.Prelude.{ℕ, ◌&&◌, ◌||◌, Bool, true, false, Option, none, some, List, [], ◌∷◌}
use dc_inventory.Prelude.Tests.{◌==◌, ltb, is_some, if◌then◌else◌}
use dc_inventory.Prelude.Lists.{any, all, length}
use dc_inventory.Prelude.Result.{Result, ok, ◌>>=◌, ◌>>◌, raise_if, or_raise}
use dc_inventory.Prelude.Table.{Row}
use dc_inventory.Warehouse.Tables.{
  LocationType, Location, LocationStatus, WarehouseTables, find_location,
}
use dc_inventory.Warehouse.Errors.{InventoryError, Field, normalize_inline_text}
use dc_inventory.Core.Idempotency.{Text, text_eq, normalize_idempotency_key}
use dc_inventory.Procurement.Guards.{strip}

-- Whether a row of stock is at the location.
unfoldable pub has_stock : ℕ → List Row → Bool
has_stock location_id rows = any (λ r. r.key₂ == location_id) rows

abbrev pub archive_state : Bool → ℕ → Location → Location
archive_state true now l = record l { status = LocationStatus.archived; archived_at = some now }
archive_state false now l = record l { status = LocationStatus.active; archived_at = none }

-- The row of a location is written back.
unfoldable pub put_location : Location → List Location → List Location
put_location l [] = []
put_location l (k ∷ ks) = if k.id == l.id then l ∷ ks else k ∷ put_location l ks

unfoldable pub set_location_archived :
    ℕ → Bool → ℕ → WarehouseTables → Result InventoryError WarehouseTables
set_location_archived location_id archived now w = do
  location ← or_raise (find_location location_id w.locations) InventoryError.location_not_found
  raise_if (archived && has_stock location_id w.stock) InventoryError.location_not_empty
  ok (record w { locations = put_location (archive_state archived now location) w.locations })

pub record LocationCreate : Type 0 where
  pub code : Text
  pub name : Text
  pub location_type : LocationType
  pub address : Option Text

pub record LocationPatch : Type 0 where
  pub name : Text
  pub location_type : LocationType
  pub address : Option Text

abbrev not_empty : Text → Option Text
not_empty [] = none
not_empty (c ∷ cs) = some (c ∷ cs)

-- `value.strip() or None`
unfoldable pub normalize_optional_text : Option Text → Option Text
normalize_optional_text none = none
normalize_optional_text (some value) = not_empty (strip value)

-- `btrim(text) = ''`
abbrev pub is_blank : Text → Bool
is_blank = all λ c. c == 32

-- `nfkc` is `unicodedata.normalize("NFKC", …)` and `casefold` is `str.casefold`.
module _ (nfkc casefold : Text → Text) where
  unfoldable pub identity_text : Text → Text
  identity_text value = casefold (normalize_idempotency_key (nfkc value))

  -- The index on normalized_code is unique, and the code is not blank.
  unfoldable pub create_location :
      ℕ → LocationCreate → WarehouseTables → Result InventoryError WarehouseTables
  create_location location_id payload w = do
    code ← normalize_inline_text payload.code Field.code 64
    let normalized_code = identity_text code
    raise_if (ltb 64 (length normalized_code)) InventoryError.normalized_code_too_long
    name ← normalize_inline_text payload.name Field.name 255
    raise_if (is_blank normalized_code) InventoryError.check_violation
    raise_if
        (is_some (find_location location_id w.locations)
          || any (λ (l : Location). text_eq l.normalized_code normalized_code) w.locations)
        InventoryError.duplicate_key
    ok (record w {
      locations =
          record {
            id = location_id;
            code = code;
            normalized_code = normalized_code;
            name = name;
            address = normalize_optional_text payload.address;
            location_type = payload.location_type;
            status = LocationStatus.active;
            archived_at = none;
          }
          ∷ w.locations;
    })

unfoldable pub update_location :
    ℕ → LocationPatch → WarehouseTables → Result InventoryError WarehouseTables
update_location location_id payload w = do
  location ← or_raise (find_location location_id w.locations) InventoryError.location_not_found
  name ← normalize_inline_text payload.name Field.name 255
  ok (record w {
    locations =
        put_location
          (record location {
            name = name;
            location_type = payload.location_type;
            address = normalize_optional_text payload.address;
          })
          w.locations;
  })
