-- ===== src/Tests/Data.antt =====
-- The tables and the calls that the runs use.
use dc_inventory.Prelude.{
  ℕ, ◌+◌, ◌*◌, ◌≡◌, refl, Bool, true, false, arith, Option, none, some, List, [], ◌∷◌,
}
use dc_inventory.Prelude.Lists.{length}
use dc_inventory.Prelude.Result.{Result, ok, err}
use dc_inventory.Database.{Database}
use dc_inventory.Identity.Policy.{UserRole, UserAccessStatus}
use dc_inventory.Identity.Tables.{User, IdentityTables}
use dc_inventory.Warehouse.Tables.{
  Location, LocationStatus, LocationType, Item, ItemStatus, Movement, MovementType,
}
use dc_inventory.Warehouse.Movement.Payload.{MovementCreate, MovementLineCreate, Caller, Canonical}
use dc_inventory.Warehouse.Movement.Create.{MovementResult}
use dc_inventory.System.{start}

abbrev pub room : Location
room = record {
  id = 1;
  code = 65 ∷ [];
  normalized_code = 65 ∷ [];
  name = 82 ∷ [];
  address = none;
  location_type = LocationType.warehouse;
  status = LocationStatus.active;
  archived_at = none;
}

abbrev pub cable : Item
cable = record {
  id = 10;
  name = 67 ∷ [];
  model = none;
  manufacturer_id = none;
  status = ItemStatus.active;
  identity_signature = 77;
}

abbrev pub user : ℕ → UserRole → User
user k role = record {
  id = k;
  role = role;
  access_status = UserAccessStatus.approved;
  approved_at = some 0;
  approved_by_user_id = none;
}

abbrev pub people : IdentityTables
people = record {
  users = user 1 UserRole.admin ∷ user 2 UserRole.manager ∷ user 3 UserRole.engineer ∷ [];
  identities = [];
  access_requests = [];
  access_events = [];
  role_events = [];
  auth_sessions = [];
}

abbrev pub empty_tables : Database
empty_tables = start people (room ∷ []) (cable ∷ []) [] []

-- Digests for the runs.
abbrev pub id_hash : ℕ → ℕ
id_hash n = n

abbrev pub digest : Canonical → ℕ
digest c = length c.client_request_id + 10 * length c.lines

abbrev pub cables : ℕ → List MovementLineCreate
cables q = record { item_id = 10; quantity = q } ∷ []

abbrev pub receipt_of_five : MovementCreate
receipt_of_five = record {
  movement_type = MovementType.receipt;
  source_location_id = none;
  destination_location_id = some 1;
  original_movement_id = none;
  client_request_id = 107 ∷ 32 ∷ 49 ∷ [];
  lines = cables 5;
}

abbrev pub issue_of_two : MovementCreate
issue_of_two = record {
  movement_type = MovementType.issue;
  source_location_id = some 1;
  destination_location_id = none;
  original_movement_id = none;
  client_request_id = 107 ∷ 32 ∷ 50 ∷ [];
  lines = cables 2;
}

abbrev pub caller : ℕ → Option ℕ → ℕ → Caller
caller k custody movement = record {
  actor_user_id = k;
  actor_display_name = 78 ∷ [];
  custody_user_id = custody;
  movement_id = movement;
  now = 1000;
}

-- Whether a call succeeds, and what it gives then.
abbrev pub is_ok {ℓ} : {E A : Type ℓ} → Result E A → Bool
is_ok (ok a) = true
is_ok (err e) = false

abbrev pub given {ℓ} : {E A : Type ℓ} → A → Result E A → A
given d (ok a) = a
given d (err e) = d

pub succeeded {ℓ} : {E A : Type ℓ} (d : A) (m : Result E A) → is_ok m ≡ true → m ≡ ok (given d m)
succeeded d (ok a) h = refl
succeeded d (err e) h = absurd (ground (arith, h))

abbrev pub no_movement : Movement
no_movement = record {
  id = 0;
  movement_type = MovementType.receipt;
  line_count = 0;
  actor_user_id = 0;
  custody_user_id = none;
  actor_display_name_snapshot = [];
  source_location_id = none;
  destination_location_id = none;
  source_location_code_snapshot = none;
  source_location_name_snapshot = none;
  destination_location_code_snapshot = none;
  destination_location_name_snapshot = none;
  original_movement_id = none;
  client_request_id = [];
  request_fingerprint = 0;
  occurred_at = 0;
  lines = [];
}

-- What stands for the answer of a call that raises.
abbrev pub nothing : MovementResult × Database
nothing = (record { movement = no_movement; replayed = true }, empty_tables)
