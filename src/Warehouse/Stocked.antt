-- ===== src/Warehouse/Stocked.antt =====
-- What the warehouse keeps together with the users: the projections show the journal, and whoever
-- holds equipment is eligible to.
use mathlib.Core.Path.{subst}
use dc_inventory.Prelude.{ℕ, ◌≡◌, sym, ap, ◌∙◌, some}
use dc_inventory.Prelude.Result.{ok}
use dc_inventory.Prelude.Table.{lookup}
use dc_inventory.Database.{Database}
use dc_inventory.Identity.Tables.{IdentityTables, find_user}
use dc_inventory.Identity.Administration.Holders.{HoldersEligible}
use dc_inventory.Warehouse.Consistent.{IsConsistent}
use dc_inventory.Warehouse.Tables.{WarehouseTables}
use dc_inventory.Warehouse.Movement.Guards.{user_may_hold}
use dc_inventory.Warehouse.Movement.Payload.{MovementCreate, Caller, Canonical}
use dc_inventory.Warehouse.Movement.Create.{MovementResult, create_movement'}
use dc_inventory.Warehouse.Effect.Create.{create'-IsConsistent}
use dc_inventory.Warehouse.Effect.Holders.{create'-HoldersEligible}

pub record Stocked (db : Database) : Type 0 where
  pub warehouse : IsConsistent db.warehouse
  pub holders : HoldersEligible db

pub create'-Stocked :
    (canonical_fingerprint : Canonical → ℕ) (db : Database) (p : MovementCreate) (c : Caller)
    {r : MovementResult} {db' : Database}
    → Stocked db
    → create_movement' canonical_fingerprint db p c ≡ ok (r, db')
    → Stocked db'
create'-Stocked canonical_fingerprint db p c v h = record {
  warehouse = create'-IsConsistent canonical_fingerprint db p c v.warehouse h;
  holders = create'-HoldersEligible canonical_fingerprint db p c v.warehouse v.holders h;
}

-- A call that leaves the warehouse and the users alone.
abbrev pub Untouched : Database → Database → Type 0
Untouched db db' = (db'.warehouse ≡ db.warehouse) × (db'.identity ≡ db.identity)

pub untouched-Stocked : {db db' : Database} → Untouched db db' → Stocked db → Stocked db'
untouched-Stocked {db} {db'} (warehouse, identity) v = record {
  warehouse = subst IsConsistent (sym warehouse) v.warehouse;
  holders = record {
    holder = λ user item quantity held.
        ap (λ (t : IdentityTables). user_may_hold (find_user user t.users)) identity
        ∙ v.holders.holder user item quantity (
            subst (λ (w : WarehouseTables). lookup user item w.custody ≡ some quantity) warehouse
              held);
  };
}
