-- ===== src/Warehouse/Location/Closed.antt =====
-- inventory/service.py: what an archived location keeps out.
use dc_inventory.Prelude.{
  ℕ, ◌≡◌, refl, sym, ap, ◌∙◌, ◌⊎◌, inl, inr, true, false, none, some, List, [], ◌∷◌, arith,
}
use dc_inventory.Prelude.Result.{ok}
use dc_inventory.Prelude.Table.{Row, lookup}
use dc_inventory.Database.{Database}
use dc_inventory.Warehouse.Tables.{Location, WarehouseTables, find_location}
use dc_inventory.Warehouse.Movement.Payload.{MovementCreate, Caller, Canonical}
use dc_inventory.Warehouse.Movement.Guards.{check_locations, location_inactive}
use dc_inventory.Warehouse.Movement.Create.{MovementResult, create_movement'}
use dc_inventory.Warehouse.Movement.Create.Steps.{create_steps, record_steps}
use dc_inventory.Warehouse.Location.{has_stock, archive_state, put_location, set_location_archived}

no_row :
    (item location_id : ℕ) (rows : List Row)
    → has_stock location_id rows ≡ false
    → lookup item location_id rows ≡ none
unfolding has_stock lookup
no_row item location_id [] h = refl
no_row item location_id (r ∷ rs) h = ground (arith, no_row item location_id rs)

pub find_location_id :
    (k : ℕ) (ls : List Location) (l : Location) → find_location k ls ≡ some l → l.id ≡ k
find_location_id k [] l h = cc
find_location_id k (x ∷ xs) l h = ground (arith, find_location_id k xs l)

archived_row :
    (location_id now : ℕ) (ls : List Location) (l : Location)
    → find_location location_id ls ≡ some l
    → location_inactive (put_location (archive_state true now l) ls) (some location_id) ≡ true
unfolding put_location
archived_row location_id now [] l h = cc
archived_row location_id now (k ∷ ks) l h =
    ground (arith, archived_row location_id now ks l, find_location_id location_id (k ∷ ks) l h)

archive_steps :
    (location_id now : ℕ) (w : WarehouseTables) {w' : WarehouseTables}
    → set_location_archived location_id true now w ≡ ok w'
    → (l : Location) × (find_location location_id w.locations ≡ some l)
      × (has_stock location_id w.stock ≡ false)
      × (w' ≡ record w { locations = put_location (archive_state true now l) w.locations })
unfolding set_location_archived
archive_steps location_id now w h = ground arith

refused :
    (ls : List Location) (p : MovementCreate) (location_id : ℕ)
    → location_inactive ls (some location_id) ≡ true
    → ((p.source_location_id ≡ some location_id) ⊎ (p.destination_location_id ≡ some location_id))
    → check_locations ls p ≡ ok tt
    → ⊥
unfolding check_locations
refused ls p location_id inactive (inl e) h = absurd (ground (arith, e, inactive))
refused ls p location_id inactive (inr e) h = absurd (ground (arith, e, inactive))

-- In the tables that archiving a location leaves, no item has stock at it, nothing but the rows of the
-- locations has changed, and a movement that names it as its source or its destination is not
-- recorded: such a call, if it succeeds, replays an earlier one.
pub archived_location_closed :
    (canonical_fingerprint : Canonical → ℕ) (location_id now : ℕ) (db : Database)
    {w' : WarehouseTables}
    → set_location_archived location_id true now db.warehouse ≡ ok w'
    → ((item : ℕ) → lookup item location_id w'.stock ≡ none)
      × (w' ≡ record db.warehouse { locations = w'.locations })
      × ((p : MovementCreate) (c : Caller) (r : MovementResult) (db' : Database)
          → ((p.source_location_id ≡ some location_id)
              ⊎ (p.destination_location_id ≡ some location_id))
          → create_movement' canonical_fingerprint (record db { warehouse = w' }) p c ≡ ok (r, db')
          → r.replayed ≡ true)
archived_location_closed canonical_fingerprint location_id now db {w'} h =
    let (l, found, empty, same) = archive_steps location_id now db.warehouse h in
    let inactive =
      ap (λ (w : WarehouseTables). location_inactive w.locations (some location_id)) same
      ∙ archived_row location_id now db.warehouse.locations l found in
    (
      (λ item.
          ap (λ (w : WarehouseTables). lookup item location_id w.stock) same
          ∙ no_row item location_id db.warehouse.stock empty),
      same
          ∙ sym
              (ap (λ (w : WarehouseTables). record db.warehouse { locations = w.locations }) same),
      λ p c r db' named e.
          let (key, _, _, how) =
            create_steps canonical_fingerprint (record db { warehouse = w' }) p c e in
          elim how [
            | inl (_, replayed, _) ↦ replayed
            | inr (_, recorded) ↦
                let steps = record_steps (record db { warehouse = w' }) p c key _ recorded in
                absurd (refused w'.locations p location_id inactive named steps.5)
          ],
    )
