-- ===== src/Warehouse/Effect/Frame.antt =====
-- inventory/service.py: what a movement leaves alone.
use dc_inventory.Prelude.{ℕ, ◌≡◌, ap, inl, inr, arith}
use dc_inventory.Prelude.Result.{ok}
use dc_inventory.Database.{Database}
use dc_inventory.Warehouse.Movement.Payload.{MovementCreate, Caller, Canonical}
use dc_inventory.Warehouse.Movement.Create.{MovementResult, create_movement, create_movement'}
use dc_inventory.Warehouse.Movement.Create.Steps.{record_steps, create_steps}

-- `create_movement` is `_create_movement` where it succeeds.
pub create_is :
    (canonical_fingerprint : Canonical → ℕ) (db : Database) (p : MovementCreate) (c : Caller)
    {r : MovementResult} {db' : Database}
    → create_movement canonical_fingerprint db p c ≡ ok (r, db')
    → create_movement' canonical_fingerprint db p c ≡ ok (r, db')
unfolding create_movement
create_is canonical_fingerprint db p c h = ground arith

pub create'-requests :
    (canonical_fingerprint : Canonical → ℕ) (db : Database) (p : MovementCreate) (c : Caller)
    {r : MovementResult} {db' : Database}
    → create_movement' canonical_fingerprint db p c ≡ ok (r, db')
    → db'.requests ≡ db.requests
create'-requests canonical_fingerprint db p c h =
    let (request_id, _, _, how) = create_steps canonical_fingerprint db p c h in
    elim how [
      | inl (_, _, same) ↦ ap (λ (d : Database). d.requests) same
      | inr (_, recorded) ↦
          let (_, _, _, _, _, _, _, _, _, _, _, _, _, _, same) =
            record_steps db p c request_id _ recorded in
          ap (λ (d : Database). d.requests) same
    ]

pub create'-identity :
    (canonical_fingerprint : Canonical → ℕ) (db : Database) (p : MovementCreate) (c : Caller)
    {r : MovementResult} {db' : Database}
    → create_movement' canonical_fingerprint db p c ≡ ok (r, db')
    → db'.identity ≡ db.identity
create'-identity canonical_fingerprint db p c h =
    let (request_id, _, _, how) = create_steps canonical_fingerprint db p c h in
    elim how [
      | inl (_, _, same) ↦ ap (λ (d : Database). d.identity) same
      | inr (_, recorded) ↦
          let (_, _, _, _, _, _, _, _, _, _, _, _, _, _, same) =
            record_steps db p c request_id _ recorded in
          ap (λ (d : Database). d.identity) same
    ]

pub create-requests :
    (canonical_fingerprint : Canonical → ℕ) (db : Database) (p : MovementCreate) (c : Caller)
    {r : MovementResult} {db' : Database}
    → create_movement canonical_fingerprint db p c ≡ ok (r, db')
    → db'.requests ≡ db.requests
create-requests canonical_fingerprint db p c h =
    create'-requests canonical_fingerprint db p c (create_is canonical_fingerprint db p c h)
