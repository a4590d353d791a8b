-- ===== src/Warehouse/Effect/Stock.antt =====
-- A movement changes each balance by exactly what its payload says.
use mathlib.Core.Path.{subst}
use dc_inventory.Prelude.{
  ℕ, ◌≡◌, refl, sym, ap, ◌∙◌, inl, inr, false, Option, none, some, List, ◌∷◌, arith,
}
use dc_inventory.Prelude.Tests.{is_id, is_some, if◌then◌else◌}
use dc_inventory.Prelude.Int.{ℤ, pos, ◌+ℤ◌, sub_ℕ}
use dc_inventory.Prelude.Result.{ok}
use dc_inventory.Prelude.Table.{lookup}
use dc_inventory.Core.Idempotency.{Text}
use dc_inventory.Database.{Database}
use dc_inventory.Warehouse.Tables.{Movement, find_movement}
use dc_inventory.Warehouse.Journal.{
  stock_delta, sum_lines, journal_stock, journal_custody, custody_sign, original_of,
}
use dc_inventory.Warehouse.Journal.Extend.{custody_change, journal_custody_cons}
use dc_inventory.Warehouse.Projection.Exact.{Shows}
use dc_inventory.Warehouse.Consistent.{IsConsistent}
use dc_inventory.Warehouse.Consistent.Insert.{insert_steps}
use dc_inventory.Warehouse.Movement.Payload.{MovementCreate, Caller, Canonical, sort_lines}
use dc_inventory.Warehouse.Movement.Payload.Sorted.{sum_payload, sum-sort_lines}
use dc_inventory.Warehouse.Movement.Lines.{quantity_or_zero}
use dc_inventory.Warehouse.Movement.Lines.Passed.{check_lines-Fits}
use dc_inventory.Warehouse.Movement.Create.{
  MovementResult, record_movement, create_movement', make_movement,
}
use dc_inventory.Warehouse.Movement.Create.Steps.{record_steps, create_steps}
use dc_inventory.Warehouse.Effect.Create.{record-IsConsistent}

-- The balance that a row stands for.
abbrev pub stock_of : Database → ℕ → ℕ → ℤ
stock_of db item location = pos (quantity_or_zero (lookup item location db.warehouse.stock))

abbrev pub custody_of : Database → ℕ → ℕ → ℤ
custody_of db user item = pos (quantity_or_zero (lookup user item db.warehouse.custody))

pub Shows-value : (o : Option ℕ) (s : ℤ) → Shows o s → s ≡ pos (quantity_or_zero o)
Shows-value none s h = h
Shows-value (some q) s h = h.0

-- What the payload asks for at a location: in at the destination, out at the source.
abbrev pub payload_delta : MovementCreate → ℕ → ℕ → ℤ
payload_delta p location q =
    sub_ℕ (if is_id p.destination_location_id location then q else 0)
      (if is_id p.source_location_id location then q else 0)

-- What the payload asks for of the custody of a user, where `journal` has the original.
abbrev pub payload_custody : List Movement → MovementCreate → Caller → ℕ → ℕ → ℤ
payload_custody journal p c user item =
    if is_id c.custody_user_id user
    then sum_payload (custody_sign p.movement_type (original_of journal p.original_movement_id))
        item p.lines
    else pos 0

abbrev Effect : MovementCreate → Caller → Movement → Type 0
Effect p c m =
    ((f : ℕ → ℤ) (item : ℕ) → sum_lines f item m.lines ≡ sum_payload f item p.lines)
    × (m.source_location_id ≡ p.source_location_id)
    × (m.destination_location_id ≡ p.destination_location_id)
    × (m.movement_type ≡ p.movement_type)
    × (m.original_movement_id ≡ p.original_movement_id)
    × (m.custody_user_id ≡ c.custody_user_id)

-- The recorded movement carries what the payload asks for.
pub record-Effect :
    (db : Database) (p : MovementCreate) (c : Caller) (request_id : Text) (fingerprint : ℕ)
    {r : MovementResult} {db' : Database}
    → record_movement db p c request_id fingerprint ≡ ok (r, db')
    → Effect p c r.movement × (is_some (find_movement r.movement.id db.warehouse.movements) ≡ false)
unfolding make_movement
record-Effect db p c request_id fingerprint h =
    let (user, _, _, original, _, _, _, _, actor, _, lines, checked, inserted, made, _) =
      record_steps db p c request_id fingerprint h in
    let fits = check_lines-Fits db.warehouse _ 1 (sort_lines p.lines) checked in
    subst
      (λ (x : MovementResult).
        Effect p c x.movement
        × (is_some (find_movement x.movement.id db.warehouse.movements) ≡ false))
      (sym made)
      (
        (
          (λ f item. fits.sums f item ∙ sum-sort_lines f item p.lines),
          refl,
          refl,
          refl,
          refl,
          refl,
        ),
        (insert_steps db.identity.users _ db.warehouse inserted).0,
      )

journal_value :
    (db : Database) (item location : ℕ)
    → IsConsistent db.warehouse
    → journal_stock item location db.warehouse.movements ≡ stock_of db item location
journal_value db item location v =
    Shows-value (lookup item location db.warehouse.stock) _ (v.stock item location)

custody_value :
    (db : Database) (user item : ℕ)
    → IsConsistent db.warehouse
    → journal_custody user item db.warehouse.movements ≡ custody_of db user item
custody_value db user item v =
    Shows-value (lookup user item db.warehouse.custody) _ (v.custody user item)

-- One movement more in the journal adds its delta to the balance.
balance_after :
    (db db' : Database) (p : MovementCreate) (c : Caller) (m : Movement) (item location : ℕ)
    → IsConsistent db.warehouse
    → IsConsistent db'.warehouse
    → db'.warehouse.movements ≡ m ∷ db.warehouse.movements
    → Effect p c m
    → stock_of db' item location
      ≡ sum_payload (payload_delta p location) item p.lines +ℤ stock_of db item location
unfolding journal_stock
balance_after db db' p c m item location v v' journal (sums, source, destination, _, _, _) =
    sym (journal_value db' item location v')
    ∙ ap (journal_stock item location) journal
    ∙ ap (λ t. t +ℤ journal_stock item location db.warehouse.movements)
        (sums (stock_delta m location) item ∙ rw (source, destination) refl)
    ∙ ap (λ t. sum_payload (payload_delta p location) item p.lines +ℤ t)
        (journal_value db item location v)

held_after :
    (db db' : Database) (p : MovementCreate) (c : Caller) (m : Movement) (user item : ℕ)
    → IsConsistent db.warehouse
    → IsConsistent db'.warehouse
    → db'.warehouse.movements ≡ m ∷ db.warehouse.movements
    → is_some (find_movement m.id db.warehouse.movements) ≡ false
    → Effect p c m
    → custody_of db' user item
      ≡ payload_custody db'.warehouse.movements p c user item +ℤ custody_of db user item
held_after db db' p c m user item v v' journal fresh (sums, _, _, type, original, custody) =
    sym (custody_value db' user item v')
    ∙ ap (journal_custody user item) journal
    ∙ journal_custody_cons m db.warehouse.movements user item fresh v.closed
    ∙ ap (λ t. custody_change (m ∷ db.warehouse.movements) user item m +ℤ t)
        (custody_value db user item v)
    ∙ ap (λ t. t +ℤ custody_of db user item)
        (simp (sums, type, original, custody)
          (ap (λ j. payload_custody j p c user item) (sym journal)))

-- Every stock balance changes by the quantities that the payload brings in at its destination and
-- takes out at its source, every custody balance of the custody user by the quantities that the
-- movement's type issues or takes back; the movement is the new head of the journal, and nothing
-- but the warehouse tables changes.
pub record Moved (db : Database) (p : MovementCreate) (c : Caller) (m : Movement) (db' : Database)
    : Type 0 where
  pub stock :
      (item location : ℕ)
      → stock_of db' item location
        ≡ sum_payload (payload_delta p location) item p.lines +ℤ stock_of db item location
  pub custody :
      (user item : ℕ)
      → custody_of db' user item
        ≡ payload_custody db'.warehouse.movements p c user item +ℤ custody_of db user item
  pub journal : db'.warehouse.movements ≡ m ∷ db.warehouse.movements
  pub rest : db' ≡ record db { warehouse = db'.warehouse }

pub record-Moved :
    (db : Database) (p : MovementCreate) (c : Caller) (request_id : Text) (fingerprint : ℕ)
    {r : MovementResult} {db' : Database}
    → IsConsistent db.warehouse
    → record_movement db p c request_id fingerprint ≡ ok (r, db')
    → Moved db p c r.movement db'
record-Moved db p c request_id fingerprint {r} {db'} v e =
    let (v', journal) = record-IsConsistent db p c request_id fingerprint v e in
    let (effect, fresh) = record-Effect db p c request_id fingerprint e in
    let (_, _, _, _, _, _, _, _, _, _, _, _, _, _, same) =
      record_steps db p c request_id fingerprint e in
    record {
      stock =
          λ item location. balance_after db db' p c r.movement item location v v' journal effect;
      custody = λ user item. held_after db db' p c r.movement user item v v' journal fresh effect;
      journal = journal;
      rest = same;
    }

module _ (canonical_fingerprint : Canonical → ℕ) where
  pub create'-Moved :
      (db : Database) (p : MovementCreate) (c : Caller) {r : MovementResult} {db' : Database}
      → IsConsistent db.warehouse
      → create_movement' canonical_fingerprint db p c ≡ ok (r, db')
      → r.replayed ≡ false
      → Moved db p c r.movement db'
  create'-Moved db p c v h new =
      let (request_id, _, _, how) = create_steps canonical_fingerprint db p c h in
      elim how [
        | inl (_, old, _) ↦ absurd (ground (arith, new, old))
        | inr (_, recorded) ↦ record-Moved db p c request_id _ v recorded
      ]
