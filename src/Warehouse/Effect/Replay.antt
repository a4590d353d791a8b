-- ===== src/Warehouse/Effect/Replay.antt =====
-- inventory/service.py: the idempotency key of a movement.
use mathlib.Core.Path.{subst}
use dc_inventory.Prelude.{ℕ, ◌≡◌, refl, sym, ap, ◌∙◌, inl, inr, true, some, List, arith}
use dc_inventory.Prelude.Tests.{◌==◌, if◌then◌else◌}
use dc_inventory.Prelude.Lists.{find}
use dc_inventory.Prelude.Result.{ok, err}
use dc_inventory.Core.Idempotency.{Text, text_eq_refl, normalize_idempotency_key}
use dc_inventory.Database.{Database}
use dc_inventory.Warehouse.Tables.{Movement}
use dc_inventory.Warehouse.Errors.{
  InventoryError, Field, normalize_inline_text, normalize_inline_text_ok,
  normalize_inline_text_same,
}
use dc_inventory.Warehouse.Consistent.{IsConsistent}
use dc_inventory.Warehouse.Movement.Payload.{
  MovementCreate, Caller, Canonical, canonical, check_custody_arguments,
}
use dc_inventory.Warehouse.Movement.Guards.{same_key, existing_idempotent_result}
use dc_inventory.Warehouse.Movement.Create.{
  MovementResult, Outcome, record_movement, create_movement', make_movement,
}
use dc_inventory.Warehouse.Movement.Create.Steps.{record_steps, create_steps}
use dc_inventory.Warehouse.Effect.Create.{record-IsConsistent}

existing_steps :
    (movements : List Movement) (actor : ℕ) (request_id : Text) (fingerprint : ℕ) {m : Movement}
    → existing_idempotent_result movements actor request_id fingerprint ≡ ok (some m)
    → (find (same_key actor request_id) movements ≡ some m) × (m.request_fingerprint ≡ fingerprint)
unfolding existing_idempotent_result
existing_steps movements actor request_id fingerprint h = ground arith

-- With the key known, the answer depends on the fingerprint alone.
existing_known :
    (movements : List Movement) (actor : ℕ) (request_id : Text) (fingerprint : ℕ) (m : Movement)
    → find (same_key actor request_id) movements ≡ some m
    → existing_idempotent_result movements actor request_id fingerprint ≡ (
        if m.request_fingerprint == fingerprint
        then ok (some m)
        else err InventoryError.idempotency_payload_conflict)
unfolding existing_idempotent_result
existing_known movements actor request_id fingerprint m h = ground arith

-- The journal has the movement under its key.
abbrev Known : Database → ℕ → Text → ℕ → Movement → Type 0
Known db actor request_id fingerprint m =
    (find (same_key actor request_id) db.warehouse.movements ≡ some m)
    × (m.request_fingerprint ≡ fingerprint)

record-Known :
    (db : Database) (p : MovementCreate) (c : Caller) (request_id : Text) (fingerprint : ℕ)
    {r : MovementResult} {db' : Database}
    → IsConsistent db.warehouse
    → record_movement db p c request_id fingerprint ≡ ok (r, db')
    → Known db' c.actor_user_id request_id fingerprint r.movement
unfolding make_movement
record-Known db p c request_id fingerprint v h =
    let (_, journal) = record-IsConsistent db p c request_id fingerprint v h in
    let (_, _, _, _, _, _, _, _, _, _, _, _, _, made, _) =
      record_steps db p c request_id fingerprint h in
    rw journal (ground (arith, made, text_eq_refl request_id))

-- The digest that decides whether a call is the same request.
abbrev pub request_fingerprint : (Canonical → ℕ) → MovementCreate → Caller → ℕ
request_fingerprint canonical_fingerprint p c =
    canonical_fingerprint
      (canonical p c.custody_user_id (normalize_idempotency_key p.client_request_id))

-- What a call whose key is known answers.
abbrev answer : Movement → Database → ℕ → Outcome
answer m db fingerprint =
    if m.request_fingerprint == fingerprint
    then ok (record { movement = m; replayed = true }, db)
    else err InventoryError.idempotency_payload_conflict

module _ (canonical_fingerprint : Canonical → ℕ) where
  create'-Known :
      (db : Database) (p : MovementCreate) (c : Caller) {r : MovementResult} {db' : Database}
      → IsConsistent db.warehouse
      → create_movement' canonical_fingerprint db p c ≡ ok (r, db')
      → Known db' c.actor_user_id
          (normalize_idempotency_key p.client_request_id)
          (request_fingerprint canonical_fingerprint p c)
          r.movement
        × (normalize_inline_text p.client_request_id Field.client_request_id 128
            ≡ ok (normalize_idempotency_key p.client_request_id))
  create'-Known db p c {r} {db'} v h =
      let (request_id, normal, _, how) = create_steps canonical_fingerprint db p c h in
      let e = normalize_inline_text_ok p.client_request_id Field.client_request_id 128 normal in
      subst
        (λ t.
          Known db' c.actor_user_id t (canonical_fingerprint (canonical p c.custody_user_id t))
            r.movement
          × (normalize_inline_text p.client_request_id Field.client_request_id 128 ≡ ok t))
        (sym e)
        (
          elim how [
            | inl (found, _, same) ↦
                subst
                  (λ (d : Database).
                    Known d c.actor_user_id request_id
                      (canonical_fingerprint (canonical p c.custody_user_id request_id)) r.movement)
                  (sym same)
                  (existing_steps db.warehouse.movements c.actor_user_id request_id _ found)
            | inr (_, recorded) ↦ record-Known db p c request_id _ v recorded
          ],
          normal,
        )

  answer_known :
      (db : Database) (p : MovementCreate) (c : Caller) (request_id : Text) (m : Movement)
      → check_custody_arguments p c ≡ ok tt
      → normalize_inline_text p.client_request_id Field.client_request_id 128 ≡ ok request_id
      → find (same_key c.actor_user_id request_id) db.warehouse.movements ≡ some m
      → create_movement' canonical_fingerprint db p c
        ≡ answer m db (canonical_fingerprint (canonical p c.custody_user_id request_id))
  unfolding create_movement'
  answer_known db p c request_id m custody normal found = ground (
    arith,
    existing_known db.warehouse.movements c.actor_user_id request_id
        (canonical_fingerprint (canonical p c.custody_user_id request_id)) m found,
  )

  -- In the tables that a successful call of `_create_movement` on consistent tables leaves, a call of
  -- the same actor whose key has the same normal form, and which passes the tests on custody, records
  -- nothing: it answers with the first movement if its fingerprint is the same, and else with a conflict.
  pub create'-retry :
      (db : Database) (p p' : MovementCreate) (c c' : Caller) {r : MovementResult} {db' : Database}
      → IsConsistent db.warehouse
      → create_movement' canonical_fingerprint db p c ≡ ok (r, db')
      → c'.actor_user_id ≡ c.actor_user_id
      → normalize_idempotency_key p'.client_request_id
        ≡ normalize_idempotency_key p.client_request_id
      → check_custody_arguments p' c' ≡ ok tt
      → create_movement' canonical_fingerprint db' p' c' ≡ (
          if request_fingerprint canonical_fingerprint p c
            == request_fingerprint canonical_fingerprint p' c'
          then ok (record { movement = r.movement; replayed = true }, db')
          else err InventoryError.idempotency_payload_conflict)
  create'-retry db p p' c c' {r} {db'} v h actor key custody =
      let (known, normal) = create'-Known db p c v h in
      let name = normalize_idempotency_key p.client_request_id in
      retried r.movement
        (answer_known db' p' c' name r.movement custody
          (normalize_inline_text_same p'.client_request_id p.client_request_id
              Field.client_request_id 128 key
            ∙ normal)
          (ap (λ a. find (same_key a name) db'.warehouse.movements) actor ∙ known.0))
        known.1 key
    where
      retried :
          (m : Movement) {o : Outcome} {x : ℕ} {s t : Text}
          → o ≡ answer m db' (canonical_fingerprint (canonical p' c'.custody_user_id t))
          → m.request_fingerprint ≡ x
          → s ≡ t
          → o ≡ (
              if x == canonical_fingerprint (canonical p' c'.custody_user_id s)
              then ok (record { movement = m; replayed = true }, db')
              else err InventoryError.idempotency_payload_conflict)
      retried m e f g = rw (e, f, g) refl
