-- ===== src/Warehouse/Effect/Holders.antt =====
-- A movement that raises the custody of a user was let through for an eligible user.
use mathlib.Core.Path.{subst}
use dc_inventory.Prelude.{
  ℕ, ◌≡◌, ◌<◌, refl, sym, ap, ◌∙◌, inl, inr, true, false, Option, none, some, List, [], ◌∷◌, arith,
}
use dc_inventory.Prelude.Tests.{is_id, is_some, if◌then◌else◌, Bool-cases, Option-cases}
use dc_inventory.Prelude.Int.{ℤ, pos, neg, pos_part, ◌+ℤ◌, +ℤ-zero}
use dc_inventory.Prelude.Result.{ok}
use dc_inventory.Prelude.Table.{lookup}
use dc_inventory.Core.Idempotency.{Text}
use dc_inventory.Database.{Database}
use dc_inventory.Identity.Tables.{User, find_user}
use dc_inventory.Identity.Administration.Holders.{HoldersEligible}
use dc_inventory.Procurement.Tables.{ProcurementRequest}
use dc_inventory.Warehouse.Tables.{Movement, MovementType, find_movement}
use dc_inventory.Warehouse.Journal.{custody_sign, original_of, journal_custody}
use dc_inventory.Warehouse.Journal.Extend.{find_movement_cons}
use dc_inventory.Warehouse.Projection.Exact.{Shows}
use dc_inventory.Warehouse.Movement.Lines.{quantity_or_zero}
use dc_inventory.Warehouse.Effect.Create.{record-IsConsistent}
use dc_inventory.Warehouse.Consistent.{IsConsistent}
use dc_inventory.Warehouse.Movement.Payload.{MovementCreate, MovementLineCreate, Caller, Canonical}
use dc_inventory.Warehouse.Movement.Payload.Sorted.{sum_payload}
use dc_inventory.Warehouse.Movement.Guards.{
  user_may_hold, raises_custody, lock_custody_user, check_original, custody_delta,
}
use dc_inventory.Warehouse.Movement.Guards.Original.{original_steps, original_found}
use dc_inventory.Warehouse.Movement.Create.{MovementResult, record_movement, create_movement'}
use dc_inventory.Warehouse.Movement.Create.Steps.{record_steps, create_steps}
use dc_inventory.Warehouse.Effect.Stock.{record-Moved, record-Effect, payload_custody}

-- A sum of terms that are not positive is not positive.
sum_not_positive :
    (f : ℕ → ℤ) (item : ℕ) (ls : List MovementLineCreate)
    → ((q : ℕ) → pos_part (f q) ≡ 0)
    → pos_part (sum_payload f item ls) ≡ 0
unfolding sum_payload ◌+ℤ◌
sum_not_positive f item [] h = refl
sum_not_positive f item (l ∷ ls) h = ground (arith, h l.quantity, sum_not_positive f item ls h)

sign_not_positive :
    (type : MovementType) (o : Option Movement)
    → raises_custody type o ≡ false
    → (q : ℕ) → pos_part (custody_sign type o q) ≡ 0
unfolding custody_delta neg
sign_not_positive type o h q = ground arith

-- The guards let a movement that raises custody through for an eligible user only.
guarded :
    (users : List User) (requests : List ProcurementRequest) (journal : List Movement)
    (type : MovementType) (k : ℕ) (user : Option User) (named : Option ℕ) {o : Option Movement}
    → lock_custody_user users type (some k) ≡ ok user
    → check_original requests journal type (some k) user named ≡ ok o
    → raises_custody type (original_of journal named) ≡ true
    → user_may_hold (find_user k users) ≡ true
unfolding lock_custody_user custody_delta
guarded users requests journal type k user none locked checked raises = ground arith
guarded users requests journal type k user (some j) locked checked raises =
    let (original, found, _, _, _, _, _, _, test) =
      original_steps requests journal type (some k) user j checked in
    ground (arith, locked, raises, found, test)

-- A balance that was not there and is there now: the movement is on that user and raises custody.
raised :
    (type : MovementType) (o : Option Movement) (custody : Option ℕ) (user item quantity : ℕ)
    (ls : List MovementLineCreate)
    → pos quantity
      ≡ (if is_id custody user then sum_payload (custody_sign type o) item ls else pos 0)
    → 0 < quantity
    → (is_id custody user ≡ true) × (raises_custody type o ≡ true)
raised type o custody user item quantity ls h positive =
    let named : is_id custody user ≡ true = ground (arith, h, positive) in
    (
      named,
      elim (Bool-cases (raises_custody type o)) [
        | inl raises ↦ raises
        | inr low ↦ absurd (
            ground (
              arith,
              h,
              named,
              positive,
              sum_not_positive (custody_sign type o) item ls (sign_not_positive type o low),
            ))
      ],
    )

is_id-some : (o : Option ℕ) (k : ℕ) → is_id o k ≡ true → o ≡ some k
is_id-some none k h = ground (arith, h)
is_id-some (some a) k h = ground (arith, h)

original_of_new :
    (requests : List ProcurementRequest) (journal : List Movement) (m : Movement)
    (type : MovementType) (custody : Option ℕ) (user : Option User) (named : Option ℕ)
    {o : Option Movement}
    → check_original requests journal type custody user named ≡ ok o
    → is_some (find_movement m.id journal) ≡ false
    → original_of (m ∷ journal) named ≡ original_of journal named
original_of_new requests journal m type custody user none checked fresh = refl
original_of_new requests journal m type custody user (some k) checked fresh =
    find_movement_cons k m journal fresh
      (original_found requests journal type custody user (some k) checked k refl)

module _ (db : Database) (p : MovementCreate) (c : Caller) (request_id : Text) (fingerprint : ℕ)
    {r : MovementResult} {db' : Database} (v : IsConsistent db.warehouse)
    (h : record_movement db p c request_id fingerprint ≡ ok (r, db')) where
  new_holder :
      (user item quantity : ℕ)
      → lookup user item db.warehouse.custody ≡ none
      → lookup user item db'.warehouse.custody ≡ some quantity
      → user_may_hold (find_user user db.identity.users) ≡ true
  new_holder user item quantity before after =
      let (holder, locked, _, original, checked, _, _, _, _, _, _, _, _, _, _) =
        record_steps db p c request_id fingerprint h in
      let moved = record-Moved db p c request_id fingerprint v h in
      let (_, fresh) = record-Effect db p c request_id fingerprint h in
      let (v', _) = record-IsConsistent db p c request_id fingerprint v h in
      let shown : Shows (some quantity) (journal_custody user item db'.warehouse.movements) =
        subst (λ o. Shows o (journal_custody user item db'.warehouse.movements)) after
          (v'.custody user item) in
      let o =
        ap (λ j. original_of j p.original_movement_id) moved.journal
        ∙ original_of_new db.requests db.warehouse.movements r.movement p.movement_type
            c.custody_user_id holder p.original_movement_id checked fresh in
      let (named, raises) =
        raised p.movement_type (original_of db.warehouse.movements p.original_movement_id)
          c.custody_user_id user item quantity p.lines
          (subst
            (λ o. pos quantity ≡ (
              if is_id c.custody_user_id user
              then sum_payload (custody_sign p.movement_type o) item p.lines
              else pos 0))
            o
            (ap (λ x. pos (quantity_or_zero x)) (sym after)
              ∙ moved.custody user item
              ∙ ap
                  (λ x.
                    payload_custody db'.warehouse.movements p c user item
                    +ℤ pos (quantity_or_zero x))
                  before
              ∙ +ℤ-zero (payload_custody db'.warehouse.movements p c user item)))
          shown.1 in
      let custody = is_id-some c.custody_user_id user named in
      guarded db.identity.users db.requests db.warehouse.movements p.movement_type user holder
        p.original_movement_id
        (ap (lock_custody_user db.identity.users p.movement_type) (sym custody) ∙ locked)
        (ap
            (λ x.
              check_original db.requests db.warehouse.movements p.movement_type x holder
                p.original_movement_id)
            (sym custody)
          ∙ checked)
        raises

  record-HoldersEligible : HoldersEligible db → HoldersEligible db'
  record-HoldersEligible holders =
      let (_, _, _, _, _, _, _, _, _, _, _, _, _, _, same) =
        record_steps db p c request_id fingerprint h in
      record {
        holder = λ user item quantity held.
            ap (λ (d : Database). user_may_hold (find_user user d.identity.users)) same
            ∙ elim (Option-cases (lookup user item db.warehouse.custody)) [
              | inl before ↦ new_holder user item quantity before held
              | inr (q, before) ↦ holders.holder user item q before
            ];
      }

-- If every holder of equipment is eligible in consistent tables, then so it is after a movement.
pub create'-HoldersEligible :
    (canonical_fingerprint : Canonical → ℕ) (db : Database) (p : MovementCreate) (c : Caller)
    {r : MovementResult} {db' : Database}
    → IsConsistent db.warehouse
    → HoldersEligible db
    → create_movement' canonical_fingerprint db p c ≡ ok (r, db')
    → HoldersEligible db'
create'-HoldersEligible canonical_fingerprint db p c v holders h =
    let (request_id, _, _, how) = create_steps canonical_fingerprint db p c h in
    elim how [
      | inl (_, _, same) ↦ subst HoldersEligible (sym same) holders
      | inr (_, recorded) ↦ record-HoldersEligible db p c request_id _ v recorded holders
    ]
