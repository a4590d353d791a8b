-- ===== src/Warehouse/Effect/Reversal.antt =====
-- inventory/service.py: `reverse_movement` takes back exactly what its original did, once.
use dc_inventory.Prelude.{
  ℕ, ◌≡◌, refl, ap, ◌∙◌, inl, inr, Bool, true, false, Option, some, List, [], ◌∷◌, map, arith,
}
use dc_inventory.Prelude.Tests.{◌==◌, if◌then◌else◌, is_some, Bool-cases}
use dc_inventory.Prelude.Lists.{any}
use dc_inventory.Prelude.Int.{ℤ, pos, ◌+ℤ◌, neg, int_laws}
use dc_inventory.Prelude.Result.{ok}
use dc_inventory.Core.Idempotency.{Text}
use dc_inventory.Database.{Database}
use dc_inventory.Warehouse.Tables.{Movement, MovementLine, MovementType, find_movement, is_reversal}
use dc_inventory.Warehouse.Journal.{stock_delta, sum_lines, custody_sign, original_of}
use dc_inventory.Warehouse.Journal.Extend.{custody_change, find_movement_cons}
use dc_inventory.Warehouse.Consistent.{IsConsistent}
use dc_inventory.Warehouse.Movement.Payload.{Caller, Canonical}
use dc_inventory.Warehouse.Movement.Payload.Sorted.{sum_payload}
use dc_inventory.Warehouse.Movement.Guards.{is_reversal_of}
use dc_inventory.Warehouse.Movement.Guards.Original.{original_steps}
use dc_inventory.Warehouse.Movement.Create.{
  MovementResult, record_movement, create_movement', reverse_movement, reversal_payload,
  reversal_line,
}
use dc_inventory.Warehouse.Movement.Create.Steps.{record_steps, create_steps, reverse_steps}
use dc_inventory.Warehouse.Effect.Stock.{
  stock_of, custody_of, payload_delta, payload_custody, create'-Moved, record-Effect,
}

sum-reversal :
    (f g : ℕ → ℤ) (item : ℕ) (ls : List MovementLine)
    → ((q : ℕ) → f q ≡ neg (g q))
    → sum_payload f item (map reversal_line ls) ≡ neg (sum_lines g item ls)
unfolding sum_payload sum_lines
sum-reversal f g item [] h = omega int_laws
sum-reversal f g item (l ∷ ls) h =
    opposite (l.item_id == item) (f l.quantity) (g l.quantity) (sum_lines g item ls) (h l.quantity)
      (sum-reversal f g item ls h)
  where
    opposite :
        (b : Bool) (x y z : ℤ) {s : ℤ}
        → x ≡ neg y
        → s ≡ neg z
        → (if b then x else pos 0) +ℤ s ≡ neg ((if b then y else pos 0) +ℤ z)
    opposite true x y z e k = rw (e, k) (omega int_laws)
    opposite false x y z e k = rw k (omega int_laws)

opposite_delta :
    (m : Movement) (request_id : Text) (location q : ℕ)
    → payload_delta (reversal_payload m request_id) location q ≡ neg (stock_delta m location q)
opposite_delta m request_id location q = omega int_laws

neg_zero : pos 0 ≡ neg (pos 0)
neg_zero = omega int_laws

neg-neg : (a : ℤ) → a ≡ neg (neg a)
neg-neg a = omega int_laws

opposite_sign :
    (o : Movement) (original : Option Movement) (q : ℕ)
    → is_reversal o.movement_type ≡ false
    → custody_sign MovementType.reversal (some o) q ≡ neg (custody_sign o.movement_type original q)
opposite_sign o original q h = ground (arith, neg_zero, neg-neg (pos q))

find_movement_id :
    (k : ℕ) (ms : List Movement) (m : Movement) → find_movement k ms ≡ some m → m.id ≡ k
find_movement_id k [] m h = cc
find_movement_id k (x ∷ xs) m h = ground (arith, find_movement_id k xs m)

-- Every balance goes back by what the lines of the original changed.
pub record Restored (db : Database) (o : Movement) (db' : Database) : Type 0 where
  pub stock :
      (item location : ℕ)
      → stock_of db' item location +ℤ sum_lines (stock_delta o location) item o.lines
        ≡ stock_of db item location
  pub custody :
      (user item : ℕ)
      → custody_of db' user item +ℤ custody_change db.warehouse.movements user item o
        ≡ custody_of db user item
  pub not_reversal : is_reversal o.movement_type ≡ false
  pub unreversed : any (is_reversal_of o.id) db.warehouse.movements ≡ false

cancel : (x y z w : ℤ) → x ≡ w +ℤ y → w ≡ neg z → x +ℤ z ≡ y
cancel x y z w h e = rw (h, e) (omega int_laws)

-- The custody part of a reversal, whose original is found.
custody_back :
    (ms journal : List Movement) (o : Movement) (request_id : Text) (c : Caller) (user item : ℕ)
    → find_movement o.id journal ≡ some o
    → is_reversal o.movement_type ≡ false
    → c.custody_user_id ≡ o.custody_user_id
    → payload_custody journal (reversal_payload o request_id) c user item
      ≡ neg (custody_change ms user item o)
custody_back ms journal o request_id c user item found first custody =
    rw (found, custody)
      (ground (
        arith,
        neg_zero,
        sum-reversal (custody_sign MovementType.reversal (some o))
            (custody_sign o.movement_type (original_of ms o.original_movement_id)) item o.lines
            (λ q. opposite_sign o (original_of ms o.original_movement_id) q first),
      ))

module _ (canonical_fingerprint : Canonical → ℕ) where
  -- What the recording of a reversal has passed, and what it leaves in the journal.
  reversal_facts :
      (db : Database) (o : Movement) (request_id : Text) (c : Caller) {r : MovementResult}
      {db' : Database}
      → create_movement' canonical_fingerprint db (reversal_payload o request_id) c ≡ ok (r, db')
      → r.replayed ≡ false
      → find_movement o.id db.warehouse.movements ≡ some o
      → (is_reversal o.movement_type ≡ false)
        × (any (is_reversal_of o.id) db.warehouse.movements ≡ false)
        × (is_some (find_movement r.movement.id db.warehouse.movements) ≡ false)
        × (is_reversal_of o.id r.movement ≡ true)
  reversal_facts db o request_id c {r} h new found =
      let (key, _, _, how) =
        create_steps canonical_fingerprint db (reversal_payload o request_id) c h in
      elim how [
        | inl (_, old, _) ↦ absurd (ground (arith, new, old))
        | inr (_, recorded) ↦ passed key _ recorded
      ]
    where
      passed :
          (key : Text) (fingerprint : ℕ) {db' : Database}
          → record_movement db (reversal_payload o request_id) c key fingerprint ≡ ok (r, db')
          → (is_reversal o.movement_type ≡ false)
            × (any (is_reversal_of o.id) db.warehouse.movements ≡ false)
            × (is_some (find_movement r.movement.id db.warehouse.movements) ≡ false)
            × (is_reversal_of o.id r.movement ≡ true)
      passed key fingerprint e =
          let p = reversal_payload o request_id in
          let steps = record_steps db p c key fingerprint e in
          let (effect, fresh) = record-Effect db p c key fingerprint e in
          let (_, found', _, _, first, _, _, second, _) =
            original_steps db.requests db.warehouse.movements MovementType.reversal
              c.custody_user_id steps.0 o.id steps.4 in
          (
            ground (arith, found, found', first),
            ground (arith, second),
            fresh,
            ground (arith, effect.3, effect.4),
          )

  restored :
      (db : Database) (o : Movement) (request_id : Text) (c : Caller) {r : MovementResult}
      {db' : Database}
      → IsConsistent db.warehouse
      → find_movement o.id db.warehouse.movements ≡ some o
      → c.custody_user_id ≡ o.custody_user_id
      → create_movement' canonical_fingerprint db (reversal_payload o request_id) c ≡ ok (r, db')
      → r.replayed ≡ false
      → Restored db o db'
  restored db o request_id c {r} {db'} v found custody h new =
      let p = reversal_payload o request_id in
      let moved = create'-Moved canonical_fingerprint db p c v h new in
      let (first, unreversed, fresh, _) = reversal_facts db o request_id c h new found in
      let journal : find_movement o.id db'.warehouse.movements ≡ some o =
        ap (find_movement o.id) moved.journal
        ∙ find_movement_cons o.id r.movement db.warehouse.movements fresh (rw found refl)
        ∙ found in
      record {
        stock = λ item location. cancel _ _ _ _ (moved.stock item location) (
            sum-reversal (payload_delta p location) (stock_delta o location) item o.lines
              (opposite_delta o request_id location));
        custody = λ user item. cancel _ _ _ _ (moved.custody user item) (
            custody_back db.warehouse.movements db'.warehouse.movements o request_id c user item
              journal first custody);
        not_reversal = first;
        unreversed = unreversed;
      }

  -- With a reversal of it in the journal, an original is not reversed again.
  reversed_once :
      (db : Database) (original_id : ℕ) (request_id : Text) (c : Caller) (o m : Movement)
      (ms : List Movement) {r : MovementResult} {db' : Database}
      → db.warehouse.movements ≡ m ∷ ms
      → find_movement original_id db.warehouse.movements ≡ some o
      → is_reversal_of o.id m ≡ true
      → reverse_movement canonical_fingerprint db original_id request_id c ≡ ok (r, db')
      → r.replayed ≡ true
  reversed_once db original_id request_id c o m ms {r} journal known reversal h =
      let (o', found, made) = reverse_steps canonical_fingerprint db original_id request_id c h in
      let id = find_movement_id original_id db.warehouse.movements o' found in
      elim (Bool-cases r.replayed) [
        | inl replayed ↦ replayed
        | inr new ↦
            let facts =
              reversal_facts db o' request_id (record c { custody_user_id = o'.custody_user_id })
                made new (ap (λ k. find_movement k db.warehouse.movements) id ∙ found) in
            absurd (ground (arith, facts.1, journal, known, found, reversal))
      ]

  -- A reversal that is recorded on consistent tables, and does not replay an earlier call, restores
  -- every stock and custody balance by exactly what the lines of its original changed; the original
  -- is no reversal itself and had none; and in the tables that it leaves, a reversal of the same
  -- original, whoever makes it, records nothing: if it succeeds, it replays an earlier call.
  pub reverse-Restored :
      (db : Database) (original_id : ℕ) (request_id : Text) (c : Caller) {r : MovementResult}
      {db' : Database}
      → IsConsistent db.warehouse
      → reverse_movement canonical_fingerprint db original_id request_id c ≡ ok (r, db')
      → r.replayed ≡ false
      → (o : Movement) × (find_movement original_id db.warehouse.movements ≡ some o)
        × Restored db o db'
        × ((request_id' : Text) (c' : Caller) (r' : MovementResult) (db'' : Database)
            → reverse_movement canonical_fingerprint db' original_id request_id' c' ≡ ok (r', db'')
            → r'.replayed ≡ true)
  reverse-Restored db original_id request_id c {r} {db'} v h new =
      let (o, found, made) = reverse_steps canonical_fingerprint db original_id request_id c h in
      let same = find_movement_id original_id db.warehouse.movements o found in
      let found' = ap (λ k. find_movement k db.warehouse.movements) same ∙ found in
      let c' = record c { custody_user_id = o.custody_user_id } in
      let (_, _, fresh, reversal) = reversal_facts db o request_id c' made new found' in
      let moved =
        create'-Moved canonical_fingerprint db (reversal_payload o request_id) c' v made new in
      let journal = moved.journal in
      (
        o,
        found,
        restored db o request_id c' v found' refl made new,
        λ request_id' c'' r' db'' h'.
            reversed_once db' original_id request_id' c'' o r.movement db.warehouse.movements
              journal
              (ap (find_movement original_id) journal
                ∙ find_movement_cons original_id r.movement db.warehouse.movements fresh
                    (rw found refl)
                ∙ found)
              reversal h',
      )
