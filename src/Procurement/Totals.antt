-- ===== src/Procurement/Totals.antt =====
-- procurement/service.py: what `_validate_aggregated_item_quantities` sums up.
use mathlib.Core.Path.{subst}
use dc_inventory.Prelude.{
  ℕ, ◌+◌, ◌≤◌, ◌≡◌, refl, sym, ap, ◌∙◌, inl, inr, true, false, none, some, List, [], ◌∷◌, arith,
}
use dc_inventory.Prelude.Tests.{ltb, ◌==◌, if◌then◌else◌, is_id, Option-cases, Bool-cases}
use dc_inventory.Prelude.Lists.{contains, is_nodup}
use dc_inventory.Prelude.Result.{Result, ok, ◌>>◌, raise_if}
use dc_inventory.Warehouse.Tables.{max_quantity}
use dc_inventory.Warehouse.Movement.Payload.{MovementLineCreate, item_ids}
use dc_inventory.Procurement.Tables.{ProcurementRevisionLine}
use dc_inventory.Procurement.Errors.{ProcurementError}
use dc_inventory.Procurement.Lines.{
  Pending, effective_item, added_quantity, add_quantity, aggregate,
  validate_aggregated_item_quantities,
}

-- The quantity of an item in a list of quantities.
unfoldable pub total : ℕ → List MovementLineCreate → ℕ
total item [] = 0
total item (l ∷ ls) = (if l.item_id == item then l.quantity else 0) + total item ls

-- The quantity of an item over the lines of a revision, each with the item that it is bound to.
unfoldable pub line_total : Pending → ℕ → List ProcurementRevisionLine → ℕ
line_total pending item [] = 0
line_total pending item (l ∷ ls) =
    (if is_id (effective_item pending l) item then l.quantity else 0) + line_total pending item ls

total-absent :
    (item : ℕ) (qs : List MovementLineCreate)
    → contains item (item_ids qs) ≡ false
    → total item qs ≡ 0
unfolding total
total-absent item [] h = refl
total-absent item (l ∷ ls) h = ground (arith, total-absent item ls)

added-total :
    (item q : ℕ) (qs : List MovementLineCreate)
    → is_nodup (item_ids qs) ≡ true
    → added_quantity item q qs ≡ total item qs + q
unfolding total
added-total item q [] h = omega arith
added-total item q (l ∷ ls) h = ground (arith, added-total item q ls, total-absent item ls)

total-add_quantity :
    (k item q : ℕ) (qs : List MovementLineCreate)
    → total k (add_quantity item q qs) ≡ total k qs + (if item == k then q else 0)
unfolding total add_quantity
total-add_quantity k item q [] = ground arith
total-add_quantity k item q (l ∷ ls) = ground (arith, total-add_quantity k item q ls)

contains-add_quantity :
    (k item q : ℕ) (qs : List MovementLineCreate)
    → contains k (item_ids (add_quantity item q qs))
      ≡ (if k == item then true else contains k (item_ids qs))
unfolding add_quantity
contains-add_quantity k item q [] = ground arith
contains-add_quantity k item q (l ∷ ls) = ground (arith, contains-add_quantity k item q ls)

nodup-add_quantity :
    (item q : ℕ) (qs : List MovementLineCreate)
    → is_nodup (item_ids qs) ≡ true
    → is_nodup (item_ids (add_quantity item q qs)) ≡ true
unfolding add_quantity
nodup-add_quantity item q [] h = refl
nodup-add_quantity item q (l ∷ ls) h =
    ground (arith, nodup-add_quantity item q ls, contains-add_quantity l.item_id item q ls)

-- The sums so far: one for an item, none above the largest quantity.
record Within (qs : List MovementLineCreate) : Type 0 where
  distinct : is_nodup (item_ids qs) ≡ true
  bound : (k : ℕ) → total k qs ≤ max_quantity

eq_of : (a b : ℕ) → (a == b) ≡ true → a ≡ b
eq_of a b h = ground arith

ok_same :
    {a b : List MovementLineCreate} (m : Result ProcurementError (List MovementLineCreate))
    → m ≡ ok a
    → m ≡ ok b
    → a ≡ b
ok_same m h k = cc

Within-add_quantity :
    (item q : ℕ) (qs : List MovementLineCreate)
    → Within qs
    → ltb max_quantity (added_quantity item q qs) ≡ false
    → Within (add_quantity item q qs)
Within-add_quantity item q qs w h = record {
  distinct = nodup-add_quantity item q qs w.distinct;
  bound = λ k.
      let sum = total-add_quantity k item q qs in
      let added = added-total item q qs w.distinct in
      let before = w.bound k in
      elim (Bool-cases (item == k)) [
        | inl e ↦ ground (arith, sum, added, e, before, ap (λ t. total t qs) (eq_of item k e))
        | inr e ↦ ground (arith, sum, e, before)
      ];
}

added_steps :
    (item q : ℕ) (qs : List MovementLineCreate)
    (m : Result ProcurementError (List MovementLineCreate)) {out : List MovementLineCreate}
    → (raise_if
          (ltb max_quantity (added_quantity item q qs))
          ProcurementError.aggregated_item_quantity_too_large
        >> m)
      ≡ ok out
    → (ltb max_quantity (added_quantity item q qs) ≡ false) × (m ≡ ok out)
added_steps item q qs m h = ground arith

aggregate_unbound :
    (pending : Pending) (l : ProcurementRevisionLine) (ls : List ProcurementRevisionLine)
    (qs : List MovementLineCreate)
    → effective_item pending l ≡ none
    → aggregate pending (l ∷ ls) qs ≡ aggregate pending ls qs
unfolding aggregate
aggregate_unbound pending l ls qs e = rw (aggregate, e) refl

aggregate_bound :
    (pending : Pending) (l : ProcurementRevisionLine) (ls : List ProcurementRevisionLine)
    (qs : List MovementLineCreate) (item : ℕ)
    → effective_item pending l ≡ some item
    → aggregate pending (l ∷ ls) qs ≡ (
        raise_if
          (ltb max_quantity (added_quantity item l.quantity qs))
          ProcurementError.aggregated_item_quantity_too_large
        >> aggregate pending ls (add_quantity item l.quantity qs))
unfolding aggregate
aggregate_bound pending l ls qs item e = rw (aggregate, e) refl

aggregate-total :
    (pending : Pending) (ls : List ProcurementRevisionLine) (qs : List MovementLineCreate)
    {out : List MovementLineCreate}
    → Within qs
    → aggregate pending ls qs ≡ ok out
    → Within out × ((k : ℕ) → total k out ≡ total k qs + line_total pending k ls)
unfolding aggregate line_total
aggregate-total pending [] qs w h =
    (subst Within (ok_same _ refl h) w, λ k. ap (total k) (sym (ok_same _ refl h)) ∙ omega arith)
aggregate-total pending (l ∷ ls) qs w h = elim (Option-cases (effective_item pending l)) [
  | inl e ↦
      let rest = aggregate-total pending ls qs w (sym (aggregate_unbound pending l ls qs e) ∙ h) in
      (rest.0, λ k. rw e (rest.1 k ∙ omega arith))
  | inr (item, e) ↦
      let (fits, h') =
        added_steps item l.quantity qs _ (sym (aggregate_bound pending l ls qs item e) ∙ h) in
      let rest =
        aggregate-total pending ls (add_quantity item l.quantity qs)
          (Within-add_quantity item l.quantity qs w fits) h' in
      (
        rest.0,
        λ k. rw e (
            rest.1 k
            ∙ ap (λ t. t + line_total pending k ls) (total-add_quantity k item l.quantity qs)
            ∙ omega arith),
      )
]

start_Within : Within []
unfolding total
start_Within = record { distinct = refl; bound = λ k. omega arith }

-- The quantities that `_validate_aggregated_item_quantities` lets through name each item once, and
-- give to every item the sum of the quantities of the lines bound to it, which is in range; a line
-- whose binding is pending counts for the item that it is to be bound to.
pub validate-totals :
    (lines : List ProcurementRevisionLine) (pending : Pending) {qs : List MovementLineCreate}
    → validate_aggregated_item_quantities lines pending ≡ ok qs
    → (is_nodup (item_ids qs) ≡ true)
      × ((k : ℕ)
          → (total k qs ≡ line_total pending k lines) × (line_total pending k lines ≤ max_quantity))
unfolding validate_aggregated_item_quantities total
validate-totals lines pending {qs} h =
    let (within, sums) = aggregate-total pending lines [] start_Within h in
    (within.distinct, λ k. (sums k ∙ omega arith, omega (arith, sums k, within.bound k)))
