-- ===== src/Warehouse/Journal/Extend.antt =====
-- How the journal's sums grow by one movement.
use dc_inventory.Prelude.{
  ℕ, ◌≡◌, refl, ap, Bool, true, false, ◌&&◌, Option, none, some, List, [], ◌∷◌, arith,
}
use dc_inventory.Prelude.Tests.{◌==◌, if◌then◌else◌, is_id, is_some}
use dc_inventory.Prelude.Lists.{any}
use dc_inventory.Prelude.Int.{ℤ, pos, ◌+ℤ◌, zero-+ℤ}
use dc_inventory.Warehouse.Tables.{Movement, MovementLine, find_movement}
use dc_inventory.Warehouse.Journal.{
  stock_delta, sum_lines, journal_stock, custody_sign, original_of, custody_over, journal_custody,
}

abbrev pub has_line : ℕ → List MovementLine → Bool
has_line item = any λ l. l.item_id == item

pub sum_lines_absent :
    (f : ℕ → ℤ) (item : ℕ) (ls : List MovementLine)
    → has_line item ls ≡ false
    → sum_lines f item ls ≡ pos 0
unfolding sum_lines
sum_lines_absent f item [] h = refl
sum_lines_absent f item (l ∷ ls) h = ground (arith, sum_lines_absent f item ls, zero-+ℤ (pos 0))

pub sum_lines_zero :
    (f : ℕ → ℤ) (item : ℕ) (ls : List MovementLine)
    → ((q : ℕ) → f q ≡ pos 0)
    → sum_lines f item ls ≡ pos 0
unfolding sum_lines
sum_lines_zero f item [] h = refl
sum_lines_zero f item (l ∷ ls) h =
    ground (arith, h l.quantity, sum_lines_zero f item ls h, zero-+ℤ (pos 0))

-- A movement leaves the sum alone at an item without a line, and at a location that it does not
-- name.
pub journal_stock_other :
    (item location : ℕ) (m : Movement) (ms : List Movement)
    → (has_line item m.lines ≡ false)
    → journal_stock item location (m ∷ ms) ≡ journal_stock item location ms
unfolding journal_stock
journal_stock_other item location m ms h =
    rw (sum_lines_absent (stock_delta m location) item m.lines h) (zero-+ℤ _)

pub journal_stock_elsewhere :
    (item location : ℕ) (m : Movement) (ms : List Movement)
    → is_id m.source_location_id location ≡ false
    → is_id m.destination_location_id location ≡ false
    → journal_stock item location (m ∷ ms) ≡ journal_stock item location ms
unfolding journal_stock
journal_stock_elsewhere item location m ms h k =
    rw (sum_lines_zero (stock_delta m location) item m.lines (λ q. rw (h, k) refl)) (zero-+ℤ _)

-- Every original that a movement of `ms` names stands in the journal.
abbrev pub Closed : List Movement → List Movement → Type 0
Closed journal [] = Unit {0}
Closed journal (m ∷ ms) =
    ((k : ℕ) → m.original_movement_id ≡ some k → is_some (find_movement k journal) ≡ true)
    × Closed journal ms

pub find_movement_cons :
    (k : ℕ) (m : Movement) (ms : List Movement)
    → is_some (find_movement m.id ms) ≡ false
    → is_some (find_movement k ms) ≡ true
    → find_movement k (m ∷ ms) ≡ find_movement k ms
find_movement_cons k m ms h e = ground arith

pub Closed-cons :
    (m : Movement) (journal ms : List Movement)
    → is_some (find_movement m.id journal) ≡ false
    → Closed journal ms
    → Closed (m ∷ journal) ms
Closed-cons m journal [] h c = tt
Closed-cons m journal (x ∷ xs) h c = (
  (λ k e. rw (find_movement_cons k m journal h (c.0 k e)) (c.0 k e)),
  Closed-cons m journal xs h c.1,
)

original_of_cons :
    (o : Option ℕ) (m : Movement) (journal : List Movement)
    → is_some (find_movement m.id journal) ≡ false
    → ((k : ℕ) → o ≡ some k → is_some (find_movement k journal) ≡ true)
    → original_of (m ∷ journal) o ≡ original_of journal o
original_of_cons none m journal h c = refl
original_of_cons (some k) m journal h c = find_movement_cons k m journal h (c k refl)

-- What one movement adds to the custody of a user.
abbrev pub custody_change : List Movement → ℕ → ℕ → Movement → ℤ
custody_change journal user item m =
    if is_id m.custody_user_id user
    then sum_lines (custody_sign m.movement_type (original_of journal m.original_movement_id)) item
        m.lines
    else pos 0

-- A new movement is the original of no earlier one.
pub custody_over_cons :
    (m : Movement) (journal : List Movement) (user item : ℕ) (ms : List Movement)
    → is_some (find_movement m.id journal) ≡ false
    → Closed journal ms
    → custody_over (m ∷ journal) user item ms ≡ custody_over journal user item ms
unfolding custody_over
custody_over_cons m journal user item [] h c = refl
custody_over_cons m journal user item (x ∷ xs) h c =
    rw (original_of_cons x.original_movement_id m journal h c.0) (
      ap (λ t. custody_change journal user item x +ℤ t)
        (custody_over_cons m journal user item xs h c.1))

pub journal_custody_cons :
    (m : Movement) (journal : List Movement) (user item : ℕ)
    → is_some (find_movement m.id journal) ≡ false
    → Closed journal journal
    → journal_custody user item (m ∷ journal)
      ≡ custody_change (m ∷ journal) user item m +ℤ journal_custody user item journal
journal_custody_cons m journal user item h c =
    unfold custody_over in
    ap (λ t. custody_change (m ∷ journal) user item m +ℤ t)
      (custody_over_cons m journal user item journal h c)

-- A movement leaves the custody sum alone for another user, and at an item without a line.
pub journal_custody_other :
    (m : Movement) (journal : List Movement) (user item : ℕ)
    → is_some (find_movement m.id journal) ≡ false
    → Closed journal journal
    → (is_id m.custody_user_id user && has_line item m.lines) ≡ false
    → journal_custody user item (m ∷ journal) ≡ journal_custody user item journal
journal_custody_other m journal user item h c e =
    rw (journal_custody_cons m journal user item h c) (
      ground (
        arith,
        sum_lines_absent
            (custody_sign m.movement_type (original_of (m ∷ journal) m.original_movement_id)) item
            m.lines,
        zero-+ℤ (journal_custody user item journal),
      ))
