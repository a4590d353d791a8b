-- ===== src/Warehouse/Movement/Lines/Passed.antt =====
-- What the lines that the loop of `_create_movement` built have passed.
use mathlib.Core.Path.{subst}
use dc_inventory.Prelude.{ℕ, suc, ◌<◌, ◌≡◌, refl, sym, List, [], ◌∷◌, map, arith}
use dc_inventory.Prelude.Lists.{All}
use dc_inventory.Prelude.Int.{ℤ, pos, neg}
use dc_inventory.Prelude.Result.{ok}
use dc_inventory.Warehouse.Tables.{MovementLine, WarehouseTables}
use dc_inventory.Warehouse.Journal.{sum_lines}
use dc_inventory.Warehouse.Movement.Payload.{MovementLineCreate, item_ids}
use dc_inventory.Warehouse.Movement.Payload.Sorted.{sum_payload}
use dc_inventory.Warehouse.Movement.Guards.{custody_delta}
use dc_inventory.Warehouse.Movement.Lines.{
  LineContext, times, check_stock, check_custody, movement_line, check_line, check_lines,
}

-- The tests that a journal line has passed.
abbrev pub LineFits : WarehouseTables → LineContext → MovementLine → Type 0
LineFits w c l =
    (0 < l.quantity)
    × (check_stock w.stock l.item_id c.source (neg (pos l.quantity)) ≡ ok tt)
    × (check_stock w.stock l.item_id c.destination (pos l.quantity) ≡ ok tt)
    × (check_custody w.custody l.item_id c.custody_user_id
          (times (custody_delta c.movement_type c.original) l.quantity)
        ≡ ok tt)

check_line_steps :
    (w : WarehouseTables) (c : LineContext) (n : ℕ) (l : MovementLineCreate) {m : MovementLine}
    → check_line w c n l ≡ ok m
    → LineFits w c m × (m.item_id ≡ l.item_id) × (m.quantity ≡ l.quantity)
unfolding check_line movement_line
check_line_steps w c n l h = ground arith

check_lines_steps :
    (w : WarehouseTables) (c : LineContext) (n : ℕ) (l : MovementLineCreate)
    (ls : List MovementLineCreate) {ms : List MovementLine}
    → check_lines w c n (l ∷ ls) ≡ ok ms
    → (k : MovementLine) × (check_line w c n l ≡ ok k)
      × (ks : List MovementLine) × (check_lines w c (suc n) ls ≡ ok ks)
      × (ms ≡ k ∷ ks)
unfolding check_lines
check_lines_steps w c n l ls h = ground arith

-- Every line has passed, the items are those of the payload in its order, and the lines ask for
-- what the payload does.
pub record Fits (w : WarehouseTables) (c : LineContext) (ls : List MovementLineCreate)
    (ms : List MovementLine) : Type 0 where
  pub fit : All (LineFits w c) ms
  pub items : map (λ m. m.item_id) ms ≡ item_ids ls
  pub sums : (f : ℕ → ℤ) (item : ℕ) → sum_lines f item ms ≡ sum_payload f item ls

Fits-cons :
    (w : WarehouseTables) (c : LineContext) (l : MovementLineCreate) (k : MovementLine)
    (ls : List MovementLineCreate) (ks : List MovementLine)
    → LineFits w c k × (k.item_id ≡ l.item_id) × (k.quantity ≡ l.quantity)
    → Fits w c ls ks
    → Fits w c (l ∷ ls) (k ∷ ks)
unfolding sum_lines sum_payload
Fits-cons w c l k ls ks (fit, item, quantity) rest = record {
  fit = (fit, rest.fit);
  items = rw (item, rest.items);
  sums = λ f i. rw (item, quantity, rest.sums f i);
}

pub check_lines-Fits :
    (w : WarehouseTables) (c : LineContext) (n : ℕ) (ls : List MovementLineCreate)
    {ms : List MovementLine}
    → check_lines w c n ls ≡ ok ms
    → Fits w c ls ms
check_lines-Fits w c n [] {ms} h =
    subst (Fits w c []) (empty h)
      (record { fit = tt; items = refl; sums = λ f i. unfold sum_lines sum_payload in refl })
  where
    empty : check_lines w c n [] ≡ ok ms → [] ≡ ms
    empty h = unfold check_lines in ground arith
check_lines-Fits w c n (l ∷ ls) h =
    let (k, first, ks, others, e) = check_lines_steps w c n l ls h in
    subst (Fits w c (l ∷ ls)) (sym e) (
      Fits-cons w c l k ls ks (check_line_steps w c n l first)
        (check_lines-Fits w c (suc n) ls others))
