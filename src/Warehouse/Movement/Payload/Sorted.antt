-- ===== src/Warehouse/Movement/Payload/Sorted.antt =====
-- Sorting the lines of a payload keeps what they ask for.
use dc_inventory.Prelude.{ℕ, ◌≡◌, refl, ap, ◌∙◌, true, false, ◌||◌, List, [], ◌∷◌, arith}
use dc_inventory.Prelude.Tests.{◌==◌, if◌then◌else◌}
use dc_inventory.Prelude.Lists.{contains, is_nodup}
use dc_inventory.Prelude.Int.{ℤ, pos, ◌+ℤ◌, int_laws}
use dc_inventory.Warehouse.Movement.Payload.{MovementLineCreate, item_ids, insert_line, sort_lines}

-- What the lines of an item ask for, by a function of a quantity.
unfoldable pub sum_payload : (ℕ → ℤ) → ℕ → List MovementLineCreate → ℤ
sum_payload f item [] = pos 0
sum_payload f item (l ∷ ls) =
    (if l.item_id == item then f l.quantity else pos 0) +ℤ sum_payload f item ls

exchange : (a b c : ℤ) → a +ℤ (b +ℤ c) ≡ b +ℤ (a +ℤ c)
exchange a b c = omega int_laws

sum-insert_line :
    (f : ℕ → ℤ) (item : ℕ) (l : MovementLineCreate) (ls : List MovementLineCreate)
    → sum_payload f item (insert_line l ls) ≡ sum_payload f item (l ∷ ls)
unfolding sum_payload insert_line
sum-insert_line f item l [] = refl
sum-insert_line f item l (k ∷ ks) = ground (
  arith,
  sum-insert_line f item l ks,
  exchange (if k.item_id == item then f k.quantity else pos 0)
      (if l.item_id == item then f l.quantity else pos 0) (sum_payload f item ks),
)

pub sum-sort_lines :
    (f : ℕ → ℤ) (item : ℕ) (ls : List MovementLineCreate)
    → sum_payload f item (sort_lines ls) ≡ sum_payload f item ls
unfolding sort_lines sum_payload
sum-sort_lines f item [] = refl
sum-sort_lines f item (l ∷ ls) =
    sum-insert_line f item l (sort_lines ls)
    ∙ ap (λ t. (if l.item_id == item then f l.quantity else pos 0) +ℤ t) (sum-sort_lines f item ls)

contains-insert_line :
    (x : ℕ) (l : MovementLineCreate) (ls : List MovementLineCreate)
    → contains x (item_ids (insert_line l ls)) ≡ (x == l.item_id || contains x (item_ids ls))
unfolding insert_line
contains-insert_line x l [] = refl
contains-insert_line x l (k ∷ ks) = ground (arith, contains-insert_line x l ks)

contains-sort_lines :
    (x : ℕ) (ls : List MovementLineCreate)
    → contains x (item_ids (sort_lines ls)) ≡ contains x (item_ids ls)
unfolding sort_lines
contains-sort_lines x [] = refl
contains-sort_lines x (l ∷ ls) =
    ground (arith, contains-insert_line x l (sort_lines ls), contains-sort_lines x ls)

nodup-insert_line :
    (l : MovementLineCreate) (ls : List MovementLineCreate)
    → contains l.item_id (item_ids ls) ≡ false
    → is_nodup (item_ids ls) ≡ true
    → is_nodup (item_ids (insert_line l ls)) ≡ true
unfolding insert_line
nodup-insert_line l [] h n = refl
nodup-insert_line l (k ∷ ks) h n =
    ground (arith, nodup-insert_line l ks, contains-insert_line k.item_id l ks)

pub nodup-sort_lines :
    (ls : List MovementLineCreate)
    → is_nodup (item_ids ls) ≡ true
    → is_nodup (item_ids (sort_lines ls)) ≡ true
unfolding sort_lines
nodup-sort_lines [] h = refl
nodup-sort_lines (l ∷ ls) h =
    nodup-insert_line l (sort_lines ls) (contains-sort_lines l.item_id ls ∙ ground arith)
      (nodup-sort_lines ls (ground arith))
