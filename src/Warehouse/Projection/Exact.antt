-- ===== src/Warehouse/Projection/Exact.antt =====
-- The rows that `refresh_warehouse_projection` leaves behind show the journal's sums.
use dc_inventory.Prelude.{
  ℕ, zero, suc, ◌≤◌, ◌<◌, ◌≡◌, refl, sym, ap, ◌∙◌, inl, inr, Bool, true, false, ◌&&◌, ◌||◌, Option,
  none, some, List, [], ◌∷◌, arith,
}
use mathlib.Core.Path.{subst, subst₂}
use dc_inventory.Prelude.Tests.{◌==◌, if◌then◌else◌, is_id, opt_eq_sound, Bool-cases}
use dc_inventory.Prelude.Int.{ℤ, pos, negsuc, pos_part}
use dc_inventory.Prelude.Result.{ok}
use dc_inventory.Prelude.Table.{Row, lookup, upsert, delete, lookup-upsert, lookup-delete}
use dc_inventory.Warehouse.Tables.{
  Movement, MovementLine, WarehouseTables, max_quantity, find_movement,
}
use dc_inventory.Warehouse.Journal.{journal_stock, journal_custody}
use dc_inventory.Warehouse.Journal.Extend.{has_line}
use dc_inventory.Warehouse.Projection.{
  ProjectionError, store_sum, refresh_at, refresh_custody, distinct_destination,
  refresh_warehouse_projection, refresh_lines,
}

-- A row shows a sum: no row for zero, and otherwise the sum itself, which is then in range.
abbrev pub Shows : Option ℕ → ℤ → Type 0
Shows none sum = sum ≡ pos 0
Shows (some q) sum = (sum ≡ pos q) × (0 < q) × (q ≤ max_quantity)

-- The rows at the touched keys show the sums, the others are as before.
pub record Settles (sum : ℕ → ℕ → ℤ) (touched : ℕ → ℕ → Bool) (before after : List Row)
    : Type 0 where
  pub shows : (a b : ℕ) → touched a b ≡ true → Shows (lookup a b after) (sum a b)
  pub keeps : (a b : ℕ) → touched a b ≡ false → lookup a b after ≡ lookup a b before

pub Settles-refl :
    (sum : ℕ → ℕ → ℤ) (touched : ℕ → ℕ → Bool) (rows : List Row)
    → ((a b : ℕ) → touched a b ≡ false)
    → Settles sum touched rows rows
Settles-refl sum touched rows h = record {
  shows = λ a b e. absurd (cc (h a b));
  keeps = λ a b e. refl;
}

pub Settles-trans :
    (sum : ℕ → ℕ → ℤ) (s t u : ℕ → ℕ → Bool) (x y z : List Row)
    → Settles sum s x y
    → Settles sum t y z
    → ((a b : ℕ) → u a b ≡ (s a b || t a b))
    → Settles sum u x z
Settles-trans sum s t u x y z p q e = record {
  shows = λ a b h. elim (Bool-cases (t a b)) [
    | inl now ↦ q.shows a b now
    | inr early ↦ rw (q.keeps a b early) (p.shows a b (ground (arith, e a b)))
  ];
  keeps = λ a b h. q.keeps a b (ground (arith, e a b)) ∙ p.keeps a b (ground (arith, e a b));
}

store_sum_in_range :
    (error : ProjectionError) (a b : ℕ) (sum : ℤ) (rows : List Row) {after : List Row}
    → store_sum error a b sum rows ≡ ok after
    → (sum ≡ pos (pos_part sum))
      × (pos_part sum ≤ max_quantity)
      × (after ≡ (if pos_part sum == 0 then delete a b rows else upsert a b (pos_part sum) rows))
unfolding store_sum
store_sum_in_range error a b (pos n) rows h = ground arith
store_sum_in_range error a b (negsuc n) rows h = cc

abbrev pub at_key : ℕ → ℕ → ℕ → ℕ → Bool
at_key a b c d = a == c && b == d

at_key_eq : (a b c d : ℕ) → at_key a b c d ≡ true → (a ≡ c) × (b ≡ d)
at_key_eq a b c d h = ground arith

-- A sum of zero has no row.
abbrev row_of : ℕ → Option ℕ
row_of n = if n == 0 then none else some n

row_of-Shows : (n : ℕ) → n ≤ max_quantity → Shows (row_of n) (pos n)
row_of-Shows zero h = refl
row_of-Shows (suc n) h = let e : (suc n == 0) ≡ false = ground arith in rw e (refl, omega arith, h)

lookup_stored :
    (a b n c d : ℕ) (rows : List Row)
    → lookup c d (if n == 0 then delete a b rows else upsert a b n rows)
      ≡ (if at_key a b c d then row_of n else lookup c d rows)
lookup_stored a b n c d rows =
    ground (arith, lookup-delete a b c d rows, lookup-upsert a b n c d rows)

pub store_sum-Settles :
    (error : ProjectionError) (sum : ℕ → ℕ → ℤ) (a b : ℕ) (rows : List Row) {after : List Row}
    → store_sum error a b (sum a b) rows ≡ ok after
    → Settles sum (at_key a b) rows after
store_sum-Settles error sum a b rows {after} h =
    let (e, bound, out) = store_sum_in_range error a b (sum a b) rows h in
    let found : (c d : ℕ)
        → lookup c d after
          ≡ (if at_key a b c d then row_of (pos_part (sum a b)) else lookup c d rows) =
      λ c d. rw out (lookup_stored a b (pos_part (sum a b)) c d rows) in
    record {
      shows = λ c d k.
          subst₂ (λ c d. Shows (lookup c d after) (sum c d)) (at_key_eq a b c d k).0
            (at_key_eq a b c d k).1 (settled (found a b) e bound);
      keeps = λ c d k. found c d ∙ rw k refl;
    }
  where
    settled :
        {o : Option ℕ} {n : ℕ} {s : ℤ}
        → o ≡ (if at_key a b a b then row_of n else lookup a b rows)
        → s ≡ pos n
        → n ≤ max_quantity
        → Shows o s
    settled {o} {n} {s} x y z = subst₂ Shows (sym (x ∙ ground arith)) (sym y) (row_of-Shows n z)

refresh_at-Settles :
    (journal : List Movement) (item : ℕ) (o : Option ℕ) (rows : List Row) {after : List Row}
    → refresh_at journal item o rows ≡ ok after
    → Settles (λ i l. journal_stock i l journal) (λ i l. item == i && is_id o l) rows after
unfolding refresh_at
refresh_at-Settles journal item none rows h = record {
  shows = λ a b e. ground arith;
  keeps = λ a b e. ground arith;
}
refresh_at-Settles journal item (some l) rows h =
    store_sum-Settles ProjectionError.stock_out_of_range (λ i l. journal_stock i l journal) item l
      rows h

refresh_custody-Settles :
    (journal : List Movement) (item : ℕ) (o : Option ℕ) (rows : List Row) {after : List Row}
    → refresh_custody journal item o rows ≡ ok after
    → Settles (λ u i. journal_custody u i journal) (λ u i. is_id o u && item == i) rows after
unfolding refresh_custody
refresh_custody-Settles journal item none rows h = record {
  shows = λ a b e. ground arith;
  keeps = λ a b e. ground arith;
}
refresh_custody-Settles journal item (some u) rows h =
    store_sum-Settles ProjectionError.custody_out_of_range (λ u i. journal_custody u i journal) u
      item rows h

-- The keys that the lines of a movement touch.
abbrev pub touches_stock : Movement → List MovementLine → ℕ → ℕ → Bool
touches_stock m ls item location =
    has_line item ls
    && (is_id m.source_location_id location || is_id m.destination_location_id location)

abbrev pub touches_custody : Movement → List MovementLine → ℕ → ℕ → Bool
touches_custody m ls user item = is_id m.custody_user_id user && has_line item ls

-- The tables after the rows that some lines of a movement touch have been written, where the journal
-- is `journal`.
pub record Refreshed (journal : List Movement) (m : Movement) (ls : List MovementLine)
    (w w' : WarehouseTables) : Type 0 where
  pub same : w' ≡ record w { stock = w'.stock; custody = w'.custody }
  pub stock : Settles (λ i l. journal_stock i l journal) (touches_stock m ls) w.stock w'.stock
  pub custody :
      Settles (λ u i. journal_custody u i journal) (touches_custody m ls) w.custody w'.custody

distinct_destination_is :
    (m : Movement) (l : ℕ)
    → (is_id m.source_location_id l || is_id (distinct_destination m) l)
      ≡ (is_id m.source_location_id l || is_id m.destination_location_id l)
distinct_destination_is m l =
    ground (arith, opt_eq_sound m.destination_location_id m.source_location_id)

refresh_steps :
    (m : Movement) (item : ℕ) (w : WarehouseTables) {w' : WarehouseTables}
    → find_movement m.id w.movements ≡ some m
    → refresh_warehouse_projection m.id item w ≡ ok w'
    → (s : List Row) × (refresh_at w.movements item m.source_location_id w.stock ≡ ok s)
      × (refresh_at w.movements item (distinct_destination m) s ≡ ok w'.stock)
      × (refresh_custody w.movements item m.custody_user_id w.custody ≡ ok w'.custody)
      × (w' ≡ record w { stock = w'.stock; custody = w'.custody })
unfolding refresh_warehouse_projection
refresh_steps m item w found h = ground arith

refresh-Refreshed :
    (m : Movement) (l : MovementLine) (w : WarehouseTables) {w' : WarehouseTables}
    → find_movement m.id w.movements ≡ some m
    → refresh_warehouse_projection m.id l.item_id w ≡ ok w'
    → Refreshed w.movements m (l ∷ []) w w'
refresh-Refreshed m l w {w'} found h =
    let (rows, e₁, e₂, e₃, e₄) = refresh_steps m l.item_id w found h in
    record {
      same = e₄;
      stock =
          Settles-trans (λ i l. journal_stock i l w.movements)
            (λ i x. l.item_id == i && is_id m.source_location_id x)
            (λ i x. l.item_id == i && is_id (distinct_destination m) x) (touches_stock m (l ∷ []))
            w.stock rows w'.stock
            (refresh_at-Settles w.movements l.item_id m.source_location_id w.stock e₁)
            (refresh_at-Settles w.movements l.item_id (distinct_destination m) rows e₂)
            (λ i x. ground (arith, distinct_destination_is m x));
      custody =
          same_touched (λ u i. ground arith)
            (refresh_custody-Settles w.movements l.item_id m.custody_user_id w.custody e₃);
    }
  where
    same_touched :
        {sum : ℕ → ℕ → ℤ} {s t : ℕ → ℕ → Bool} {x y : List Row}
        → ((a b : ℕ) → t a b ≡ s a b)
        → Settles sum s x y
        → Settles sum t x y
    same_touched e p = record {
      shows = λ a b h. p.shows a b (sym (e a b) ∙ h);
      keeps = λ a b h. p.keeps a b (sym (e a b) ∙ h);
    }

refresh_lines_steps :
    (id : ℕ) (l : MovementLine) (ls : List MovementLine) (w : WarehouseTables)
    {w' : WarehouseTables}
    → refresh_lines id (l ∷ ls) w ≡ ok w'
    → (v : WarehouseTables) × (refresh_warehouse_projection id l.item_id w ≡ ok v)
      × (refresh_lines id ls v ≡ ok w')
unfolding refresh_lines
refresh_lines_steps id l ls w h = ground arith

-- After the calls for all lines every row that the movement touches shows the journal's sum, and
-- nothing else has changed.
pub refresh_lines-Refreshed :
    (journal : List Movement) (m : Movement) (ls : List MovementLine) (w : WarehouseTables)
    {w' : WarehouseTables}
    → w.movements ≡ journal
    → find_movement m.id journal ≡ some m
    → refresh_lines m.id ls w ≡ ok w'
    → Refreshed journal m ls w w'
refresh_lines-Refreshed journal m [] w {w'} j found h =
    subst (λ x. Refreshed journal m [] w x) (nothing h)
      (record {
        same = refl;
        stock =
            Settles-refl (λ i l. journal_stock i l journal) (touches_stock m []) w.stock
              (λ a b. refl);
        custody =
            Settles-refl (λ u i. journal_custody u i journal) (touches_custody m []) w.custody
              (λ a b. ground arith);
      })
  where
    nothing : refresh_lines m.id [] w ≡ ok w' → w ≡ w'
    nothing h = unfold refresh_lines in ground arith
refresh_lines-Refreshed journal m (l ∷ ls) w {w'} j found h =
    let (v, e, rest) = refresh_lines_steps m.id l ls w h in
    let one : Refreshed journal m (l ∷ []) w v =
      subst (λ j. Refreshed j m (l ∷ []) w v) j
        (refresh-Refreshed m l w (ap (find_movement m.id) j ∙ found) e) in
    let more =
      refresh_lines-Refreshed journal m ls v (ap (λ x. x.movements) one.same ∙ j) found rest in
    record {
      same = ground (arith, one.same, more.same);
      stock =
          Settles-trans (λ i l. journal_stock i l journal) (touches_stock m (l ∷ []))
            (touches_stock m ls) (touches_stock m (l ∷ ls)) w.stock v.stock w'.stock one.stock
            more.stock (λ a b. ground arith);
      custody =
          Settles-trans (λ u i. journal_custody u i journal) (touches_custody m (l ∷ []))
            (touches_custody m ls) (touches_custody m (l ∷ ls)) w.custody v.custody w'.custody
            one.custody more.custody (λ a b. ground arith);
    }
