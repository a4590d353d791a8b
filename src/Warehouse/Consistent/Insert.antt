-- ===== src/Warehouse/Consistent/Insert.antt =====
-- A movement that is inserted keeps the projections in step with the journal.
use mathlib.Core.Path.{subst, subst₂}
use dc_inventory.Prelude.{ℕ, ◌≡◌, refl, sym, ap, inl, inr, true, false, some, List, ◌∷◌, arith}
use dc_inventory.Prelude.Tests.{is_some, Bool-cases, ==_refl}
use dc_inventory.Prelude.Result.{ok}
use dc_inventory.Prelude.Table.{lookup}
use dc_inventory.Identity.Tables.{User}
use dc_inventory.Warehouse.Tables.{Movement, WarehouseTables, find_movement}
use dc_inventory.Warehouse.Journal.{journal_stock, journal_custody}
use dc_inventory.Warehouse.Journal.Extend.{
  Closed, Closed-cons, find_movement_cons, has_line, journal_stock_other, journal_stock_elsewhere,
  journal_custody_other,
}
use dc_inventory.Warehouse.Projection.{refresh_lines}
use dc_inventory.Warehouse.Projection.Exact.{
  Shows, Refreshed, refresh_lines-Refreshed, touches_stock, touches_custody,
}
use dc_inventory.Warehouse.Movement.Insert.{insert_movement}
use dc_inventory.Warehouse.Consistent.{IsConsistent}

abbrev pub with_movement : Movement → WarehouseTables → WarehouseTables
with_movement m w = record w { movements = m ∷ w.movements }

pub insert_steps :
    (users : List User) (m : Movement) (w : WarehouseTables) {w' : WarehouseTables}
    → insert_movement users m w ≡ ok w'
    → (is_some (find_movement m.id w.movements) ≡ false)
      × (refresh_lines m.id m.lines (with_movement m w) ≡ ok w')
unfolding insert_movement
insert_steps users m w h = ground arith

pub insert-Refreshed :
    (users : List User) (m : Movement) (w : WarehouseTables) {w' : WarehouseTables}
    → insert_movement users m w ≡ ok w'
    → Refreshed (m ∷ w.movements) m m.lines (with_movement m w) w'
insert-Refreshed users m w h =
    refresh_lines-Refreshed (m ∷ w.movements) m m.lines (with_movement m w) refl
      (rw (==_refl m.id) refl) (insert_steps users m w h).1

untouched_stock :
    (m : Movement) (ms : List Movement) (i l : ℕ)
    → touches_stock m m.lines i l ≡ false
    → journal_stock i l (m ∷ ms) ≡ journal_stock i l ms
untouched_stock m ms i l h = elim (Bool-cases (has_line i m.lines)) [
  | inl here ↦ journal_stock_elsewhere i l m ms (ground arith) (ground arith)
  | inr absent ↦ journal_stock_other i l m ms absent
]

-- The originals are found in the longer journal too.
Closed-with :
    (m : Movement) (ms : List Movement)
    → is_some (find_movement m.id ms) ≡ false
    → ((k : ℕ) → m.original_movement_id ≡ some k → is_some (find_movement k ms) ≡ true)
    → Closed ms ms
    → Closed (m ∷ ms) (m ∷ ms)
Closed-with m ms fresh named c = (
  (λ k e. rw (find_movement_cons k m ms fresh (named k e)) (named k e)),
  Closed-cons m ms ms fresh c,
)

pub insert-IsConsistent :
    (users : List User) (m : Movement) (w : WarehouseTables) {w' : WarehouseTables}
    → IsConsistent w
    → ((k : ℕ) → m.original_movement_id ≡ some k → is_some (find_movement k w.movements) ≡ true)
    → insert_movement users m w ≡ ok w'
    → IsConsistent w' × (w'.movements ≡ m ∷ w.movements)
insert-IsConsistent users m w {w'} v named h =
    let fresh = (insert_steps users m w h).0 in
    let r = insert-Refreshed users m w h in
    let journal : w'.movements ≡ m ∷ w.movements = ap (λ x. x.movements) r.same in
    (
      record {
        closed =
            subst (λ j. Closed j j) (sym journal) (Closed-with m w.movements fresh named v.closed);
        stock = λ i l.
            subst (λ j. Shows (lookup i l w'.stock) (journal_stock i l j)) (sym journal)
              (elim (Bool-cases (touches_stock m m.lines i l)) [
                | inl now ↦ r.stock.shows i l now
                | inr before ↦
                    subst₂ Shows (sym (r.stock.keeps i l before))
                      (sym (untouched_stock m w.movements i l before)) (v.stock i l)
              ]);
        custody = λ u i.
            subst (λ j. Shows (lookup u i w'.custody) (journal_custody u i j)) (sym journal)
              (elim (Bool-cases (touches_custody m m.lines u i)) [
                | inl now ↦ r.custody.shows u i now
                | inr before ↦
                    subst₂ Shows (sym (r.custody.keeps u i before))
                      (sym (journal_custody_other m w.movements u i fresh v.closed before))
                      (v.custody u i)
              ]);
      },
      journal,
    )
