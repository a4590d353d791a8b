-- ===== src/Prelude/Keyed.antt =====
-- Rows with a key, where statements select rows by a test and then change those whose keys were
-- selected.
use Prim.Native.Nat.{ℕ}
use mathlib.Core.Path.{◌≡◌, refl}
use mathlib.Core.Bool.{Bool, true, ◌||◌, not}
use mathlib.Core.List.{List, [], ◌∷◌, map}
use native.Mathlib.Omega.{arith}
use dc_inventory.Prelude.Tests.{==_refl}
use dc_inventory.Prelude.Lists.{contains, all, select, is_nodup}

module _ {ℓ} {A : Type ℓ} (key : A → ℕ) where
  pub among_selected :
      (p : A → Bool) (k : ℕ) (xs : List A)
      → contains k (map key (select p xs)) ≡ true
      → contains k (map key xs) ≡ true
  among_selected p k [] h = h
  among_selected p k (x ∷ xs) h = ground (arith, h, among_selected p k xs)

  -- Where the keys differ, whatever has the key of a selected row satisfies the test.
  pub selected :
      (p : A → Bool) (chosen : List ℕ) (xs : List A)
      → is_nodup (map key xs) ≡ true
      → ((k : ℕ)
          → contains k (map key xs) ≡ true
          → contains k chosen ≡ true
          → contains k (map key (select p xs)) ≡ true)
      → all (λ x. not (contains (key x) chosen) || p x) xs ≡ true
  selected p chosen [] unique h = refl
  selected p chosen (x ∷ xs) unique h = ground (
    arith,
    unique,
    h (key x) (ground (arith, ==_refl (key x))),
    among_selected p (key x) xs,
    selected p chosen xs (ground (arith, unique))
        (λ k there picked. ground (arith, unique, there, h k (ground (arith, there)) picked)),
  )
