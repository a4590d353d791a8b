-- ===== src/Prelude/Table.antt =====
-- A table of quantities with a unique pair of keys, as rows. The stock projection is keyed by an
-- item and a location, the custody projection by a user and an item.
use Prim.Native.Nat.{ℕ}
use mathlib.Core.Path.{◌≡◌, refl}
use mathlib.Core.Bool.{Bool, ◌&&◌}
use mathlib.Core.List.{List, [], ◌∷◌}
use mathlib.Core.Option.{Option, none, some}
use native.Mathlib.Omega.{arith}
use dc_inventory.Prelude.Tests.{◌==◌, if◌then◌else◌}

pub record Row : Type 0 where
  pub key₁ : ℕ
  pub key₂ : ℕ
  pub quantity : ℕ

abbrev pub matches : ℕ → ℕ → Row → Bool
matches a b r = r.key₁ == a && r.key₂ == b

-- `SELECT quantity WHERE key₁ = a AND key₂ = b`
unfoldable pub lookup : ℕ → ℕ → List Row → Option ℕ
lookup a b [] = none
lookup a b (r ∷ rs) = if matches a b r then some r.quantity else lookup a b rs

-- `INSERT … ON CONFLICT (key₁, key₂) DO UPDATE SET quantity`
unfoldable pub upsert : ℕ → ℕ → ℕ → List Row → List Row
upsert a b q [] = record { key₁ = a; key₂ = b; quantity = q } ∷ []
upsert a b q (r ∷ rs) =
    if matches a b r then record r { quantity = q } ∷ rs else r ∷ upsert a b q rs

-- `DELETE WHERE key₁ = a AND key₂ = b`
unfoldable pub delete : ℕ → ℕ → List Row → List Row
delete a b [] = []
delete a b (r ∷ rs) = if matches a b r then delete a b rs else r ∷ delete a b rs

pub lookup-upsert :
    (a b q c d : ℕ) (rs : List Row)
    → lookup c d (upsert a b q rs) ≡ (if a == c && b == d then some q else lookup c d rs)
unfolding lookup upsert
lookup-upsert a b q c d [] = refl
lookup-upsert a b q c d (r ∷ rs) = ground (arith, lookup-upsert a b q c d rs)

pub lookup-delete :
    (a b c d : ℕ) (rs : List Row)
    → lookup c d (delete a b rs) ≡ (if a == c && b == d then none else lookup c d rs)
unfolding lookup delete
lookup-delete a b c d [] = ground arith
lookup-delete a b c d (r ∷ rs) = ground (arith, lookup-delete a b c d rs)
