-- ===== src/Identity/Lifecycle/Rows.antt =====
-- The table of the users, and what writing a row back does to it.
use dc_inventory.Prelude.{ℕ, ◌≡◌, refl, false, some, List, [], ◌∷◌, arith}
use dc_inventory.Prelude.Tests.{◌==◌}
use dc_inventory.Identity.Tables.{User, find_user}
use dc_inventory.Identity.Lifecycle.{put_user}

pub find_user_id : (k : ℕ) (us : List User) (u : User) → find_user k us ≡ some u → u.id ≡ k
find_user_id k [] u h = cc
find_user_id k (v ∷ vs) u h = ground (arith, find_user_id k vs u)

pub find_user-put_user :
    (k : ℕ) (us : List User) (u u' : User)
    → find_user k us ≡ some u
    → u'.id ≡ k
    → find_user k (put_user u' us) ≡ some u'
unfolding put_user
find_user-put_user k [] u u' h e = cc
find_user-put_user k (v ∷ vs) u u' h e = ground (arith, find_user-put_user k vs u u')

-- The rows of the other users stay.
pub find_user-other :
    (k : ℕ) (us : List User) (u' : User)
    → (u'.id == k) ≡ false
    → find_user k (put_user u' us) ≡ find_user k us
unfolding put_user
find_user-other k [] u' h = refl
find_user-other k (v ∷ vs) u' h = ground (arith, find_user-other k vs u' h)
