-- ===== src/Identity/Administration/Holders.antt =====
-- The administration and the custody projection: who holds equipment stays eligible, so that the
-- trigger `enforce_user_custody_eligibility` of the database never has to refuse.
use mathlib.Core.Path.{subst}
use dc_inventory.Prelude.{ℕ, ◌≡◌, sym, ap, ◌∙◌, inl, inr, true, Option, some, List, [], ◌∷◌, arith}
use dc_inventory.Prelude.Tests.{◌==◌, Bool-cases}
use dc_inventory.Prelude.Result.{ok}
use dc_inventory.Prelude.Table.{Row, lookup}
use dc_inventory.Identity.Tables.{User, find_user}
use dc_inventory.Identity.Admin.Guards.{Locked, has_custody}
use dc_inventory.Identity.Administration.{Administration, administer}
use dc_inventory.Identity.Administration.Governed.{Governed, target_here, administer-Governed}
use dc_inventory.Warehouse.Movement.Guards.{may_hold_custody, user_may_hold}
use dc_inventory.Database.{Database}

-- Every user with a balance in the custody projection is approved, with a role of CUSTODY_ROLES.
pub record HoldersEligible (db : Database) : Type 0 where
  pub holder :
      (user item quantity : ℕ)
      → lookup user item db.warehouse.custody ≡ some quantity
      → user_may_hold (find_user user db.identity.users) ≡ true

pub has_custody-row :
    (user item quantity : ℕ) (rows : List Row)
    → lookup user item rows ≡ some quantity
    → has_custody user rows ≡ true
unfolding lookup has_custody
has_custody-row user item quantity [] h = cc
has_custody-row user item quantity (r ∷ rs) h =
    ground (arith, has_custody-row user item quantity rs)

holders-Governed :
    (l : Locked) (db : Database) (users : List User)
    → HoldersEligible db
    → find_user l.target.id db.identity.users ≡ some l.target
    → Governed l db.warehouse.custody db.identity.users users
    → (user item quantity : ℕ) → lookup user item db.warehouse.custody ≡ some quantity
    → user_may_hold (find_user user users) ≡ true
holders-Governed l db users holders here g user item quantity held =
    elim (Bool-cases (l.target.id == user)) [
      | inr other ↦ rw (g.others user other) (holders.holder user item quantity held)
      | inl target ↦
          let same : l.target.id ≡ user = ground (arith, target) in
          let held' : lookup l.target.id item db.warehouse.custody ≡ some quantity =
            subst (λ k. lookup k item db.warehouse.custody ≡ some quantity) (sym same) held in
          let may : may_hold_custody l.target ≡ true =
            ap user_may_hold (sym here) ∙ holders.holder l.target.id item quantity held' in
          subst (λ k. user_may_hold (find_user k users) ≡ true) same
            (ap user_may_hold g.found
              ∙ g.eligible (has_custody-row l.target.id item quantity db.warehouse.custody held')
                  may)
    ]

-- If every holder of equipment is eligible, then so it is after any call of the administration.
pub administer-HoldersEligible :
    (op : Administration) (actor_user_id target_user_id : ℕ) (recovery : Option ℕ) (now : ℕ)
    (db db' : Database)
    → HoldersEligible db
    → administer op actor_user_id target_user_id recovery now db ≡ ok db'
    → HoldersEligible db'
administer-HoldersEligible op a k recovery now db db' holders h =
    let (l, locked, how) = administer-Governed op a k recovery now db db' h in
    elim how [
      | inl same ↦ subst HoldersEligible (sym same) holders
      | inr (_, g, same) ↦ record {
        holder = λ user item quantity held.
            holders-Governed l db db'.identity.users holders (target_here locked) g user item
              quantity
              (subst (λ (d : Database). lookup user item d.warehouse.custody ≡ some quantity) same
                held);
      }
    ]
