-- ===== src/Identity/Reset/Steps.antt =====
-- What a reset that succeeds went through.
use dc_inventory.Prelude.{ℕ, ◌≡◌, refl, false, Option, some, none, List, arith}
use dc_inventory.Prelude.Tests.{◌==◌, is_id}
use dc_inventory.Prelude.Result.{ok, ◌>>=◌, raise_if, raise_if_ok, >>=-Through}
use dc_inventory.Identity.Tables.{TelegramIdentity}
use dc_inventory.Identity.Admin.Guards.{
  AdminUserError, Locked, lock_actor_and_target, find_identity, is_recovery_identity, has_custody,
}
use dc_inventory.Identity.Admin.Steps.{IsLocked, MayChange, locked_steps}
use dc_inventory.Identity.Reset.{
  confirm, has_open_purchase, detached, bury_requests, reset_confirmed, reset_locked,
  reset_user_account,
}
use dc_inventory.Database.{Database}

confirm_steps :
    (k expected : ℕ) (identities : List TelegramIdentity) (i : TelegramIdentity)
    → confirm k expected identities ≡ ok i
    → (find_identity k identities ≡ some i) × (i.telegram_user_id ≡ expected)
unfolding confirm
confirm_steps k expected identities i h = (ground arith, ground arith)

not_recovery :
    (k : ℕ) (recovery : Option ℕ) (identities : List TelegramIdentity) (i : TelegramIdentity)
    → find_identity k identities ≡ some i
    → is_id recovery i.telegram_user_id ≡ false
    → is_recovery_identity k recovery identities ≡ false
unfolding is_recovery_identity
not_recovery k none identities i found h = refl
not_recovery k (some recovery) identities i found h = ground arith

pub record Reset (recovery : Option ℕ) (expected : ℕ) (l : Locked) (db : Database) : Type 0 where
  pub may : MayChange recovery l db
  pub identity : TelegramIdentity
  pub found : find_identity l.target.id db.identity.identities ≡ some identity
  pub confirmed : identity.telegram_user_id ≡ expected
  pub free : has_custody l.target.id db.warehouse.custody ≡ false
  pub no_purchase : has_open_purchase l.target.id db.requests ≡ false

reset_locked_steps :
    (admin_key : ℕ → ℕ) (expected : ℕ) (recovery : Option ℕ) (now : ℕ) (db db' : Database)
    (l : Locked)
    → reset_locked admin_key expected recovery now db l ≡ ok db'
    → Reset recovery expected l db
      × (db' ≡ record db {
        identity = detached l now db.identity;
        outbox = bury_requests admin_key l.target.id db.identity.access_requests db.outbox;
      })
unfolding reset_locked reset_confirmed
reset_locked_steps admin_key expected recovery now db db' l h =
    let (_, other, g) =
      >>=-Through (raise_if (l.actor.id == l.target.id) AdminUserError.forbidden)
        (λ _.
          confirm l.target.id expected db.identity.identities
          >>= reset_confirmed admin_key l recovery now db)
        h in
    let (i, confirmed, e) =
      >>=-Through (confirm l.target.id expected db.identity.identities)
        (reset_confirmed admin_key l recovery now db) g in
    let (found, same) = confirm_steps l.target.id expected db.identity.identities i confirmed in
    (
      record {
        may = record {
          other = raise_if_ok (l.actor.id == l.target.id) AdminUserError.forbidden other;
          unprotected =
              ground (arith, e, not_recovery l.target.id recovery db.identity.identities i found);
          manages = ground (arith, e);
        };
        identity = i;
        found = found;
        confirmed = same;
        free = ground (arith, e);
        no_purchase = ground (arith, e);
      },
      ground (arith, e),
    )

pub account_steps :
    (admin_key : ℕ → ℕ) (before : List TelegramIdentity) (actor_user_id target_user_id expected : ℕ)
    (recovery : Option ℕ) (now : ℕ) (db db' : Database)
    → reset_user_account admin_key before actor_user_id target_user_id expected recovery now db
      ≡ ok db'
    → (l : Locked) × IsLocked actor_user_id target_user_id db.identity.users l
      × Reset recovery expected l db
      × (db' ≡ record db {
        identity = detached l now db.identity;
        outbox = bury_requests admin_key l.target.id db.identity.access_requests db.outbox;
      })
unfolding reset_user_account
account_steps admin_key before a k expected recovery now db db' h =
    let (shown, _, g) =
      >>=-Through (confirm k expected before)
        (λ _.
          lock_actor_and_target a k db.identity.users
          >>= reset_locked admin_key expected recovery now db)
        h in
    let (l, locked, e) =
      >>=-Through (lock_actor_and_target a k db.identity.users)
        (reset_locked admin_key expected recovery now db) g in
    let (how, same) = reset_locked_steps admin_key expected recovery now db db' l e in
    (l, locked_steps a k db.identity.users l locked, how, same)
