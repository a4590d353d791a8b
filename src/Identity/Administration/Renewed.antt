-- ===== src/Identity/Administration/Renewed.antt =====
-- What becomes of an account that is reset.
use mathlib.Core.Path.{subst}
use dc_inventory.Prelude.{
  ℕ, ◌≡◌, refl, ap, ◌∙◌, inl, inr, true, false, not, Option, some, none, List, [], ◌∷◌, map, arith,
}
use dc_inventory.Prelude.Tests.{◌==◌, is_id, Bool-cases}
use dc_inventory.Prelude.Lists.{find, select, contains, is_nodup}
use dc_inventory.Prelude.Result.{ok}
use dc_inventory.Identity.Policy.{UserRole, UserAccessStatus, role_eq, status_eq}
use dc_inventory.Identity.Tables.{User, TelegramIdentity, IdentityTables, find_user}
use dc_inventory.Identity.Lifecycle.{accessed, transition_user_access, change_role}
use dc_inventory.Identity.Lifecycle.Rows.{find_user_id}
use dc_inventory.Identity.Admin.Guards.{Locked, find_identity, is_recovery_identity}
use dc_inventory.Identity.Lifecycle.Frame.{transition-row, change_role-row}
use dc_inventory.Identity.Administration.Governed.{target_here}
use dc_inventory.Identity.Login.{new_user, with_user, first_login, upsert_telegram_identity}
use dc_inventory.Identity.Reset.{detached, without_login, reset_user_account}
use dc_inventory.Identity.Reset.Steps.{account_steps}
use dc_inventory.Database.{Database}

abbrev pub telegram_ids : List TelegramIdentity → List ℕ
telegram_ids = map λ (i : TelegramIdentity). i.telegram_user_id

abbrev by_telegram : ℕ → List TelegramIdentity → Option TelegramIdentity
by_telegram e = find λ (i : TelegramIdentity). i.telegram_user_id == e

abbrev others : ℕ → List TelegramIdentity → List TelegramIdentity
others k = select λ (i : TelegramIdentity). not (i.user_id == k)

absent :
    (k e : ℕ) (is : List TelegramIdentity)
    → contains e (telegram_ids is) ≡ false
    → by_telegram e (others k is) ≡ none
absent k e [] h = refl
absent k e (i ∷ is) h = ground (arith, absent k e is)

present :
    (k : ℕ) (is : List TelegramIdentity) (i : TelegramIdentity)
    → find_identity k is ≡ some i
    → contains i.telegram_user_id (telegram_ids is) ≡ true
present k [] i h = cc
present k (j ∷ js) i h = ground (arith, present k js i)

-- Of a Telegram identifier there is one identity, and it is gone.
gone :
    (k : ℕ) (is : List TelegramIdentity) (i : TelegramIdentity)
    → is_nodup (telegram_ids is) ≡ true
    → find_identity k is ≡ some i
    → by_telegram i.telegram_user_id (others k is) ≡ none
gone k [] i h found = cc
gone k (j ∷ js) i h found =
    ground (arith, gone k js i, absent k i.telegram_user_id js, present k js i)

detached_identities :
    (l : Locked) (now : ℕ) (t : IdentityTables)
    → (detached l now t).identities ≡ others l.target.id t.identities
unfolding transition_user_access change_role
detached_identities l now t = ground arith

not_recovery :
    (k : ℕ) (recovery : Option ℕ) (is : List TelegramIdentity) (i : TelegramIdentity)
    → find_identity k is ≡ some i
    → is_recovery_identity k recovery is ≡ false
    → is_id recovery i.telegram_user_id ≡ false
unfolding is_recovery_identity
not_recovery k none is i found h = refl
not_recovery k (some r) is i found h = ground (arith, found, h)

first_again :
    (telegram : ℕ) (recovery : Option ℕ) (user_id now : ℕ) (t : IdentityTables)
    → by_telegram telegram t.identities ≡ none
    → is_id recovery telegram ≡ false
    → find_user user_id t.users ≡ none
    → upsert_telegram_identity telegram recovery user_id now t
      ≡ ok (record {
        user = new_user user_id false now;
        tables = with_user (new_user user_id false now) telegram t;
      })
unfolding upsert_telegram_identity first_login
first_again telegram recovery user_id now t away ordinary fresh =
    ground (arith, away, ordinary, fresh)

detached_row :
    (l : Locked) (now : ℕ) (t : IdentityTables)
    → find_user l.target.id t.users ≡ some l.target
    → (u : User) × (find_user l.target.id (detached l now t).users ≡ some u)
      × (role_eq u.role UserRole.engineer ≡ true)
      × (status_eq u.access_status UserAccessStatus.blocked ≡ true)
detached_row l now t here = elim (Bool-cases (role_eq l.target.role UserRole.engineer)) [
  | inl engineer ↦ (old, rw engineer moved, engineer, blocked)
  | inr other ↦ (
    record old { role = UserRole.engineer },
    rw other (change_role-row old l.actor.id now after UserRole.engineer moved),
    refl,
    blocked,
  )
]
  where
    old : User
    old = accessed l.actor.id UserAccessStatus.blocked now l.target

    after : IdentityTables
    after =
        transition_user_access l.target l.actor.id UserAccessStatus.blocked now
          (without_login l.target.id now t)

    moved : find_user l.target.id after.users ≡ some old
    moved =
        transition-row l.target l.actor.id now (without_login l.target.id now t)
          UserAccessStatus.blocked here

    blocked : status_eq old.access_status UserAccessStatus.blocked ≡ true
    blocked = ground arith

-- After a reset, in tables where a Telegram identifier has one identity, the row of the user is a
-- blocked engineer without an identity, and the next login of that Telegram user does not reach it:
-- it succeeds, under any identifier that is not taken, with a new engineer whose access is pending.
pub reset-Renewed :
    (admin_key : ℕ → ℕ) (before : List TelegramIdentity) (actor_user_id target_user_id expected : ℕ)
    (recovery : Option ℕ) (now user_id later : ℕ) (db db' : Database)
    → is_nodup (telegram_ids db.identity.identities) ≡ true
    → reset_user_account admin_key before actor_user_id target_user_id expected recovery now db
      ≡ ok db'
    → find_user user_id db'.identity.users ≡ none
    → (u : User) × (find_user target_user_id db'.identity.users ≡ some u)
      × (role_eq u.role UserRole.engineer ≡ true)
      × (status_eq u.access_status UserAccessStatus.blocked ≡ true)
      × (upsert_telegram_identity expected recovery user_id later db'.identity
          ≡ ok (record {
            user = new_user user_id false later;
            tables = with_user (new_user user_id false later) expected db'.identity;
          }))
reset-Renewed admin_key before a k expected recovery now user_id later db db' unique h fresh =
    let (l, locked, how, same) =
      account_steps admin_key before a k expected recovery now db db' h in
    let identity = how.identity in
    let (u, row, role, status) = detached_row l now db.identity (target_here locked) in
    let id = find_user_id k db.identity.users l.target locked.target_found in
    (
      u,
      ap (λ (d : Database). find_user k d.identity.users) same
          ∙ subst (λ j. find_user j (detached l now db.identity).users ≡ some u) id row,
      role,
      status,
      first_again expected recovery user_id later db'.identity
          (ap (λ (d : Database). by_telegram expected d.identity.identities) same
            ∙ ap (by_telegram expected) (detached_identities l now db.identity)
            ∙ subst (λ e. by_telegram e (others l.target.id db.identity.identities) ≡ none)
                how.confirmed (gone l.target.id db.identity.identities identity unique how.found))
          (subst (λ e. is_id recovery e ≡ false) how.confirmed
            (not_recovery l.target.id recovery db.identity.identities identity how.found
              (ground (arith, how.may.unprotected))))
          fresh,
    )
