-- ===== src/TelegramBot/Decision/Decided.antt =====
-- What a press leaves behind, and that a request is decided once.
use mathlib.Core.Path.{subst}
use dc_inventory.Prelude.{
  ℕ, ◌+◌, ◌≡◌, refl, sym, ap, ◌∷◌, ◌⊎◌, inl, inr, ◌∙◌, true, false, ◌&&◌, not, Option, some, List,
  arith,
}
use dc_inventory.Prelude.Tests.{leb, Bool-cases}
use dc_inventory.Prelude.Result.{Result, ok, err, raise_if, or_raise, or_raise_ok, >>=-Through}
use dc_inventory.Database.{Database}
use dc_inventory.Identity.Policy.{UserAccessStatus, AccessRequestStatus, status_eq}
use dc_inventory.Identity.Tables.{User, TelegramIdentity, AccessRequest, find_user}
use dc_inventory.Identity.Admin.Guards.{AdminUserError, find_identity}
use dc_inventory.Identity.Admin.{is_pending, decide_pending_access_request}
use dc_inventory.Identity.Lifecycle.Rows.{find_user_id}
use dc_inventory.TelegramBot.Callback.{parse_access_callback_data}
use dc_inventory.TelegramBot.Decision.{
  AccessDecisionCallback, DecisionError, Press, Settings, Outcome, decision_of, translate,
  find_callback, find_button, button_of, find_access_request, answered, user_notification, outcome,
  noted, decide_now, decide_pressed, apply_access_decision, resolve_actor_user_id, decide_found,
  require_approved_access_manager,
}
use dc_inventory.TelegramBot.Decision.Calls.{Told, enqueue_calls-Told}

-- The button that was pressed, the request that it stands for, and who pressed it.
pub record Pressed (callbacks : List AccessDecisionCallback) (s : Settings) (p : Press) (now : ℕ)
    (db : Database) : Type 0 where
  pub callback : AccessDecisionCallback
  pub request : AccessRequest
  pub actor_user_id : ℕ
  pub acting :
      resolve_actor_user_id p.actor_telegram_user_id db.identity.identities ≡ ok actor_user_id
  pub known : button_of callbacks p ≡ some callback
  pub valid : leb (callback.created_at + s.access_callback_ttl_seconds) now ≡ false
  pub requested :
      find_access_request callback.access_request_id db.identity.access_requests ≡ some request

-- The outcome of a press by which a request is decided. `decided` is the database as the call of the
-- web console leaves it.
pub record DecidedNow (s : Settings) (p : Press) (actor_user_id : ℕ) (request : AccessRequest)
    (decision : AccessRequestStatus) (now : ℕ) (db : Database) (o : Outcome) : Type 0 where
  pub was_pending : is_pending request.status ≡ true
  pub changed : o.result.changed ≡ true
  pub status : o.result.status ≡ decision
  pub decided : Database
  pub made :
      decide_pending_access_request actor_user_id request.user_id decision s.admin_telegram_user_id
        now db
      ≡ ok decided
  pub kept : o.database ≡ record (noted request.id decided) { outbox = o.database.outbox }
  pub identity : TelegramIdentity
  pub addressed : find_identity request.user_id db.identity.identities ≡ some identity
  pub told :
      Told s
        (user_notification request identity decision ∷ answered p decision true)
        decided.outbox
        o.database.outbox

-- The outcome of a press on a request that is decided already.
pub record DecidedBefore (s : Settings) (p : Press) (request : AccessRequest) (db : Database)
    (o : Outcome) : Type 0 where
  pub was_decided : is_pending request.status ≡ false
  pub changed : o.result.changed ≡ false
  pub status : o.result.status ≡ request.status
  pub kept : o.database ≡ record db { outbox = o.database.outbox }
  pub told : Told s (answered p request.status false) db.outbox o.database.outbox

translated_ok :
    (made : Result AdminUserError Database) (db' : Database)
    → translate made ≡ ok db'
    → made ≡ ok db'
translated_ok (ok db) db' h = ground (arith, h)
translated_ok (err e) db' h = absurd (ground (arith, h))

manager_found :
    (user : Option User) (u : User) → require_approved_access_manager user ≡ ok u → user ≡ some u
unfolding require_approved_access_manager
manager_found user u h = ground (arith, h)

apply_steps :
    (callbacks : List AccessDecisionCallback) (s : Settings) (p : Press) (now : ℕ) (db : Database)
    (o : Outcome)
    → apply_access_decision callbacks s p now db ≡ ok o
    → (pressed : Pressed callbacks s p now db) × (decide_found s p pressed.callback pressed.request
          pressed.actor_user_id now db
        ≡ ok o)
unfolding apply_access_decision
apply_steps callbacks s p now db o h =
    let (a, acting, h₁) =
      >>=-Through (resolve_actor_user_id p.actor_telegram_user_id db.identity.identities) _ h in
    let (token, parsed, h₂) =
      >>=-Through
        (or_raise (parse_access_callback_data p.callback_data) DecisionError.invalid_callback) _
        h₁ in
    let (callback, known, h₃) =
      >>=-Through (or_raise (find_callback token callbacks) DecisionError.invalid_callback) _ h₂ in
    let (_, valid, h₄) =
      >>=-Through
        (raise_if (leb (callback.created_at + s.access_callback_ttl_seconds) now)
          DecisionError.invalid_callback)
        _ h₃ in
    let (r, requested, h₅) =
      >>=-Through
        (or_raise (find_access_request callback.access_request_id db.identity.access_requests)
          DecisionError.invalid_callback)
        _ h₄ in
    (
      record {
        callback = callback;
        request = r;
        actor_user_id = a;
        acting = acting;
        known =
            ap (find_button callbacks) (or_raise_ok _ DecisionError.invalid_callback parsed)
            ∙ or_raise_ok _ _ known;
        valid = ground (arith, valid);
        requested = or_raise_ok _ _ requested;
      },
      h₅,
    )

found_steps :
    (s : Settings) (p : Press) (callback : AccessDecisionCallback) (r : AccessRequest)
    (actor_user_id now : ℕ) (db : Database) (o : Outcome)
    → decide_found s p callback r actor_user_id now db ≡ ok o
    → (manager : User) × (identity : TelegramIdentity) × (find_user actor_user_id db.identity.users
        ≡ some manager)
      × (find_identity r.user_id db.identity.identities ≡ some identity)
      × (decide_pressed s p callback.action manager identity r now db ≡ ok o)
unfolding decide_found
found_steps s p callback r a now db o h =
    let (manager, approved, h₁) =
      >>=-Through (require_approved_access_manager (find_user a db.identity.users)) _ h in
    let (target, aimed, h₂) =
      >>=-Through (or_raise (find_user r.user_id db.identity.users) DecisionError.incomplete) _
        h₁ in
    let (_, _, h₃) =
      >>=-Through
        (raise_if
          (is_pending r.status && not (status_eq target.access_status UserAccessStatus.pending))
          DecisionError.invalid_callback)
        _ h₂ in
    let (identity, known, h₄) =
      >>=-Through
        (or_raise (find_identity target.id db.identity.identities) DecisionError.incomplete) _ h₃ in
    (
      manager,
      identity,
      manager_found _ manager approved,
      subst (λ k. find_identity k db.identity.identities ≡ some identity)
          (find_user_id r.user_id db.identity.users target
            (or_raise_ok _ DecisionError.incomplete aimed))
          (or_raise_ok _ DecisionError.incomplete known),
      h₄,
    )

ok_once : (x y : Outcome) (m : Result DecisionError Outcome) → m ≡ ok x → m ≡ ok y → x ≡ y
ok_once x y m h h' = cc

now_steps :
    (s : Settings) (p : Press) (decision : AccessRequestStatus) (manager : User) (a : ℕ)
    (identity : TelegramIdentity) (r : AccessRequest) (now : ℕ) (db : Database) (o : Outcome)
    → is_pending r.status ≡ true
    → manager.id ≡ a
    → find_identity r.user_id db.identity.identities ≡ some identity
    → decide_now s p decision manager identity r now db ≡ ok o
    → DecidedNow s p a r decision now db o
unfolding decide_now
now_steps s p decision manager a identity r now db o pending named addressed h =
    let calls = user_notification r identity decision ∷ answered p decision true in
    let (db', made, e) =
      >>=-Through
        (translate (
          decide_pending_access_request manager.id r.user_id decision s.admin_telegram_user_id now
            db))
        _ h in
    let same : outcome s decision true calls now (noted r.id db') ≡ o = ok_once _ o _ refl e in
    record {
      was_pending = pending;
      changed = ap (λ (x : Outcome). x.result.changed) (sym same);
      status = ap (λ (x : Outcome). x.result.status) (sym same);
      decided = db';
      made =
          subst
            (λ k.
              decide_pending_access_request k r.user_id decision s.admin_telegram_user_id now db
              ≡ ok db')
            named (translated_ok _ db' made);
      kept =
          subst
            (λ (x : Outcome). x.database ≡ record (noted r.id db') { outbox = x.database.outbox })
            same refl;
      identity = identity;
      addressed = addressed;
      told =
          subst (λ (x : Outcome). Told s calls db'.outbox x.database.outbox) same
            (enqueue_calls-Told s now calls db'.outbox);
    }

before_steps :
    (s : Settings) (p : Press) (r : AccessRequest) (now : ℕ) (db : Database) (o : Outcome)
    → is_pending r.status ≡ false
    → outcome s r.status false (answered p r.status false) now db ≡ o
    → DecidedBefore s p r db o
before_steps s p r now db o over same = record {
  was_decided = over;
  changed = ap (λ (x : Outcome). x.result.changed) (sym same);
  status = ap (λ (x : Outcome). x.result.status) (sym same);
  kept = subst (λ (x : Outcome). x.database ≡ record db { outbox = x.database.outbox }) same refl;
  told =
      subst (λ (x : Outcome). Told s (answered p r.status false) db.outbox x.database.outbox) same
        (enqueue_calls-Told s now (answered p r.status false) db.outbox);
}

-- A press that succeeds was made with the data of a button that is known and not expired, by the user
-- of a known identity. Where the request of the button is pending, the press is the decision that the
-- web console makes in the name of this user: the same call with the same result, after which the note
-- of the request names the bot, and the outbox has the message to the
-- identity of the user, the clearing of the
-- buttons, where the press names their message, and the answer. Where the request is decided, the
-- press reports its status, and adds to the outbox the clearing of the buttons and the answer, where
-- it has no such row; no other table changes. Rows of the outbox are never changed or removed.
pub press-Decided :
    (callbacks : List AccessDecisionCallback) (s : Settings) (p : Press) (now : ℕ) (db : Database)
    (o : Outcome)
    → apply_access_decision callbacks s p now db ≡ ok o
    → (pressed : Pressed callbacks s p now db) × (DecidedNow s p pressed.actor_user_id
          pressed.request
          (decision_of pressed.callback.action)
          now
          db
          o
        ⊎ DecidedBefore s p pressed.request db o)
unfolding decide_pressed
press-Decided callbacks s p now db o h =
    let (pressed, found) = apply_steps callbacks s p now db o h in
    let r = pressed.request in
    let (manager, identity, row, addressed, e) =
      found_steps s p pressed.callback r pressed.actor_user_id now db o found in
    (
      pressed,
      elim (Bool-cases (is_pending r.status)) [
        | inl pending ↦ inl (
            now_steps s p (decision_of pressed.callback.action) manager pressed.actor_user_id
              identity r now db o pending
              (find_user_id pressed.actor_user_id db.identity.users manager row) addressed
              (ground (arith, e, pending)))
        | inr over ↦ inr (before_steps s p r now db o over (ground (arith, e, over)))
      ],
    )
