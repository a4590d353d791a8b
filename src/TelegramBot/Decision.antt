-- ===== src/TelegramBot/Decision.antt =====
-- telegram_bot/service.py: `apply_access_decision`, which a press of a button runs in one
-- transaction. The second read of the request, under its lock, sees what the first saw. The calls that
-- it makes of Telegram are rows of the outbox, with the parts that their texts are put together from.
pub mod Calls
pub mod Decided
pub mod Once
use dc_inventory.Prelude.{
  ℕ, ◌+◌, Bool, true, false, ◌&&◌, ◌||◌, not, Option, none, some, List, [], ◌∷◌, ◌++◌,
}
use dc_inventory.Prelude.Tests.{◌==◌, leb, if◌then◌else◌}
use dc_inventory.Prelude.Lists.{find}
use dc_inventory.Prelude.Result.{Result, ok, err, ◌>>=◌, ◌>>◌, raise_if, or_raise}
use dc_inventory.Database.{Database}
use dc_inventory.Identity.Policy.{
  UserAccessStatus, AccessRequestStatus, Capability, status_eq, has_capability,
}
use dc_inventory.Identity.Tables.{User, TelegramIdentity, AccessRequest, DecisionNote, find_user}
use dc_inventory.Notifications.Outbox.{NotificationOutbox, Payload, enqueue_telegram_call}
use dc_inventory.Identity.Lifecycle.{is_approved}
use dc_inventory.Identity.Admin.Guards.{AdminUserError, find_identity}
use dc_inventory.Identity.Admin.{is_pending, decide_pending_access_request}
use dc_inventory.TelegramBot.Callback.{parse_access_callback_data}

pub data CallbackAction : Type 0 where
  approve reject : CallbackAction

pub record AccessDecisionCallback : Type 0 where
  pub token : List ℕ
  pub access_request_id : ℕ
  pub action : CallbackAction
  pub created_at : ℕ

-- TelegramAccessManagerAuthorizationError, InvalidAccessCallbackError, RuntimeError, and the errors
-- of admin_service.py that are not caught.
pub data DecisionError : Type 0 where
  not_access_manager invalid_callback incomplete : DecisionError
  uncaught : AdminUserError → DecisionError

-- The parts that the dedupe key of a call is digested from: "access-request" and the request with
-- "user-decision", and "callback" and the query with "clear-buttons" or "answer".
pub data CallKey : Type 0 where
  user_decision clear_buttons answer : ℕ → CallKey

-- A call of `enqueue_telegram_call`.
pub record BotCall : Type 0 where
  pub key : CallKey
  pub payload : Payload

-- The settings access_callback_ttl_seconds and admin_telegram_user_id, and the digest by hashlib of
-- `notification_dedupe_key`.
pub record Settings : Type 0 where
  pub access_callback_ttl_seconds : ℕ
  pub admin_telegram_user_id : Option ℕ
  pub notification_dedupe_key : CallKey → ℕ

pub record AccessDecisionResult : Type 0 where
  pub status : AccessRequestStatus
  pub changed : Bool

-- The arguments of a press.
pub record Press : Type 0 where
  pub callback_data : List ℕ
  pub callback_query_id : ℕ
  pub actor_telegram_user_id : ℕ
  pub message_chat_id : Option ℕ
  pub message_id : Option ℕ

pub record Outcome : Type 0 where
  pub result : AccessDecisionResult
  pub database : Database

-- Equality of texts.
unfoldable pub same_text : List ℕ → List ℕ → Bool
same_text [] [] = true
same_text [] (d ∷ ds) = false
same_text (c ∷ cs) [] = false
same_text (c ∷ cs) (d ∷ ds) = c == d && same_text cs ds

abbrev pub find_callback : List ℕ → List AccessDecisionCallback → Option AccessDecisionCallback
find_callback token = find λ c. same_text c.token token

abbrev pub find_button :
    List AccessDecisionCallback → Option (List ℕ) → Option AccessDecisionCallback
find_button callbacks none = none
find_button callbacks (some token) = find_callback token callbacks

-- The button whose data a press has.
abbrev pub button_of : List AccessDecisionCallback → Press → Option AccessDecisionCallback
button_of callbacks p = find_button callbacks (parse_access_callback_data p.callback_data)

abbrev pub find_access_request : ℕ → List AccessRequest → Option AccessRequest
find_access_request k = find λ r. r.id == k

abbrev pub decision_of : CallbackAction → AccessRequestStatus
decision_of CallbackAction.approve = AccessRequestStatus.approved
decision_of CallbackAction.reject = AccessRequestStatus.rejected

-- The errors that `apply_access_decision` raises in place of those of the decision.
abbrev pub translated : AdminUserError → DecisionError
translated AdminUserError.forbidden = DecisionError.not_access_manager
translated AdminUserError.invalid_access_transition = DecisionError.invalid_callback
translated AdminUserError.pending_access_request_not_found = DecisionError.invalid_callback
translated AdminUserError.recovery_invariant = DecisionError.invalid_callback
translated e = DecisionError.uncaught e

abbrev pub translate : Result AdminUserError Database → Result DecisionError Database
translate (ok db) = ok db
translate (err e) = err (translated e)

-- `_resolve_actor_user_id`
unfoldable pub resolve_actor_user_id : ℕ → List TelegramIdentity → Result DecisionError ℕ
resolve_actor_user_id telegram_user_id identities = do
  i ←
      or_raise (find (λ i. i.telegram_user_id == telegram_user_id) identities)
        DecisionError.not_access_manager
  ok i.user_id

-- `_require_approved_access_manager`
unfoldable pub require_approved_access_manager : Option User → Result DecisionError User
require_approved_access_manager user = do
  u ← or_raise user DecisionError.not_access_manager
  raise_if
      (not (has_capability u.role Capability.access_manage_users)
        || not (is_approved u.access_status))
      DecisionError.not_access_manager
  ok u

-- `_enqueue_access_buttons_clear`
abbrev clearing : ℕ → Option ℕ → Option ℕ → List BotCall
clearing query none message = []
clearing query (some chat_id) none = []
clearing query (some chat_id) (some message_id) =
    record { key = CallKey.clear_buttons query; payload = Payload.clear_buttons chat_id message_id }
    ∷ []

-- The clearing of the buttons, and `_enqueue_callback_answer`.
abbrev pub answered : Press → AccessRequestStatus → Bool → List BotCall
answered p status changed =
    clearing p.callback_query_id p.message_chat_id p.message_id
    ++ (record {
      key = CallKey.answer p.callback_query_id;
      payload = Payload.answer p.callback_query_id status changed;
    }
        ∷ [])

-- `enqueue_access_decision_user_notification`
abbrev pub user_notification : AccessRequest → TelegramIdentity → AccessRequestStatus → BotCall
user_notification r identity decision = record {
  key = CallKey.user_decision r.id;
  payload = Payload.user_decision identity.telegram_user_id decision;
}

unfoldable pub enqueue_calls :
    Settings → ℕ → List BotCall → List NotificationOutbox → List NotificationOutbox
enqueue_calls s now [] outbox = outbox
enqueue_calls s now (c ∷ cs) outbox =
    enqueue_calls s now cs
      (enqueue_telegram_call now c.payload (s.notification_dedupe_key c.key) outbox)

abbrev pub outcome : Settings → AccessRequestStatus → Bool → List BotCall → ℕ → Database → Outcome
outcome s status changed calls now db = record {
  result = record { status = status; changed = changed };
  database = record db { outbox = enqueue_calls s now calls db.outbox };
}

-- `access_request.decision_note = "Telegram inline callback"`. A user has one pending request, so the
-- row that the decision returns is that of the button.
unfoldable pub with_note : ℕ → List AccessRequest → List AccessRequest
with_note k [] = []
with_note k (r ∷ rs) =
    (if r.id == k then record r { decision_note = some DecisionNote.telegram_callback } else r)
    ∷ with_note k rs

abbrev pub noted : ℕ → Database → Database
noted k db = record db {
  identity = record db.identity { access_requests = with_note k db.identity.access_requests };
}

unfoldable pub decide_now :
    Settings
    → Press
    → AccessRequestStatus
    → User
    → TelegramIdentity
    → AccessRequest
    → ℕ
    → Database
    → Result DecisionError Outcome
decide_now s p decision manager identity r now db = do
  db' ←
      translate (
        decide_pending_access_request manager.id r.user_id decision s.admin_telegram_user_id now db)
  ok (
      outcome s decision true (user_notification r identity decision ∷ answered p decision true) now
        (noted r.id db'))

-- What follows the locks: the manager decides the request, unless it is decided already.
unfoldable pub decide_pressed :
    Settings
    → Press
    → CallbackAction
    → User
    → TelegramIdentity
    → AccessRequest
    → ℕ
    → Database
    → Result DecisionError Outcome
decide_pressed s p action manager identity r now db =
    if is_pending r.status
    then decide_now s p (decision_of action) manager identity r now db
    else ok (outcome s r.status false (answered p r.status false) now db)

-- What follows the reads of the button and of its request.
unfoldable pub decide_found :
    Settings
    → Press
    → AccessDecisionCallback
    → AccessRequest
    → ℕ
    → ℕ
    → Database
    → Result DecisionError Outcome
decide_found s p callback r actor_user_id now db = do
  manager ← require_approved_access_manager (find_user actor_user_id db.identity.users)
  target ← or_raise (find_user r.user_id db.identity.users) DecisionError.incomplete
  raise_if (is_pending r.status && not (status_eq target.access_status UserAccessStatus.pending))
      DecisionError.invalid_callback
  identity ← or_raise (find_identity target.id db.identity.identities) DecisionError.incomplete
  decide_pressed s p callback.action manager identity r now db

-- `callbacks` is the table access_decision_callbacks.
unfoldable pub apply_access_decision :
    List AccessDecisionCallback → Settings → Press → ℕ → Database → Result DecisionError Outcome
apply_access_decision callbacks s p now db = do
  actor_user_id ← resolve_actor_user_id p.actor_telegram_user_id db.identity.identities
  token ← or_raise (parse_access_callback_data p.callback_data) DecisionError.invalid_callback
  callback ← or_raise (find_callback token callbacks) DecisionError.invalid_callback
  raise_if (leb (callback.created_at + s.access_callback_ttl_seconds) now)
      DecisionError.invalid_callback
  r ←
      or_raise (find_access_request callback.access_request_id db.identity.access_requests)
        DecisionError.invalid_callback
  decide_found s p callback r actor_user_id now db
