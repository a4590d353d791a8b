-- ===== src/Tests/Bot.antt =====
-- Runs of the bot: an administrator (1) presses the button that lets a user (5) in.
use dc_inventory.Prelude.{
  ℕ, ◌+◌, ◌*◌, ◌≡◌, ◌⊎◌, ◌↔◌, refl, true, false, none, some, List, [], ◌∷◌, ◌++◌,
}
use dc_inventory.Prelude.Lists.{any, all, length}
use dc_inventory.Prelude.Result.{Result, ok}
use dc_inventory.Database.{Database}
use dc_inventory.Identity.Policy.{
  UserRole, UserAccessStatus, AccessRequestStatus, capabilities_for_role, has_capability,
}
use dc_inventory.Identity.Lifecycle.{put_user, transition_user_access}
use dc_inventory.Identity.Access.{new_access_request}
use dc_inventory.Identity.Admin.Guards.{lock_actor_and_target, is_recovery_identity}
use dc_inventory.Identity.Admin.{
  is_pending, decide_request, decide_locked, decide_pending_access_request,
}
use dc_inventory.Notifications.Outbox.{enqueue_telegram_call}
use dc_inventory.TelegramBot.Start.{TelegramChatState, ChatEvent, latest_start, run_events}
use dc_inventory.TelegramBot.Start.Latest.{is_start_of, starts_within, latest-run}
use dc_inventory.TelegramBot.Callback.{
  callback_prefix, without_prefix, is_callback_token, parse_access_callback_data,
  access_callback_data, parse-access_callback_data,
}
use dc_inventory.TelegramBot.Buttons.{
  create_access_decision_callbacks, get_or_create_access_decision_callbacks, IsButton,
  get_or_create-again,
}
use dc_inventory.TelegramBot.Decision.{
  CallbackAction, AccessDecisionCallback, DecisionError, Press, Outcome, CallKey, Settings,
  button_of, enqueue_calls, with_note, decision_of, same_text, resolve_actor_user_id,
  require_approved_access_manager, decide_now, decide_pressed, decide_found, apply_access_decision,
}
use dc_inventory.TelegramBot.Decision.Decided.{Pressed, DecidedNow, DecidedBefore, press-Decided}
use dc_inventory.TelegramBot.Decision.Once.{
  one_pending, request_status, Repeated, press-settled, press-once,
}
use dc_inventory.Tests.Data.{user, given, is_ok, succeeded}
use dc_inventory.Tests.Staff.{staff, office}

abbrev five_a : List ℕ
five_a = 97 ∷ 97 ∷ 97 ∷ 97 ∷ 97 ∷ []

abbrev token : List ℕ
token = five_a ++ (five_a ++ (five_a ++ five_a))

abbrev waiting : Database
waiting = record office {
  identity = record staff {
    users =
        record (user 5 UserRole.engineer) {
          access_status = UserAccessStatus.pending;
          approved_at = none;
        }
        ∷ staff.users;
    identities = record { user_id = 5; telegram_user_id = 105 } ∷ staff.identities;
    access_requests = new_access_request 60 5 10 ∷ [];
  };
}

abbrev approve_button : AccessDecisionCallback
approve_button = record {
  token = token;
  access_request_id = 60;
  action = CallbackAction.approve;
  created_at = 10;
}

abbrev buttons : List AccessDecisionCallback
buttons = approve_button ∷ []

-- Different numbers for different keys.
abbrev key_digest : CallKey → ℕ
key_digest (CallKey.user_decision k) = 3 * k
key_digest (CallKey.clear_buttons k) = 3 * k + 1
key_digest (CallKey.answer k) = 3 * k + 2

abbrev approving : Press
approving = record {
  callback_data = callback_prefix ++ token;
  callback_query_id = 1;
  actor_telegram_user_id = 101;
  message_chat_id = some 7;
  message_id = some 8;
}

abbrev settings : Settings
settings = record {
  access_callback_ttl_seconds = 100;
  admin_telegram_user_id = some 999;
  notification_dedupe_key = key_digest;
}

abbrev pressing : Result DecisionError Outcome
pressing = apply_access_decision buttons settings approving 20 waiting

abbrev nothing_done : Outcome
nothing_done = record {
  result = record { status = AccessRequestStatus.pending; changed = false };
  database = waiting;
}

-- The administrator presses again, in another message.
abbrev again_pressing : Result DecisionError Outcome
again_pressing =
    apply_access_decision buttons settings (record approving { callback_query_id = 2 }) 30
      (given nothing_done pressing).database

bot_run :
    (is_ok pressing ≡ true)
    × ((given nothing_done pressing).result.changed ≡ true)
    × (one_pending waiting.identity.access_requests ≡ true)
    × (is_ok again_pressing ≡ true)
    × (length (given nothing_done pressing).database.outbox ≡ 3)
    × (length (given nothing_done again_pressing).database.outbox ≡ 5)
    × (button_of buttons approving ≡ some approve_button)
unfolding capabilities_for_role has_capability put_user transition_user_access lock_actor_and_target
    is_recovery_identity decide_request decide_locked decide_pending_access_request without_prefix
    is_callback_token parse_access_callback_data same_text resolve_actor_user_id
    require_approved_access_manager decide_now decide_pressed decide_found apply_access_decision
    one_pending enqueue_telegram_call enqueue_calls with_note
bot_run = (refl, refl, refl, refl, refl, refl, refl)

press-Decided_example :
    (pressed : Pressed buttons settings approving 20 waiting) × (DecidedNow settings approving
        pressed.actor_user_id pressed.request
        (decision_of pressed.callback.action)
        20
        waiting
        (given nothing_done pressing)
      ⊎ DecidedBefore settings approving pressed.request waiting (given nothing_done pressing))
press-Decided_example =
    press-Decided buttons settings approving 20 waiting (given nothing_done pressing)
      (succeeded nothing_done pressing bot_run.0)

press-settled_example :
    (request_status 60 (given nothing_done pressing).database
      ≡ some (given nothing_done pressing).result.status)
    × (is_pending (given nothing_done pressing).result.status ≡ false)
press-settled_example =
    press-settled buttons settings approving 20 waiting (given nothing_done pressing) approve_button
      (succeeded nothing_done pressing bot_run.0) bot_run.2 bot_run.6

press-once_example :
    let o = given nothing_done pressing in
    let o' = given nothing_done again_pressing in
    Repeated settings (record approving { callback_query_id = 2 }) o.result.status o.database o'
    × (request_status 60 o'.database ≡ request_status 60 o.database)
press-once_example =
    press-once buttons buttons settings settings approving
      (record approving { callback_query_id = 2 }) 20 30 waiting
      (given nothing_done pressing).database (given nothing_done pressing)
      (given nothing_done again_pressing) approve_button approve_button
      (succeeded nothing_done pressing bot_run.0) bot_run.2 bot_run.6 bot_run.6 refl refl
      (succeeded nothing_done again_pressing bot_run.3)

parse-access_callback_data_example :
    ((parse_access_callback_data (callback_prefix ++ token) ≡ some token) ↔ (
      (access_callback_data token ≡ some (callback_prefix ++ token))
      × (is_callback_token token ≡ true)))
    × (is_callback_token token ≡ true
        → access_callback_data token ≡ some (callback_prefix ++ token))
parse-access_callback_data_example = parse-access_callback_data (callback_prefix ++ token) token

-- The second /start overtakes the first, whose delivery comes later.
abbrev deliveries : List ChatEvent
deliveries =
    ChatEvent.start 7 12 100 ∷ ChatEvent.welcome 7 12 40 101 ∷ ChatEvent.start 7 11 102 ∷ []

latest-run_example :
    let latest = latest_start 7 (run_events deliveries []) in
    ((u : ℕ) → latest ≡ some u → any (is_start_of 7 u) deliveries ≡ true)
    × (all (starts_within 7 latest) deliveries ≡ true)
latest-run_example = latest-run 7 deliveries

abbrev chats : List TelegramChatState
chats = run_events deliveries []

first_made :
    get_or_create_access_decision_callbacks 60 token (97 ∷ token) 20 []
    ≡ ok (create_access_decision_callbacks 60 token (97 ∷ token) 20 [])
unfolding get_or_create_access_decision_callbacks
first_made = refl

get_or_create-again_example :
    let made = create_access_decision_callbacks 60 token (97 ∷ token) 20 [] in
    (get_or_create_access_decision_callbacks 60 [] [] 30 made.1 ≡ ok made)
    × IsButton 60 true made.0.approve
    × IsButton 60 false made.0.reject
get_or_create-again_example =
    get_or_create-again 60 20 30 token (97 ∷ token) [] [] []
      (create_access_decision_callbacks 60 token (97 ∷ token) 20 []).1
      (create_access_decision_callbacks 60 token (97 ∷ token) 20 []).0 first_made
