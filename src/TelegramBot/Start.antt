-- ===== src/TelegramBot/Start.antt =====
-- telegram_bot/models.py (`TelegramChatState`), telegram_bot/service.py and notifications/worker.py:
-- which /start of a chat is its latest, and the welcome that was sent for it. Deliveries overlap, so
-- a /start can be registered after a newer one, and its welcome can be sent when it is overtaken.
-- `created_at` is left out, since nothing reads it.
pub mod Latest
pub mod Welcome
use dc_inventory.Prelude.{ℕ, max, Bool, true, false, ◌&&◌, Option, none, some, List, [], ◌∷◌}
use dc_inventory.Prelude.Tests.{◌==◌, if◌then◌else◌, is_id}

pub record TelegramChatState : Type 0 where
  pub chat_id : ℕ
  pub latest_start_update_id : ℕ
  pub last_welcome_message_id : Option ℕ
  pub last_welcome_sent_at : Option ℕ
  pub updated_at : ℕ

-- `INSERT … ON CONFLICT (chat_id) DO UPDATE` of `_register_latest_start`.
unfoldable pub register_latest_start : ℕ → ℕ → ℕ → List TelegramChatState → List TelegramChatState
register_latest_start chat_id update_id now [] =
    record {
      chat_id = chat_id;
      latest_start_update_id = update_id;
      last_welcome_message_id = none;
      last_welcome_sent_at = none;
      updated_at = now;
    }
    ∷ []
register_latest_start chat_id update_id now (s ∷ ss) =
    if s.chat_id == chat_id
    then record s {
      latest_start_update_id = max s.latest_start_update_id update_id;
      updated_at = now;
    }
      ∷ ss
    else s ∷ register_latest_start chat_id update_id now ss

-- `SELECT latest_start_update_id WHERE chat_id = …`
unfoldable pub latest_start : ℕ → List TelegramChatState → Option ℕ
latest_start chat_id [] = none
latest_start chat_id (s ∷ ss) =
    if s.chat_id == chat_id then some s.latest_start_update_id else latest_start chat_id ss

unfoldable pub is_current_start : ℕ → ℕ → List TelegramChatState → Bool
is_current_start chat_id update_id ss = is_id (latest_start chat_id ss) update_id

-- The new rows, and whether the welcome was recorded.
unfoldable pub record_welcome_if_current :
    ℕ → ℕ → ℕ → ℕ → List TelegramChatState → Bool × List TelegramChatState
record_welcome_if_current chat_id update_id message_id now [] = (false, [])
record_welcome_if_current chat_id update_id message_id now (s ∷ ss) =
    let rest = record_welcome_if_current chat_id update_id message_id now ss in
    if s.chat_id == chat_id
    then (
      s.latest_start_update_id == update_id,
      (if s.latest_start_update_id == update_id
            then record s {
              last_welcome_message_id = some message_id;
              last_welcome_sent_at = some now;
              updated_at = now;
            }
            else s)
          ∷ ss,
    )
    else (rest.0, s ∷ rest.1)

-- The message that `_register_latest_start` returns for a new welcome to replace.
unfoldable pub last_welcome : ℕ → List TelegramChatState → Option ℕ
last_welcome chat_id [] = none
last_welcome chat_id (s ∷ ss) =
    if s.chat_id == chat_id then s.last_welcome_message_id else last_welcome chat_id ss

-- What happens to the chats: a /start is registered, or a welcome was sent.
pub data ChatEvent : Type 0 where
  start : (chat_id update_id now : ℕ) → ChatEvent
  welcome : (chat_id update_id message_id now : ℕ) → ChatEvent

unfoldable pub apply_event : ChatEvent → List TelegramChatState → List TelegramChatState
apply_event (ChatEvent.start chat_id update_id now) ss =
    register_latest_start chat_id update_id now ss
apply_event (ChatEvent.welcome chat_id update_id message_id now) ss =
    (record_welcome_if_current chat_id update_id message_id now ss).1

unfoldable pub run_events : List ChatEvent → List TelegramChatState → List TelegramChatState
run_events [] ss = ss
run_events (e ∷ es) ss = run_events es (apply_event e ss)
