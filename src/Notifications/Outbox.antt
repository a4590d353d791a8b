-- ===== src/Notifications/Outbox.antt =====
-- backend/app/modules/notifications/models.py and service.py: a row of the outbox, and how a call is
-- put into it.
use dc_inventory.Prelude.{ℕ, Bool, true, false, Option, none, List, [], ◌∷◌}
use dc_inventory.Prelude.Tests.{◌==◌, if◌then◌else◌}
use dc_inventory.Identity.Policy.{AccessRequestStatus}

pub data OutboxStatus : Type 0 where
  pending sent dead : OutboxStatus

-- What is said in a message about a purchase.
pub data Action : Type 0 where
  new_request returned_for_correction new_revision manager_assigned : Action
  transferred_to_acceptance discrepancy_reported acceptance_completed : Action

-- The method of a call and the parts that its payload is put together from: a message about a
-- purchase, the message to a user whose request for access is decided, the clearing of the buttons
-- under a message, and the answer to a press, which says whether the press was a change.
pub data Payload : Type 0 where
  procurement : (chat_id request_id : ℕ) → Action → Payload
  user_decision : (chat_id : ℕ) → AccessRequestStatus → Payload
  clear_buttons : (chat_id message_id : ℕ) → Payload
  answer : (callback_query_id : ℕ) → AccessRequestStatus → Bool → Payload

pub record NotificationOutbox : Type 0 where
  pub dedupe_key : ℕ
  pub payload : Payload
  pub status : OutboxStatus
  pub attempts : ℕ
  pub available_at : ℕ
  pub claimed_at : Option ℕ
  pub claim_token : Option ℕ
  pub sent_at : Option ℕ

-- `enqueue_telegram_call` of a call that starts no dead row again: a key that is known
-- keeps its row.
unfoldable pub enqueue_telegram_call :
    ℕ → Payload → ℕ → List NotificationOutbox → List NotificationOutbox
enqueue_telegram_call now payload dedupe_key [] =
    record {
      dedupe_key = dedupe_key;
      payload = payload;
      status = OutboxStatus.pending;
      attempts = 0;
      available_at = now;
      claimed_at = none;
      claim_token = none;
      sent_at = none;
    }
    ∷ []
enqueue_telegram_call now payload dedupe_key (n ∷ ns) =
    if n.dedupe_key == dedupe_key
    then n ∷ ns
    else n ∷ enqueue_telegram_call now payload dedupe_key ns

abbrev pub is_pending_row : NotificationOutbox → Bool
is_pending_row n = elim n.status [ OutboxStatus.pending ↦ true | _ ↦ false ]
