-- ===== src/Procurement/Notify.antt =====
-- backend/app/modules/procurement/notifications.py: who is told of a change, and how it is put into
-- the outbox.
use dc_inventory.Prelude.{ℕ, ◌&&◌, Bool, true, false, Option, none, some, List, [], ◌∷◌, map}
use dc_inventory.Prelude.Lists.{contains, select}
use dc_inventory.Identity.Policy.{UserRole, UserAccessStatus, Capability, status_eq, has_capability}
use dc_inventory.Identity.Tables.{User, TelegramIdentity, IdentityTables, find_user}
use dc_inventory.Notifications.Outbox.{NotificationOutbox, Action, Payload, enqueue_telegram_call}
use dc_inventory.Database.{Database}
use dc_inventory.Procurement.Payload.{Platform, Actor}

-- The role and the status of the owner of an identity allow the message.
abbrev pub may_read : Option User → Bool
may_read none = false
may_read (some u) =
    status_eq u.access_status UserAccessStatus.approved
    && has_capability u.role Capability.procurement_read

unfoldable pub telegram_user_ids_for_users : IdentityTables → List ℕ → List TelegramIdentity
telegram_user_ids_for_users t ids =
    select (λ i. contains i.user_id ids && may_read (find_user i.user_id t.users)) t.identities

-- `User.role IN (SENIOR_ENGINEER, ADMIN, OWNER)`
abbrev pub is_technical : UserRole → Bool
is_technical UserRole.senior_engineer = true
is_technical UserRole.admin = true
is_technical UserRole.owner = true
is_technical _ = false

unfoldable pub technical_recipient_user_ids : List User → List ℕ
technical_recipient_user_ids users =
    map (λ u. u.id)
      (select (λ u. status_eq u.access_status UserAccessStatus.approved && is_technical u.role)
        users)

unfoldable pub enqueue_all :
    Platform
    → Actor
    → ℕ
    → Action
    → List TelegramIdentity
    → List NotificationOutbox
    → List NotificationOutbox
enqueue_all x actor request_id action [] outbox = outbox
enqueue_all x actor request_id action (i ∷ is) outbox = enqueue_all x actor request_id action is (
    enqueue_telegram_call actor.now (Payload.procurement i.telegram_user_id request_id action)
      (x.notification_dedupe_key actor.event_id i.user_id) outbox)

-- Nothing but the outbox changes.
unfoldable pub enqueue_procurement_notifications :
    Platform → Actor → ℕ → Action → List ℕ → Database → Database
enqueue_procurement_notifications x actor request_id action recipients db = record db {
  outbox =
      enqueue_all x actor request_id action (telegram_user_ids_for_users db.identity recipients)
        db.outbox;
}
