-- ===== src/Notifications/Delivery.antt =====
-- notifications/service.py: how a worker takes rows of the outbox under a lease, and reports what
-- became of them. A row is known by its dedupe_key, which is unique, and the order of the list stands
-- for that of created_at and id.
pub mod Lease
pub mod Attempts
pub mod Evolves
pub mod Settled
use dc_inventory.Prelude.{
  ℕ, ◌+◌, ◌-◌, ◌^◌, min, Bool, true, false, ◌&&◌, ◌||◌, not, Option, none, some, List, [], ◌∷◌, map,
}
use dc_inventory.Prelude.Tests.{◌==◌, ltb, leb, if◌then◌else◌, is_some, is_id}
use dc_inventory.Prelude.Lists.{any, select, take, contains}
use dc_inventory.Notifications.Outbox.{NotificationOutbox, OutboxStatus, Payload, is_pending_row}

pub record ClaimedNotification : Type 0 where
  pub dedupe_key : ℕ
  pub claim_token : ℕ
  pub payload : Payload
  pub attempts : ℕ

-- `claimed_at IS NOT NULL AND claimed_at < now - ttl`
abbrev pub is_stale : ℕ → ℕ → Option ℕ → Bool
is_stale ttl now none = false
is_stale ttl now (some claimed_at) = ltb (claimed_at + ttl) now

unfoldable pub is_claimable : ℕ → ℕ → ℕ → NotificationOutbox → Bool
is_claimable ttl max_attempts now n =
    is_pending_row n
    && leb n.available_at now
    && (ltb n.attempts max_attempts
        || (leb max_attempts n.attempts && is_stale ttl now n.claimed_at))
    && (not (is_some n.claimed_at) || is_stale ttl now n.claimed_at)

-- `ORDER BY available_at`, where rows of the same time stay in their order.
unfoldable pub insert_row : NotificationOutbox → List NotificationOutbox → List NotificationOutbox
insert_row n [] = n ∷ []
insert_row n (m ∷ ms) =
    if leb n.available_at m.available_at then n ∷ m ∷ ms else m ∷ insert_row n ms

unfoldable pub by_available_at : List NotificationOutbox → List NotificationOutbox
by_available_at [] = []
by_available_at (n ∷ ns) = insert_row n (by_available_at ns)

abbrev pub was_stale_final_attempt : ℕ → ℕ → ℕ → NotificationOutbox → Bool
was_stale_final_attempt ttl max_attempts now n =
    leb max_attempts n.attempts && is_stale ttl now n.claimed_at

-- The row under a new lease. `token` is what uuid4 gives for the row.
unfoldable pub claim_row : ℕ → ℕ → (ℕ → ℕ) → ℕ → NotificationOutbox → NotificationOutbox
claim_row ttl max_attempts token now n = record n {
  claimed_at = some now;
  claim_token = some (token n.dedupe_key);
  attempts = if was_stale_final_attempt ttl max_attempts now n then n.attempts else n.attempts + 1;
}

abbrev pub keys : List NotificationOutbox → List ℕ
keys = map λ (n : NotificationOutbox). n.dedupe_key

unfoldable pub claim_rows :
    ℕ → ℕ → (ℕ → ℕ) → ℕ → List ℕ → List NotificationOutbox → List NotificationOutbox
claim_rows ttl max_attempts token now chosen [] = []
claim_rows ttl max_attempts token now chosen (n ∷ ns) =
    (if contains n.dedupe_key chosen then claim_row ttl max_attempts token now n else n)
    ∷ claim_rows ttl max_attempts token now chosen ns

abbrev pub claim_of : ℕ → ℕ → (ℕ → ℕ) → ℕ → NotificationOutbox → ClaimedNotification
claim_of ttl max_attempts token now n = record {
  dedupe_key = n.dedupe_key;
  claim_token = token n.dedupe_key;
  payload = n.payload;
  attempts = (claim_row ttl max_attempts token now n).attempts;
}

-- The rows that `claim_notification_batch` selects.
unfoldable pub candidates : ℕ → ℕ → ℕ → ℕ → List NotificationOutbox → List NotificationOutbox
candidates batch_size ttl max_attempts now ns =
    take batch_size (by_available_at (select (is_claimable ttl max_attempts now) ns))

unfoldable pub claim_notification_batch :
    ℕ
    → ℕ
    → ℕ
    → (ℕ → ℕ)
    → ℕ
    → List NotificationOutbox
    → List ClaimedNotification × List NotificationOutbox
claim_notification_batch batch_size ttl max_attempts token now ns =
    let chosen = candidates batch_size ttl max_attempts now ns in
    (
      map (claim_of ttl max_attempts token now) chosen,
      claim_rows ttl max_attempts token now (keys chosen) ns,
    )

-- The row that a claim still holds.
abbrev pub is_held : ClaimedNotification → NotificationOutbox → Bool
is_held c n = n.dedupe_key == c.dedupe_key && is_id n.claim_token c.claim_token && is_pending_row n

abbrev pub sent_row : ℕ → NotificationOutbox → NotificationOutbox
sent_row now n = record n {
  status = OutboxStatus.sent;
  sent_at = some now;
  claimed_at = none;
  claim_token = none;
}

unfoldable pub update_held :
    (NotificationOutbox → NotificationOutbox)
    → ClaimedNotification
    → List NotificationOutbox
    → List NotificationOutbox
update_held change c [] = []
update_held change c (n ∷ ns) = if is_held c n then change n ∷ ns else n ∷ update_held change c ns

unfoldable pub mark_notification_sent :
    ClaimedNotification → ℕ → List NotificationOutbox → Bool × List NotificationOutbox
mark_notification_sent c now ns = (any (is_held c) ns, update_held (sent_row now) c ns)

-- `min(300, 1 << max(0, min(attempts - 1, 8)))`
unfoldable pub retry_delay_seconds : ℕ → ℕ
retry_delay_seconds attempts = min 300 (2 ^ min (attempts - 1) 8)

abbrev pub failed_row : ℕ → ℕ → NotificationOutbox → NotificationOutbox
failed_row max_attempts now n =
    let dead = leb max_attempts n.attempts in
    record n {
      claimed_at = none;
      claim_token = none;
      status = if dead then OutboxStatus.dead else n.status;
      available_at = if dead then n.available_at else now + retry_delay_seconds n.attempts;
    }

unfoldable pub mark_notification_failed :
    ClaimedNotification → ℕ → ℕ → List NotificationOutbox → Bool × List NotificationOutbox
mark_notification_failed c max_attempts now ns =
    (any (is_held c) ns, update_held (failed_row max_attempts now) c ns)
