-- ===== src/Tests/Outbox.antt =====
-- The theorems on the outbox at a row that is due.
use dc_inventory.Prelude.{ℕ, ◌+◌, ◌*◌, ◌≤◌, ◌<◌, ◌≡◌, refl, true, false, none, List, [], ◌∷◌, arith}
use dc_inventory.Prelude.Lists.{contains}
use dc_inventory.Notifications.Outbox.{NotificationOutbox, OutboxStatus, Payload, Action}
use dc_inventory.Notifications.Delivery.{
  ClaimedNotification, is_claimable, insert_row, by_available_at, claim_row, claim_rows, candidates,
  claim_notification_batch, retry_delay_seconds, mark_notification_sent, mark_notification_failed,
}
use dc_inventory.Notifications.Delivery.Lease.{claimed_keys, claimed_once}
use dc_inventory.Notifications.Delivery.Attempts.{attempts_of, attempts_end, retry_delay_bounds}
use dc_inventory.Notifications.Delivery.Settled.{Work, perform, perform-EvolveAll, reclaimed_report}
use dc_inventory.Notifications.Delivery.Evolves.{EvolveAll}
use dc_inventory.Tests.Data.{id_hash}

abbrev message : Payload
message = Payload.procurement 7 50 Action.new_request

abbrev due_row : NotificationOutbox
due_row = record {
  dedupe_key = 5;
  payload = message;
  status = OutboxStatus.pending;
  attempts = 1;
  available_at = 10;
  claimed_at = none;
  claim_token = none;
  sent_at = none;
}

abbrev outbox : List NotificationOutbox
outbox = due_row ∷ record due_row { dedupe_key = 6; available_at = 4 } ∷ []

abbrev fresh_token : ℕ → ℕ
fresh_token k = 100 + k

abbrev old_claim : ClaimedNotification
old_claim = record { dedupe_key = 5; claim_token = 9; payload = message; attempts = 1 }

claimed_both :
    contains 5 (claimed_keys (claim_notification_batch 2 30 8 fresh_token 20 outbox).0) ≡ true
unfolding is_claimable insert_row by_available_at claim_row claim_rows candidates
    claim_notification_batch
claimed_both = refl

claimed_once_example :
    contains 5 (
      claimed_keys
        (claim_notification_batch 3 30 8 id_hash 50
          (claim_notification_batch 2 30 8 fresh_token 20 outbox).1).0)
    ≡ false
claimed_once_example =
    claimed_once 2 3 30 8 20 50 5 fresh_token id_hash outbox (omega arith) claimed_both

reclaimed_report_example :
    let after = (claim_notification_batch 2 30 8 fresh_token 20 outbox).1 in
    (mark_notification_sent old_claim 25 after ≡ (false, after))
    × (mark_notification_failed old_claim 8 25 after ≡ (false, after))
reclaimed_report_example =
    reclaimed_report 2 30 8 20 25 fresh_token old_claim outbox claimed_both refl

perform-EvolveAll_example : EvolveAll 8 outbox (perform (Work.claim 2 30 fresh_token) 8 20 outbox)
perform-EvolveAll_example = perform-EvolveAll (Work.claim 2 30 fresh_token) 8 20 outbox refl

attempts_end_example :
    ((i : ℕ)
      → i ≤ 2
      → is_claimable 30 4
          (300 * i + 10)
          (attempts_of 30 4 fresh_token (λ i. 300 * i + 10) (λ i. 300 * i + 25) i due_row)
        ≡ true)
    × ((attempts_of 30 4 fresh_token (λ i. 300 * i + 10) (λ i. 300 * i + 25) 3 due_row).status
        ≡ OutboxStatus.dead)
    × ((attempts_of 30 4 fresh_token (λ i. 300 * i + 10) (λ i. 300 * i + 25) 3 due_row).attempts
        ≡ 4)
attempts_end_example =
    attempts_end 30 4 fresh_token (λ i. 300 * i + 10) (λ i. 300 * i + 25) due_row refl refl
      (omega arith) (λ i. omega arith) 2 refl

retry_delay_bounds_example :
    (1 ≤ retry_delay_seconds 3)
    × (retry_delay_seconds 3 ≤ 256)
    × (3 ≤ 5 → retry_delay_seconds 3 ≤ retry_delay_seconds 5)
    × (1 ≤ 3 → 3 < 9 → retry_delay_seconds 4 ≡ 2 * retry_delay_seconds 3)
retry_delay_bounds_example = retry_delay_bounds 3 5
