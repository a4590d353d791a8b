-- ===== src/Notifications/Delivery/Settled.antt =====
-- What a report of a worker may change.
use dc_inventory.Prelude.{
  ℕ, ◌≡◌, refl, sym, ap, ◌∙◌, inl, inr, true, false, ◌||◌, not, List, [], ◌∷◌, arith,
}
use dc_inventory.Prelude.Tests.{◌==◌, Bool-cases}
use dc_inventory.Prelude.Lists.{any, contains, all, select, is_nodup}
use dc_inventory.Prelude.Keyed.{selected}
use dc_inventory.Notifications.Outbox.{NotificationOutbox}
use dc_inventory.Notifications.Delivery.Lease.{
  claimed_keys, claimed_keys_of, contains-take, contains-by_available_at,
}
use dc_inventory.Notifications.Delivery.{
  ClaimedNotification, is_claimable, by_available_at, claim_row, claim_rows, keys, candidates,
  claim_notification_batch, is_held, update_held, sent_row, failed_row, mark_notification_sent,
  mark_notification_failed,
}
use dc_inventory.Notifications.Delivery.Evolves.{
  EvolveAll, unchanged, sent-Evolves, failed-Evolves, claimed-Evolves, update-EvolveAll,
}

candidate_selected :
    (batch_size ttl max_attempts now k : ℕ) (ns : List NotificationOutbox)
    → contains k (keys (candidates batch_size ttl max_attempts now ns)) ≡ true
    → contains k (keys (select (is_claimable ttl max_attempts now) ns)) ≡ true
unfolding candidates
candidate_selected batch_size ttl max_attempts now k ns h =
    sym (contains-by_available_at k (select (is_claimable ttl max_attempts now) ns))
    ∙ contains-take k batch_size (by_available_at (select (is_claimable ttl max_attempts now) ns)) h

claim-EvolveAll :
    (ttl max_attempts now : ℕ) (token : ℕ → ℕ) (chosen : List ℕ) (ns : List NotificationOutbox)
    → all (λ n. not (contains n.dedupe_key chosen) || is_claimable ttl max_attempts now n) ns ≡ true
    → EvolveAll max_attempts ns (claim_rows ttl max_attempts token now chosen ns)
unfolding EvolveAll claim_rows
claim-EvolveAll ttl max_attempts now token chosen [] h = tt
claim-EvolveAll ttl max_attempts now token chosen (n ∷ ns) h =
    elim (Bool-cases (contains n.dedupe_key chosen)) [
      | inl taken ↦ rw taken (
        claimed-Evolves ttl max_attempts now token n (ground (arith, h, taken)),
        claim-EvolveAll ttl max_attempts now token chosen ns (ground (arith, h)),
      )
      | inr free ↦ rw free (
        unchanged max_attempts n,
        claim-EvolveAll ttl max_attempts now token chosen ns (ground (arith, h)),
      )
    ]

-- What a worker does with the outbox.
pub data Work : Type 0 where
  claim : (batch_size ttl : ℕ) (token : ℕ → ℕ) → Work
  sent : ClaimedNotification → Work
  failed : ClaimedNotification → Work

unfoldable pub perform : Work → ℕ → ℕ → List NotificationOutbox → List NotificationOutbox
perform (Work.claim batch_size ttl token) max_attempts now ns =
    (claim_notification_batch batch_size ttl max_attempts token now ns).1
perform (Work.sent c) max_attempts now ns = (mark_notification_sent c now ns).1
perform (Work.failed c) max_attempts now ns = (mark_notification_failed c max_attempts now ns).1

-- Whatever a worker does, in a table whose dedupe keys differ: every row keeps its key and its
-- message and loses no attempt; a row that satisfied the checks of the table and had at most
-- `max_attempts` attempts still does; and a row that is sent or dead stays as it is.
pub perform-EvolveAll :
    (w : Work) (max_attempts now : ℕ) (ns : List NotificationOutbox)
    → is_nodup (keys ns) ≡ true
    → EvolveAll max_attempts ns (perform w max_attempts now ns)
unfolding perform claim_notification_batch mark_notification_sent mark_notification_failed
perform-EvolveAll (Work.claim batch_size ttl token) max_attempts now ns unique =
    let chosen = keys (candidates batch_size ttl max_attempts now ns) in
    claim-EvolveAll ttl max_attempts now token chosen ns (
      selected (λ n. n.dedupe_key) (is_claimable ttl max_attempts now) chosen ns unique
        (λ k _ picked. candidate_selected batch_size ttl max_attempts now k ns picked))
perform-EvolveAll (Work.sent c) max_attempts now ns unique =
    update-EvolveAll max_attempts (sent_row now) c ns (λ n p. sent-Evolves max_attempts now n p)
perform-EvolveAll (Work.failed c) max_attempts now ns unique =
    update-EvolveAll max_attempts (failed_row max_attempts now) c ns
      (λ n p. failed-Evolves max_attempts now n p)

not_held :
    (ttl max_attempts now : ℕ) (token : ℕ → ℕ) (chosen : List ℕ) (c : ClaimedNotification)
    (ns : List NotificationOutbox)
    → contains c.dedupe_key chosen ≡ true
    → (token c.dedupe_key == c.claim_token) ≡ false
    → any (is_held c) (claim_rows ttl max_attempts token now chosen ns) ≡ false
unfolding claim_rows claim_row
not_held ttl max_attempts now token chosen c [] here other = refl
not_held ttl max_attempts now token chosen c (n ∷ ns) here other =
    ground (arith, here, other, not_held ttl max_attempts now token chosen c ns here other)

none_held :
    (change : NotificationOutbox → NotificationOutbox) (c : ClaimedNotification)
    (ns : List NotificationOutbox)
    → any (is_held c) ns ≡ false
    → update_held change c ns ≡ ns
unfolding update_held
none_held change c [] h = refl
none_held change c (n ∷ ns) h = ground (arith, h, none_held change c ns)

-- A worker whose row another batch has claimed under a new token can no longer report on it: both
-- reports answer false and change nothing.
pub reclaimed_report :
    (batch_size ttl max_attempts now later : ℕ) (token : ℕ → ℕ) (c : ClaimedNotification)
    (ns : List NotificationOutbox)
    → contains c.dedupe_key
        (claimed_keys (claim_notification_batch batch_size ttl max_attempts token now ns).0)
      ≡ true
    → (token c.dedupe_key == c.claim_token) ≡ false
    → let after = (claim_notification_batch batch_size ttl max_attempts token now ns).1 in
      (mark_notification_sent c later after ≡ (false, after))
      × (mark_notification_failed c max_attempts later after ≡ (false, after))
unfolding claim_notification_batch mark_notification_sent mark_notification_failed
reclaimed_report batch_size ttl max_attempts now later token c ns here other =
    let chosen = candidates batch_size ttl max_attempts now ns in
    let after = claim_rows ttl max_attempts token now (keys chosen) ns in
    let out =
      not_held ttl max_attempts now token (keys chosen) c ns
        (sym (ap (contains c.dedupe_key) (claimed_keys_of ttl max_attempts token now chosen))
          ∙ here)
        other in
    (
      rw (out, none_held (sent_row later) c after out) refl,
      rw (out, none_held (failed_row max_attempts later) c after out) refl,
    )
