-- ===== src/Notifications/Delivery/Lease.antt =====
-- No row is with two workers at a time.
use dc_inventory.Prelude.{
  ℕ, zero, suc, ◌+◌, ◌≤◌, ◌≡◌, refl, sym, ap, ◌∙◌, inl, inr, Bool, true, false, ◌&&◌, not, List, [],
  ◌∷◌, map, arith,
}
use dc_inventory.Prelude.Tests.{Bool-cases}
use dc_inventory.Prelude.Lists.{select, take, contains, all}
use dc_inventory.Notifications.Outbox.{NotificationOutbox}
use dc_inventory.Notifications.Delivery.{
  ClaimedNotification, is_claimable, insert_row, by_available_at, claim_row, claim_rows, claim_of,
  keys, candidates, claim_notification_batch,
}

contains-insert_row :
    (k : ℕ) (n : NotificationOutbox) (ns : List NotificationOutbox)
    → contains k (keys (insert_row n ns)) ≡ contains k (keys (n ∷ ns))
unfolding insert_row
contains-insert_row k n [] = refl
contains-insert_row k n (m ∷ ms) = ground (arith, contains-insert_row k n ms)

pub contains-by_available_at :
    (k : ℕ) (ns : List NotificationOutbox)
    → contains k (keys (by_available_at ns)) ≡ contains k (keys ns)
unfolding by_available_at
contains-by_available_at k [] = refl
contains-by_available_at k (n ∷ ns) =
    contains-insert_row k n (by_available_at ns) ∙ ground (arith, contains-by_available_at k ns)

pub contains-take :
    (k i : ℕ) (ns : List NotificationOutbox)
    → contains k (keys (take i ns)) ≡ true
    → contains k (keys ns) ≡ true
contains-take k zero ns h = absurd (ground (arith, h))
contains-take k (suc i) [] h = absurd (ground (arith, h))
contains-take k (suc i) (n ∷ ns) h = ground (arith, h, contains-take k i ns)

-- A row that satisfies `p` is not among the keys that exclude it.
excluded :
    (p : NotificationOutbox → Bool) (k : ℕ) (chosen : List ℕ) (ns : List NotificationOutbox)
    → all (λ n. not (contains n.dedupe_key chosen && p n)) ns ≡ true
    → contains k chosen ≡ true
    → contains k (keys (select p ns)) ≡ false
excluded p k chosen [] h here = refl
excluded p k chosen (n ∷ ns) h here = ground (arith, h, here, excluded p k chosen ns)

module _ (ttl max_attempts : ℕ) (token token' : ℕ → ℕ) (now later : ℕ)
    (lease : later ≤ now + ttl) where
  leased :
      (n : NotificationOutbox)
      → is_claimable ttl max_attempts later (claim_row ttl max_attempts token now n) ≡ false
  unfolding is_claimable claim_row
  leased n = ground (arith, lease)

  leased_rows :
      (chosen : List ℕ) (ns : List NotificationOutbox)
      → all
          (λ n. not (contains n.dedupe_key chosen && is_claimable ttl max_attempts later n))
          (claim_rows ttl max_attempts token now chosen ns)
        ≡ true
  unfolding claim_rows claim_row
  leased_rows chosen [] = refl
  leased_rows chosen (n ∷ ns) = ground (arith, leased n, leased_rows chosen ns)

abbrev pub claimed_keys : List ClaimedNotification → List ℕ
claimed_keys = map λ (c : ClaimedNotification). c.dedupe_key

pub claimed_keys_of :
    (ttl max_attempts : ℕ) (token : ℕ → ℕ) (now : ℕ) (ns : List NotificationOutbox)
    → claimed_keys (map (claim_of ttl max_attempts token now) ns) ≡ keys ns
claimed_keys_of ttl max_attempts token now [] = refl
claimed_keys_of ttl max_attempts token now (n ∷ ns) =
    ap (λ ks. n.dedupe_key ∷ ks) (claimed_keys_of ttl max_attempts token now ns)

not_candidate :
    (batch_size ttl max_attempts now k : ℕ) (ns : List NotificationOutbox)
    → contains k (keys (select (is_claimable ttl max_attempts now) ns)) ≡ false
    → contains k (keys (candidates batch_size ttl max_attempts now ns)) ≡ false
unfolding candidates
not_candidate batch_size ttl max_attempts now k ns h =
    elim (Bool-cases (
      contains k (
        keys
          (take batch_size (by_available_at (select (is_claimable ttl max_attempts now) ns)))))) [
            | inr out ↦ out
            | inl there ↦ absurd (
                ground (
                  arith,
                  h,
                  sym (contains-by_available_at k (select (is_claimable ttl max_attempts now) ns))
                      ∙ contains-take k batch_size
                          (by_available_at (select (is_claimable ttl max_attempts now) ns)) there,
                ))
          ]

-- Within the lease, a row that one batch has claimed is in no later batch: of two calls of
-- `claim_notification_batch` with the second at most `claim_ttl_seconds` after the first, no row is
-- claimed by both.
pub claimed_once :
    (batch_size batch_size' ttl max_attempts now later k : ℕ) (token token' : ℕ → ℕ)
    (ns : List NotificationOutbox)
    → later ≤ now + ttl
    → contains k
        (claimed_keys (claim_notification_batch batch_size ttl max_attempts token now ns).0)
      ≡ true
    → contains k (
        claimed_keys
          (claim_notification_batch batch_size' ttl max_attempts token' later
            (claim_notification_batch batch_size ttl max_attempts token now ns).1).0)
      ≡ false
unfolding claim_notification_batch
claimed_once batch_size batch_size' ttl max_attempts now later k token token' ns lease here =
    let chosen = candidates batch_size ttl max_attempts now ns in
    let after = claim_rows ttl max_attempts token now (keys chosen) ns in
    ap (contains k) (
      claimed_keys_of ttl max_attempts token' later
        (candidates batch_size' ttl max_attempts later after))
    ∙ not_candidate batch_size' ttl max_attempts later k after (
        excluded (is_claimable ttl max_attempts later) k (keys chosen) after
          (leased_rows ttl max_attempts token token' now later lease (keys chosen) ns)
          (sym (ap (contains k) (claimed_keys_of ttl max_attempts token now chosen)) ∙ here))
