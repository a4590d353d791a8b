-- ===== src/Notifications/Delivery/Attempts.antt =====
-- How often a message is tried, and after what delay.
use dc_inventory.Prelude.{
  ℕ, zero, suc, ◌+◌, ◌-◌, ◌*◌, ◌^◌, ◌≤◌, ◌<◌, ◌≡◌, min, refl, true, none, arith,
}
use dc_inventory.Notifications.Outbox.{NotificationOutbox, OutboxStatus, is_pending_row}
use dc_inventory.Notifications.Delivery.{is_claimable, claim_row, failed_row, retry_delay_seconds}

pow_step : (n : ℕ) → 2 ^ suc n ≡ 2 * 2 ^ n
pow_step n = omega arith

pow_mono : (n m : ℕ) → n ≤ m → 2 ^ n ≤ 2 ^ m
pow_mono zero zero h = omega arith
pow_mono zero (suc m) h = omega (arith, pow_step m, pow_mono zero m (omega arith))
pow_mono (suc n) zero h = absurd (omega (arith, h))
pow_mono (suc n) (suc m) h = omega (arith, pow_step n, pow_step m, pow_mono n m (omega (arith, h)))

-- A failed attempt: the row is claimed, and later the worker reports that the delivery failed.
abbrev pub attempt : ℕ → ℕ → (ℕ → ℕ) → ℕ → ℕ → NotificationOutbox → NotificationOutbox
attempt ttl max_attempts token claimed reported n =
    failed_row max_attempts reported (claim_row ttl max_attempts token claimed n)

-- Attempts one after another, each claimed at a time of `claims` and reported at one of `reports`.
unfoldable pub attempts_of :
    ℕ → ℕ → (ℕ → ℕ) → (ℕ → ℕ) → (ℕ → ℕ) → ℕ → NotificationOutbox → NotificationOutbox
attempts_of ttl max_attempts token claims reports zero n = n
attempts_of ttl max_attempts token claims reports (suc i) n =
    attempt ttl max_attempts token (claims i) (reports i)
      (attempts_of ttl max_attempts token claims reports i n)

-- The delay before the next attempt is between one second and 256, never shrinks with the number of
-- attempts, and doubles with each of the first nine.
pub retry_delay_bounds :
    (attempts more : ℕ)
    → (1 ≤ retry_delay_seconds attempts)
      × (retry_delay_seconds attempts ≤ 256)
      × (attempts ≤ more → retry_delay_seconds attempts ≤ retry_delay_seconds more)
      × (1 ≤ attempts
          → attempts < 9
          → retry_delay_seconds (suc attempts) ≡ 2 * retry_delay_seconds attempts)
unfolding retry_delay_seconds
retry_delay_bounds a b = (
  omega (arith, pow_mono 0 (min (a - 1) 8) (omega arith)),
  omega (arith, pow_mono (min (a - 1) 8) 8 (omega arith)),
  (λ h. omega (arith, pow_mono (min (a - 1) 8) (min (b - 1) 8) (omega (arith, h)))),
  λ h k. doubles a h k,
)
  where
    doubles :
        (a : ℕ) → 1 ≤ a → a < 9 → min 300 (2 ^ min (suc a - 1) 8) ≡ 2 * min 300 (2 ^ min (a - 1) 8)
    doubles zero h k = absurd (omega (arith, h))
    doubles (suc n) h k =
        let e : min (suc (suc n) - 1) 8 ≡ suc n = omega (arith, k) in
        let f : min (suc n - 1) 8 ≡ n = omega (arith, k) in
        rw (e, f) (omega (arith, pow_step n, pow_mono (suc n) 8 (omega (arith, k))))

-- Where the attempts of a row stand after `i` failures.
record Trying (max_attempts first i due : ℕ) (n : NotificationOutbox) : Type 0 where
  pending : is_pending_row n ≡ true
  unclaimed : n.claimed_at ≡ none
  count : n.attempts ≡ first + i
  available : n.available_at ≤ due

failed_again :
    (ttl max_attempts first i due reported later : ℕ) (token : ℕ → ℕ) (n : NotificationOutbox)
    → suc (first + i) < max_attempts
    → reported + 256 ≤ later
    → Trying max_attempts first i due n
    → Trying max_attempts first (suc i) later (attempt ttl max_attempts token due reported n)
unfolding claim_row
failed_again ttl max_attempts first i due reported later token n more poll t = record {
  pending = ground (arith, more, t.pending, t.unclaimed, t.count);
  unclaimed = refl;
  count = ground (arith, more, t.unclaimed, t.count);
  available =
      ground (arith, more, poll, t.unclaimed, t.count, (retry_delay_bounds (n.attempts + 1) 0).1);
}

module _ (ttl max_attempts : ℕ) (token claims reports : ℕ → ℕ) (n : NotificationOutbox)
    (new : is_pending_row n ≡ true) (free : n.claimed_at ≡ none) (due : n.available_at ≤ claims 0)
    (polls : (i : ℕ) → reports i + 256 ≤ claims (suc i)) where
  trying :
      (i : ℕ)
      → n.attempts + i < max_attempts
      → Trying max_attempts n.attempts i
          (claims i)
          (attempts_of ttl max_attempts token claims reports i n)
  unfolding attempts_of
  trying zero h = record { pending = new; unclaimed = free; count = omega arith; available = due }
  trying (suc i) h =
      failed_again ttl max_attempts n.attempts i (claims i) (reports i) (claims (suc i)) token
        (attempts_of ttl max_attempts token claims reports i n) (omega (arith, h)) (polls i)
        (trying i (omega (arith, h)))

  claimable :
      (first i d : ℕ) (m : NotificationOutbox)
      → first + i < max_attempts
      → Trying max_attempts first i d m
      → is_claimable ttl max_attempts d m ≡ true
  unfolding is_claimable
  claimable first i d m h t = ground (arith, h, t.pending, t.unclaimed, t.count, t.available)

  last_failure :
      (first i d reported : ℕ) (m : NotificationOutbox)
      → suc (first + i) ≡ max_attempts
      → Trying max_attempts first i d m
      → ((attempt ttl max_attempts token d reported m).status ≡ OutboxStatus.dead)
        × ((attempt ttl max_attempts token d reported m).attempts ≡ max_attempts)
  unfolding claim_row
  last_failure first i d reported m h t =
      (ground (arith, h, t.unclaimed, t.count), ground (arith, h, t.unclaimed, t.count))

  -- A pending row that no worker has, with `attempts` below the limit, whose every delivery fails, is
  -- given up. Each attempt is claimed at one time and reported as failed at another. Where the row is
  -- due at the first claim, and each claim comes at least 256 seconds after the report before it, the
  -- row can be claimed at each of the `max_attempts - attempts` times, and after the last report it is
  -- dead, with exactly `max_attempts` attempts.
  pub attempts_end :
      (rest : ℕ)
      → n.attempts + suc rest ≡ max_attempts
      → ((i : ℕ)
          → i ≤ rest
          → is_claimable ttl max_attempts
              (claims i)
              (attempts_of ttl max_attempts token claims reports i n)
            ≡ true)
        × ((attempts_of ttl max_attempts token claims reports (suc rest) n).status
            ≡ OutboxStatus.dead)
        × ((attempts_of ttl max_attempts token claims reports (suc rest) n).attempts ≡ max_attempts)
  unfolding attempts_of
  attempts_end rest h =
      let (dead, all_used) =
        last_failure n.attempts rest (claims rest) (reports rest)
          (attempts_of ttl max_attempts token claims reports rest n) (omega (arith, h))
          (trying rest (omega (arith, h))) in
      (
        (λ i k.
            claimable n.attempts i (claims i)
              (attempts_of ttl max_attempts token claims reports i n) (omega (arith, h, k))
              (trying i (omega (arith, h, k)))),
        dead,
        all_used,
      )
