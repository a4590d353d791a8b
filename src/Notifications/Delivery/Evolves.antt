-- ===== src/Notifications/Delivery/Evolves.antt =====
-- How a row of the outbox may change.
use dc_inventory.Prelude.{ℕ, ◌≤◌, ◌≡◌, refl, inl, inr, Bool, true, false, List, [], ◌∷◌, arith}
use dc_inventory.Prelude.Tests.{is_some, Bool-cases}
use dc_inventory.Notifications.Outbox.{NotificationOutbox, OutboxStatus, is_pending_row}
use dc_inventory.Notifications.Delivery.{
  ClaimedNotification, is_claimable, claim_row, is_held, update_held, sent_row, failed_row,
}

-- The checks of the table: a claim has a time and a token, and a row has a time of delivery exactly
-- if it is sent. Besides, only a pending row is claimed, and no row has more attempts than allowed.
abbrev is_sent : OutboxStatus → Bool
is_sent OutboxStatus.sent = true
is_sent _ = false

pub record IsSettled (max_attempts : ℕ) (n : NotificationOutbox) : Type 0 where
  pub claim_state : is_some n.claimed_at ≡ is_some n.claim_token
  pub sent_state : is_sent n.status ≡ is_some n.sent_at
  pub claimed_pending : is_some n.claimed_at ≡ true → is_pending_row n ≡ true
  pub bounded : n.attempts ≤ max_attempts

-- How a row may change: it keeps its key and its message, it loses no attempt, it keeps what
-- IsSettled asks for, and it stays as it is once it is sent or dead.
pub record Evolves (max_attempts : ℕ) (before after : NotificationOutbox) : Type 0 where
  pub key : after.dedupe_key ≡ before.dedupe_key
  pub payload : after.payload ≡ before.payload
  pub counted : before.attempts ≤ after.attempts
  pub settled : IsSettled max_attempts before → IsSettled max_attempts after
  pub final : is_pending_row before ≡ false → after ≡ before

unfoldable pub EvolveAll : ℕ → List NotificationOutbox → List NotificationOutbox → Type 0
EvolveAll max_attempts [] [] = Unit
EvolveAll max_attempts [] (m ∷ ms) = ⊥
EvolveAll max_attempts (n ∷ ns) [] = ⊥
EvolveAll max_attempts (n ∷ ns) (m ∷ ms) = Evolves max_attempts n m × EvolveAll max_attempts ns ms

pub unchanged : (max_attempts : ℕ) (n : NotificationOutbox) → Evolves max_attempts n n
unchanged max_attempts n = record {
  key = refl;
  payload = refl;
  counted = omega arith;
  settled = λ s. s;
  final = λ h. refl;
}

all_unchanged : (max_attempts : ℕ) (ns : List NotificationOutbox) → EvolveAll max_attempts ns ns
unfolding EvolveAll
all_unchanged max_attempts [] = tt
all_unchanged max_attempts (n ∷ ns) = (unchanged max_attempts n, all_unchanged max_attempts ns)

module _ (max_attempts now : ℕ) (n : NotificationOutbox) (pending : is_pending_row n ≡ true) where
  pub sent-Evolves : Evolves max_attempts n (sent_row now n)
  sent-Evolves = record {
    key = refl;
    payload = refl;
    counted = omega arith;
    settled = λ s. record {
      claim_state = refl;
      sent_state = refl;
      claimed_pending = λ h. absurd (ground (arith, h));
      bounded = s.bounded;
    };
    final = λ h. absurd (ground (arith, h, pending));
  }

  pub failed-Evolves : Evolves max_attempts n (failed_row max_attempts now n)
  failed-Evolves = record {
    key = refl;
    payload = refl;
    counted = omega arith;
    settled = λ s. record {
      claim_state = refl;
      sent_state = ground (arith, pending, s.sent_state);
      claimed_pending = λ h. absurd (ground (arith, h));
      bounded = s.bounded;
    };
    final = λ h. absurd (ground (arith, h, pending));
  }

pub claimed-Evolves :
    (ttl max_attempts now : ℕ) (token : ℕ → ℕ) (n : NotificationOutbox)
    → is_claimable ttl max_attempts now n ≡ true
    → Evolves max_attempts n (claim_row ttl max_attempts token now n)
unfolding is_claimable claim_row
claimed-Evolves ttl max_attempts now token n h = record {
  key = refl;
  payload = refl;
  counted = ground arith;
  settled = λ s. record {
    claim_state = refl;
    sent_state = s.sent_state;
    claimed_pending = λ _. ground (arith, h);
    bounded = ground (arith, h, s.bounded);
  };
  final = λ e. absurd (ground (arith, e, h));
}

held_pending :
    (c : ClaimedNotification) (n : NotificationOutbox)
    → is_held c n ≡ true
    → is_pending_row n ≡ true
held_pending c n h = ground (arith, h)

pub update-EvolveAll :
    (max_attempts : ℕ) (change : NotificationOutbox → NotificationOutbox) (c : ClaimedNotification)
    (ns : List NotificationOutbox)
    → ((n : NotificationOutbox) → is_pending_row n ≡ true → Evolves max_attempts n (change n))
    → EvolveAll max_attempts ns (update_held change c ns)
unfolding EvolveAll update_held
update-EvolveAll max_attempts change c [] evolves = tt
update-EvolveAll max_attempts change c (n ∷ ns) evolves = elim (Bool-cases (is_held c n)) [
  | inl held ↦ rw held (evolves n (held_pending c n held), all_unchanged max_attempts ns)
  | inr other ↦
      rw other (unchanged max_attempts n, update-EvolveAll max_attempts change c ns evolves)
]
