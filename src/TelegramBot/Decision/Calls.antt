-- ===== src/TelegramBot/Decision/Calls.antt =====
-- What the calls that a press makes leave in the outbox.
use dc_inventory.Prelude.{
  ℕ, ◌≡◌, refl, ap, sym, ◌∙◌, inl, inr, Bool, true, false, ◌||◌, List, [], ◌∷◌, ◌++◌, map, none,
  arith,
}
use dc_inventory.Prelude.Tests.{◌==◌, if◌then◌else◌, Bool-cases, ==_refl}
use dc_inventory.Prelude.Lists.{All, all, contains}
use dc_inventory.Notifications.Outbox.{
  NotificationOutbox, OutboxStatus, Payload, enqueue_telegram_call,
}
use dc_inventory.TelegramBot.Decision.{BotCall, Settings, enqueue_calls}

abbrev pub keys_of : List NotificationOutbox → List ℕ
keys_of = map λ (n : NotificationOutbox). n.dedupe_key

-- A row has the key and the payload of one of the calls.
pub data IsFrom (s : Settings) (n : NotificationOutbox) : List BotCall → Type 0 where
  this :
      (c : BotCall) (cs : List BotCall)
      → n.dedupe_key ≡ s.notification_dedupe_key c.key
      → n.payload ≡ c.payload
      → IsFrom s n (c ∷ cs)
  later : (c : BotCall) (cs : List BotCall) → IsFrom s n cs → IsFrom s n (c ∷ cs)

-- The rows that the calls add come after the rows that were there, each of them is from one of the
-- calls, and each call has a row of its key.
pub record Told (s : Settings) (calls : List BotCall) (before after : List NotificationOutbox)
    : Type 0 where
  pub added : List NotificationOutbox
  pub appended : after ≡ before ++ added
  pub from_calls : All (λ n. IsFrom s n calls) added
  pub queued : all (λ c. contains (s.notification_dedupe_key c.key) (keys_of after)) calls ≡ true

abbrev new_row : ℕ → Payload → ℕ → NotificationOutbox
new_row now payload dedupe_key = record {
  dedupe_key = dedupe_key;
  payload = payload;
  status = OutboxStatus.pending;
  attempts = 0;
  available_at = now;
  claimed_at = none;
  claim_token = none;
  sent_at = none;
}

append_assoc : (xs ys zs : List NotificationOutbox) → (xs ++ ys) ++ zs ≡ xs ++ (ys ++ zs)
append_assoc [] ys zs = refl
append_assoc (x ∷ xs) ys zs = ap (λ rest. x ∷ rest) (append_assoc xs ys zs)

append_nil : (xs : List NotificationOutbox) → xs ++ [] ≡ xs
append_nil [] = refl
append_nil (x ∷ xs) = ap (λ rest. x ∷ rest) (append_nil xs)

contains-append :
    (k : ℕ) (xs ys : List NotificationOutbox)
    → contains k (keys_of (xs ++ ys)) ≡ contains k (keys_of xs) || contains k (keys_of ys)
contains-append k [] ys = refl
contains-append k (x ∷ xs) ys = ground (arith, contains-append k xs ys)

==_swap : (a b : ℕ) → (a == b) ≡ (b == a)
==_swap a b = ground arith

enqueue-append :
    (now k : ℕ) (payload : Payload) (ns : List NotificationOutbox)
    → enqueue_telegram_call now payload k ns
      ≡ ns ++ (if contains k (keys_of ns) then [] else new_row now payload k ∷ [])
unfolding enqueue_telegram_call
enqueue-append now k payload [] = refl
enqueue-append now k payload (n ∷ ns) = elim (Bool-cases (n.dedupe_key == k)) [
  | inl same ↦ rw (==_swap k n.dedupe_key, same) (ap (λ rest. n ∷ rest) (sym (append_nil ns)))
  | inr other ↦
      rw (==_swap k n.dedupe_key, other) (ap (λ rest. n ∷ rest) (enqueue-append now k payload ns))
]

weaker :
    (s : Settings) (c : BotCall) (calls : List BotCall) (added : List NotificationOutbox)
    → All (λ n. IsFrom s n calls) added
    → All (λ n. IsFrom s n (c ∷ calls)) added
weaker s c calls [] h = tt
weaker s c calls (n ∷ ns) h = (later c calls h.0, weaker s c calls ns h.1)

with_row :
    (s : Settings) (now : ℕ) (c : BotCall) (calls : List BotCall) (present : Bool)
    (added : List NotificationOutbox)
    → All (λ n. IsFrom s n calls) added
    → All
        (λ n. IsFrom s n (c ∷ calls))
        ((if present then [] else new_row now c.payload (s.notification_dedupe_key c.key) ∷ [])
          ++ added)
with_row s now c calls true added h = weaker s c calls added h
with_row s now c calls false added h = (this c calls refl refl, weaker s c calls added h)

has_key :
    (k now : ℕ) (payload : Payload) (ns : List NotificationOutbox)
    → contains k (keys_of (enqueue_telegram_call now payload k ns)) ≡ true
unfolding enqueue_telegram_call
has_key k now payload [] = ground (arith, ==_refl k)
has_key k now payload (n ∷ ns) = elim (Bool-cases (n.dedupe_key == k)) [
  | inl same ↦ rw same (ground (arith, same))
  | inr other ↦ rw other (ground (arith, has_key k now payload ns))
]

pub enqueue_calls-Told :
    (s : Settings) (now : ℕ) (calls : List BotCall) (before : List NotificationOutbox)
    → Told s calls before (enqueue_calls s now calls before)
unfolding enqueue_calls
enqueue_calls-Told s now [] before = record {
  added = [];
  appended = sym (append_nil before);
  from_calls = tt;
  queued = refl;
}
enqueue_calls-Told s now (c ∷ cs) before =
    let k = s.notification_dedupe_key c.key in
    let row = new_row now c.payload k in
    let next = enqueue_telegram_call now c.payload k before in
    let rest = enqueue_calls-Told s now cs next in
    let new = if contains k (keys_of before) then [] else row ∷ [] in
    record {
      added = new ++ rest.added;
      appended =
          rest.appended
          ∙ ap (λ start. start ++ rest.added) (enqueue-append now k c.payload before)
          ∙ append_assoc before new rest.added;
      from_calls = with_row s now c cs (contains k (keys_of before)) rest.added rest.from_calls;
      queued = ground (
        arith,
        rest.queued,
        has_key k now c.payload before,
        ap (λ after. contains k (keys_of after)) rest.appended,
        contains-append k next rest.added,
      );
    }
