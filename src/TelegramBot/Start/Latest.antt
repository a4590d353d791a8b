-- ===== src/TelegramBot/Start/Latest.antt =====
-- The latest /start of a chat, whatever the order in which the updates were delivered.
use dc_inventory.Prelude.{
  ℕ, max, ◌≡◌, refl, sym, ap, ◌∙◌, ◌⊎◌, inl, inr, Bool, true, false, ◌&&◌, ◌||◌, not, Option, none,
  some, List, [], ◌∷◌, arith,
}
use mathlib.Core.Path.{subst}
use dc_inventory.Prelude.Tests.{◌==◌, if◌then◌else◌, leb, Bool-cases}
use dc_inventory.Prelude.Lists.{any, all}
use dc_inventory.TelegramBot.Start.{
  TelegramChatState, ChatEvent, register_latest_start, latest_start, record_welcome_if_current,
  apply_event, run_events,
}

-- The higher of two updates, where there may be none.
abbrev higher : Option ℕ → Option ℕ → Option ℕ
higher none b = b
higher (some a) none = some a
higher (some a) (some b) = some (max a b)

latest_none : (k : ℕ) → latest_start k [] ≡ none
unfolding latest_start
latest_none k = refl

abbrev started : ℕ → ChatEvent → Option ℕ
started k (ChatEvent.start chat_id update_id now) = if chat_id == k then some update_id else none
started k (ChatEvent.welcome chat_id update_id message_id now) = none

-- The highest update that starts a chat.
unfoldable pub highest_start : ℕ → List ChatEvent → Option ℕ
highest_start k [] = none
highest_start k (e ∷ es) = higher (started k e) (highest_start k es)

higher-none : (a : Option ℕ) → higher a none ≡ a
higher-none none = refl
higher-none (some a) = refl

higher_assoc : (a b c : Option ℕ) → higher (higher a b) c ≡ higher a (higher b c)
higher_assoc none b c = refl
higher_assoc (some a) none c = refl
higher_assoc (some a) (some b) none = refl
higher_assoc (some a) (some b) (some c) = ground arith

latest_registered :
    (k chat_id update_id now : ℕ) (ss : List TelegramChatState)
    → latest_start k (register_latest_start chat_id update_id now ss)
      ≡ higher (latest_start k ss) (started k (ChatEvent.start chat_id update_id now))
unfolding register_latest_start latest_start
latest_registered k chat_id update_id now [] = ground arith
latest_registered k chat_id update_id now (s ∷ ss) =
    ground (arith, latest_registered k chat_id update_id now ss)

latest_welcomed :
    (k chat_id update_id message_id now : ℕ) (ss : List TelegramChatState)
    → latest_start k (record_welcome_if_current chat_id update_id message_id now ss).1
      ≡ latest_start k ss
unfolding record_welcome_if_current latest_start
latest_welcomed k chat_id update_id message_id now [] = refl
latest_welcomed k chat_id update_id message_id now (s ∷ ss) =
    ground (arith, latest_welcomed k chat_id update_id message_id now ss)

latest-apply :
    (k : ℕ) (e : ChatEvent) (ss : List TelegramChatState)
    → latest_start k (apply_event e ss) ≡ higher (latest_start k ss) (started k e)
unfolding apply_event
latest-apply k (ChatEvent.start chat_id update_id now) ss =
    latest_registered k chat_id update_id now ss
latest-apply k (ChatEvent.welcome chat_id update_id message_id now) ss =
    latest_welcomed k chat_id update_id message_id now ss ∙ sym (higher-none (latest_start k ss))

pub latest-run_from :
    (k : ℕ) (es : List ChatEvent) (ss : List TelegramChatState)
    → latest_start k (run_events es ss) ≡ higher (latest_start k ss) (highest_start k es)
unfolding run_events highest_start
latest-run_from k [] ss = sym (higher-none (latest_start k ss))
latest-run_from k (e ∷ es) ss =
    latest-run_from k es (apply_event e ss)
    ∙ ap (λ latest. higher latest (highest_start k es)) (latest-apply k e ss)
    ∙ higher_assoc (latest_start k ss) (started k e) (highest_start k es)

-- `/start u` of the chat is among the events.
abbrev pub is_start_of : ℕ → ℕ → ChatEvent → Bool
is_start_of k u (ChatEvent.start chat_id update_id now) = chat_id == k && update_id == u
is_start_of k u (ChatEvent.welcome chat_id update_id message_id now) = false

-- A start of the chat is not above the given update, of which there may be none.
abbrev pub is_within : Option ℕ → ℕ → Bool
is_within none u = false
is_within (some v) u = leb u v

abbrev pub starts_within : ℕ → Option ℕ → ChatEvent → Bool
starts_within k v (ChatEvent.start chat_id update_id now) =
    not (chat_id == k) || is_within v update_id
starts_within k v (ChatEvent.welcome chat_id update_id message_id now) = true

within_higher : (a b : Option ℕ) (u : ℕ) → is_within b u ≡ true → is_within (higher a b) u ≡ true
within_higher none b u h = h
within_higher (some a) none u h = ground (arith, h)
within_higher (some a) (some b) u h = ground (arith, h)

all_within :
    (k : ℕ) (a b : Option ℕ) (es : List ChatEvent)
    → all (starts_within k b) es ≡ true
    → all (starts_within k (higher a b)) es ≡ true
all_within k a b [] h = refl
all_within k a b (ChatEvent.start c u now ∷ es) h =
    ground (arith, h, all_within k a b es, within_higher a b u)
all_within k a b (ChatEvent.welcome c u m now ∷ es) h = all_within k a b es h

started_within :
    (k : ℕ) (e : ChatEvent) (b : Option ℕ) → starts_within k (higher (started k e) b) e ≡ true
started_within k (ChatEvent.start c u now) none = ground arith
started_within k (ChatEvent.start c u now) (some b) = ground arith
started_within k (ChatEvent.welcome c u m now) b = refl

pub highest_bounds :
    (k : ℕ) (es : List ChatEvent) → all (starts_within k (highest_start k es)) es ≡ true
unfolding highest_start
highest_bounds k [] = refl
highest_bounds k (e ∷ es) = ground (
  arith,
  started_within k e (highest_start k es),
  all_within k (started k e) (highest_start k es) es (highest_bounds k es),
)

higher_one : (a b : Option ℕ) (u : ℕ) → higher a b ≡ some u → (a ≡ some u) ⊎ (b ≡ some u)
higher_one none b u h = inr h
higher_one (some a) none u h = inl h
higher_one (some a) (some b) u h = elim (Bool-cases (leb a b)) [
  | inl above ↦ inr (ground (arith, h, above))
  | inr below ↦ inl (ground (arith, h, below))
]

started_is : (k u : ℕ) (e : ChatEvent) → started k e ≡ some u → is_start_of k u e ≡ true
started_is k u (ChatEvent.start c v now) h = ground (arith, h)
started_is k u (ChatEvent.welcome c v m now) h = ground (arith, h)

pub highest_among :
    (k u : ℕ) (es : List ChatEvent) → highest_start k es ≡ some u → any (is_start_of k u) es ≡ true
unfolding highest_start
highest_among k u [] h = ground (arith, h)
highest_among k u (e ∷ es) h = elim (higher_one (started k e) (highest_start k es) u h) [
  | inl first ↦ ground (arith, started_is k u e first)
  | inr later ↦ ground (arith, highest_among k u es later)
]

-- However the deliveries overlap, the latest /start that is kept for a chat is the highest of its
-- updates: it is one of those that were registered, and none of them is above it. Welcomes that were
-- recorded in between do not change it, and where nothing is kept, the chat was not started.
pub latest-run :
    (k : ℕ) (es : List ChatEvent)
    → let latest = latest_start k (run_events es []) in
      ((u : ℕ) → latest ≡ some u → any (is_start_of k u) es ≡ true)
      × (all (starts_within k latest) es ≡ true)
latest-run k es = (
  (λ u h. highest_among k u es (sym (same k es) ∙ h)),
  subst (λ latest. all (starts_within k latest) es ≡ true) (sym (same k es)) (highest_bounds k es),
)
  where
    same : (k : ℕ) (es : List ChatEvent) → latest_start k (run_events es []) ≡ highest_start k es
    same k es = latest-run_from k es [] ∙ ap (λ o. higher o (highest_start k es)) (latest_none k)
