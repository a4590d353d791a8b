-- ===== src/TelegramBot/Buttons.antt =====
-- telegram_bot/service.py: the pair of buttons that stands for a request for access. The tokens,
-- which `secrets.token_urlsafe` gives, and the time are arguments.
use mathlib.Core.Path.{subst}
use dc_inventory.Prelude.{
  ℕ, ◌≡◌, inl, inr, refl, sym, ap, ◌∙◌, Bool, true, false, not, some, List, [], ◌∷◌, arith,
}
use dc_inventory.Prelude.Tests.{◌==◌, Bool-cases, ==_refl}
use dc_inventory.Prelude.Lists.{length, find, select}
use dc_inventory.Prelude.Result.{
  Result, ok, ◌>>=◌, ◌>>◌, raise_if, or_raise, or_raise_ok, >>=-Through,
}
use dc_inventory.TelegramBot.Decision.{CallbackAction, AccessDecisionCallback, DecisionError}

abbrev pub is_approve : AccessDecisionCallback → Bool
is_approve c = elim c.action [ CallbackAction.approve ↦ true | CallbackAction.reject ↦ false ]

abbrev pub new_callback : ℕ → CallbackAction → ℕ → List ℕ → AccessDecisionCallback
new_callback access_request_id action now token = record {
  token = token;
  access_request_id = access_request_id;
  action = action;
  created_at = now;
}

pub record Buttons : Type 0 where
  pub approve : AccessDecisionCallback
  pub reject : AccessDecisionCallback

-- The new buttons, and the rows with them.
unfoldable pub create_access_decision_callbacks :
    ℕ → List ℕ → List ℕ → ℕ → List AccessDecisionCallback → Buttons × List AccessDecisionCallback
create_access_decision_callbacks k token₁ token₂ now cs =
    let approve = new_callback k CallbackAction.approve now token₁ in
    let reject = new_callback k CallbackAction.reject now token₂ in
    (record { approve = approve; reject = reject }, approve ∷ reject ∷ cs)

abbrev pub callbacks_of : ℕ → List AccessDecisionCallback → List AccessDecisionCallback
callbacks_of k = select λ (c : AccessDecisionCallback). c.access_request_id == k

-- The buttons by their action.
unfoldable pub existing_pair : List AccessDecisionCallback → Result DecisionError Buttons
existing_pair existing = do
  raise_if (not (length existing == 2)) DecisionError.incomplete
  approve ← or_raise (find is_approve existing) DecisionError.incomplete
  reject ← or_raise (find (λ c. not (is_approve c)) existing) DecisionError.incomplete
  ok (record { approve = approve; reject = reject })

abbrev pub get_or_create :
    ℕ
    → List ℕ
    → List ℕ
    → ℕ
    → List AccessDecisionCallback
    → List AccessDecisionCallback
    → Result DecisionError (Buttons × List AccessDecisionCallback)
get_or_create k token₁ token₂ now cs [] =
    ok (create_access_decision_callbacks k token₁ token₂ now cs)
get_or_create k token₁ token₂ now cs (c ∷ existing) = do
  pair ← existing_pair (c ∷ existing)
  ok (pair, cs)

unfoldable pub get_or_create_access_decision_callbacks :
    ℕ
    → List ℕ
    → List ℕ
    → ℕ
    → List AccessDecisionCallback
    → Result DecisionError (Buttons × List AccessDecisionCallback)
get_or_create_access_decision_callbacks k token₁ token₂ now cs =
    get_or_create k token₁ token₂ now cs (callbacks_of k cs)

created_then :
    (k now now' : ℕ) (token₁ token₂ token₃ token₄ : List ℕ) (cs : List AccessDecisionCallback)
    → callbacks_of k cs ≡ []
    → let made = create_access_decision_callbacks k token₁ token₂ now cs in
      get_or_create_access_decision_callbacks k token₃ token₄ now' made.1 ≡ ok made
unfolding get_or_create_access_decision_callbacks create_access_decision_callbacks existing_pair
created_then k now now' token₁ token₂ token₃ token₄ cs fresh = ground (arith, fresh, ==_refl k)

-- A button of the pair of a request.
pub record IsButton (k : ℕ) (approves : Bool) (c : AccessDecisionCallback) : Type 0 where
  pub request : (c.access_request_id == k) ≡ true
  pub action : is_approve c ≡ approves

found_button :
    (k : ℕ) (p : AccessDecisionCallback → Bool) (cs : List AccessDecisionCallback)
    (c : AccessDecisionCallback)
    → find p (callbacks_of k cs) ≡ some c
    → ((c.access_request_id == k) ≡ true) × (p c ≡ true)
found_button k p [] c h = absurd (ground (arith, h))
found_button k p (x ∷ xs) c h = elim (Bool-cases (x.access_request_id == k)) [
  | inl here ↦ elim (Bool-cases (p x)) [
    | inl holds ↦
        let same : x ≡ c = some_inj (ground (arith, h, here, holds)) in
        (
          ap (λ (y : AccessDecisionCallback). y.access_request_id == k) (sym same) ∙ here,
          ap p (sym same) ∙ holds,
        )
    | inr fails ↦ found_button k p xs c (ground (arith, h, here, fails))
  ]
  | inr other ↦ found_button k p xs c (ground (arith, h, other))
]
  where
    some_inj : {a b : AccessDecisionCallback} → some a ≡ some b → a ≡ b
    some_inj h = cc

pair_found :
    (existing : List AccessDecisionCallback) (b : Buttons)
    → existing_pair existing ≡ ok b
    → (find is_approve existing ≡ some b.approve)
      × (find (λ c. not (is_approve c)) existing ≡ some b.reject)
unfolding existing_pair
pair_found existing b h =
    let (_, _, h₁) =
      >>=-Through (raise_if (not (length existing == 2)) DecisionError.incomplete) _ h in
    let (approve, first, h₂) =
      >>=-Through (or_raise (find is_approve existing) DecisionError.incomplete) _ h₁ in
    let (reject, second, h₃) =
      >>=-Through (or_raise (find (λ c. not (is_approve c)) existing) DecisionError.incomplete) _
        h₂ in
    (or_raise_ok _ _ first ∙ ground (arith, h₃), or_raise_ok _ _ second ∙ ground (arith, h₃))

ok_once :
    (r : Result DecisionError (Buttons × List AccessDecisionCallback))
    (x y : Buttons × List AccessDecisionCallback)
    → r ≡ ok x
    → r ≡ ok y
    → x ≡ y
ok_once r x y h h' = cc

opened :
    (k now : ℕ) (token₁ token₂ : List ℕ) (cs : List AccessDecisionCallback)
    → get_or_create k token₁ token₂ now cs (callbacks_of k cs)
      ≡ get_or_create_access_decision_callbacks k token₁ token₂ now cs
unfolding get_or_create_access_decision_callbacks
opened k now token₁ token₂ cs = refl

again_from :
    (k now now' : ℕ) (token₁ token₂ token₃ token₄ : List ℕ)
    (cs cs' existing : List AccessDecisionCallback) (b : Buttons)
    → callbacks_of k cs ≡ existing
    → get_or_create k token₁ token₂ now cs existing ≡ ok (b, cs')
    → (get_or_create_access_decision_callbacks k token₃ token₄ now' cs' ≡ ok (b, cs'))
      × IsButton k true b.approve
      × IsButton k false b.reject
unfolding get_or_create_access_decision_callbacks create_access_decision_callbacks
again_from k now now' token₁ token₂ token₃ token₄ cs cs' [] b e h =
    let approve : new_callback k CallbackAction.approve now token₁ ≡ b.approve =
      ground (arith, h) in
    let reject : new_callback k CallbackAction.reject now token₂ ≡ b.reject = ground (arith, h) in
    (
      subst
          (λ (r : Buttons × List AccessDecisionCallback).
            get_or_create k token₃ token₄ now' r.1 (callbacks_of k r.1) ≡ ok r)
          (ok_once (get_or_create k token₁ token₂ now cs []) _ _ refl h)
          (created_then k now now' token₁ token₂ token₃ token₄ cs e),
      subst (IsButton k true) approve (record { request = ==_refl k; action = refl }),
      subst (IsButton k false) reject (record { request = ==_refl k; action = refl }),
    )
again_from k now now' token₁ token₂ token₃ token₄ cs cs' (c ∷ existing) b e h =
    let (pair, found, same) = >>=-Through (existing_pair (c ∷ existing)) _ h in
    let here : existing_pair (c ∷ existing) ≡ ok b = found ∙ ground (arith, same) in
    let kept : cs ≡ cs' = ground (arith, same) in
    let (approve, reject) = pair_found (c ∷ existing) b here in
    let (of₁, is₁) = found_button k is_approve cs b.approve (ap (find is_approve) e ∙ approve) in
    let (of₂, is₂) =
      found_button k (λ c. not (is_approve c)) cs b.reject
        (ap (find (λ c. not (is_approve c))) e ∙ reject) in
    (
      subst (λ xs. get_or_create k token₃ token₄ now' xs (callbacks_of k xs) ≡ ok (b, xs)) kept
          (ap (get_or_create k token₃ token₄ now' cs) e
            ∙ ap (λ r. r >>= λ pair. ok (pair, cs)) here),
      record { request = of₁; action = is₁ },
      record { request = of₂; action = ground (arith, is₂) },
    )

-- Where the call succeeds, the buttons are of the request, one that approves it and one that rejects
-- it. A repeated call gives the same two buttons, whatever its tokens and its time, and adds no row.
pub get_or_create-again :
    (k now now' : ℕ) (token₁ token₂ token₃ token₄ : List ℕ) (cs cs' : List AccessDecisionCallback)
    (b : Buttons)
    → get_or_create_access_decision_callbacks k token₁ token₂ now cs ≡ ok (b, cs')
    → (get_or_create_access_decision_callbacks k token₃ token₄ now' cs' ≡ ok (b, cs'))
      × IsButton k true b.approve
      × IsButton k false b.reject
get_or_create-again k now now' token₁ token₂ token₃ token₄ cs cs' b h =
    again_from k now now' token₁ token₂ token₃ token₄ cs cs' (callbacks_of k cs) b refl
      (opened k now token₁ token₂ cs ∙ h)
