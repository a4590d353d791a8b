-- ===== src/TelegramBot/Decision/Once.antt =====
-- A request is decided by one press at most: the presses that follow find it decided.
use mathlib.Core.Path.{subst}
use dc_inventory.Prelude.{
  ℕ, ◌≡◌, ◌⊎◌, inl, inr, refl, sym, ap, ◌∙◌, Bool, true, false, Option, none, some, List, [], ◌∷◌,
  map, arith,
}
use dc_inventory.Prelude.Tests.{◌==◌, Bool-cases}
use dc_inventory.Prelude.Lists.{select, is_nodup, contains}
use dc_inventory.Prelude.Result.{ok}
use dc_inventory.Database.{Database}
use dc_inventory.Identity.Policy.{UserAccessStatus, AccessRequestStatus, status_eq}
use dc_inventory.Identity.Tables.{AccessRequest, DecisionNote, IdentityTables}
use dc_inventory.Identity.Lifecycle.{transition_user_access}
use dc_inventory.Identity.Lifecycle.Rows.{find_user_id}
use dc_inventory.Identity.Admin.Guards.{Locked}
use dc_inventory.Identity.Admin.{
  is_pending, is_pending_of, decide_request, decided_access, decide_pending_access_request,
}
use dc_inventory.Identity.Admin.Steps.{decide_steps}
use dc_inventory.TelegramBot.Decision.{
  AccessDecisionCallback, Press, Settings, Outcome, button_of, find_access_request, answered,
  with_note, apply_access_decision,
}
use dc_inventory.TelegramBot.Decision.Calls.{Told}
use dc_inventory.TelegramBot.Decision.Decided.{DecidedNow, DecidedBefore, press-Decided}

-- The partial unique index of models.py: a user has at most one pending request.
unfoldable pub one_pending : List AccessRequest → Bool
one_pending rs = is_nodup (
    map (λ (r : AccessRequest). r.user_id) (select (λ (r : AccessRequest). is_pending r.status) rs))

among_pending :
    (k rid : ℕ) (rs : List AccessRequest) (r : AccessRequest)
    → find_access_request rid rs ≡ some r
    → is_pending_of k r ≡ true
    → contains k (
        map
          (λ (r : AccessRequest). r.user_id)
          (select (λ (r : AccessRequest). is_pending r.status) rs))
      ≡ true
among_pending k rid [] r h pending = ground (arith, h)
among_pending k rid (x ∷ xs) r h pending = ground (arith, h, pending, among_pending k rid xs r)

abbrev pub status_of : Option AccessRequest → Option AccessRequestStatus
status_of none = none
status_of (some r) = some r.status

decide_request-row :
    (k a rid now : ℕ) (decision : AccessRequestStatus) (note : DecisionNote)
    (rs : List AccessRequest) (r : AccessRequest)
    → one_pending rs ≡ true
    → find_access_request rid rs ≡ some r
    → is_pending_of k r ≡ true
    → status_of (find_access_request rid (decide_request k a decision note now rs)) ≡ some decision
unfolding one_pending decide_request
decide_request-row k a rid now decision note [] r one h pending = absurd (ground (arith, h))
decide_request-row k a rid now decision note (x ∷ xs) r one h pending =
    elim (Bool-cases (x.id == rid)) [
      | inl here ↦ ground (arith, h, pending, here)
      | inr later ↦
          let found : find_access_request rid xs ≡ some r = ground (arith, h, later) in
          elim (Bool-cases (is_pending x.status)) [
            | inl waits ↦ ground (
              arith,
              one,
              later,
              waits,
              pending,
              among_pending k rid xs r found pending,
              decide_request-row k a rid now decision note xs r (ground (arith, one, waits)) found
                  pending,
            )
            | inr over ↦ ground (
              arith,
              later,
              over,
              decide_request-row k a rid now decision note xs r (ground (arith, one, over)) found
                  pending,
            )
          ]
    ]

transition-requests :
    (l : Locked) (access_status : UserAccessStatus) (now : ℕ) (t : IdentityTables)
    → (transition_user_access l.target l.actor.id access_status now t).access_requests
      ≡ t.access_requests
unfolding transition_user_access
transition-requests l access_status now t =
    elim (Bool-cases (status_eq l.target.access_status access_status)) [
      | inl same ↦ rw same refl
      | inr differs ↦ rw differs refl
    ]

with_note-row :
    (k rid : ℕ) (rs : List AccessRequest)
    → status_of (find_access_request rid (with_note k rs)) ≡ status_of (find_access_request rid rs)
unfolding with_note
with_note-row k rid [] = refl
with_note-row k rid (r ∷ rs) = elim (Bool-cases (r.id == k)) [
  | inl named ↦ rw named (ground (arith, with_note-row k rid rs))
  | inr other ↦ rw other (ground (arith, with_note-row k rid rs))
]

-- The status of a request, if there is one of this identifier.
abbrev pub request_status : ℕ → Database → Option AccessRequestStatus
request_status k db = status_of (find_access_request k db.identity.access_requests)

decided_status :
    (a rid now : ℕ) (decision : AccessRequestStatus) (recovery : Option ℕ) (db db' : Database)
    (r : AccessRequest)
    → one_pending db.identity.access_requests ≡ true
    → find_access_request rid db.identity.access_requests ≡ some r
    → is_pending r.status ≡ true
    → decide_pending_access_request a r.user_id decision recovery now db ≡ ok db'
    → (request_status rid db' ≡ some decision) × (is_pending decision ≡ false)
decided_status a rid now decision recovery db db' r one h pending made =
    let (l, locked, how, same) = decide_steps a r.user_id decision recovery now db db' made in
    let target : l.target.id ≡ r.user_id =
      find_user_id r.user_id db.identity.users l.target locked.target_found in
    (
      ap (request_status rid) same
          ∙ ap
              (λ rs. status_of (
                find_access_request rid
                  (decide_request l.target.id l.actor.id decision DecisionNote.web_console now rs)))
              (transition-requests l (decided_access decision) now db.identity)
          ∙ decide_request-row l.target.id l.actor.id rid now decision DecisionNote.web_console
              db.identity.access_requests r one h (ground (arith, target, pending)),
      how.decision_made,
    )

settled :
    (s : Settings) (p : Press) (a rid now : ℕ) (decision : AccessRequestStatus) (db : Database)
    (r : AccessRequest) (o : Outcome)
    → one_pending db.identity.access_requests ≡ true
    → find_access_request rid db.identity.access_requests ≡ some r
    → (DecidedNow s p a r decision now db o ⊎ DecidedBefore s p r db o)
    → (request_status rid o.database ≡ some o.result.status) × (is_pending o.result.status ≡ false)
settled s p a rid now decision db r o one h (inl d) =
    let (row, made) =
      decided_status a rid now decision s.admin_telegram_user_id db d.decided r one h d.was_pending
        d.made in
    (
      ap (request_status rid) d.kept
          ∙ with_note-row r.id rid d.decided.identity.access_requests
          ∙ row
          ∙ ap some (sym d.status),
      ap is_pending d.status ∙ made,
    )
settled s p a rid now decision db r o one h (inr b) = (
  ap (request_status rid) b.kept ∙ ap status_of h ∙ ap some (sym b.status),
  ap is_pending b.status ∙ b.was_decided,
)

some_inj : {a b : AccessRequestStatus} → some a ≡ some b → a ≡ b
some_inj h = cc

-- A press reports the status of a request and changes no table but the outbox, to which it adds.
pub record Repeated (s : Settings) (p : Press) (status : AccessRequestStatus) (db : Database)
    (o : Outcome) : Type 0 where
  pub same_status : o.result.status ≡ status
  pub unchanged : o.result.changed ≡ false
  pub kept : o.database ≡ record db { outbox = o.database.outbox }
  pub told : Told s (answered p status false) db.outbox o.database.outbox

again :
    (s : Settings) (p : Press) (a rid now : ℕ) (decision status : AccessRequestStatus)
    (db : Database) (r : AccessRequest) (o : Outcome)
    → request_status rid db ≡ some status
    → is_pending status ≡ false
    → find_access_request rid db.identity.access_requests ≡ some r
    → (DecidedNow s p a r decision now db o ⊎ DecidedBefore s p r db o)
    → Repeated s p status db o
again s p a rid now decision status db r o row over h how =
    let same : r.status ≡ status = some_inj (sym (ap status_of h) ∙ row) in
    elim how [
      | inl d ↦ absurd (ground (arith, d.was_pending, over, same))
      | inr b ↦ record {
        same_status = b.status ∙ same;
        unchanged = b.changed;
        kept = b.kept;
        told =
            subst (λ status. Told s (answered p status false) db.outbox o.database.outbox) same
              b.told;
      }
    ]

same_button :
    {x : Option AccessDecisionCallback} {b c : AccessDecisionCallback}
    → x ≡ some b
    → x ≡ some c
    → b.access_request_id ≡ c.access_request_id
same_button {x} {b} {c} h h' = ap (λ (y : AccessDecisionCallback). y.access_request_id) equal
  where
    equal : b ≡ c
    equal = cc

-- Where a user has at most one pending request, a press that succeeds leaves the row of the request of
-- its button decided, with the status that it reports.
pub press-settled :
    (callbacks : List AccessDecisionCallback) (s : Settings) (p : Press) (now : ℕ) (db : Database)
    (o : Outcome) (c : AccessDecisionCallback)
    → apply_access_decision callbacks s p now db ≡ ok o
    → one_pending db.identity.access_requests ≡ true
    → button_of callbacks p ≡ some c
    → (request_status c.access_request_id o.database ≡ some o.result.status)
      × (is_pending o.result.status ≡ false)
press-settled callbacks s p now db o c h one named =
    let (pressed, how) = press-Decided callbacks s p now db o h in
    settled s p pressed.actor_user_id c.access_request_id now _ db pressed.request o one
      (subst (λ k. find_access_request k db.identity.access_requests ≡ some pressed.request)
        (same_button pressed.known named) pressed.requested)
      how

-- A request is decided once. After a press that succeeds, where a user has at most one pending
-- request, take any press, by whomever, of whichever button of the same request, with whatever
-- settings, in any database where the row of this request has the status that the first press left.
-- Where this press succeeds as well, it reports the status that the first reported, says that it is
-- not a change, and changes no table but the outbox, to which it adds the clearing of its buttons and
-- its answer, where there is no such row. So the row is again as the first press left it.
pub press-once :
    (callbacks callbacks' : List AccessDecisionCallback) (s s' : Settings) (p p' : Press)
    (now now' : ℕ) (db db' : Database) (o o' : Outcome) (c c' : AccessDecisionCallback)
    → apply_access_decision callbacks s p now db ≡ ok o
    → one_pending db.identity.access_requests ≡ true
    → button_of callbacks p ≡ some c
    → button_of callbacks' p' ≡ some c'
    → c'.access_request_id ≡ c.access_request_id
    → request_status c.access_request_id db' ≡ request_status c.access_request_id o.database
    → apply_access_decision callbacks' s' p' now' db' ≡ ok o'
    → Repeated s' p' o.result.status db' o'
      × (request_status c.access_request_id o'.database
          ≡ request_status c.access_request_id o.database)
press-once callbacks callbacks' s s' p p' now now' db db' o o' c c' h one named named' same left
      h' =
    let (row, over) = press-settled callbacks s p now db o c h one named in
    let (pressed, how) = press-Decided callbacks' s' p' now' db' o' h' in
    let repeated =
      again s' p' pressed.actor_user_id c.access_request_id now' _ o.result.status db'
        pressed.request o' (left ∙ row) over
        (subst (λ k. find_access_request k db'.identity.access_requests ≡ some pressed.request)
          (same_button pressed.known named' ∙ same) pressed.requested)
        how in
    (repeated, ap (request_status c.access_request_id) repeated.kept ∙ left)
