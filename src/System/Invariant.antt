-- ===== src/System/Invariant.antt =====
-- What holds of the tables whatever calls were made before.
use mathlib.Core.Path.{subst}
use dc_inventory.Prelude.{
  ℕ, ◌≡◌, refl, sym, ap, ◌∙◌, ◌⊎◌, inl, inr, false, Option, some, List, [], ◌∷◌, arith,
}
use dc_inventory.Prelude.Lists.{All}
use dc_inventory.Prelude.Result.{ok}
use dc_inventory.Prelude.Table.{lookup}
use dc_inventory.Core.Idempotency.{Text}
use dc_inventory.Database.{Database}
use dc_inventory.Warehouse.Tables.{WarehouseTables, Location, Item, Manufacturer}
use dc_inventory.Warehouse.Journal.{journal_stock, custody_over}
use dc_inventory.Warehouse.Consistent.{IsConsistent}
use dc_inventory.Warehouse.Stocked.{Stocked, untouched-Stocked, create'-Stocked}
use dc_inventory.Identity.Administration.{Administration, administer}
use dc_inventory.Identity.Administration.Governed.{administer-frame}
use dc_inventory.Identity.Administration.Holders.{HoldersEligible, administer-HoldersEligible}
use dc_inventory.Identity.Authentication.Holders.{
  authenticate-HoldersEligible, recover_owner-HoldersEligible, ask-HoldersEligible,
  logout-HoldersEligible,
}
use dc_inventory.Identity.Authentication.Steps.{authenticate-frame, recover_owner-frame}
use dc_inventory.Warehouse.Effect.Frame.{create_is, create-requests, create'-requests}
use dc_inventory.Warehouse.Movement.Create.Steps.{reverse_steps}
use dc_inventory.Warehouse.Movement.Create.{reversal_payload}
use dc_inventory.Procurement.Tables.{ProcurementRequest, ProcurementRevisionLine, find_request}
use dc_inventory.Procurement.Payload.{Platform, Actor, ProcurementRequestCreate}
use dc_inventory.Procurement.Guards.{add_event, normalize_client_request_id, normalize_comment}
use dc_inventory.Procurement.Lines.{prepare_lines}
use dc_inventory.Procurement.Notify.{enqueue_procurement_notifications}
use dc_inventory.Procurement.Progress.{Worked, Stamp}
use dc_inventory.Procurement.Sound.{IsSound, Advanced-IsSound}
use dc_inventory.Procurement.Rows.{All-find_request, All-put_request}
use dc_inventory.Procurement.Operation.{Operation, run, body_of, call_of, run-mutate, body_Worked}
use dc_inventory.Procurement.Progress.{mutate_steps}
use dc_inventory.Procurement.Submission.{create_request, new_request}
use dc_inventory.System.{Step, Reachable}
use dc_inventory.System.Keeps.{run_keeps}

-- The projections show the journal, and every request is sound.
pub record IsValid (db : Database) : Type 0 where
  pub stocked : Stocked db
  pub requests : All IsSound db.requests

put-All :
    (s : Stamp) (request_id : ℕ) (db : Database) (r : ProcurementRequest) (db' : Database)
    → All IsSound db.requests
    → find_request request_id db.requests ≡ some r
    → Worked s r db db'
    → All IsSound db'.requests
put-All s request_id db r db' a found (r', rows, advanced) = subst (All IsSound) (sym rows) (
    All-put_request IsSound r' db.requests
      (Advanced-IsSound s r r' advanced (All-find_request IsSound request_id db.requests r a found))
      a)

run-IsValid :
    (x : Platform) (actor : Actor) (o : Operation) (request_id : ℕ) (db : Database) {db' : Database}
    → IsValid db
    → run x actor o request_id db ≡ ok db'
    → IsValid db'
run-IsValid x actor o request_id db {db'} v h =
    let (r, found, u, _, _, how) =
      mutate_steps x actor (call_of x actor o) (body_of x actor o db) request_id db
        (sym (run-mutate x actor o request_id db) ∙ h) in
    elim how [
      | inl (_, same) ↦ subst IsValid (sym same) v
      | inr (_, e) ↦ record {
        stocked =
            run_keeps Stocked x (λ d d' same. untouched-Stocked same)
              (λ d d' order c result made v.
                create'-Stocked x.canonical_fingerprint d order c v made)
              actor o request_id db v.stocked h;
        requests =
            put-All _ request_id db r db' v.requests found (body_Worked x actor o db r u.key e);
      }
    ]

new_request-IsSound :
    (x : Platform) (actor : Actor) (p : ProcurementRequestCreate) (request_id : ℕ) (key : Text)
    (comment : Option Text) (lines : List ProcurementRevisionLine)
    → IsSound (new_request x actor p request_id key comment lines)
unfolding new_request add_event
new_request-IsSound x actor p request_id key comment lines = record {
  version = refl;
  trail = (refl, refl, refl);
  receipt = refl;
}

-- A successful creation found an earlier request of the same call, or adds one.
pub create_request_steps :
    (x : Platform) (actor : Actor) (p : ProcurementRequestCreate) (request_id : ℕ) (db : Database)
    {db' : Database}
    → create_request x actor p request_id db ≡ ok db'
    → (db' ≡ db)
      ⊎ (key : Text) × (normalize_client_request_id p.client_request_id ≡ ok key)
        × (lines : List ProcurementRevisionLine) × (prepare_lines x actor db.warehouse.items p.lines
            ≡ ok lines)
        × (comment : Option Text) × (normalize_comment p.general_comment false ≡ ok comment)
        × (db'.requests ≡ new_request x actor p request_id key comment lines ∷ db.requests)
        × (db'.warehouse ≡ db.warehouse)
        × (db'.identity ≡ db.identity)
unfolding create_request enqueue_procurement_notifications
create_request_steps x actor p request_id db h = ground arith

-- A call that leaves the purchases alone.
stocked-IsValid :
    {db db' : Database} → IsValid db → Stocked db' → db'.requests ≡ db.requests → IsValid db'
stocked-IsValid v stocked same = record {
  stocked = stocked;
  requests = subst (All IsSound) (sym same) v.requests;
}

holders-IsValid :
    {db db' : Database}
    → IsValid db
    → HoldersEligible db'
    → db' ≡ record db { identity = db'.identity; outbox = db'.outbox }
    → IsValid db'
holders-IsValid v holders same =
    stocked-IsValid v
      (record {
        warehouse =
            subst IsConsistent (sym (ap (λ (d : Database). d.warehouse) same)) v.stocked.warehouse;
        holders = holders;
      })
      (ap (λ (d : Database). d.requests) same)

module _ (hash_session_token : ℕ → ℕ) (x : Platform) (db db' : Database) (v : IsValid db) where
  administer-IsValid :
      (op : Administration) (actor_user_id target_user_id : ℕ) (recovery : Option ℕ) (now : ℕ)
      → administer op actor_user_id target_user_id recovery now db ≡ ok db'
      → IsValid db'
  administer-IsValid op a k recovery now h =
      holders-IsValid v (administer-HoldersEligible op a k recovery now db db' v.stocked.holders h)
        (administer-frame op a k recovery now db db' h)

  step-IsValid : Step hash_session_token x db db' → IsValid db'
  step-IsValid (Step.moved p c r h) =
      stocked-IsValid v
        (create'-Stocked x.canonical_fingerprint db p c v.stocked
          (create_is x.canonical_fingerprint db p c h))
        (create-requests x.canonical_fingerprint db p c h)
  step-IsValid (Step.reversed original_id request_id c r h) =
      let (o, _, made) = reverse_steps x.canonical_fingerprint db original_id request_id c h in
      let p = reversal_payload o request_id in
      stocked-IsValid v (create'-Stocked x.canonical_fingerprint db p _ v.stocked made)
        (create'-requests x.canonical_fingerprint db p _ made)
  step-IsValid (Step.requested actor p request_id h) =
      elim (create_request_steps x actor p request_id db h) [
        | inl same ↦ subst IsValid (sym same) v
        | inr (key, _, lines, _, comment, _, rows, same, users) ↦ record {
          stocked = untouched-Stocked (same, users) v.stocked;
          requests =
              subst (All IsSound) (sym rows)
                (new_request-IsSound x actor p request_id key comment lines, v.requests);
        }
      ]
  step-IsValid (Step.operated actor o request_id h) = run-IsValid x actor o request_id db v h
  step-IsValid (Step.administered op a k recovery now h) = administer-IsValid op a k recovery now h
  step-IsValid (Step.logged_in c h) =
      holders-IsValid v
        (authenticate-HoldersEligible hash_session_token c db db' v.stocked.holders h)
        (authenticate-frame hash_session_token c db db' h)
  step-IsValid (Step.recovered u i recovery now h) =
      holders-IsValid v (recover_owner-HoldersEligible u i recovery now db db' v.stocked.holders h)
        (recover_owner-frame u i recovery now db db' h)
  step-IsValid (Step.asked user_id request_id now r t h same) = subst IsValid (sym same) (
      holders-IsValid v (ask-HoldersEligible user_id request_id now db r t v.stocked.holders h)
        refl)
  step-IsValid (Step.logged_out session_id now same) =
      subst IsValid (sym same)
        (holders-IsValid v (logout-HoldersEligible session_id now db v.stocked.holders) refl)

pub start-IsConsistent :
    (locations : List Location) (items : List Item) (manufacturers : List Manufacturer)
    → IsConsistent (record {
      locations = locations;
      items = items;
      manufacturers = manufacturers;
      movements = [];
      stock = [];
      custody = [];
    })
unfolding lookup journal_stock custody_over
start-IsConsistent locations items manufacturers = record {
  closed = tt;
  stock = λ i l. refl;
  custody = λ u i. refl;
}

other-IsConsistent :
    (w : WarehouseTables) (locations : List Location) (items : List Item)
    (manufacturers : List Manufacturer)
    → IsConsistent w
    → IsConsistent
        (record w { locations = locations; items = items; manufacturers = manufacturers })
other-IsConsistent w locations items manufacturers v = record {
  closed = v.closed;
  stock = v.stock;
  custody = v.custody;
}

-- Whatever calls were made, by whom and in whatever order: both projections show the sums of the
-- journal and are in range; every user with equipment is approved, with a role of CUSTODY_ROLES; and
-- of every request the version counts the events, the events lead to its status through transitions
-- of the state machine alone and never out of the completed state, and there is a receipt exactly
-- when it is completed.
pub Reachable-IsValid :
    (hash_session_token : ℕ → ℕ) (x : Platform) (db : Database)
    → Reachable hash_session_token x db
    → IsValid db
unfolding lookup
Reachable-IsValid hash_session_token x db
      (Reachable.started identity locations items manufacturers outbox) =
    record {
      stocked = record {
        warehouse = start-IsConsistent locations items manufacturers;
        holders = record { holder = λ user item quantity held. absurd (ground (arith, held)) };
      };
      requests = tt;
    }
Reachable-IsValid hash_session_token x db (Reachable.stepped before after reached step) =
    step-IsValid hash_session_token x before db
      (Reachable-IsValid hash_session_token x before reached) step
Reachable-IsValid hash_session_token x db
      (Reachable.others before locations items manufacturers outbox reached) =
    let v = Reachable-IsValid hash_session_token x before reached in
    record {
      stocked = record {
        warehouse =
            other-IsConsistent before.warehouse locations items manufacturers v.stocked.warehouse;
        holders = record { holder = v.stocked.holders.holder };
      };
      requests = v.requests;
    }
