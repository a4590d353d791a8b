-- ===== src/System.antt =====
-- The program as a whole: the calls that record movements, those that work on purchases, and those
-- that administer users and log them in, in any order, by any users.
pub mod Keeps
pub mod Invariant
pub mod Audited
use dc_inventory.Prelude.{ℕ, ◌≡◌, [], List, Option}
use dc_inventory.Prelude.Result.{ok}
use dc_inventory.Core.Idempotency.{Text}
use dc_inventory.Identity.Tables.{IdentityTables, User, TelegramIdentity}
use dc_inventory.Identity.Administration.{Administration, administer}
use dc_inventory.Identity.Authentication.{LoginCall, authenticate_with_telegram, recover_owner}
use dc_inventory.Identity.Access.{AccessRequestResult, create_or_get_access_request}
use dc_inventory.Identity.Sessions.{revoke_auth_session}
use dc_inventory.Warehouse.Tables.{Location, Item, Manufacturer}
use dc_inventory.Warehouse.Movement.Payload.{MovementCreate, Caller}
use dc_inventory.Warehouse.Movement.Create.{MovementResult, create_movement, reverse_movement}
use dc_inventory.Procurement.Payload.{Platform, Actor, ProcurementRequestCreate}
use dc_inventory.Procurement.Operation.{Operation, run}
use dc_inventory.Procurement.Submission.{create_request}
use dc_inventory.Notifications.Outbox.{NotificationOutbox}
use dc_inventory.Database.{Database}

-- One call that succeeds. A call that raises is rolled back, and is no step.
pub data Step (hash_session_token : ℕ → ℕ) (x : Platform) (db db' : Database) : Type 0 where
  moved :
      (p : MovementCreate) (c : Caller) (r : MovementResult)
      → create_movement x.canonical_fingerprint db p c ≡ ok (r, db')
      → Step hash_session_token x db db'
  reversed :
      (original_id : ℕ) (request_id : Text) (c : Caller) (r : MovementResult)
      → reverse_movement x.canonical_fingerprint db original_id request_id c ≡ ok (r, db')
      → Step hash_session_token x db db'
  requested :
      (actor : Actor) (p : ProcurementRequestCreate) (request_id : ℕ)
      → create_request x actor p request_id db ≡ ok db'
      → Step hash_session_token x db db'
  operated :
      (actor : Actor) (o : Operation) (request_id : ℕ)
      → run x actor o request_id db ≡ ok db'
      → Step hash_session_token x db db'
  administered :
      (op : Administration) (actor_user_id target_user_id : ℕ) (recovery : Option ℕ) (now : ℕ)
      → administer op actor_user_id target_user_id recovery now db ≡ ok db'
      → Step hash_session_token x db db'
  logged_in :
      (c : LoginCall)
      → authenticate_with_telegram hash_session_token c db ≡ ok db'
      → Step hash_session_token x db db'
  recovered :
      (user : User) (identity : TelegramIdentity) (recovery : Option ℕ) (now : ℕ)
      → recover_owner user identity recovery now db ≡ ok db'
      → Step hash_session_token x db db'
  asked :
      (user_id request_id now : ℕ) (r : AccessRequestResult) (t : IdentityTables)
      → create_or_get_access_request user_id request_id now db.identity ≡ ok (r, t)
      → db' ≡ record db { identity = t }
      → Step hash_session_token x db db'
  logged_out :
      (session_id now : ℕ)
      → db' ≡ record db { identity = revoke_auth_session session_id now db.identity }
      → Step hash_session_token x db db'

-- Tables without a movement and without a request.
abbrev pub start :
    IdentityTables
    → List Location
    → List Item
    → List Manufacturer
    → List NotificationOutbox
    → Database
start identity locations items manufacturers outbox = record {
  identity = identity;
  warehouse = record {
    locations = locations;
    items = items;
    manufacturers = manufacturers;
    movements = [];
    stock = [];
    custody = [];
  };
  requests = [];
  outbox = outbox;
}

-- The tables that calls lead to. Between two calls, the tables of locations, items and manufacturers
-- and the outbox may be changed by other operations.
pub data Reachable (hash_session_token : ℕ → ℕ) (x : Platform) : Database → Type 0 where
  started :
      (identity : IdentityTables) (locations : List Location) (items : List Item)
      (manufacturers : List Manufacturer) (outbox : List NotificationOutbox)
      → Reachable hash_session_token x (start identity locations items manufacturers outbox)
  stepped :
      (db db' : Database)
      → Reachable hash_session_token x db
      → Step hash_session_token x db db'
      → Reachable hash_session_token x db'
  others :
      (db : Database) (locations : List Location) (items : List Item)
      (manufacturers : List Manufacturer) (outbox : List NotificationOutbox)
      → Reachable hash_session_token x db
      → Reachable hash_session_token x (record db {
        warehouse = record db.warehouse {
          locations = locations;
          items = items;
          manufacturers = manufacturers;
        };
        outbox = outbox;
      })
