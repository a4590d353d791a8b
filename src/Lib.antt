-- ===== src/Lib.antt =====
-- Verification of dc-inventory, the backend of a data-centre inventory: a warehouse whose stock and
-- custody are projections of an append-only journal of movements, and a workflow of purchases that
-- ends with a receipt into the warehouse.
--
-- A call is a function from the tables (Database) and its arguments to a result: an error, after
-- which the transaction is rolled back, or the tables after it. Since a call runs in one transaction
-- and locks the rows that it decides on, concurrent calls are sequences of calls, and the locks
-- themselves are left out. Identifiers, times and digests are numbers, texts are lists of code
-- points, quantities are natural numbers and their deltas integers.
--
-- The files and the code that they model, by paths below backend/:
--   Prelude       the shared names: tests, lists, integers, results, tables of quantities
--   Core          app/core/idempotency.py: the normal form of a key
--   Identity      app/modules/identity, access and auth: Policy has the roles and the capability
--                 matrix (policy.py, enums.py), Tables the rows (models.py), Lifecycle the change of
--                 an access (access_lifecycle.py), Admin the calls of admin_service.py, Reset that of
--                 reset_service.py, and Administration makes one type of them; Access has
--                 access/service.py, Login and Sessions auth/service.py and dependencies.py,
--                 Authentication the transaction of a login with the trigger on users at its commit,
--                 and Audit the events that account for the users
--   Warehouse     app/modules/inventory and what the database does under it:
--                 Tables has the rows, Journal the sums over the journal, Projection the function
--                 refresh_warehouse_projection of migrations/versions, Movement the parts of
--                 _create_movement in service.py (Payload, Guards, Lines, Insert with the triggers
--                 of migrations/versions, and Create, which puts them together with
--                 create_movement and reverse_movement), Location has
--                 create_location, update_location and set_location_archived, Consistent and
--                 Stocked have the invariants of the tables, Effect what the calls do to the balances
--   Procurement   app/modules/procurement: StateMachine (state_machine.py), Payload (schemas.py),
--                 Guards, Lines, Workflow, Acceptance and Submission (service.py), Notify
--                 (notifications.py), Actions (available_actions); Operation makes one type of the
--                 operations on a request, and Progress, Calls, Concurrency, Rows, Sound, Totals and
--                 Received have their theory
--   Notifications app/modules/notifications: Outbox, a row and how a call is put into it, and
--                 Delivery, the lease and the reports of a worker (service.py)
--   TelegramBot   app/modules/telegram_bot: Start, the latest /start of a chat and its welcome
--                 (service.py and notifications/worker.py), Callback, the data of a button,
--                 Buttons, the pair of buttons of a request, and Decision, what a press of a
--                 button does to the request and puts into the outbox (service.py)
--   Maintenance   app/maintenance/technical_retention.py: the deletion of old sessions
--   Database      the tables together
--   System        sequences of calls, and what holds after any of them
--   Tests         runs of the code on concrete tables
--
-- The warehouse gives create_movement to the acceptance of a purchase; the purchases protect their
-- receipts, which check_original reads; both read the users and their roles. The administration
-- reads the custody projection and the purchases before it takes a role or an access away. The bot's
-- decision calls the decision of the administration.
--
-- Parameters, for code outside the repository: the SHA-256 digests of payloads, of notification
-- keys and of session tokens, the NFKC form and the case folding of a text, and the text of a UUID.
-- The validation of a proposed item, which app/modules/catalog does, is a parameter as well. What uuid4 and the clock give is part of the arguments of a call.
--
-- Every recursion is structural, so there is no fuel. An upper bound is part of the code itself:
-- quantities are at most 2 ^ 53 - 1.
--
-- Where the order of two tests decides only which error is raised, the model may differ from the
-- code: the database's tests on the header of a movement come after the tests on its lines.
--
-- Not modelled: create_and_bind_line; the check of a Telegram signature and of the origin of a
-- request; the loop of the notification worker, the requeueing of dead rows, the rest of the bot (the
-- registration of updates, the reading of their JSON, the messages on a /start), the retention of
-- other tables than the sessions and the email of purchases; lists and pages, which only read;
-- request numbers, display names, and the texts of notifications, kept as the parts that they are put
-- together from.
pub mod Prelude
pub mod Identity
pub mod Core
pub mod Warehouse
pub mod Procurement
pub mod Notifications
pub mod TelegramBot
pub mod Maintenance
pub mod Database
pub mod System
pub mod Tests
