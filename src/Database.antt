-- ===== src/Database.antt =====
-- The tables of the database that one transaction reads and writes, by domain.
use dc_inventory.Prelude.{List}
use dc_inventory.Identity.Tables.{IdentityTables}
use dc_inventory.Warehouse.Tables.{WarehouseTables}
use dc_inventory.Procurement.Tables.{ProcurementRequest}
use dc_inventory.Notifications.Outbox.{NotificationOutbox}

pub record Database : Type 0 where
  pub identity : IdentityTables
  pub warehouse : WarehouseTables
  pub requests : List ProcurementRequest
  pub outbox : List NotificationOutbox
