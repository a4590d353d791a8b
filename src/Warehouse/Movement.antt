-- ===== src/Warehouse/Movement.antt =====
-- The movement operations of backend/app/modules/inventory/service.py.
pub mod Payload
pub mod Guards
pub mod Lines
pub mod Insert
pub mod Create
