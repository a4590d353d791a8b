-- ===== src/Warehouse.antt =====
-- backend/app/modules/inventory: locations, the movement journal and its two projections.
pub mod Tables
pub mod Journal
pub mod Projection
pub mod Errors
pub mod Movement
pub mod Consistent
pub mod Effect
pub mod Stocked
pub mod Location
