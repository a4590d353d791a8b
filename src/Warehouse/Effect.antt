-- ===== src/Warehouse/Effect.antt =====
-- What the movement operations of inventory/service.py do to the balances and to the journal.
pub mod Create
pub mod Stock
pub mod Replay
pub mod Reversal
pub mod Frame
pub mod Holders
