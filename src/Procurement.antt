-- ===== src/Procurement.antt =====
-- backend/app/modules/procurement: the purchase requests and their workflow.
pub mod Tables
pub mod StateMachine
pub mod Errors
pub mod Payload
pub mod Guards
pub mod Lines
pub mod Totals
pub mod Notify
pub mod Workflow
pub mod Acceptance
pub mod Submission
pub mod Progress
pub mod Received
pub mod Operation
pub mod Sound
pub mod Rows
pub mod Calls
pub mod Concurrency
pub mod Actions
