-- ===== src/Identity.antt =====
-- backend/app/modules/identity, access and auth: users, roles, capabilities, the access lifecycle,
-- its administration, and logins.
pub mod Policy
pub mod Tables
pub mod Lifecycle
pub mod Admin
pub mod Reset
pub mod Administration
pub mod Access
pub mod Login
pub mod Sessions
pub mod Authentication
pub mod Audit
