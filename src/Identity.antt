-- ===== src/Identity.antt =====
-- modules/identity: accounts, sessions and two-factor login.
pub mod Errors
pub mod Validation
pub mod Mail
pub mod Store
pub mod Sessions
pub mod TwoFactor
pub mod Users
pub mod Outbox
pub mod Writer
pub mod Emails
pub mod Roles
pub mod Auth
pub mod Access
pub mod RoleAdmin
pub mod Managed
pub mod UserAdmin
pub mod OAuth
pub mod Upkeep
pub mod Frame
pub mod Deletion
pub mod Admin
pub mod Requests
mod Examples
