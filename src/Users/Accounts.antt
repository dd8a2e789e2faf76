-- ===== src/Users/Accounts.antt =====
-- modules/users/service.py and modules/users/db_helpers.py: the accounts of users and what they are
-- assigned to. An exception rolls the session back, so a call that raises gives no tables.
pub mod Lookups
pub mod Contexts
pub mod Keycloak
pub mod Service
pub mod Selections
pub mod Isolation
pub mod Created
pub mod Returned
pub mod Keys
pub mod Updated
pub mod Resellers
pub mod Runs
pub mod Assigned
pub mod Associations
pub mod Listing
mod Tests
pub mod Updates
