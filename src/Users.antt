-- ===== src/Users.antt =====
-- modules/users: the roles of the application, and the links of users.
pub mod Model
pub mod Roles
pub mod Links
pub mod Accounts
pub mod Samples
mod Tests
