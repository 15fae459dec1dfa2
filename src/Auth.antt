-- ===== src/Auth.antt =====
-- app/auth and app/storage/repositories/auth_repo.py: users, passwords and tokens.
pub mod Repository
pub mod Database
pub mod UserRows
pub mod UserWrites
pub mod TokenRows
pub mod Calls
pub mod Modes
pub mod Password
pub mod Service
mod Tests
