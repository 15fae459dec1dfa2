-- ===== src/Tools.antt =====
-- app/tools: the hub that calls the tools, the security policy, and the tools for the database and the web.
pub mod Values
pub mod Hub
pub mod Raising
pub mod Acting
pub mod Security
pub mod Web
pub mod Files
pub mod Policy
pub mod Office
pub mod Database
