-- ===== src/Storage.antt =====
-- app/storage: a table of the database as the repositories reach it through SQLAlchemy's sessions,
-- what lists of rows and dicts have in common, and the schema that the migration creates.
pub mod Rows
pub mod Keyed
pub mod Table
pub mod Schema
pub mod Lists
