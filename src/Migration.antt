-- ===== src/Migration.antt =====
-- Migrations made from the difference of two schemas: src/database/migration/create.
pub mod SchemaModel
pub mod Comparator
pub mod Ddl
