-- ===== src/Storage.antt =====
-- internal/storage: the records, the ORM as a parameter, and the queries over it.
pub mod Models
pub mod Gorm
pub mod Db
pub mod Laws
pub mod Memory
pub mod Deletion
mod Examples
