-- ===== src/Mysql.antt =====
-- internal/database/mysql/mysql.go: the MySQL store, but for the driver itself.
pub mod Guard
pub mod Statement
pub mod Rows
pub mod Settings
pub mod Catalog
pub mod Store
