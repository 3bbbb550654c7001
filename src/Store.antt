-- ===== src/Store.antt =====
-- The database of app/stores: tables, JSON values and rows.
pub mod Table
pub mod Loops
pub mod Values
pub mod Rows
