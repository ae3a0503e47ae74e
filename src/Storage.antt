-- ===== src/Storage.antt =====
-- modules/storage/outbox_store.c: the measurements and the outbox in an SQLite database.
pub mod Result
pub mod Tables
pub mod Schema
pub mod Outbox
