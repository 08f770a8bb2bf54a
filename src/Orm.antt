-- ===== src/Orm.antt =====
-- The database services under src/ORM: a table is the list of its rows, and what a service asks of
-- TypeORM or writes in SQL is read as a function on that list. Times are in milliseconds.
pub mod Blocks
pub mod ClientStatistics
pub mod AddressSettings
pub mod Clients
