-- ===== src/Postgres.antt =====
-- src/postgres/: the files that configure PostgreSQL.
pub mod Conf
pub mod Hba
pub mod InitSql
