-- ===== src/DbPrint.antt =====
-- bin/print.rs: printing blocks, states and accounts of a node's database.
pub mod Db
pub mod Args
pub mod Accounts
pub mod Main
