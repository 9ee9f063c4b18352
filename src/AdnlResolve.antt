-- ===== src/AdnlResolve.antt =====
-- bin/adnl_resolve.rs: looking up the address of an ADNL id in the DHT.
pub mod Dht
pub mod Open
pub mod Search
pub mod KeyId
pub mod Scan
