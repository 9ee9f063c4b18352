-- ===== src/DhtScan.antt =====
-- bin/dhtscan.rs: listing the nodes of the DHT or of an overlay.
pub mod Net
pub mod Args
pub mod Overlay
pub mod Listing
pub mod Open
pub mod Calm
pub mod Scan
