-- ===== src/Zerostate.antt =====
-- bin/zerostate.rs: the zero state of a network, from its JSON description to the files of a node.
pub mod Api
pub mod Import
pub mod Write
pub mod Args
pub mod Files
pub mod Hashes
pub mod Written
pub mod Ends
