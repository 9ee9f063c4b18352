-- ===== src/Console.antt =====
-- bin/console.rs: the console client of a node's control server.
pub mod Outside
pub mod Params
pub mod Command
pub mod Send
pub mod Receive
pub mod Client
pub mod Bid
pub mod Message
pub mod Election
pub mod States
pub mod ConfigParam
pub mod Main
pub mod Startup
