-- ===== src/Tests.antt =====
-- Examples: a small world for each tool, and the theorems at work in it.
mod Hex
mod Node
mod Bids
mod Commands
mod Dht
mod Silent
mod Modes
mod Keys
mod Zero
mod Accounts
mod Networks
mod Described
mod Start
