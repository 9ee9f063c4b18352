-- ===== src/Lib.antt =====
-- Verification of the node tools in bin/: the control console of a node (bin/console.rs), the search
-- for the address of an ADNL id (bin/adnl_resolve.rs), the list of a network's nodes (bin/dhtscan.rs),
-- a ping (bin/adnl_ping.rs), the description of a DHT node (bin/gendht.rs), key pairs and key ids
-- (bin/keygen.rs, bin/keyid.rs), the printer of a node's database (bin/print.rs), and the maker of a
-- zero state (bin/zerostate.rs). Every program stands alone; they share no code but the libraries.
--
-- The console reads commands, makes a request to the control server of each, sends it, and prints
-- what it reads from the answer. `process_election_bid` makes a conversation of eight commands and
-- writes a message to the elector; `process_recover_stake` writes another message.
-- adnl_resolve asks the nodes of a DHT for more nodes, one after another, until the address is found.
-- dhtscan collects the nodes of an overlay in rounds, or lists the DHT nodes that answer a ping.
-- zerostate writes an empty state for every workchain, puts its hashes into the masterchain's
-- configuration, and writes the masterchain's state and config.json.
--
-- How a program stands here. A fallible call gives an `Outcome`: a value, an error with its text, or
-- a panic (Outcome.antt). A call with effects is a function of the history of what was done outside,
-- newest first, and gives an outcome and the longer history (Io.antt). The outside answers by
-- functions of that whole history, so that it may change at any time: `World` in
-- Console/Outside.antt for clock, files and node, `World` in AdnlResolve/Dht.antt for the network.
--
-- The files.
--   Prelude: tests, lists and integers over the native numbers. Rust: the standard library's texts,
--   words, parsing and printing of integers, and UTF-8, as far as the tools use them.
--   Console/Outside: the operations of the libraries that the console calls, as parameters: hex,
--   base64, TL serialization, downcasts, cells, accounts, Ed25519, f32, JSON. `IsLawful` says what is
--   assumed of them, and only where a theorem names it.
--   Console/Params: parse_any, parse_data, parse_int256, parse_int, parse_blockid.
--   Console/Command: the table that the macro commands! is given, and its generated matches.
--   Console/Send: now, command_send, and in Requests `send` of every command.
--   Console/Receive and Console/Client: `receive` of every command, command_receive, and
--   ControlClient::process_command.
--   Console/Bid, Console/Message, Console/Election: process_election_bid, cut into its checks
--   (check_bid), the keys (make_keys), the signature (sign_bid) and the message (write_bid), and
--   process_recover_stake.
--   Console/States, Console/ConfigParam: process_config_param. Console/Main: ControlClient::command,
--   and the batch and the interactive mode of main.
--   AdnlResolve/Dht: what is called of the DHT node. AdnlResolve/Open: how it is started.
--   AdnlResolve/KeyId, Search and Scan: the rest of scan, and main.
--   KeyId: the whole of bin/keyid.rs, in the build without the feature export_key.
--   Console/Startup: main of the console, and connect. Clap: a command line as a table of options, and
--   what clap gives for it; Console/Startup/Args, DbPrint/Args and Zerostate/Args are the tables.
--   Json: the values of the macro json!,
--   and in Leaves their texts and numbers by place. DhtNode: the description of a DHT node, which dhtscan and
--   gendht have in common.
--   DhtScan: Net is what dhtscan calls and prints; Args its arguments; Open the start of its nodes;
--   Overlay is scan_overlay; Listing the list at the end of scan; Scan the rest of scan, and main.
--   DbPrint: Db is what print calls, print_block, print_state, print_db_block, print_db_state,
--   print_shards and get_block_id; Accounts the list of accounts in main; Main the rest of main.
--   Zerostate: Api is what zerostate calls; Import is import_zerostate; Write is write_zero_state and
--   main. AdnlPing, Gendht, Keygen: these programs, whole.
--   The other files below these hold proofs. Tests: a hex codec, a control server and a network in
--   which the theorems are applied.
--
-- Choices. `init_log` of the submodule common leaves no event in adnl_resolve and dhtscan, where no
-- theorem is about its panic; in adnl_ping it is a parameter that may panic. Reading the standard
-- input does not fail. A `Duration` is its number of nanoseconds. `-` on `usize` wraps, as in a
-- release build; a debug build would panic there. `ton::int` is an i32; it is an integer here, with
-- its range stated, and its subtraction wraps as in a release build. The n-th call of
-- `params.next()` is the n-th parameter of a list. The error texts of String::from_utf8 and of a
-- wrong downcast are shorter than the program's, and a panic has the message of its expect without
-- the error. Three loops have no bound of their own: `search` in adnl_resolve, `rounds` in dhtscan
-- and `interactive` in the console take the number of rounds as an argument, and say so when they
-- have not ended. For `search` among silent nodes any number above that of the nodes is enough, for
-- `interactive` that of the lines up to quit, and for `rounds` any above that of the positions
-- through which the network's search goes. A program whose only effects are lines of text has
-- these, or its one line, for its history. Printing an integer runs on fuel that its definition
-- computes from the number: one more than it, where every step divides by ten or sixteen.
--
-- Not modelled: log::trace! and telemetry; what clap makes of the table of options, whose values are
-- given; the shell-like splitting of commands, which is a parameter; the start of the log and the
-- ends of connections; in zerostate the list of the workchains' states, which nothing reads; the submodule
-- common; documents and build files.
pub mod Prelude
pub mod Outcome
pub mod Io
pub mod Rust
pub mod Console
pub mod AdnlResolve
pub mod KeyId
pub mod AdnlPing
pub mod Clap
pub mod DbPrint
pub mod DhtNode
pub mod DhtScan
pub mod Gendht
pub mod Json
pub mod Keygen
pub mod Zerostate
pub mod Tests
