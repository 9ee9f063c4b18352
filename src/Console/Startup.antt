-- ===== src/Console/Startup.antt =====
-- `main` of bin/console.rs from its command line on: the banner, the configuration and the timeout,
-- and `ControlClient::connect`. Connecting and the end of the connection leave no event.
pub mod Args
pub mod Laws
pub mod Timeout
use ever_node_tools.Prelude.{
  ℕ, ◌-◌, ◌*◌, ◌^◌, String, ◌<>◌, Bool, true, false, Option, none, some, List, [], ◌∷◌,
  if◌then◌else◌,
}
use ever_node_tools.Outcome.{Outcome, ok, err, panic, ok_or, expect, expect_some}
use ever_node_tools.Outcome
use ever_node_tools.Io.{Io, pure, lift, perform, ◌>>=◌, ◌>>◌}
use ever_node_tools.Rust.Word.{Bytes}
use ever_node_tools.Rust.Parse.{parse_unsigned}
use ever_node_tools.Console.Outside.{Api, World, Event, print, read_file}
use ever_node_tools.Console.Bid.{Config}
use ever_node_tools.Console.Main.{Splitter, batch, interactive}
use ever_node_tools.Console.States.{States}
use ever_node_tools.Clap.{Matches}
use ever_node_tools.Console.Startup.Args.{Options, options_of}

-- The section of the configuration for the connection, and what reads the configuration. The answer
-- to a connection may depend on what was done before.
pub record Connection (F32 : Type 0) : Type 1 where
  pub banner : String
  pub init_logging : Outcome (Unit {0})
  pub utf8 : Bytes → Outcome String
  pub ClientConfigJson : Type 0
  pub from_str : String → Outcome (Option ClientConfigJson × Config F32)
  pub ClientConfig : Type 0
  pub from_json_config : ClientConfigJson → Outcome ClientConfig
  pub connected : List Event → ClientConfig → Outcome (Unit {0})

-- A `Duration` is its number of nanoseconds; this is `Duration::from_micros`.
abbrev pub from_micros : ℕ → ℕ
from_micros n = n * 1000

module _ (api : Api) (world : World api.Answer) (connection : Connection api.F32) where
  abbrev pub show_banner : Bool → Io Event (Unit {0})
  show_banner json = if json then pure tt else perform (print connection.banner) (λ h. ok tt)

  abbrev pub set_logging : Bool → Outcome (Unit {0})
  set_logging true = expect "called `Result::unwrap()` on an `Err` value" connection.init_logging
  set_logging false = ok tt

  -- `std::fs::read_to_string`
  abbrev pub read_to_string : String → Io Event String
  read_to_string path h =
      (Outcome.◌>>=◌ (world.contents h path) connection.utf8, read_file path ∷ h)

  -- the parsing of the timeout, and the length of time that it stands for
  unfoldable pub read_timeout : Option String → Outcome ℕ
  read_timeout none = ok (from_micros 0)
  read_timeout (some text) =
      Outcome.◌>>=◌
        (expect "timeout must be set in microseconds" (parse_unsigned (2 ^ 64 - 1) text))
        λ timeout. ok (from_micros timeout)

  -- `connect`, which takes the section out of the configuration
  unfoldable pub connect :
      Option connection.ClientConfigJson × Config api.F32 → Io Event (Config api.F32)
  connect (section, config) = do
    client_config ← lift (ok_or "config must contain \"config\" section" section)
    adnl_config ← lift (connection.from_json_config client_config)
    (λ h. (connection.connected h adnl_config, h))
    pure config

  abbrev pub io_expect : {A : Type 0} → String → Io Event A → Io Event A
  io_expect text m h = let (r, g) = m h in (expect text r, g)

  -- the configuration of the client, and the timeout
  unfoldable pub read_config : Option String → Option String → Io Event (Config api.F32 × ℕ)
  unfolding read_timeout connect
  read_config config given = do
    path ← lift (expect_some "required set for config" config)
    text ← io_expect "Can't read config file" (read_to_string path)
    pair ← lift (expect "Can't parse config" (connection.from_str text))
    timeout ← lift (read_timeout given)
    client ← io_expect "Can't create client" (connect pair)
    pure (client, timeout)

  -- everything before the commands
  unfoldable pub prepare : Options → Io Event (Config api.F32 × ℕ)
  unfolding read_config
  prepare options = do
    show_banner options.json
    lift (set_logging options.verbose)
    read_config options.config options.timeout

module _ (api : Api) (world : World api.Answer) (connection : Connection api.F32)
    (states : States api.Cell) (split : Splitter) where
  abbrev run_batch : Config api.F32 → ℕ → List String → Io Event Bool
  run_batch client timeout commands = do
    batch api world states client split timeout commands
    pure true

  -- The mode, with the rounds that the model gives to the interactive one.
  abbrev pub run_mode : ℕ → List String → Option (List String) → Config api.F32 → ℕ → Io Event Bool
  run_mode rounds lines (some commands) client timeout = run_batch client timeout commands
  run_mode rounds lines none client timeout = interactive api world states client split rounds lines

  -- `main` behind the command line, with the options that it was given. The lines are those of the standard input; `false` says that the loop has not ended.
  unfoldable pub main_with : ℕ → List String → Options → Io Event Bool
  unfolding prepare
  main_with rounds lines options = do
    (client, timeout) ← prepare api world connection options
    run_mode rounds lines options.commands client timeout

  unfoldable pub main : ℕ → List String → Matches → Io Event Bool
  unfolding main_with
  main rounds lines args = main_with rounds lines (options_of args)
