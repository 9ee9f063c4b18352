-- ===== src/Tests/Start.antt =====
-- The console from its command line on.
use ever_node_tools.Prelude.{
  if◌then◌else◌, str_eq, ℕ, ◌-◌, ◌*◌, ◌^◌, ◌≤◌, String, ◌≡◌, ◌↔◌, refl, none, some, [], ◌∷◌,
}
use ever_node_tools.Outcome.{ok}
use ever_node_tools.Rust.Print.{print_ℕ}
use ever_node_tools.Console.Outside.{World}
use ever_node_tools.Console.Startup.{Connection, read_timeout}
use ever_node_tools.Clap.{Matches}
use ever_node_tools.Console.Startup.Timeout.{read_timeout_iff}
use ever_node_tools.Rust.Decimal.{Counts}
use ever_node_tools.Rust.Parse.{parse_unsigned}
use ever_node_tools.Tests.Node.{Answer, node, answer}
use ever_node_tools.Tests.Modes.{config}

abbrev disk : World Answer
disk = record {
  unix_time = λ h. some 1608205000;
  contents = λ h path. ok [];
  store = λ h path bytes. ok tt;
  answer = answer;
}

abbrev server : Connection ℕ
server = record {
  banner = "tonlabs console";
  init_logging = ok tt;
  utf8 = λ bytes. ok "{}";
  ClientConfigJson = String;
  from_str = λ text. ok (some text, config);
  ClientConfig = String;
  from_json_config = ok;
  connected = λ h client. ok tt;
}

-- clap's answer to `-c getstats getstats -t 1500000 --verbose`
abbrev args : Matches
args = record {
  value_of = λ name.
      if str_eq name "CONFIG"
      then some "console.json"
      else if str_eq name "TIMEOUT"
      then some (print_ℕ 1500000)
      else none;
  values_of = λ name. if str_eq name "COMMANDS" then some ("getstats" ∷ "getstats" ∷ []) else none;
  is_present = λ name. str_eq name "VERBOSE";
}

-- The timeout is a second and a half.
read_timeout_iff_example :
    (read_timeout node disk server (some "+1500000") ≡ ok 1500000000)
    ↔ ((n : ℕ) × Counts "+1500000" n × (n ≤ 2 ^ 64 - 1) × (1500000000 ≡ n * 1000))
read_timeout_iff_example = read_timeout_iff node disk server "+1500000" 1500000000

second_and_half : read_timeout node disk server (some "+1500000") ≡ ok 1500000000
unfolding read_timeout parse_unsigned
second_and_half = refl
