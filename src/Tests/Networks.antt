-- ===== src/Tests/Networks.antt =====
-- A small network, which answers to every query, and a key generator.
use ever_node_tools.Prelude.{
  ℕ, String, str_eq, ◌==◌, true, false, ◌≡◌, refl, inr, none, some, List, [], ◌∷◌, if◌then◌else◌,
}
use ever_node_tools.Prelude.Int.{ℤ, pos}
use ever_node_tools.Outcome.{ok, err, panic}
use ever_node_tools.Rust.Word.{Bytes}
use ever_node_tools.Io.{Ensures}
use ever_node_tools.Json.{Json, obj, str, field, end}
use ever_node_tools.DhtNode.{NodeApi}
use ever_node_tools.DhtScan.Args.{no_options, read_args}
use ever_node_tools.DhtScan.Args.Laws.{read_args_lem}
use ever_node_tools.DhtScan.Net
use ever_node_tools.DhtScan.Overlay.{scan_overlay}
use ever_node_tools.DhtScan.Overlay.Counts.{Counted, scan_overlay-Counted}
use ever_node_tools.DhtScan.Listing.{list_dht}
use ever_node_tools.DhtScan.Listing.Live.{Listed, ListsAlive, list_dht-Listed}
use ever_node_tools.AdnlPing
use ever_node_tools.AdnlPing.Laws.{Concludes, ping_main_ends}
use ever_node_tools.Prelude.{◌↔◌}
use ever_node_tools.AdnlPing.Ends.{Pings, ping_iff}
use ever_node_tools.Keygen
use ever_node_tools.Keygen.{gen_value, text_at, SameBytes, gen_value-SameBytes}
use ever_node_tools.DhtScan.Open.{Setup}
use ever_node_tools.DhtScan.Scan
use ever_node_tools.Prelude.{arith}
use ever_node_tools.DhtScan.Overlay.Ends.{Advances, Over}
use ever_node_tools.DhtScan.Scan.Ends.{scan-Over}
use ever_node_tools.Tests.Node.{repeat}

read_args_lem_example :
    read_args no_options ("--jsonl" ∷ "old.json" ∷ "--overlay" ∷ "global.json" ∷ [])
    ≡ record { config = some "global.json"; jsonl = true; overlay = true; workchain0 = false }
read_args_lem_example =
    read_args_lem no_options ("--jsonl" ∷ "old.json" ∷ "--overlay" ∷ "global.json" ∷ [])

-- nodes are numbers, and are their own keys
abbrev pub dht_nodes : NodeApi
dht_nodes = record {
  Node = ℕ;
  Key = ℕ;
  Address = ℕ;
  key_of = inr;
  pub_key = λ key. inr (key ∷ []);
  parse_address_list = λ node. inr (some node);
  debug_addr_list = λ node. "addresses";
  ip = pos;
  port = λ address. pos 30310;
  version = λ node. pos 1;
  reinit_date = λ node. pos 1;
  priority = λ node. pos 0;
  expire_at = λ node. pos 0;
  node_version = λ node. pos 1;
  signature = λ node. [];
  base64_encode = λ bytes. "AA==";
}

abbrev dht_api : Net.Api
dht_api = record {
  nodes = dht_nodes;
  same_node = ◌==◌;
  KeyId = ℕ;
  key_id = λ key. key;
  same = ◌==◌;
  OverlayId = ℤ;
  overlay_text = λ id. "overlay";
  Ip = ℕ;
  ip_text = λ ip. "ip";
  debug_node = λ node. "node";
  Iter = ℕ;
  Peer = ℕ;
  to_string = λ json. inr "{}";
  to_string_pretty = λ json. inr "{}";
}

-- The first round gives two nodes, the second one of them again. Odd nodes answer a ping.
abbrev dht_world : Net.World dht_api
dht_world = record {
  started = λ h. inr tt;
  added = λ h node. inr (some node);
  searched = λ h peer. inr true;
  overlay_id = λ workchain. inr workchain;
  overlay_nodes = λ h id iter. elim iter [
    | none ↦ (inr ((10, 1) ∷ (11, 2) ∷ []), some 1)
    | some position ↦ (inr ((12, 2) ∷ []), none)
  ];
  known = λ h. inr (1 ∷ 2 ∷ 3 ∷ []);
  pinged = λ h id. inr (id == 3);
  entries = λ m. m;
}

scan_overlay-Counted_example :
    Ensures
      (Counted dht_api dht_world [])
      (λ g. Unit)
      (scan_overlay dht_api dht_world 2 1 true (pos 0) []).0
      (scan_overlay dht_api dht_world 2 1 true (pos 0) []).1
scan_overlay-Counted_example = scan_overlay-Counted dht_api dht_world (λ m. refl) 2 1 (pos 0) []

list_dht-Listed_example :
    Ensures
      (λ done. Listed dht_api dht_world true (1 ∷ []) [])
      (ListsAlive dht_api (1 ∷ []))
      (list_dht dht_api dht_world true (1 ∷ []) []).0
      (list_dht dht_api dht_world true (1 ∷ []) []).1
list_dht-Listed_example = list_dht-Listed dht_api dht_world true (1 ∷ []) [] tt

abbrev dht_setup : Setup dht_api
dht_setup = record {
  File = String;
  open_file = inr;
  Global = String;
  from_reader = inr;
  zero_state_file_hash = λ config. inr (repeat 32 1);
  get_dht_nodes_configs = λ config. inr (1 ∷ []);
  new_runtime = inr tt;
  NodeConfig = ℕ;
  with_ip_address_and_private_key_tags = λ ip tags. inr 1;
  Adnl = ℕ;
  with_config = inr;
  Dht = ℕ;
  with_adnl_node = λ adnl tag. inr adnl;
  Overlay = ℕ;
  with_adnl_node_and_zero_state = λ adnl zero_state tag. inr adnl;
}

-- A search of the example network has two positions at most.
dht_advances : Advances dht_api dht_world (λ position. position) 2
dht_advances h id none next e = let second : 1 ≡ next = cc in omega (arith, second)
dht_advances h id (some position) next e = cc

scan-Over_example :
    Ensures
      (Over dht_api dht_world (λ position. position) 2)
      (λ g. Unit)
      (Scan.scan dht_api dht_world dht_setup 3 "global.json" true true true []).0
      (Scan.scan dht_api dht_world dht_setup 3 "global.json" true true true []).1
scan-Over_example =
    scan-Over dht_api dht_world dht_setup (λ position. position) 2 dht_advances 3 (omega arith)
      "global.json" true true true []

abbrev ping_api : AdnlPing.Api
ping_api = record {
  File = String;
  open_file = inr;
  Global = String;
  read_global = inr;
  zero_state_file_hash = λ config. inr (repeat 32 1);
  Local = String;
  read_local = inr;
  NodeConfig = ℕ;
  from_json_config = λ json. inr 0;
  with_ip_address_and_private_key_tags = λ ip tags. inr 1;
  IpAddress = String;
  from_versioned_string = inr;
  Adnl = ℕ;
  Overlay = ℕ;
  with_adnl_node_and_zero_state = λ adnl zero_state tag. inr adnl;
  OverlayId = ℕ;
  calc_overlay_short_id = λ overlay workchain shard. inr 9;
  overlay_id_text = λ id. "overlay";
  Key = Bytes;
  key_by_tag = λ adnl tag. inr (repeat 32 3);
  base64_decode = λ text. inr (repeat 32 2);
  from_public_key = λ bytes. bytes;
  KeyId = Bytes;
  key_id = λ key. key;
  key_id_text = λ id. "id";
  Peers = ℕ;
  debug_peers = λ peers. "peers";
  Capabilities = ℕ;
  debug_capabilities = λ capabilities. "capabilities";
}

abbrev ping_world : AdnlPing.World ping_api
ping_world = record {
  log_started = λ h path. some tt;
  runtime = λ h. inr tt;
  node = λ h config. inr config;
  started = λ h. inr tt;
  overlay_added = λ h id. inr true;
  peer_added = λ h id ip key. inr (some key);
  random_peers = λ h id overlay. inr (some 4);
  capabilities = λ h id overlay. inr none;
}

ping_main_ends_example :
    Concludes ping_api ping_world []
      (AdnlPing.main ping_api ping_world ("adnl_ping" ∷ "key" ∷ "ip" ∷ "global.json" ∷ []) [])
ping_main_ends_example =
    ping_main_ends ping_api ping_world ("adnl_ping" ∷ "key" ∷ "ip" ∷ "global.json" ∷ []) []

abbrev pinged : List (AdnlPing.Event ping_api)
pinged = (AdnlPing.ping ping_api ping_world "key" "ip" "global.json" none []).1

ping_ran : AdnlPing.ping ping_api ping_world "key" "ip" "global.json" none [] ≡ (ok tt, pinged)
unfolding AdnlPing.ping AdnlPing.ping_from AdnlPing.ask AdnlPing.to_key AdnlPing.local_config
    AdnlPing.read_config
ping_ran = refl

ping_iff_example :
    (AdnlPing.ping ping_api ping_world "key" "ip" "global.json" none [] ≡ (ok tt, pinged))
    ↔ Pings ping_api ping_world "ip" "key" "global.json" none [] pinged
ping_iff_example = ping_iff ping_api ping_world "ip" "key" "global.json" none [] pinged

-- The conditions are met in the example.
ping_done : Pings ping_api ping_world "ip" "key" "global.json" none [] pinged
ping_done = ping_iff_example.0 ping_ran

abbrev key_pair : Keygen.Api
key_pair = record {
  Private = ℕ;
  Public = ℕ;
  generate_with_json = inr (1, 2);
  to_value = λ private. inr (obj (field "pvt_key" (str "private") end));
  key_type = pos 1209251014;
  pub_key = λ public. inr (repeat 32 2);
  id = λ public. repeat 32 3;
  base64_encode = λ bytes. "public";
  base64_decode = λ text. if str_eq text "public" then inr (repeat 32 2) else inr (repeat 32 1);
  hex_encode = λ bytes. "hex";
  pretty = λ json. "{}";
}

abbrev key_value : Json
key_value = elim (gen_value key_pair) [ ok value ↦ value | err e ↦ str e | panic e ↦ str e ]

key_value_made : gen_value key_pair ≡ ok key_value
unfolding gen_value
key_value_made = refl

gen_value-SameBytes_example :
    SameBytes key_pair
      (text_at key_pair key_value "private" "pvt_key")
      (text_at key_pair key_value "hex" "secret")
    × SameBytes key_pair
        (text_at key_pair key_value "public" "pub_key")
        (text_at key_pair key_value "hex" "public")
gen_value-SameBytes_example =
    gen_value-SameBytes key_pair (λ public bytes e. e) key_value key_value_made
