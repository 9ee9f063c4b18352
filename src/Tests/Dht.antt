-- ===== src/Tests/Dht.antt =====
-- A network in which one of three nodes does not respond, and the searches in it.
use ever_node_tools.Prelude.{
  ℕ, ◌≤◌, ◌==◌, String, str_eq, ◌≡◌, refl, Bool, not, Option, none, some, List, [], ◌∷◌, inr,
  length, ltb, if◌then◌else◌, arith,
}
use mathlib.Core.Path.{subst}
use mathlib.Core.List.{map}
use ever_node_tools.Outcome.{Outcome, ok}
use ever_node_tools.Io.{Ensures}
use ever_node_tools.Rust.Word.{Bytes}
use ever_node_tools.Rust.Print.{print_ℕ}
use ever_node_tools.AdnlResolve.Dht.{Api, World, Event, IsLawful, Result, start}
use ever_node_tools.AdnlResolve.Search.{contains}
use ever_node_tools.AdnlResolve.Search.Keys.{Unique}
use ever_node_tools.AdnlResolve.Search.Sound.{NeverRepeats, IsHonest}
use ever_node_tools.AdnlResolve.Open.{Setup, read_global, make_dht, start_dht}
use ever_node_tools.AdnlResolve.Scan.{join, scan}
use ever_node_tools.AdnlResolve.Scan.Whole.{scan-NeverRepeats}
use ever_node_tools.Tests.Node.{repeat}

abbrev pub network : Api
network = record {
  Node = ℕ;
  Key = ℕ;
  Found = ℕ;
  same = ◌==◌;
  key_text = print_ℕ;
  found_text = print_ℕ;
  debug_node = print_ℕ;
  id_text = λ bytes. "id";
}

abbrev answers : ℕ → Bool
answers key = not (key == 2)

abbrev pub searched : Bytes → List (Event network) → Option ℕ
searched id h = if ltb (length h) 20 then none else some 4191

abbrev pub base64 : String → Result Bytes
base64 text = inr (if str_eq text "AA==" then 0 ∷ [] else repeat 32 7)

abbrev pub net : World network
net = record {
  started = λ h. inr tt;
  address = λ h id. searched id h;
  base64_decode = base64;
  known = λ h. inr (1 ∷ 2 ∷ 3 ∷ []);
  added = λ h node. inr (some node);
  responds = λ h key. inr (answers key);
}

pub network-IsLawful : IsLawful network
network-IsLawful = record { same_iff = λ a b. (λ h. ground arith, λ h. ground arith) }

pub known-Unique :
    (nodes : List ℕ)
    → ◌≡◌ {A = Result (List ℕ)} (inr (1 ∷ 2 ∷ 3 ∷ [])) (inr nodes)
    → Unique network network-IsLawful (map (λ n. n) nodes)
unfolding contains
known-Unique nodes e =
    let same : 1 ∷ 2 ∷ 3 ∷ [] ≡ nodes = cc in
    subst (λ l. Unique network network-IsLawful (map (λ n. n) l)) same (refl, (refl, (refl, tt)))

abbrev pub setup : Setup network
setup = record {
  File = String;
  open_file = inr;
  Global = List ℕ;
  from_reader = λ file. inr (1 ∷ 2 ∷ []);
  get_dht_nodes_configs = inr;
  NodeConfig = String;
  with_ip_address_and_private_key_tags = λ ip tags. inr ip;
  Adnl = String;
  with_config = inr;
  Dht = String;
  with_adnl_node = λ adnl tag. inr adnl;
}

started-Unique :
    (config nodes : List ℕ)
    → read_global network net setup "config.json" ≡ ok config
    → ◌≡◌ {A = Result (List ℕ)} (inr config) (inr nodes)
    → Unique network network-IsLawful (map (λ n. n) nodes)
unfolding contains read_global
started-Unique config nodes read e =
    let same : 1 ∷ 2 ∷ [] ≡ nodes = cc in
    subst (λ l. Unique network network-IsLawful (map (λ n. n) l)) same (refl, (refl, tt))

abbrev pub net-IsHonest : IsHonest network net
net-IsHonest = record {
  laws = network-IsLawful;
  key_of = λ n. n;
  added_own = λ h node key e. cc;
  known_once = λ h. known-Unique;
}

pub long : (bytes : Bytes) → base64 "AQ" ≡ inr bytes → 32 ≤ length bytes
long bytes e = let same : repeat 32 7 ≡ bytes = cc in subst (λ b. 32 ≤ length b) same (omega arith)

abbrev run : Outcome (Option ℕ) × List (Event network)
run = scan network net setup 9 "AQ" "config.json" []

scan-NeverRepeats_example :
    Ensures (λ address. NeverRepeats network) (NeverRepeats network) run.0 run.1
scan-NeverRepeats_example =
    scan-NeverRepeats network net net-IsHonest setup 9 "AQ" "config.json" long started-Unique

begun : start_dht network net setup "config.json" [] ≡ (ok (1 ∷ 2 ∷ []), start ∷ [])
unfolding start_dht read_global make_dht
begun = refl

joined : (join network net [] (1 ∷ 2 ∷ []) (start ∷ [])).0 ≡ ok (1 ∷ 2 ∷ [])
unfolding join
joined = refl
