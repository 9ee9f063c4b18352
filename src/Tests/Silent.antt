-- ===== src/Tests/Silent.antt =====
-- A network in which no node responds, and one in which the address is found late.
use ever_node_tools.Prelude.{
  ℕ, ◌≤◌, ltb, length, if◌then◌else◌, ◌≡◌, ◌≢◌, refl, false, true, none, some, List, [], ◌∷◌, inr,
  All, arith,
}
use mathlib.Core.Path.{subst}
use ever_node_tools.Outcome.{ok, Result}
use ever_node_tools.AdnlResolve.Dht.{World, Event}
use ever_node_tools.AdnlResolve.Search.{contains, search}
use ever_node_tools.AdnlResolve.Search.Sound.{IsHonest}
use ever_node_tools.AdnlResolve.Search.Keys.{Unique}
use ever_node_tools.AdnlResolve.Search.Silent.{IsSilent}
use ever_node_tools.Io.{Ensures}
use ever_node_tools.AdnlResolve.Scan.Finds.{scan_finds}
use ever_node_tools.AdnlResolve.KeyId.{key_id}
use ever_node_tools.Rust.Word.{Bytes}
use ever_node_tools.AdnlResolve.Search.Pass.{asked, Passed, search_pass}
use ever_node_tools.AdnlResolve.Open.{read_global}
use ever_node_tools.AdnlResolve.Scan.{scan}
use ever_node_tools.AdnlResolve.Scan.Ends.{Ended, scan-Ended}
use mathlib.Core.List.{map}
use ever_node_tools.Tests.Node.{repeat}
use ever_node_tools.Tests.Dht.{net, network, network-IsLawful, known-Unique, base64, setup, long}

abbrev dead : World network
dead = record {
  started = λ h. inr tt;
  address = λ h id. none;
  base64_decode = base64;
  known = λ h. inr (1 ∷ 2 ∷ 3 ∷ []);
  added = λ h node. inr (some node);
  responds = λ h key. inr false;
}

abbrev dead-IsHonest : IsHonest network dead
dead-IsHonest = record {
  laws = network-IsLawful;
  key_of = λ n. n;
  added_own = λ h node key e. cc;
  known_once = λ h. known-Unique;
}

abbrev three : List ℕ
three = 1 ∷ 2 ∷ 3 ∷ []

in_three :
    (nodes : List ℕ)
    → ◌≡◌ {A = Result (List ℕ)} (inr (1 ∷ 2 ∷ 3 ∷ [])) (inr nodes)
    → All (λ node. contains network three node ≡ true) nodes
unfolding contains
in_three nodes e =
    let same : three ≡ nodes = cc in
    subst (λ l. All (λ node. contains network three node ≡ true) l) same (refl, (refl, (refl, tt)))

dead-IsSilent : IsSilent network dead dead-IsHonest three
dead-IsSilent = record { silent = λ h key e. cc; within = λ h. in_three }

configured :
    (config nodes : List ℕ)
    → read_global network dead setup "config.json" ≡ ok config
    → ◌≡◌ {A = Result (List ℕ)} (inr config) (inr nodes)
    → Unique network network-IsLawful (map (λ n. n) nodes)
      × All (λ node. contains network three node ≡ true) nodes
unfolding contains read_global
configured config nodes read e =
    let same : 1 ∷ 2 ∷ [] ≡ nodes = cc in
    subst
      (λ l.
        Unique network network-IsLawful (map (λ n. n) l)
        × All (λ node. contains network three node ≡ true) l)
      same ((refl, (refl, tt)), (refl, (refl, tt)))

scan-Ended_example :
    Ended network dead dead-IsHonest three dead-IsSilent
      (scan network dead setup 4 "AQ" "config.json" []).0
scan-Ended_example =
    scan-Ended network dead dead-IsHonest three dead-IsSilent setup 4 "AQ" "config.json" long
      configured (omega arith)

search_pass_example :
    Passed network dead
      (repeat 32 7)
      (1 ∷ 2 ∷ [])
      []
      (search network dead 2
        (repeat 32 7)
        (record { nodes = 1 ∷ 2 ∷ []; bad_nodes = []; index = 0 })
        []).0
      (search network dead 2
        (repeat 32 7)
        (record { nodes = 1 ∷ 2 ∷ []; bad_nodes = []; index = 0 })
        []).1
search_pass_example = search_pass network dead (repeat 32 7) (1 ∷ 2 ∷ []) [] []

-- the network in which the address is known once three nodes were asked
abbrev late : World network
late = record net { address = λ h id. if ltb (length (asked network h)) 3 then none else some 4191 }

known_late :
    (g : List (Event network)) (id : Bytes)
    → key_id network late "AQ" ≡ ok id
    → 3 ≤ length (asked network g)
    → late.address g id ≢ none
known_late g id decoded enough = ground arith

scan_finds_example :
    Ensures
      (λ address g. address ≢ none)
      (λ g. Unit)
      (scan network late setup 4 "AQ" "config.json" []).0
      (scan network late setup 4 "AQ" "config.json" []).1
scan_finds_example =
    scan_finds network late setup 3 3 "AQ" "config.json" [] known_late long (omega arith)
