-- ===== src/DhtScan/Overlay.antt =====
-- `scan_overlay` of bin/dhtscan.rs: the rounds that collect the nodes of an overlay, and their list.
pub mod Counts
pub mod Ends
use ever_node_tools.Prelude.{
  ℕ, zero, suc, ◌+◌, ◌-◌, ◌^◌, Bool, true, false, ◌||◌, Option, none, some, List, [], ◌∷◌, leb,
  length, if◌then◌else◌,
}
use ever_node_tools.Prelude.Int.{ℤ}
use ever_node_tools.Outcome.{Outcome, ok, Result, outcome}
use ever_node_tools.Io.{Io, pure, lift, perform, ◌>>=◌, ◌>>◌}
use ever_node_tools.DhtScan.Net.{
  Api, Line, Event, World, found_overlay, found_dht, overlay_header, overlay_node, overlay_total,
  find_overlay_nodes, get_known_nodes, print,
}

-- `-` on `usize`, which wraps in a release build
unfoldable pub sub_usize : ℕ → ℕ → ℕ
sub_usize a b = if leb b a then a - b else 2 ^ 64 + a - b

module _ (api : Api) where
  -- the hash map of the nodes found, by the id of their key
  abbrev pub Overlays : Type 0
  Overlays = List (api.KeyId × (api.Ip × api.Node))

  -- `HashMap::insert`
  unfoldable pub insert : api.KeyId → api.Ip × api.Node → Overlays → Overlays
  insert id value [] = (id, value) ∷ []
  insert id value ((j, old) ∷ overlays) =
      if api.same id j then (j, value) ∷ overlays else (j, old) ∷ insert id value overlays

module _ (api : Api) (world : World api) where
  abbrev pub say : Line api → Io (Event api) (Unit {0})
  say line = perform (print line) (λ h. ok tt)

  -- `dht.get_known_nodes(5000)?`
  abbrev pub known : Io (Event api) (List api.Node)
  known = perform get_known_nodes (λ h. outcome (world.known h))

  -- the loop over the nodes of one answer
  unfoldable pub insert_all :
      Overlays api → List (api.Ip × api.Node) → Io (Event api) (Overlays api)
  insert_all overlays [] = pure overlays
  insert_all overlays ((ip, node) ∷ res) = do
    key ← lift (outcome (api.key_of node))
    insert_all (insert api (api.key_id key) (ip, node) overlays) res

  -- what is printed of a round
  unfoldable pub progress : ℕ → Bool → api.OverlayId → ℤ → ℕ → ℕ → Io (Event api) (Unit {0})
  progress presets true id workchain before now =
      say (found_overlay (sub_usize now before) id workchain)
  progress presets false id workchain before now = do
    nodes ← known
    say (found_dht (sub_usize (length nodes) presets))

  abbrev Position : Type 0
  Position = Overlays api × Option api.Iter

  abbrev pub after_round :
      ℕ
      → Bool
      → api.OverlayId
      → ℤ
      → Overlays api
      → Option api.Iter
      → Overlays api
      → Io (Event api) Position
  after_round presets search_overlay id workchain overlays iter found = do
    progress presets search_overlay id workchain (length overlays) (length found)
    pure (found, iter)

  abbrev pub with_answer :
      ℕ
      → Bool
      → api.OverlayId
      → ℤ
      → Overlays api
      → Option api.Iter
      → List (api.Ip × api.Node)
      → Io (Event api) Position
  with_answer presets search_overlay id workchain overlays iter res = do
    found ← insert_all overlays res
    after_round presets search_overlay id workchain overlays iter found

  -- `find_overlay_nodes` moves the position, which is `iter` after it
  unfoldable pub round :
      ℕ → Bool → api.OverlayId → ℤ → Overlays api → Option api.Iter → Io (Event api) Position
  round presets search_overlay id workchain overlays iter h =
      let (answer, iter') = world.overlay_nodes h id iter in
      (lift (outcome answer) >>= with_answer presets search_overlay id workchain overlays iter')
        (find_overlay_nodes id ∷ h)

  -- The loop itself has no bound: `none` is a search that goes on after that many rounds.
  unfoldable pub rounds :
      ℕ
      → ℕ
      → Bool
      → api.OverlayId
      → ℤ
      → Overlays api
      → Option api.Iter
      → Io (Event api) (Option (Overlays api))
  rounds zero presets search_overlay id workchain overlays iter = pure none
  rounds (suc fuel) presets search_overlay id workchain overlays iter = do
    (found, next) ← round presets search_overlay id workchain overlays iter
    elim next [
      | none ↦ pure (some found)
      | some position ↦ rounds fuel presets search_overlay id workchain found (some position)
    ]

  unfoldable pub list_nodes : Overlays api → Io (Event api) (Unit {0})
  list_nodes [] = pure tt
  list_nodes ((id, (ip, node)) ∷ overlays) = do say (overlay_node ip node); list_nodes overlays

  -- what is printed at the end, if overlay nodes are asked for
  unfoldable pub list_overlay : Bool → api.OverlayId → ℤ → Overlays api → Io (Event api) (Unit {0})
  list_overlay false id workchain overlays = pure tt
  list_overlay true id workchain overlays = do
    say (overlay_header id workchain)
    list_nodes (world.entries overlays)
    say (overlay_total (length overlays))

  abbrev pub finish :
      Bool → api.OverlayId → ℤ → Option (Overlays api) → Io (Event api) (Option (Unit {0}))
  finish search_overlay id workchain none = pure none
  finish search_overlay id workchain (some overlays) = do
    list_overlay search_overlay id workchain overlays
    pure (some tt)

  abbrev pub scan_id : ℕ → ℕ → Bool → ℤ → api.OverlayId → Io (Event api) (Option (Unit {0}))
  scan_id fuel presets search_overlay workchain id = do
    overlays ← rounds fuel presets search_overlay id workchain [] none
    finish search_overlay id workchain overlays

  unfoldable pub scan_overlay : ℕ → ℕ → Bool → ℤ → Io (Event api) (Option (Unit {0}))
  scan_overlay fuel presets search_overlay workchain = do
    id ← lift (outcome (world.overlay_id workchain))
    scan_id fuel presets search_overlay workchain id
