-- ===== src/DhtScan/Calm.antt =====
-- The searches and the list of bin/dhtscan.rs do not panic, where `-` on `usize` wraps.
use ever_node_tools.Prelude.{
  ℕ, zero, suc, ◌+◌, Bool, true, false, inl, inr, ltb, length, Option, none, some, List, [], ◌∷◌,
  if◌then◌else◌,
}
use ever_node_tools.Prelude.Int.{ℤ}
use ever_node_tools.Outcome.{Result}
use ever_node_tools.Io.{Io, pure, ◌>>=◌, ◌>>◌}
use ever_node_tools.Io.Calm.{
  IsCalmIo, IsCalmIo->>=, IsCalmIo-lift, IsCalmIo-call, IsCalmIo-event, IsCalmIo-say, IsCalmIo-says,
}
use ever_node_tools.DhtNode.{describe, describe-IsCalm}
use ever_node_tools.DhtScan.Net.{
  Api, Event, World, get_known_nodes, print, found_dht, overlay_header, overlay_node, overlay_total,
  find_overlay_nodes, dht_header, no_dht, dht_total, dht_node,
}
use ever_node_tools.DhtScan.Overlay.{
  Overlays, sub_usize, insert, say, known, insert_all, progress, with_answer, round, rounds,
  list_nodes, list_overlay, finish, scan_overlay,
}
use ever_node_tools.DhtScan.Listing.{
  configured, print_json, ask_alive, announce, if_alive, new_node, list_dht_nodes, list_all,
  list_dht,
}

module _ (api : Api) (world : World api) where
  pub quiet : {A : Type 0} (a : A) → IsCalmIo {E = Event api} (pure a)
  unfolding IsCalmIo
  quiet a h = tt

  known-then :
      {B : Type 0} (f : List api.Node → Io (Event api) B)
      → ((nodes : List api.Node) → IsCalmIo (f nodes))
      → IsCalmIo (known api world >>= f)
  known-then f rest = IsCalmIo-event get_known_nodes world.known f rest

  pub insert_all-IsCalmIo :
      (res : List (api.Ip × api.Node)) (overlays : Overlays api)
      → IsCalmIo (insert_all api world overlays res)
  unfolding insert_all
  insert_all-IsCalmIo [] overlays = quiet overlays
  insert_all-IsCalmIo ((ip, node) ∷ res) overlays =
      IsCalmIo-call (api.key_of node) _
        λ key. insert_all-IsCalmIo res (insert api (api.key_id key) (ip, node) overlays)

  pub progress-IsCalmIo :
      (presets : ℕ) (search_overlay : Bool) (id : api.OverlayId) (workchain : ℤ) (before now : ℕ)
      → IsCalmIo (progress api world presets search_overlay id workchain before now)
  unfolding progress
  progress-IsCalmIo presets true id workchain before now = IsCalmIo-says _ tt
  progress-IsCalmIo presets false id workchain before now =
      known-then _ λ nodes. IsCalmIo-says (print (found_dht (sub_usize (length nodes) presets))) tt

  module _ (presets : ℕ) (search_overlay : Bool) (id : api.OverlayId) (workchain : ℤ) where
    with_answer-IsCalmIo :
        (overlays : Overlays api) (iter : Option api.Iter) (res : List (api.Ip × api.Node))
        → IsCalmIo (with_answer api world presets search_overlay id workchain overlays iter res)
    with_answer-IsCalmIo overlays iter res =
        IsCalmIo->>= (insert_all api world overlays res) _ (insert_all-IsCalmIo res overlays)
          λ found.
            IsCalmIo->>=
              (progress api world presets search_overlay id workchain (length overlays)
                (length found))
              _ (progress-IsCalmIo presets search_overlay id workchain _ _)
              λ done. quiet (found, iter)

    round-IsCalmIo :
        (overlays : Overlays api) (iter : Option api.Iter)
        → IsCalmIo (round api world presets search_overlay id workchain overlays iter)
    round-IsCalmIo overlays iter =
        unfold round IsCalmIo in
        λ h.
          let (answer, iter') = world.overlay_nodes h id iter in
          IsCalmIo-call answer
            (with_answer api world presets search_overlay id workchain overlays iter')
            (λ res. with_answer-IsCalmIo overlays iter' res) (find_overlay_nodes id ∷ h)

    go_on :
        (fuel : ℕ) (found : Overlays api) (next : Option api.Iter)
        → ((iter : Option api.Iter)
            → IsCalmIo (rounds api world fuel presets search_overlay id workchain found iter))
        → IsCalmIo (elim next as (λ _. Io (Event api) (Option (Overlays api))) [
          | none ↦ pure (some found)
          | some position ↦
              rounds api world fuel presets search_overlay id workchain found (some position)
        ])
    go_on fuel found none rest = quiet (some found)
    go_on fuel found (some position) rest = rest (some position)

    rounds-IsCalmIo :
        (fuel : ℕ) (overlays : Overlays api) (iter : Option api.Iter)
        → IsCalmIo (rounds api world fuel presets search_overlay id workchain overlays iter)
    unfolding rounds
    rounds-IsCalmIo zero overlays iter = quiet none
    rounds-IsCalmIo (suc fuel) overlays iter =
        IsCalmIo->>= (round api world presets search_overlay id workchain overlays iter) _
          (round-IsCalmIo overlays iter)
          λ (found, next). go_on fuel found next (rounds-IsCalmIo fuel found)

  list_nodes-IsCalmIo : (overlays : Overlays api) → IsCalmIo (list_nodes api world overlays)
  unfolding list_nodes
  list_nodes-IsCalmIo [] = quiet tt
  list_nodes-IsCalmIo ((id, (ip, node)) ∷ overlays) =
      IsCalmIo-say (print (overlay_node ip node)) tt _ λ _. list_nodes-IsCalmIo overlays

  pub list_overlay-IsCalmIo :
      (search_overlay : Bool) (id : api.OverlayId) (workchain : ℤ) (overlays : Overlays api)
      → IsCalmIo (list_overlay api world search_overlay id workchain overlays)
  unfolding list_overlay
  list_overlay-IsCalmIo false id workchain overlays = quiet tt
  list_overlay-IsCalmIo true id workchain overlays =
      IsCalmIo-say (print (overlay_header id workchain)) tt _ λ _.
        IsCalmIo->>= (list_nodes api world (world.entries overlays)) _
          (list_nodes-IsCalmIo (world.entries overlays))
          λ _. IsCalmIo-says (print (overlay_total (length overlays))) tt

  finish-IsCalmIo :
      (search_overlay : Bool) (id : api.OverlayId) (workchain : ℤ) (found : Option (Overlays api))
      → IsCalmIo (finish api world search_overlay id workchain found)
  finish-IsCalmIo search_overlay id workchain none = quiet none
  finish-IsCalmIo search_overlay id workchain (some overlays) =
      IsCalmIo->>= (list_overlay api world search_overlay id workchain overlays) _
        (list_overlay-IsCalmIo search_overlay id workchain overlays) λ _. quiet (some tt)

  pub scan_overlay-IsCalmIo :
      (fuel presets : ℕ) (search_overlay : Bool) (workchain : ℤ)
      → IsCalmIo (scan_overlay api world fuel presets search_overlay workchain)
  unfolding scan_overlay
  scan_overlay-IsCalmIo fuel presets search_overlay workchain =
      IsCalmIo-call (world.overlay_id workchain) _ λ id.
        IsCalmIo->>= (rounds api world fuel presets search_overlay id workchain [] none) _
          (rounds-IsCalmIo presets search_overlay id workchain fuel [] none)
          λ found. finish-IsCalmIo search_overlay id workchain found

  module _ (jsonl : Bool) where
    announce-IsCalmIo :
        (node : api.Node) (key : api.Key) → IsCalmIo (announce api world jsonl node key)
    announce-IsCalmIo node key =
        IsCalmIo-lift (describe api.nodes node key) _ (describe-IsCalm api.nodes node key) λ json.
          IsCalmIo-call (print_json api jsonl json) _
            λ line. IsCalmIo-says (print (dht_node node line)) tt

    if_alive-IsCalmIo :
        (count : ℕ) (node : api.Node) (key : api.Key) (answer : Result Bool)
        → IsCalmIo (if_alive api world jsonl count node key answer)
    unfolding if_alive
    if_alive-IsCalmIo count node key (inr true) =
        IsCalmIo->>= (announce api world jsonl node key) _ (announce-IsCalmIo node key)
          λ _. quiet (count + 1)
    if_alive-IsCalmIo count node key (inr false) = quiet count
    if_alive-IsCalmIo count node key (inl e) = quiet count

    ask_alive-IsCalmIo : (id : api.KeyId) → IsCalmIo (ask_alive api world id)
    unfolding IsCalmIo
    ask_alive-IsCalmIo id h = tt

    new_node-IsCalmIo :
        (count : ℕ) (node : api.Node) → IsCalmIo (new_node api world jsonl count node)
    new_node-IsCalmIo count node = IsCalmIo-call (api.key_of node) _ λ key.
        IsCalmIo->>= (ask_alive api world (api.key_id key)) _ (ask_alive-IsCalmIo (api.key_id key))
          λ alive. if_alive-IsCalmIo count node key alive

    known_or_new :
        (old : Bool) (count : ℕ) (node : api.Node)
        → IsCalmIo (if old then pure count else new_node api world jsonl count node)
    known_or_new true count node = quiet count
    known_or_new false count node = new_node-IsCalmIo count node

    list_dht_nodes-IsCalmIo :
        (dht_nodes : List api.Node) (count : ℕ) (nodes : List api.Node)
        → IsCalmIo (list_dht_nodes api world jsonl dht_nodes count nodes)
    unfolding list_dht_nodes
    list_dht_nodes-IsCalmIo dht_nodes count [] = quiet count
    list_dht_nodes-IsCalmIo dht_nodes count (node ∷ nodes) =
        IsCalmIo->>=
          (if configured api dht_nodes node
            then pure count
            else new_node api world jsonl count node)
          _ (known_or_new (configured api dht_nodes node) count node)
          λ count'. list_dht_nodes-IsCalmIo dht_nodes count' nodes

    list_if :
        (more : Bool) (dht_nodes nodes : List api.Node)
        → IsCalmIo (
            if more
            then (say api world dht_header >> list_all api world jsonl dht_nodes nodes)
            else say api world no_dht)
    list_if false dht_nodes nodes = IsCalmIo-says no_line tt
      where
        no_line : Event api
        no_line = print no_dht
    list_if true dht_nodes nodes = IsCalmIo-say (print dht_header) tt _ λ _.
        IsCalmIo->>= (list_dht_nodes api world jsonl dht_nodes 0 nodes) _
          (list_dht_nodes-IsCalmIo dht_nodes 0 nodes)
          λ count. IsCalmIo-says (print (dht_total count)) tt

    pub list_dht-IsCalmIo :
        (dht_nodes : List api.Node) → IsCalmIo (list_dht api world jsonl dht_nodes)
    unfolding list_dht
    list_dht-IsCalmIo dht_nodes =
        known-then _ λ nodes. list_if (ltb (length dht_nodes) (length nodes)) dht_nodes nodes
