-- ===== src/DhtScan/Scan/Ends.antt =====
-- `scan` of bin/dhtscan.rs ends where the network's searches do.
use ever_node_tools.Prelude.{ℕ, ◌<◌, String, Bool, true, false, none, some, List, [], length}
use ever_node_tools.Prelude.Int.{pos, negsuc}
use ever_node_tools.Io.{Io, pure, ◌>>=◌, Ensures, Ensures->>=}
use ever_node_tools.Io.Calm.{Ensures-quiet, IsCalmIo-says}
use ever_node_tools.DhtScan.Calm.{list_dht-IsCalmIo}
use ever_node_tools.DhtScan.Net.{Api, Event, World, print, scanning}
use ever_node_tools.DhtScan.Open.{Setup, start_all}
use ever_node_tools.DhtScan.Overlay.{say, scan_overlay}
use ever_node_tools.DhtScan.Overlay.Ends.{Advances, Over, scan_overlay-Over}
use ever_node_tools.DhtScan.Listing.{list_dht}
use ever_node_tools.DhtScan.Scan.{
  Ended, add_presets, ask_presets, if_ended, last_part, workchain_0, scan,
}
use ever_node_tools.DhtScan.Scan.Laws.{
  start_all-IsCalmIo, add_presets-IsCalmIo, ask_presets-IsCalmIo,
}

module _ (api : Api) (world : World api) (setup : Setup api) (rank : api.Iter → ℕ) (n : ℕ) where
  -- It does not panic, and is an error or has not been cut off.
  abbrev Finishes : Io (Event api) (Ended api world setup) → Type 0
  Finishes m = (h : List (Event api)) → Ensures (Over api world rank n) (λ _. Unit) (m h).0 (m h).1

  if_ended-Finishes :
      (rest : Io (Event api) (Ended api world setup)) (ended : Ended api world setup)
      (g : List (Event api))
      → Over api world rank n ended g
      → Finishes rest
      → Ensures
          (Over api world rank n)
          (λ _. Unit)
          (if_ended api world setup rest ended g).0
          (if_ended api world setup rest ended g).1
  if_ended-Finishes rest none g over finishes = elim over [ ]
  if_ended-Finishes rest (some done) g over finishes = finishes g

  last_part-Finishes :
      (jsonl search_overlay : Bool) (dht_nodes : List api.Node)
      → Finishes (last_part api world setup jsonl search_overlay dht_nodes)
  last_part-Finishes jsonl true dht_nodes h = tt
  last_part-Finishes jsonl false dht_nodes h =
      Ensures-quiet (Over api world rank n) (list_dht api world jsonl dht_nodes)
        (λ _. pure (some tt)) h (list_dht-IsCalmIo api world jsonl dht_nodes) (λ _ _. tt)

  module _ (advances : Advances api world rank n) (fuel : ℕ) (enough : n < fuel) where
    workchain_0-Finishes :
        (presets : ℕ) (search_overlay use_workchain0 : Bool)
        → Finishes (workchain_0 api world setup fuel presets search_overlay use_workchain0)
    workchain_0-Finishes presets search_overlay true h =
        scan_overlay-Over api world rank n advances fuel presets search_overlay (pos 0) h enough
    workchain_0-Finishes presets search_overlay false h = tt

    -- the end of `scan`, from the search of the masterchain's overlay on
    abbrev searches :
        ℕ
        → Bool
        → Bool
        → Bool
        → List api.Node
        → Ended api world setup
        → Io (Event api) (Ended api world setup)
    searches presets jsonl search_overlay use_workchain0 dht_nodes masterchain =
        if_ended api world setup
          (do
            workchain ← workchain_0 api world setup fuel presets search_overlay use_workchain0
            if_ended api world setup (last_part api world setup jsonl search_overlay dht_nodes)
                workchain)
          masterchain

    searches-Finishes :
        (presets : ℕ) (jsonl search_overlay use_workchain0 : Bool) (dht_nodes : List api.Node)
        (masterchain : Ended api world setup) (g : List (Event api))
        → Over api world rank n masterchain g
        → Ensures
            (Over api world rank n)
            (λ _. Unit)
            (searches presets jsonl search_overlay use_workchain0 dht_nodes masterchain g).0
            (searches presets jsonl search_overlay use_workchain0 dht_nodes masterchain g).1
    searches-Finishes presets jsonl search_overlay use_workchain0 dht_nodes masterchain g over =
        if_ended-Finishes _ masterchain g over (λ h.
          Ensures->>= (Over api world rank n) (Over api world rank n) (λ _. Unit)
            (workchain_0 api world setup fuel presets search_overlay use_workchain0)
            (if_ended api world setup (last_part api world setup jsonl search_overlay dht_nodes)) h
            (workchain_0-Finishes presets search_overlay use_workchain0 h)
            (λ workchain g2 over2.
              if_ended-Finishes _ workchain g2 over2
                (last_part-Finishes jsonl search_overlay dht_nodes)))

  -- In a release build, where `-` on `usize` wraps: if every answer of the network to a search of an overlay ends it or brings it nearer to its last
  -- position, from which it is at most n away at the start, then scan with more than n rounds does not
  -- panic, and is not cut off: it comes to its end, or it gives an error.
  pub scan-Over :
      Advances api world rank n
      → (fuel : ℕ) → n < fuel
      → (cfgfile : String) (jsonl search_overlay use_workchain0 : Bool) (h : List (Event api))
      → Ensures
          (Over api world rank n)
          (λ g. Unit)
          (scan api world setup fuel cfgfile jsonl search_overlay use_workchain0 h).0
          (scan api world setup fuel cfgfile jsonl search_overlay use_workchain0 h).1
  unfolding scan
  scan-Over advances fuel enough cfgfile jsonl search_overlay use_workchain0 h =
      let over = Over api world rank n in
      Ensures-quiet over (start_all api world setup cfgfile) _ h
        (start_all-IsCalmIo api world setup cfgfile)
        λ dht_nodes h1.
          Ensures-quiet over (add_presets api world setup [] dht_nodes) _ h1
            (add_presets-IsCalmIo api world setup [] dht_nodes)
            λ presets h2.
              Ensures-quiet over (say api world scanning) _ h2 (IsCalmIo-says (print scanning) tt)
                λ _ h3.
                  Ensures-quiet over (ask_presets api world setup presets) _ h3
                    (ask_presets-IsCalmIo api world setup presets)
                    λ _ h4.
                      Ensures->>= over over (λ _. Unit)
                        (scan_overlay api world fuel (length presets) search_overlay (negsuc 0))
                        (searches advances fuel enough (length presets) jsonl search_overlay
                          use_workchain0 dht_nodes)
                        h4
                        (scan_overlay-Over api world rank n advances fuel (length presets)
                          search_overlay (negsuc 0) h4 enough)
                        (searches-Finishes advances fuel enough (length presets) jsonl
                          search_overlay use_workchain0 dht_nodes)
