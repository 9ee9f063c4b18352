-- ===== src/DbPrint/Accounts/Whole.antt =====
-- The text that print_accounts of bin/print.rs writes, as a whole.
use ever_node_tools.Prelude.{
  String, ◌<>◌, ◌≡◌, refl, sym, ◌∙◌, ap, Bool, true, false, Option, some, inr, List, [], ◌∷◌, ◌++◌,
}
use mathlib.Core.Path.{subst}
use text.Mathlib.TextLemmas.{append-nil as str_append-nil, append_assoc as str_append_assoc}
use ever_node_tools.Outcome.{Outcome, ok, ok_or, outcome, >>=-eq-ok, outcome-eq-ok, ok_or-eq-ok}
use ever_node_tools.Outcome
use ever_node_tools.Io.{pure, ◌>>=◌}
use ever_node_tools.Json.{Json}
use ever_node_tools.DbPrint.Db.{Api, World, ended}
use ever_node_tools.DbPrint.Accounts.{
  account_json, visit, visit_all, read_accounts, print_blocks, print_accounts,
}
use ever_node_tools.DbPrint.Accounts.Text.{
  written, separated, body, still, body_append, still_append,
}

module _ (api : Api) where
  -- Every account on its own, in order.
  unfoldable pub all_json : List api.ShardAccount → Outcome (List Json)
  all_json [] = ok []
  all_json (shard_account ∷ other) =
      Outcome.◌>>=◌ (account_json api shard_account)
        λ json. Outcome.◌>>=◌ (all_json other) λ rest. ok (json ∷ rest)

  -- The call returns, and adds what `body` says of these accounts.
  abbrev Prints :
      Bool → List Json → (List String → Outcome Bool × List String) → List String → Type 0
  Prints first jsons call h =
      (g : List String) × (call h ≡ (ok (still api first jsons), g))
      × (written g ≡ written h <> body api first jsons)

  Prints-nothing : (first : Bool) (h : List String) → Prints first [] (pure first) h
  unfolding separated
  Prints-nothing true h = (h, refl, sym (str_append-nil (written h)))
  Prints-nothing false h = (h, refl, sym (str_append-nil (written h)))

  Prints->>= :
      (first : Bool) (one two : List Json) (call : List String → Outcome Bool × List String)
      (next : Bool → List String → Outcome Bool × List String) (h : List String)
      → Prints first one call h
      → ((g : List String) → Prints (still api first one) two (next (still api first one)) g)
      → Prints first (one ++ two) (call >>= next) h
  Prints->>= first one two call next h (g, ran, wrote) rest =
      let (g', ran', wrote') = rest g in
      (
        g',
        rw (ran, ran') (ap (λ b. (ok b, g')) (still_append api first one two)),
        wrote'
            ∙ ap (λ t. t <> body api (still api first one) two) wrote
            ∙ str_append_assoc (written h) _ _
            ∙ ap (λ t. written h <> t) (sym (body_append api first one two)),
      )

  visit-Prints :
      (first : Bool) (shard_account : api.ShardAccount) (h : List String) (json : Json)
      → account_json api shard_account ≡ ok json
      → Prints first (json ∷ []) (visit api first shard_account) h
  unfolding visit separated
  visit-Prints true shard_account h json e = (api.pretty json ∷ h, rw e refl, refl)
  visit-Prints false shard_account h json e =
      (api.pretty json ∷ ",\n" ∷ h, rw e refl, str_append_assoc (written h) ",\n" (api.pretty json))

  visit_all-Prints :
      (shard_accounts : List api.ShardAccount) (first : Bool) (h : List String) (jsons : List Json)
      → all_json shard_accounts ≡ ok jsons
      → Prints first jsons (visit_all api first shard_accounts) h
  unfolding all_json visit_all
  visit_all-Prints [] first h jsons e =
      let same : [] ≡ jsons = cc in
      subst (λ js. Prints first js (pure first) h) same (Prints-nothing first h)
  visit_all-Prints (shard_account ∷ other) first h jsons e =
      let (json, read, more) = >>=-eq-ok (account_json api shard_account) _ e in
      let (rest, read', done) = >>=-eq-ok (all_json other) _ more in
      let same : json ∷ rest ≡ jsons = cc in
      subst (λ js. Prints first js (visit_all api first (shard_account ∷ other)) h) same
        (Prints->>= first (json ∷ []) rest (visit api first shard_account) _ h
          (visit-Prints first shard_account h json read)
          (λ g. visit_all-Prints other false g rest read'))

module _ (api : Api) (world : World api) (db : world.Db) where
  -- The accounts of the blocks' states, block after block.
  unfoldable pub gather : List api.BlockId → Outcome (List Json)
  unfolding all_json
  gather [] = ok []
  gather (block_id ∷ other) =
      Outcome.◌>>=◌ (read_accounts api world db block_id) λ (accounts, last).
        Outcome.◌>>=◌ (all_json api accounts) λ one.
          Outcome.◌>>=◌ (ended last) λ done. Outcome.◌>>=◌ (gather other) λ two. ok (one ++ two)

  block-Prints :
      (block_id : api.BlockId) (other : List api.BlockId) (first : Bool) (h : List String)
      (accounts : List api.ShardAccount) (last : Option String) (one two : List Json)
      → read_accounts api world db block_id ≡ ok (accounts, last)
      → all_json api accounts ≡ ok one
      → ended last ≡ ok tt
      → ((g : List String)
          → Prints api
              (still api first one)
              two
              (print_blocks api world db (still api first one) other)
              g)
      → Prints api first (one ++ two) (print_blocks api world db first (block_id ∷ other)) h
  unfolding print_blocks
  block-Prints block_id other first h accounts last one two read read1 at_end rest =
      rw (read, at_end)
        (Prints->>= api first one two (visit_all api first accounts)
          (λ first'. print_blocks api world db first' other) h
          (visit_all-Prints api accounts first h one read1) rest)

  print_blocks-Prints :
      (blocks : List api.BlockId) (first : Bool) (h : List String) (jsons : List Json)
      → gather blocks ≡ ok jsons
      → Prints api first jsons (print_blocks api world db first blocks) h
  unfolding gather print_blocks
  print_blocks-Prints [] first h jsons e =
      let same : [] ≡ jsons = cc in
      subst (λ js. Prints api first js (pure first) h) same (Prints-nothing api first h)
  print_blocks-Prints (block_id ∷ other) first h jsons e =
      let ((accounts, last), read, e1) = >>=-eq-ok (read_accounts api world db block_id) _ e in
      let (one, read1, e2) = >>=-eq-ok (all_json api accounts) _ e1 in
      let (done, at_end, e3) = >>=-eq-ok (ended last) _ e2 in
      let (two, read2, e4) = >>=-eq-ok (gather other) _ e3 in
      let same : one ++ two ≡ jsons = cc in
      subst (λ js. Prints api first js (print_blocks api world db first (block_id ∷ other)) h) same
        (block-Prints block_id other first h accounts last one two read read1 at_end
          (λ g. print_blocks-Prints other (still api first one) g two read2))

  -- What the document is about: all accounts of the last applied state.
  unfoldable pub document : Outcome (List Json)
  unfolding gather
  document = Outcome.◌>>=◌ (outcome (world.last_applied db)) λ found.
      Outcome.◌>>=◌ (ok_or "no info about last applied mc block" found) λ last_mc_id.
        Outcome.◌>>=◌ (outcome (world.load_shard_state_dynamic db last_mc_id)) λ stuff.
          Outcome.◌>>=◌ (outcome (world.top_blocks_all stuff))
            λ top_blocks. gather (top_blocks ++ last_mc_id ∷ [])

  enclosed : (a b c d : String) → ((a <> b) <> c) <> d ≡ a <> (b <> (c <> d))
  enclosed a b c d = str_append_assoc (a <> b) c d ∙ str_append_assoc a b (c <> d)

  print_step :
      (h : List String) (last_mc_id : api.BlockId) (stuff : world.StateStuff)
      (top_blocks : List api.BlockId) (jsons : List Json)
      → world.last_applied db ≡ inr (some last_mc_id)
      → world.load_shard_state_dynamic db last_mc_id ≡ inr stuff
      → world.top_blocks_all stuff ≡ inr top_blocks
      → gather (top_blocks ++ last_mc_id ∷ []) ≡ ok jsons
      → (g : List String) × (print_accounts api world db h ≡ (ok tt, g))
        × (written g ≡ written h <> ("{\"accounts\":[\n" <> (separated api jsons <> "]}\n")))
  unfolding print_accounts
  print_step h last_mc_id stuff top_blocks jsons found loaded tops read =
      let (g, ran, wrote) =
        print_blocks-Prints (top_blocks ++ last_mc_id ∷ []) true ("{\"accounts\":[\n" ∷ h) jsons
          read in
      (
        "]}\n" ∷ g,
        rw (found, loaded, tops, ran) refl,
        ap (λ t. t <> "]}\n") wrote
            ∙ enclosed (written h) "{\"accounts\":[\n" (separated api jsons) "]}\n",
      )

  -- If the last applied state and all accounts of its blocks can be read, then print_accounts
  -- returns, and what it writes is one list in braces of all the accounts, in order, with a comma
  -- between any two and none before the first or after the last.
  pub print_accounts_lem :
      (h : List String) (jsons : List Json)
      → document ≡ ok jsons
      → (g : List String) × (print_accounts api world db h ≡ (ok tt, g))
        × (written g ≡ written h <> ("{\"accounts\":[\n" <> (separated api jsons <> "]}\n")))
  unfolding document
  print_accounts_lem h jsons e =
      let (found, e0, e1) = >>=-eq-ok (outcome (world.last_applied db)) _ e in
      let (last_mc_id, e2, e3) = >>=-eq-ok (ok_or _ found) _ e1 in
      let (stuff, e4, e5) =
        >>=-eq-ok (outcome (world.load_shard_state_dynamic db last_mc_id)) _ e3 in
      let (top_blocks, e6, e7) = >>=-eq-ok (outcome (world.top_blocks_all stuff)) _ e5 in
      print_step h last_mc_id stuff top_blocks jsons
        (outcome-eq-ok (world.last_applied db) e0 ∙ ap inr (ok_or-eq-ok _ found e2))
        (outcome-eq-ok (world.load_shard_state_dynamic db last_mc_id) e4)
        (outcome-eq-ok (world.top_blocks_all stuff) e6) e7
