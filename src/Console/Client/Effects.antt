-- ===== src/Console/Client/Effects.antt =====
-- What the `receive` of every command of bin/console.rs leaves outside.
use ever_node_tools.Prelude.{
  String, ◌≡◌, refl, sym, ap, ◌∙◌, Option, none, some, List, ◌∷◌, get_elem?,
}
use ever_node_tools.Outcome.{ok, ok_or, ok_or-eq-ok, map_err-eq-ok}
use ever_node_tools.Io.{lift, pure, ◌>>◌, after, returned}
use ever_node_tools.Rust.Word.{Bytes}
use ever_node_tools.Rust.Utf8.{as_bytes}
use ever_node_tools.Console.Outside.{Api, World, Event, write_file}
use ever_node_tools.Console.Command.{Command}
use ever_node_tools.Console.Receive.{Reply, downcast, both_codes, account_info}
use ever_node_tools.Console.Client.{
  create, create_if, receive_account, receive_account_state, receive,
}

module _ (api : Api) (world : World api.Answer) where
  -- The bytes were written to this file, and nothing else was done.
  abbrev pub Saved : String → Bytes → List Event → List Event → Type 0
  Saved path bytes h h' = (world.store h path bytes ≡ ok tt) × (h' ≡ write_file path bytes ∷ h)

  abbrev pub SavedIf : Option String → Bytes → List Event → List Event → Type 0
  SavedIf none bytes h h' = h' ≡ h
  SavedIf (some path) bytes h h' = Saved path bytes h h'

  -- The bytes are the bag of cells of the account in the answer.
  abbrev pub IsAccountState : api.Answer → Bytes → Type 0
  IsAccountState answer bytes =
      (state : Bytes) × (shard_account : api.ShardAccount) × (api.as_shard_account_state answer
        ≡ some (some state))
      × (api.shard_account_from_bytes state ≡ ok shard_account)
      × (api.write_boc (api.account_cell shard_account) ≡ ok bytes)

  -- What a command shows and leaves outside once it has read the answer.
  abbrev pub Leaves : Command → api.Answer → List String → List Event → Reply → List Event → Type 0
  Leaves Command.get_account answer params h reply h' =
      (account_info api answer ≡ ok reply.0)
      × (reply.1 ≡ as_bytes reply.0)
      × SavedIf (get_elem? params 1) reply.1 h h'
  Leaves Command.get_account_state answer params h reply h' =
      IsAccountState answer reply.1
      × (reply.0 ≡ both_codes api reply.1)
      × ((path : String) × (get_elem? params 1 ≡ some path) × Saved path reply.1 h h')
  Leaves _ answer params h reply h' = h' ≡ h

  create-Saved :
      (path : String) (bytes : Bytes) (h : List Event) (text : String) {reply : Reply}
      {h' : List Event}
      → (create api world path bytes >> pure (text, bytes)) h ≡ (ok reply, h')
      → (reply ≡ (text, bytes)) × Saved path bytes h h'
  create-Saved path bytes h text done =
      after (create api world path bytes) _ h done refl λ u e later.
        returned (λ v g. (v ≡ (text, bytes)) × Saved path bytes h g) later
          (refl, (map_err-eq-ok _ (world.store h path bytes) e, refl))

  create_if-SavedIf :
      (path : Option String) (bytes : Bytes) (h : List Event) (text : String) {reply : Reply}
      {h' : List Event}
      → (create_if api world path bytes >> pure (text, bytes)) h ≡ (ok reply, h')
      → (reply ≡ (text, bytes)) × SavedIf path bytes h h'
  create_if-SavedIf none bytes h text done =
      returned (λ v g. (v ≡ (text, bytes)) × (g ≡ h)) done (refl, refl)
  create_if-SavedIf (some path) bytes h text done = create-Saved path bytes h text done

  -- Of the commands that have read their answer, getaccount shows the account's text, returns its
  -- bytes, and writes them to the file that is its second parameter, if there is one; getaccountstate
  -- shows the bag of cells of the account in the answer in hex and base64, returns it, and writes it
  -- to the file that is its second parameter, which must be there. Every other command has done nothing
  -- outside.
  pub receive-Leaves :
      (command : Command) (answer : api.Answer) (params : List String) (h : List Event)
      {reply : Reply} {h' : List Event}
      → receive api world command answer params h ≡ (ok reply, h')
      → Leaves command answer params h reply h'
  unfolding receive receive_account receive_account_state
  receive-Leaves Command.get_account answer params h done =
      after (lift (account_info api answer)) _ h done refl λ info e later.
        let (same, saved) = create_if-SavedIf (get_elem? params 1) (as_bytes info) h info later in
        rw same (e, refl, saved)
  receive-Leaves Command.get_account_state answer params h done =
      after (lift (downcast api "ShardAccountState" api.as_shard_account_state answer)) _ h done
        refl
        λ state e1 d1.
          after (lift (ok_or "bad params (boc name not found)!" (get_elem? params 1))) _ h d1 refl
            λ path e2 d2. after (lift (ok_or "account not found!" state)) _ h d2 refl λ bytes e3 d3.
              after (lift (api.shard_account_from_bytes bytes)) _ h d3 refl λ shard e4 d4.
                after (lift (api.write_boc (api.account_cell shard))) _ h d4 refl λ boc e5 d5.
                  let (same, saved) = create-Saved path boc h (both_codes api boc) d5 in
                  let present =
                    ok_or-eq-ok _ (api.as_shard_account_state answer) e1
                    ∙ ap some (ok_or-eq-ok _ state e3) in
                  rw same (
                    (bytes, shard, present, e4, e5),
                    refl,
                    (path, ok_or-eq-ok _ (get_elem? params 1) e2, saved),
                  )
  receive-Leaves command answer params h done = sym (ap (λ p. p.1) done)
