-- ===== src/Tests/Node.antt =====
-- A control server that answers every request, and the world in which the console talks to it.
use mathlib.Core.Path.{subst}
use ever_node_tools.Prelude.{
  ℕ, zero, suc, ◌+◌, ◌*◌, ◌%◌, ◌<◌, String, ◌≡◌, refl, Option, none, some, List, [], ◌∷◌, ◌++◌,
  length, ltb, ◌==◌, if◌then◌else◌, arith,
}
use ever_node_tools.Outcome.{Outcome, ok, err, panic}
use ever_node_tools.Rust.Word.{Bytes, to_u32, to_be_bytes}
use ever_node_tools.Rust.Print.{print_ℤ}
use ever_node_tools.Console.Outside.{
  Api, World, Event, IsLawful, IsHash, AreBytes, AccountStatus, Request,
}
use ever_node_tools.Console.Receive.{Reply}
use ever_node_tools.Tests.Hex.{codec, codec-IsHex}

abbrev pub repeat : ℕ → ℕ → Bytes
repeat zero b = []
repeat (suc n) b = b ∷ repeat n b

pub repeat-AreBytes : (n b : ℕ) → b < 256 → AreBytes (repeat n b)
repeat-AreBytes zero b h = tt
repeat-AreBytes (suc n) b h = (h, repeat-AreBytes n b h)

length-repeat : (n b : ℕ) → length (repeat n b) ≡ n
length-repeat zero b = refl
length-repeat (suc n) b = omega (arith, length-repeat n b)

pub data Answer : Type 0 where
  success : Answer
  refused : String → Answer
  key : ℕ → Answer
  public_key : Bytes → Answer
  signature : Bytes → Answer
  account : Option Bytes → Answer

-- a key hash, from the number of a key
abbrev pub hash : ℕ → Bytes
hash n = repeat 32 (n % 256)

unfoldable pub encode : Request String ℕ → Bytes
encode Request.generate_key_pair = 1 ∷ []
encode (Request.export_public_key h) = 2 ∷ h
encode (Request.sign h bytes) = 3 ∷ (h ++ bytes)
encode (Request.add_validator_permanent_key h date ttl) =
    4 ∷ (h ++ (to_be_bytes 4 (to_u32 date) ++ to_be_bytes 4 (to_u32 ttl)))
encode (Request.add_validator_temp_key h k ttl) = 5 ∷ (h ++ (k ++ to_be_bytes 4 (to_u32 ttl)))
encode (Request.add_validator_adnl_address h k ttl) = 6 ∷ (h ++ (k ++ to_be_bytes 4 (to_u32 ttl)))
encode (Request.add_adnl_id h category) = 7 ∷ (h ++ to_be_bytes 4 (to_u32 category))
encode (Request.get_shard_account_state address) = 8 ∷ []
encode _ = 0 ∷ []

abbrev pub node : Api
node = record {
  codec = codec;
  BlockId = String;
  default_block_id = "";
  block_id_from_str = ok;
  Interval = ℕ;
  interval_from_str = λ text. err "invalid digit found in string";
  serialize_request = λ query. ok (encode query);
  debug_request = λ query. "query";
  Answer = Answer;
  serialize_answer = λ answer. ok [];
  debug_answer = λ answer. "answer";
  as_control_query_error = λ answer. elim answer [ refused e ↦ some e | _ ↦ none ];
  as_success = λ answer. elim answer [ success ↦ some tt | _ ↦ none ];
  as_stats = λ answer. none;
  as_session_stats = λ answer. none;
  as_key_hash = λ answer. elim answer [ key n ↦ some (hash n) | _ ↦ none ];
  as_public_key = λ answer. elim answer [ public_key bytes ↦ some (some bytes) | _ ↦ none ];
  as_signature = λ answer. elim answer [ signature bytes ↦ some bytes | _ ↦ none ];
  as_config_info = λ answer. none;
  as_shard_account_state = λ answer. elim answer [ account state ↦ some state | _ ↦ none ];
  Cell = Bytes;
  write_boc = ok;
  Builder = Bytes;
  with_raw = λ bytes bits. if ltb 1023 bits then err "too many bits" else ok bytes;
  into_cell = ok;
  append_reference = λ builder cell. ok (builder ++ cell);
  ShardAccount = Bytes;
  shard_account_from_bytes = ok;
  account_cell = λ bytes. bytes;
  last_trans_lt = λ bytes. 0x1e0fa9;
  Account = Bytes;
  read_account = ok;
  status = λ account. AccountStatus.active;
  balance = λ account. some 1000000000;
  last_paid = λ account. 1600000000;
  verify =
      λ pub_key message signed. if length signed == 64 then ok tt else err "Verification failed";
  F32 = ℕ;
  f32 = λ n. n;
  f32_lt = ltb;
  f32_mul = λ a b. a * b;
  f32_as_u32 = λ n. n;
  Json = String;
  null = "null";
  number = print_ℤ;
  string = λ text. text;
  object = λ pairs. "{}";
  json_from_str = λ text. none;
  pretty = λ json. json;
}

pub hash-IsHash : (n : ℕ) → IsHash (hash n)
hash-IsHash n = (repeat-AreBytes 32 (n % 256) (omega arith), length-repeat 32 (n % 256))

as_key-IsHash :
    (answer : Answer) (bytes : Bytes) → node.as_key_hash answer ≡ some bytes → IsHash bytes
as_key-IsHash (key n) bytes e = let same : hash n ≡ bytes = cc in subst IsHash same (hash-IsHash n)
as_key-IsHash success bytes e = absurd (ground arith)
as_key-IsHash (refused x) bytes e = absurd (ground arith)
as_key-IsHash (public_key x) bytes e = absurd (ground arith)
as_key-IsHash (signature x) bytes e = absurd (ground arith)
as_key-IsHash (account x) bytes e = absurd (ground arith)

pub node-IsLawful : IsLawful node
node-IsLawful = record {
  hex = codec-IsHex;
  encode = encode;
  encodes = λ query. refl;
  key_hash-IsHash = as_key-IsHash;
}

-- The server makes a new key for every request, numbered by what was done before.
unfoldable pub answer : List Event → Bytes → Outcome Answer
answer h [] = err "timeout"
answer h (tag ∷ bytes) =
    if tag == 1
    then ok (key (length h))
    else if tag == 2
    then ok (public_key bytes)
    else if tag == 3
    then ok (signature (repeat 64 7))
    else if tag == 8
    then ok (account none)
    else ok success

abbrev pub world : World Answer
world = record {
  unix_time = λ h. some (1608205000 + length h);
  contents = λ h path. err "No such file or directory";
  store = λ h path bytes. ok tt;
  answer = answer;
}

-- the reply of a run that gives one
abbrev pub value : Outcome Reply → Reply
value (ok reply) = reply
value (err e) = (e, [])
value (panic e) = (e, [])
