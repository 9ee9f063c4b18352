-- ===== src/Console/Message/Laws.antt =====
-- The layout of the messages.
use ever_node_tools.Prelude.{
  ℕ, zero, suc, ◌+◌, ◌/◌, ◌%◌, ◌<◌, ◌≡◌, arith, [], ◌∷◌, ◌++◌, length, length-append, All-append,
}
use ever_node_tools.Rust.Word.{Bytes, to_u32, to_be_bytes, length-to_be_bytes}
use ever_node_tools.Console.Outside.{AreBytes}
use ever_node_tools.Console.Bid.{Bid}
use ever_node_tools.Console.Message.{Keys, be_i32, bytes_to_sign, signed_body}

pub to_be_bytes-AreBytes : (width x : ℕ) → AreBytes (to_be_bytes width x)
unfolding to_be_bytes
to_be_bytes-AreBytes zero x = tt
to_be_bytes-AreBytes (suc width) x =
    All-append _ (to_be_bytes width (x / 256)) ((x % 256) ∷ [])
      (to_be_bytes-AreBytes width (x / 256)) (omega arith, tt)

pub bytes_to_sign-AreBytes :
    (bid : Bid) (keys : Keys)
    → AreBytes bid.wallet_id
    → AreBytes keys.adnl
    → AreBytes (bytes_to_sign bid keys)
unfolding bytes_to_sign be_i32
bytes_to_sign-AreBytes bid keys wallet adnl = both _ _ (to_be_bytes-AreBytes 4 0x654C5074) (
    both _ _ (to_be_bytes-AreBytes 4 (to_u32 bid.elect_time))
      (both _ _ (to_be_bytes-AreBytes 4 bid.max_factor) (both bid.wallet_id keys.adnl wallet adnl)))
  where
    both : (a b : Bytes) → AreBytes a → AreBytes b → AreBytes (a ++ b)
    both = All-append (λ b. b < 256)

-- The bytes to sign are 12 longer than the wallet and the ADNL hash together, and the signed body is
-- 20 longer than the public key and the ADNL hash together.
pub message_lengths :
    (query_id : ℕ) (bid : Bid) (keys : Keys)
    → (length (bytes_to_sign bid keys) ≡ 12 + length bid.wallet_id + length keys.adnl)
      × (length (signed_body query_id bid keys) ≡ 20 + length keys.pub_key + length keys.adnl)
unfolding bytes_to_sign signed_body be_i32
message_lengths query_id bid keys = (
  omega (arith, length-append {0}, length-to_be_bytes),
  omega (arith, length-append {0}, length-to_be_bytes),
)
