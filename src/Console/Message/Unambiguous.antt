-- ===== src/Console/Message/Unambiguous.antt =====
-- Reading the bytes that a bid signs in bin/console.rs back: parts of equal length, and integers.
use ever_node_tools.Prelude.{
  ℕ, zero, suc, ◌/◌, ◌%◌, ◌^◌, ◌<◌, ◌≡◌, refl, ap, [], ◌∷◌, ◌++◌, length, arith,
}
use ever_node_tools.Prelude.Int.{ℤ, pos, negsuc}
use ever_node_tools.Rust.Word.{Bytes, InRange, to_u32, to_be_bytes, length-to_be_bytes}
use ever_node_tools.Console.Bid.{Bid}
use ever_node_tools.Console.Message.{Keys, be_i32, bytes_to_sign}

-- Equal texts whose first parts are equally long have equal parts.
append_parts : (a b c d : Bytes) → length a ≡ length b → a ++ c ≡ b ++ d → (a ≡ b) × (c ≡ d)
append_parts [] [] c d size e = (refl, e)
append_parts [] (y ∷ b) c d size e = absurd (omega arith)
append_parts (x ∷ a) [] c d size e = absurd (omega arith)
append_parts (x ∷ a) (y ∷ b) c d size e =
    let (same, rest) = append_parts a b c d (omega arith) cc in (cc, rest)

-- The number needs no more bytes.
abbrev Fits : ℕ → ℕ → Type 0
Fits zero x = x ≡ 0
Fits (suc width) x = Fits width (x / 256)

to_be_bytes-injective :
    (width x y : ℕ)
    → Fits width x
    → Fits width y
    → to_be_bytes width x ≡ to_be_bytes width y
    → x ≡ y
unfolding to_be_bytes
to_be_bytes-injective zero x y p q e = cc
to_be_bytes-injective (suc width) x y p q e =
    let (high, low) =
      append_parts (to_be_bytes width (x / 256)) (to_be_bytes width (y / 256)) (x % 256 ∷ [])
        (y % 256 ∷ []) (cc (length-to_be_bytes width (x / 256), length-to_be_bytes width (y / 256)))
        e in
    let same = to_be_bytes-injective width (x / 256) (y / 256) p q high in
    let last : x % 256 ≡ y % 256 = cc in omega arith

four-Fits : (x : ℕ) → x < 2 ^ 32 → Fits 4 x
four-Fits x h = omega arith

to_u32-lt : (z : ℤ) → to_u32 z < 2 ^ 32
unfolding to_u32
to_u32-lt (pos n) = omega arith
to_u32-lt (negsuc n) = omega arith

to_u32-injective : (a b : ℤ) → InRange (2 ^ 31) a → InRange (2 ^ 31) b → to_u32 a ≡ to_u32 b → a ≡ b
unfolding to_u32
to_u32-injective (pos m) (pos n) p q e = let same : m ≡ n = omega arith in ap pos same
to_u32-injective (pos m) (negsuc n) p q e = absurd (omega arith)
to_u32-injective (negsuc m) (pos n) p q e = absurd (omega arith)
to_u32-injective (negsuc m) (negsuc n) p q e = let same : m ≡ n = omega arith in ap negsuc same

-- Two bids with 32-bit times and factors and wallets of the same length, whose bytes to sign are
-- equal, have the same time of the election, factor, wallet and ADNL hash.
pub bytes_to_sign-injective :
    (bid other : Bid) (keys others : Keys)
    → InRange (2 ^ 31) bid.elect_time
    → InRange (2 ^ 31) other.elect_time
    → bid.max_factor < 2 ^ 32
    → other.max_factor < 2 ^ 32
    → length bid.wallet_id ≡ length other.wallet_id
    → bytes_to_sign bid keys ≡ bytes_to_sign other others
    → (bid.elect_time ≡ other.elect_time)
      × (bid.max_factor ≡ other.max_factor)
      × (bid.wallet_id ≡ other.wallet_id)
      × (keys.adnl ≡ others.adnl)
unfolding bytes_to_sign be_i32
bytes_to_sign-injective bid other keys others elect_fits other_fits factor_fits other_factor size
      e =
    let tag = to_be_bytes 4 0x654C5074 in
    let (_, e1) = append_parts tag tag _ _ refl e in
    let (times, e2) =
      append_parts _ _ _ _ (same_size (to_u32 bid.elect_time) (to_u32 other.elect_time)) e1 in
    let (factors, e3) = append_parts _ _ _ _ (same_size bid.max_factor other.max_factor) e2 in
    let (wallets, hashes) = append_parts bid.wallet_id other.wallet_id _ _ size e3 in
    (
      to_u32-injective _ _ elect_fits other_fits (
          to_be_bytes-injective 4 _ _ (four-Fits _ (to_u32-lt bid.elect_time))
            (four-Fits _ (to_u32-lt other.elect_time)) times),
      to_be_bytes-injective 4 _ _ (four-Fits _ factor_fits) (four-Fits _ other_factor) factors,
      wallets,
      hashes,
    )
  where
    same_size : (x y : ℕ) → length (to_be_bytes 4 x) ≡ length (to_be_bytes 4 y)
    same_size x y = cc (length-to_be_bytes 4 x, length-to_be_bytes 4 y)
