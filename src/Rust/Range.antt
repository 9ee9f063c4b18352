-- ===== src/Rust/Range.antt =====
-- The range of what Rust's `from_str` accepts.
use Prim.Native.String.{[], ◌∷◌}
use ever_node_tools.Prelude.{
  ℕ, zero, suc, ◌+◌, ◌-◌, ◌*◌, ◌≤◌, ◌<◌, code, String, ◌≡◌, inl, inr, Bool-cases, arith, ◌==◌,
  if◌then◌else◌,
}
use ever_node_tools.Prelude.Int.{ℤ, pos}
use ever_node_tools.Outcome.{Outcome, ok, ◌>>=◌, >>=-eq-ok}
use ever_node_tools.Rust.Word.{InRange}
use ever_node_tools.Rust.Parse.{
  scan_digits, scan_number, negate, parse_signed, too_large, too_small,
}

scan_digits-le :
    (bound : ℕ) (overflow : String) (n : ℕ) (s : String) {r : ℕ}
    → n ≤ bound
    → scan_digits bound overflow n s ≡ ok r
    → r ≤ bound
unfolding scan_digits
scan_digits-le bound overflow n [] fits h = ground arith
scan_digits-le bound overflow n (c ∷ s) {r} fits h =
    ground (arith, scan_digits-le bound overflow (n * 10 + (code c - b'0')) s {r = r})

pub scan_number-le :
    (bound : ℕ) (overflow s : String) {r : ℕ} → scan_number bound overflow s ≡ ok r → r ≤ bound
unfolding scan_number
scan_number-le bound overflow [] h = cc
scan_number-le bound overflow (c ∷ s) h = scan_digits-le bound overflow 0 (c ∷ s) (omega arith) h

negate-InRange : (half n : ℕ) → 0 < half → n ≤ half → InRange half (negate n)
negate-InRange half zero p h = (p, omega arith)
negate-InRange half (suc n) p h = (p, h)

-- what a chain of a read number and a conversion gives
converted-InRange :
    (half : ℕ) (m : Outcome ℕ) (f : ℕ → ℤ) {z : ℤ}
    → ((n : ℕ) → m ≡ ok n → InRange half (f n))
    → (do n ← m; ok (f n)) ≡ ok z
    → InRange half z
converted-InRange half m f {z} k h =
    let (n, read, same) = >>=-eq-ok m (λ n. ok (f n)) h in
    let e : f n ≡ z = cc in rw e at (k n read)

-- A number that is read fits its type.
pub parse_signed-InRange :
    (half : ℕ) (s : String) {z : ℤ} → 0 < half → parse_signed half s ≡ ok z → InRange half z
unfolding parse_signed
parse_signed-InRange half [] p h = cc
parse_signed-InRange half (c ∷ s) p h = elim (Bool-cases (code c == b'-')) [
  | inl minus ↦
      converted-InRange half (scan_number half too_small s) negate
        (λ n e. negate-InRange half n p (scan_number-le half too_small s e)) (rw minus at h)
  | inr other ↦ unsigned (rw other at h)
]
  where
    at_most : (n : ℕ) → n ≤ half - 1 → InRange half (pos n)
    at_most n le = (omega arith, omega arith)

    digits :
        (t : String) {z : ℤ}
        → (do n ← scan_number (half - 1) too_large t; ok (pos n)) ≡ ok z
        → InRange half z
    digits t =
        converted-InRange half (scan_number (half - 1) too_large t) pos
          (λ n e. at_most n (scan_number-le (half - 1) too_large t e))

    unsigned :
        {z : ℤ}
        → (if code c == b'+'
            then (do n ← scan_number (half - 1) too_large s; ok (pos n))
            else do n ← scan_number (half - 1) too_large (c ∷ s); ok (pos n))
          ≡ ok z
        → InRange half z
    unsigned h' = elim (Bool-cases (code c == b'+')) [
      | inl plus ↦ digits s (rw plus at h')
      | inr none ↦ digits (c ∷ s) (rw none at h')
    ]
