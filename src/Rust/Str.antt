-- ===== src/Rust/Str.antt =====
-- `str` methods of Rust's standard library: `trim_matches`, `trim_end`, `strip_prefix`. A text is
-- a `String`, whose `len` counts bytes of UTF-8 as in Rust.
use Prim.Native.String.{[], ◌∷◌}
use ever_node_tools.Prelude.{
  ℕ, Char, code, String, ◌≡◌, refl, Bool, false, ◌&&◌, ◌||◌, Option, none, some, leb, ◌==◌,
  if◌then◌else◌,
}

module _ (p : ℕ → Bool) where
  -- `trim_start_matches`
  pub trim_start_by : String → String
  trim_start_by [] = []
  trim_start_by (c ∷ s) = if p (code c) then trim_start_by s else c ∷ s

  -- a trimmed tail, with the character before it
  abbrev put_before : Char → String → String
  put_before c [] = if p (code c) then [] else c ∷ []
  put_before c (d ∷ s) = c ∷ d ∷ s

  -- `trim_end_matches`
  unfoldable pub trim_end_by : String → String
  trim_end_by [] = []
  trim_end_by (c ∷ s) = put_before c (trim_end_by s)

  -- Every character of the text fails the test.
  abbrev pub Lacks : String → Type 0
  Lacks [] = Unit
  Lacks (c ∷ s) = (p (code c) ≡ false) × Lacks s

  trim_start_by_lem : (s : String) → Lacks s → trim_start_by s ≡ s
  unfolding trim_start_by
  trim_start_by_lem [] _ = refl
  trim_start_by_lem (c ∷ s) (h, _) = rw h

  put_before_lem : (c : Char) (s : String) → p (code c) ≡ false → put_before c s ≡ c ∷ s
  put_before_lem c [] h = rw h
  put_before_lem c (d ∷ s) h = refl

  pub trim_end_by_lem : (s : String) → Lacks s → trim_end_by s ≡ s
  unfolding trim_end_by
  trim_end_by_lem [] _ = refl
  trim_end_by_lem (c ∷ s) (h, k) = rw (trim_end_by_lem s k) (put_before_lem c s h)

abbrev pub is_quote : ℕ → Bool
is_quote c = c == b'"'

-- `value.trim_matches('\"')`
unfoldable pub trim_quotes : String → String
unfolding trim_start_by trim_end_by
trim_quotes s = trim_end_by is_quote (trim_start_by is_quote s)

-- A text without quotation marks is left alone.
pub trim_quotes_lem : (s : String) → Lacks is_quote s → trim_quotes s ≡ s
unfolding trim_quotes
trim_quotes_lem s h = rw (trim_start_by_lem is_quote s h) (trim_end_by_lem is_quote s h)

-- `char::is_whitespace`, the code points with the property White_Space
unfoldable pub is_whitespace : ℕ → Bool
is_whitespace c =
    (leb 0x9 c && leb c 0xd)
    || c == 0x20
    || c == 0x85
    || c == 0xa0
    || c == 0x1680
    || (leb 0x2000 c && leb c 0x200a)
    || c == 0x2028
    || c == 0x2029
    || c == 0x202f
    || c == 0x205f
    || c == 0x3000

unfoldable pub trim_end : String → String
unfolding trim_end_by is_whitespace
trim_end = trim_end_by is_whitespace

-- `value.strip_prefix(prefix)`
unfoldable pub strip_prefix : String → String → Option String
strip_prefix [] s = some s
strip_prefix (p ∷ prefix) [] = none
strip_prefix (p ∷ prefix) (c ∷ s) = if code p == code c then strip_prefix prefix s else none

trims : trim_quotes "\"ab\"c\"\"" ≡ "ab\"c"
unfolding trim_quotes
trims = refl

strips : strip_prefix "-1:" "-1:af" ≡ some "af"
unfolding strip_prefix
strips = refl

trims_end : trim_end "quit \r\n" ≡ "quit"
unfolding trim_end
trims_end = refl
