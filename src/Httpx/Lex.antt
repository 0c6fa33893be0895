-- ===== src/Httpx/Lex.antt =====
-- httpx/httplex.go: tokens, optional white space, and comma-separated header values.
pub mod Laws
use netx.Base.{
  ℕ, zero, suc, ◌+◌, ◌-◌, ◌≡◌, refl, Bool, true, false, not, ◌&&◌, ◌||◌, List, [], ◌∷◌, ◌++◌,
  Option, none, some, arith, ltb, leb, ◌==◌, if◌then◌else◌, Bytes, codes, is_empty, index_byte,
  length, take, drop,
}
use netx.Utf8.{decode_rune}

abbrev within : ℕ → ℕ → ℕ → Bool
within lo hi c = leb lo c && leb c hi

-- `isTokenTable`, entry by entry; the table ends at 126.
token_table : ℕ → Bool
token_table c =
    c == b'!'
    || within b'#' b'\'' c
    || within b'*' b'+' c
    || within b'-' b'.' c
    || within b'0' b'9' c
    || within b'A' b'Z' c
    || within b'^' b'z' c
    || c == b'|'
    || c == b'~'

unfoldable pub is_token_byte : ℕ → Bool
unfolding token_table
is_token_byte b = ltb b 127 && token_table b

-- The loop `for i := range s`: the number is how many bytes of the last rune are to be passed.
all_token : ℕ → Bytes → Bool
all_token skip [] = true
all_token (suc skip) (c ∷ s) = all_token skip s
all_token zero (c ∷ s) =
    let rest = all_token ((decode_rune c s).1 - 1) s in
    if not (is_token_byte c) then false else rest

unfoldable pub is_token : Bytes → Bool
unfolding all_token is_token_byte decode_rune
is_token s = if is_empty s then false else all_token 0 s

unfoldable pub is_ows : ℕ → Bool
is_ows b = b == b' ' || b == b'\t'

-- The first loop of `trimOWS`.
unfoldable pub trim_left : Bytes → Bytes
unfolding is_ows
trim_left [] = []
trim_left (c ∷ x) = let rest = trim_left x in if is_ows c then rest else c ∷ x

-- The second loop: `x[:len(x)-1]` while the last byte is white space.
unfoldable pub trim_right : Bytes → Bytes
unfolding is_ows
trim_right [] = []
trim_right (c ∷ x) = let rest = trim_right x in if is_empty rest && is_ows c then [] else c ∷ rest

unfoldable pub trim_ows : Bytes → Bytes
unfolding trim_left trim_right
trim_ows x = trim_right (trim_left x)

unfoldable pub lower_ascii : ℕ → ℕ
lower_ascii b = if leb b'A' b && leb b b'Z' then b + (b'a' - b'A') else b

-- The loop of `tokenEqual`. The first byte of a rune is below `utf8.RuneSelf` just if the rune
-- is, and then the rune is that byte, so that no byte is ever passed over.
equal_fold : Bytes → Bytes → Bool
equal_fold [] t2 = true
equal_fold (b ∷ t1) [] = false
equal_fold (b ∷ t1) (c ∷ t2) =
    let rest = equal_fold t1 t2 in
    if leb 0x80 b then false else if not (lower_ascii b == lower_ascii c) then false else rest

unfoldable pub token_equal : Bytes → Bytes → Bool
unfolding equal_fold lower_ascii
token_equal t1 t2 = if not (length t1 == length t2) then false else equal_fold t1 t2

-- `headerValueContainsToken`; each call is on a shorter text, so that its length is enough fuel.
value_contains : ℕ → Bytes → Bytes → Bool
value_contains zero v token = false
value_contains (suc fuel) v token =
    let x = trim_ows v in
    elim (index_byte x b',') [
      | none ↦ token_equal x token
      | some comma ↦
          token_equal (trim_ows (take comma x)) token
          || value_contains fuel (drop (comma + 1) x) token
    ]

unfoldable pub header_value_contains_token : Bytes → Bytes → Bool
unfolding value_contains trim_ows token_equal index_byte
header_value_contains_token v token = value_contains (suc (length v)) v token

unfoldable pub header_values_contains_token : List Bytes → Bytes → Bool
unfolding header_value_contains_token
header_values_contains_token [] token = false
header_values_contains_token (v ∷ values) token =
    let rest = header_values_contains_token values token in
    if header_value_contains_token v token then true else rest
