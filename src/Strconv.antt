-- ===== src/Strconv.antt =====
-- What the code uses of the package `strconv`, and the integers of Go's type `int`.
pub mod Decimal
use netx.Base.{
  ℕ, zero, suc, ◌+◌, ◌-◌, ◌*◌, ◌/◌, ◌%◌, ◌^◌, Bool, true, false, ◌&&◌, List, [], ◌∷◌, ◌++◌, Option,
  none, some, ltb, leb, ◌==◌, if◌then◌else◌, Bytes, is_empty,
}

-- `negsuc n` is -(n + 1).
pub data ℤ : Type 0 where
  pos : ℕ → ℤ
  negsuc : ℕ → ℤ

abbrev pub negate : ℕ → ℤ
negate zero = pos zero
negate (suc n) = negsuc n

-- The conversion to an unsigned integer with the given number of values.
unfoldable pub wrap : ℕ → ℤ → ℕ
wrap modulus (pos n) = n % modulus
wrap modulus (negsuc n) = modulus - 1 - n % modulus

-- The digits of a number in base 10 before those in `out`; the number is enough fuel.
unfoldable pub decimal_digits : ℕ → ℕ → Bytes → Bytes
decimal_digits zero n out = out
decimal_digits (suc fuel) n out =
    let more = decimal_digits fuel (n / 10) ((b'0' + n % 10) ∷ out) in
    if ltb n 10 then (b'0' + n) ∷ out else more

-- `strconv.AppendUint(nil, n, 10)`
unfoldable pub decimal : ℕ → Bytes
unfolding decimal_digits
decimal n = decimal_digits (suc n) n []

-- The number that the digits give after the value `n`; none if a byte is no digit.
unfoldable pub read_decimal : ℕ → Bytes → Option ℕ
read_decimal n [] = some n
read_decimal n (c ∷ s) =
    let rest = read_decimal (n * 10 + (c - b'0')) s in
    if leb b'0' c && leb c b'9' then rest else none

abbrev pub unless_empty : Bytes → Option ℕ
unless_empty [] = none
unless_empty (c ∷ s) = read_decimal 0 (c ∷ s)

-- A number that a 64-bit `int` holds, after a minus sign or not.
abbrev pub int64 : Bool → ℕ → Option ℤ
int64 false n = if ltb n (2 ^ 63) then some (pos n) else none
int64 true n = if leb n (2 ^ 63) then some (negate n) else none

abbrev pub in_int64 : Bool → Option ℕ → Option ℤ
in_int64 minus none = none
in_int64 minus (some n) = int64 minus n

-- `strconv.Atoi`; none for an error.
unfoldable pub atoi : Bytes → Option ℤ
unfolding read_decimal
atoi [] = none
atoi (c ∷ s) =
    if c == b'-'
    then in_int64 true (unless_empty s)
    else if c == b'+'
    then in_int64 false (unless_empty s)
    else in_int64 false (read_decimal 0 (c ∷ s))
