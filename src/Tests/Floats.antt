-- ===== src/Tests/Floats.antt =====
-- A small stand-in for `float32`: numbers with one decimal, and NaN.
use netx.Base.{
  ℕ, ◌+◌, ◌-◌, ◌*◌, ◌≡◌, refl, ◌⊎◌, Bool, true, false, not, ◌&&◌, [], ◌∷◌, arith, ltb, ◌==◌,
  if◌then◌else◌, Bytes,
}
use netx.Httpx.Float.{Float32}

pub data Tenths : Type 0 where
  nan : Tenths
  num : ℕ → Tenths

abbrev pub parse_tenths : Bytes → Tenths
parse_tenths [] = num 0
parse_tenths (c ∷ []) = num ((c - b'0') * 10)
parse_tenths (c ∷ d ∷ []) = num 0
parse_tenths (c ∷ d ∷ e ∷ s) = if c == b'N' then nan else num ((c - b'0') * 10 + (e - b'0'))

abbrev pub print_tenths : Tenths → Bytes
print_tenths nan = b'N' ∷ b'a' ∷ b'N' ∷ []
print_tenths (num n) = (b'0' + n) ∷ []

abbrev pub less_tenths : Tenths → Tenths → Bool
less_tenths nan b = false
less_tenths (num a) nan = false
less_tenths (num a) (num b) = ltb a b

abbrev pub equal_tenths : Tenths → Tenths → Bool
equal_tenths nan b = false
equal_tenths (num a) nan = false
equal_tenths (num a) (num b) = a == b

abbrev pub is_nan_tenths : Tenths → Bool
is_nan_tenths nan = true
is_nan_tenths (num a) = false

pub asym : (a b : Tenths) → less_tenths a b ≡ true → less_tenths b a ≡ false
asym nan b h = cc
asym (num a) nan h = cc
asym (num a) (num b) h = ground arith

pub splits :
    (a b c : Tenths)
    → is_nan_tenths b ≡ false
    → less_tenths a c ≡ true
    → (less_tenths a b ≡ true) ⊎ (less_tenths b c ≡ true)
splits nan b c n h = cc
splits (num a) b nan n h = cc
splits (num a) nan (num c) n h = cc
splits (num a) (num b) (num c) n h = ground arith

pub equal_iff :
    (a b : Tenths)
    → is_nan_tenths a ≡ false
    → is_nan_tenths b ≡ false
    → equal_tenths a b ≡ (not (less_tenths a b) && not (less_tenths b a))
equal_iff nan b n m = cc
equal_iff (num a) nan n m = cc
equal_iff (num a) (num b) n m = ground arith

pub unordered :
    (a b : Tenths) → is_nan_tenths b ≡ true → (less_tenths a b ≡ false) × (less_tenths b a ≡ false)
unordered nan nan h = (refl, refl)
unordered (num a) nan h = (refl, refl)
unordered a (num b) h = cc

abbrev pub tenths : Float32
tenths = record {
  Value = Tenths;
  parse = parse_tenths;
  one = num 10;
  print = print_tenths;
  less = less_tenths;
  equal = equal_tenths;
  is_nan = is_nan_tenths;
  less_asym = asym;
  less_split = splits;
  equal_lem = equal_iff;
  less_nan = unordered;
  one_not_nan = refl;
}
