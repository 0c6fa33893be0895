-- ===== src/Httpx/Float.antt =====
-- The `float32` of Go, as the quality values of the Accept headers use it.
use netx.Base.{◌≡◌, ◌⊎◌, Bool, true, false, not, ◌&&◌, Bytes}

-- The type, `strconv.ParseFloat(s, 32)` with its error dropped, the constant 1.0, the print by
-- the verb `%.1f`, and the comparisons, with the laws of IEEE 754 that order all but NaN.
pub record Float32 : Type 1 where
  pub Value : Type 0
  pub parse : Bytes → Value
  pub one : Value
  pub print : Value → Bytes
  pub less : Value → Value → Bool
  pub equal : Value → Value → Bool
  pub is_nan : Value → Bool
  pub less_asym : (a b : Value) → less a b ≡ true → less b a ≡ false
  pub less_split :
      (a b c : Value) → is_nan b ≡ false → less a c ≡ true → (less a b ≡ true) ⊎ (less b c ≡ true)
  pub equal_lem :
      (a b : Value)
      → is_nan a ≡ false
      → is_nan b ≡ false
      → equal a b ≡ (not (less a b) && not (less b a))
  pub less_nan : (a b : Value) → is_nan b ≡ true → (less a b ≡ false) × (less b a ≡ false)
  pub one_not_nan : is_nan one ≡ false
