-- ===== src/Strconv/Decimal.antt =====
-- The decimal text of a number is read back as the number.
use netx.Base.{
  ℕ, zero, suc, ◌+◌, ◌-◌, ◌*◌, ◌/◌, ◌%◌, ◌^◌, ◌≤◌, ◌<◌, ◌≡◌, ◌≢◌, refl, ap, ◌∙◌, inl, inr, true,
  false, [], ◌∷◌, some, arith, length, ltb, leb, ◌==◌, ◌&&◌, Bool-cases, Bytes, All, Lacks,
}
use netx.Strconv.{pos, decimal_digits, decimal, read_decimal, atoi, in_int64}

abbrev pub IsDigit : ℕ → Type 0
IsDigit c = (48 ≤ c) × (c ≤ 57)

read_decimal-cons :
    (n d : ℕ) (s : Bytes) → d < 10 → read_decimal n ((48 + d) ∷ s) ≡ read_decimal (n * 10 + d) s
unfolding read_decimal
read_decimal-cons n d s h =
    let t : (leb 48 (48 + d) && leb (48 + d) 57) ≡ true = ground arith in
    let e : n * 10 + (48 + d - 48) ≡ n * 10 + d = omega arith in rw t (ap (λ k. read_decimal k s) e)

read_decimal-decimal_digits :
    (fuel n : ℕ) (out : Bytes)
    → n < fuel
    → read_decimal 0 (decimal_digits fuel n out) ≡ read_decimal n out
unfolding decimal_digits
read_decimal-decimal_digits zero n out h = absurd (omega (arith, h))
read_decimal-decimal_digits (suc fuel) n out h = elim (Bool-cases (ltb n 10)) [
  | inl t ↦
      let p : n < 10 = ground arith in
      let e : 0 * 10 + n ≡ n = omega arith in
      rw t (read_decimal-cons 0 n out p ∙ ap (λ v. read_decimal v out) e)
  | inr f ↦
      let less : n / 10 < fuel = ground arith in
      let d = n % 10 in
      let e : n / 10 * 10 + d ≡ n = omega arith in
      rw f (
        read_decimal-decimal_digits fuel (n / 10) ((48 + d) ∷ out) less
        ∙ read_decimal-cons (n / 10) d out (omega arith)
        ∙ ap (λ v. read_decimal v out) e)
]

decimal_digits-All :
    (fuel n : ℕ) (out : Bytes) → All IsDigit out → All IsDigit (decimal_digits fuel n out)
unfolding decimal_digits
decimal_digits-All zero n out h = h
decimal_digits-All (suc fuel) n out h = elim (Bool-cases (ltb n 10)) [
  | inl t ↦ rw t ((ground arith), h)
  | inr f ↦ rw f (decimal_digits-All fuel (n / 10) ((48 + n % 10) ∷ out) ((omega arith), h))
]

pub decimal-All : (n : ℕ) → All IsDigit (decimal n)
unfolding decimal
decimal-All n = decimal_digits-All (suc n) n [] tt

pub read_decimal-decimal : (n : ℕ) → read_decimal 0 (decimal n) ≡ some n
unfolding decimal
read_decimal-decimal n =
    read_decimal-decimal_digits (suc n) n [] (omega arith) ∙ unfold read_decimal in refl

-- A text of digits has no other byte.
pub Lacks-digits : (b : ℕ) (s : Bytes) → 57 < b → All IsDigit s → Lacks b s
Lacks-digits b [] h d = tt
Lacks-digits b (c ∷ s) h d = (omega (arith, d.0.1), Lacks-digits b s h d.1)

pub Lacks-digits_low : (b : ℕ) (s : Bytes) → b < 48 → All IsDigit s → Lacks b s
Lacks-digits_low b [] h d = tt
Lacks-digits_low b (c ∷ s) h d = (omega (arith, d.0.0), Lacks-digits_low b s h d.1)

atoi-digits :
    (s : Bytes) (n : ℕ)
    → s ≢ []
    → All IsDigit s
    → read_decimal 0 s ≡ some n
    → n < 2 ^ 63
    → atoi s ≡ some (pos n)
unfolding atoi
atoi-digits [] n ne d e h = absurd (ne refl)
atoi-digits (c ∷ s) n ne d e h =
    let minus : (c == 45) ≡ false = ground arith in
    let plus : (c == 43) ≡ false = ground arith in
    let fits : ltb n (2 ^ 63) ≡ true = ground arith in
    rw (minus, plus) (ap (in_int64 false) e ∙ rw fits refl)

length-decimal_digits_up :
    (fuel n : ℕ) (out : Bytes) → length out ≤ length (decimal_digits fuel n out)
unfolding decimal_digits
length-decimal_digits_up zero n out = omega arith
length-decimal_digits_up (suc fuel) n out =
    ground (arith, length-decimal_digits_up fuel (n / 10) ((48 + n % 10) ∷ out))

pub decimal-ne-nil : (n : ℕ) → decimal n ≢ []
unfolding decimal decimal_digits
decimal-ne-nil n e =
    ground (arith, length-decimal_digits_up n (n / 10) ((48 + n % 10) ∷ []), ap (length {A = ℕ}) e)

-- The decimal text of a number that an `int` holds is read back as the number.
pub atoi-decimal : (n : ℕ) → n < 2 ^ 63 → atoi (decimal n) ≡ some (pos n)
atoi-decimal n h =
    atoi-digits (decimal n) n (decimal-ne-nil n) (decimal-All n) (read_decimal-decimal n) h

-- The least number with more than `k + 1` digits.
abbrev pub beyond : ℕ → ℕ
beyond zero = 10
beyond (suc k) = 10 * beyond k

length-decimal_digits :
    (k fuel n : ℕ) (out : Bytes)
    → n < beyond k
    → n < fuel
    → length (decimal_digits fuel n out) ≤ suc k + length out
unfolding decimal_digits
length-decimal_digits k zero n out h f = absurd (omega (arith, f))
length-decimal_digits zero (suc fuel) n out h f = ground arith
length-decimal_digits (suc k) (suc fuel) n out h f =
    ground (arith, length-decimal_digits k fuel (n / 10) ((48 + n % 10) ∷ out) (omega (arith, h)))

pub length-decimal : (k n : ℕ) → n < beyond k → length (decimal n) ≤ suc k
unfolding decimal
length-decimal k n h = omega (arith, length-decimal_digits k (suc n) n [] h (omega arith))
