-- ===== src/Httpx/Server/Chunk/Hex.antt =====
-- The size of a chunk in base 16 (`writeChunk` of httpx/server.go) reads back as the number.
use netx.Base.{
  ℕ, zero, suc, ◌+◌, ◌*◌, ◌/◌, ◌%◌, ◌<◌, ◌≡◌, [], ◌∷◌, arith, Bytes, ltb, ◌-◌, if◌then◌else◌,
  Bool-cases, ◌∙◌, ap, inl, inr,
}
use netx.Httpx.Server.Chunk.{hex, hex_digit, hex_digits}

-- The value of a digit, 0 to 9 or a to f.
abbrev pub digit_value : ℕ → ℕ
digit_value c = if ltb c 0x61 then c - 0x30 else c - 0x61 + 10

-- The number that digits give after the value `n`.
abbrev pub read_hex : ℕ → Bytes → ℕ
read_hex n [] = n
read_hex n (c ∷ s) = read_hex (n * 16 + digit_value c) s

digit_value-hex_digit : (d : ℕ) → d < 16 → digit_value (hex_digit d) ≡ d
unfolding hex_digit
digit_value-hex_digit d h = ground arith

read_hex-hex_digits :
    (fuel n : ℕ) (out : Bytes) → n < fuel → read_hex 0 (hex_digits fuel n out) ≡ read_hex n out
unfolding hex_digits
read_hex-hex_digits zero n out h = absurd (omega (arith, h))
read_hex-hex_digits (suc fuel) n out h = elim (Bool-cases (ltb n 16)) [
  | inl t ↦
      let p : n < 16 = ground arith in
      let e : 0 + digit_value (hex_digit n) ≡ n = omega (arith, digit_value-hex_digit n p) in
      rw t (ap (λ v. read_hex v out) e)
  | inr f ↦
      let d = n % 16 in
      let less : n / 16 < fuel = ground arith in
      let e : n / 16 * 16 + digit_value (hex_digit d) ≡ n =
        omega (arith, digit_value-hex_digit d (omega arith)) in
      rw f (read_hex-hex_digits fuel (n / 16) (hex_digit d ∷ out) less ∙ ap (λ v. read_hex v out) e)
]

-- The digits that stand for a number read back as the number.
pub read_hex-hex : (n : ℕ) → read_hex 0 (hex n) ≡ n
unfolding hex
read_hex-hex n = read_hex-hex_digits (suc n) n [] (omega arith)
