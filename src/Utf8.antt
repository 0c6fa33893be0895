-- ===== src/Utf8.antt =====
-- The Go language's UTF-8: what `for i, c := range s` reads from a string, and what
-- `bytes.Buffer.WriteRune` writes.
use netx.Base.{
  ℕ, zero, suc, ◌+◌, ◌-◌, ◌*◌, ◌/◌, ◌%◌, ◌≤◌, ◌<◌, ◌≡◌, refl, ◌⊎◌, Bool, ◌&&◌, ◌||◌, List, [], ◌∷◌,
  ◌++◌, arith, ltb, leb, ◌==◌, if◌then◌else◌, Bytes, codes, All, Bool-cases, inl, inr,
}

abbrev pub rune_error : ℕ
rune_error = 0xFFFD

abbrev within : ℕ → ℕ → ℕ → Bool
within lo hi c = leb lo c && leb c hi

abbrev is_cont : ℕ → Bool
is_cont c = within 0x80 0xBF c

-- The second byte that may follow the first byte `a` of three, and of four.
abbrev second_of_three : ℕ → ℕ → Bool
second_of_three a b =
    if a == 0xE0 then within 0xA0 0xBF b else if a == 0xED then within 0x80 0x9F b else is_cont b

abbrev second_of_four : ℕ → ℕ → Bool
second_of_four a b =
    if a == 0xF0 then within 0x90 0xBF b else if a == 0xF4 then within 0x80 0x8F b else is_cont b

pub two : ℕ → ℕ → ℕ × ℕ
two a b = if within 0xC2 0xDF a && is_cont b then (a % 32 * 64 + b % 64, 2) else (rune_error, 1)

pub three : ℕ → ℕ → ℕ → ℕ × ℕ
three a b c =
    if within 0xE0 0xEF a && (second_of_three a b && is_cont c)
    then (a % 16 * 4096 + b % 64 * 64 + c % 64, 3)
    else two a b

pub four : ℕ → ℕ → ℕ → ℕ → ℕ × ℕ
four a b c d =
    if within 0xF0 0xF4 a && (second_of_four a b && (is_cont c && is_cont d))
    then (a % 8 * 262144 + b % 64 * 4096 + c % 64 * 64 + d % 64, 4)
    else three a b c

-- The rune at the front of a text, and its width in bytes. A byte that starts no valid rune
-- counts as `rune_error` of width 1.
unfoldable pub decode_rune : ℕ → Bytes → ℕ × ℕ
decode_rune a [] = if ltb a 0x80 then (a, 1) else (rune_error, 1)
decode_rune a (b ∷ []) = if ltb a 0x80 then (a, 1) else two a b
decode_rune a (b ∷ c ∷ []) = if ltb a 0x80 then (a, 1) else three a b c
decode_rune a (b ∷ c ∷ d ∷ s) = if ltb a 0x80 then (a, 1) else four a b c d

-- The runes of a text; the number is how many bytes of the last rune are still to be passed.
unfoldable pub runes_after : ℕ → Bytes → List ℕ
runes_after skip [] = []
runes_after (suc skip) (a ∷ s) = runes_after skip s
runes_after zero (a ∷ s) = let r = decode_rune a s in r.0 ∷ runes_after (r.1 - 1) s

unfoldable pub runes : Bytes → List ℕ
unfolding runes_after decode_rune two three four
runes s = runes_after 0 s

-- `utf8.RuneLen` and `WriteRune`: a surrogate or a number out of range is written as `rune_error`.
unfoldable pub encode_rune : ℕ → Bytes
encode_rune r =
    if ltb r 0x80
    then r ∷ []
    else if ltb r 0x800
    then (0xC0 + r / 64) ∷ (0x80 + r % 64) ∷ []
    else if ltb r 0xD800 || within 0xE000 0xFFFF r
    then (0xE0 + r / 4096) ∷ (0x80 + r / 64 % 64) ∷ (0x80 + r % 64) ∷ []
    else if within 0x10000 0x10FFFF r
    then (0xF0 + r / 262144) ∷ (0x80 + r / 4096 % 64) ∷ (0x80 + r / 64 % 64) ∷ (0x80 + r % 64) ∷ []
    else 0xEF ∷ 0xBF ∷ 0xBD ∷ []

unfoldable pub encode : List ℕ → Bytes
encode [] = []
encode (r ∷ rs) = encode_rune r ++ encode rs

-- A Unicode scalar value.
abbrev pub IsScalar : ℕ → Type 0
IsScalar r = (r < 0xD800) ⊎ ((0xE000 ≤ r) × (r ≤ 0x10FFFF))

pub encode_rune-ascii : (r : ℕ) → r < 0x80 → encode_rune r ≡ r ∷ []
unfolding encode_rune
encode_rune-ascii r h = ground arith

pub encode_rune-high : (r : ℕ) → 0x80 ≤ r → All (λ c. 0x80 ≤ c) (encode_rune r)
unfolding encode_rune
encode_rune-high r h = ground arith

-- An ASCII byte is a rune of width 1.
pub decode_rune-ascii : (a : ℕ) (s : Bytes) → a < 0x80 → decode_rune a s ≡ (a, 1)
unfolding decode_rune
decode_rune-ascii a [] h = ground arith
decode_rune-ascii a (b ∷ []) h = ground arith
decode_rune-ascii a (b ∷ c ∷ []) h = ground arith
decode_rune-ascii a (b ∷ c ∷ d ∷ s) h = ground arith

two-high : (a b : ℕ) → 0x80 ≤ a → 0x80 ≤ (two a b).0
unfolding two
two-high a b h = ground arith

three-high : (a b c : ℕ) → 0x80 ≤ a → 0x80 ≤ (three a b c).0
unfolding three
three-high a b c h = ground (arith, two-high a b)

four-high : (a b c d : ℕ) → 0x80 ≤ a → 0x80 ≤ (four a b c d).0
unfolding four
four-high a b c d h = ground (arith, three-high a b c)

two-below : (a b : ℕ) → a < 0xC2 → two a b ≡ (rune_error, 1)
unfolding two
two-below a b h = ground arith

three-below : (a b c : ℕ) → a < 0xE0 → three a b c ≡ two a b
unfolding three
three-below a b c h = ground arith

four-below : (a b c d : ℕ) → a < 0xF0 → four a b c d ≡ three a b c
unfolding four
four-below a b c d h = ground arith

two-encode : (r : ℕ) → 0x80 ≤ r → r < 0x800 → two (0xC0 + r / 64) (0x80 + r % 64) ≡ (r, 2)
unfolding two
two-encode r h k = ground arith

three-encode :
    (r : ℕ)
    → 0x800 ≤ r
    → (r < 0xD800) ⊎ ((0xE000 ≤ r) × (r ≤ 0xFFFF))
    → three (0xE0 + r / 4096) (0x80 + r / 64 % 64) (0x80 + r % 64) ≡ (r, 3)
unfolding three
three-encode r h k = ground arith

four-encode :
    (r : ℕ)
    → 0x10000 ≤ r
    → r ≤ 0x10FFFF
    → four (0xF0 + r / 262144) (0x80 + r / 4096 % 64) (0x80 + r / 64 % 64) (0x80 + r % 64) ≡ (r, 4)
unfolding four
four-encode r h k = ground arith

decode_rune-two : (a b : ℕ) (s : Bytes) → 0x80 ≤ a → a < 0xE0 → decode_rune a (b ∷ s) ≡ two a b
unfolding decode_rune
decode_rune-two a b [] h k = ground arith
decode_rune-two a b (c ∷ []) h k = ground (arith, three-below a b c)
decode_rune-two a b (c ∷ d ∷ s) h k = ground (arith, four-below a b c d, three-below a b c)

decode_rune-three :
    (a b c : ℕ) (s : Bytes) → 0x80 ≤ a → a < 0xF0 → decode_rune a (b ∷ c ∷ s) ≡ three a b c
unfolding decode_rune
decode_rune-three a b c [] h k = ground arith
decode_rune-three a b c (d ∷ s) h k = ground (arith, four-below a b c d)

decode_rune-four :
    (a b c d : ℕ) (s : Bytes) → 0x80 ≤ a → decode_rune a (b ∷ c ∷ d ∷ s) ≡ four a b c d
unfolding decode_rune
decode_rune-four a b c d s h = ground arith

pub decode_rune-high : (a : ℕ) (s : Bytes) → 0x80 ≤ a → 0x80 ≤ (decode_rune a s).0
unfolding decode_rune
decode_rune-high a [] h = ground arith
decode_rune-high a (b ∷ []) h = ground (arith, two-high a b)
decode_rune-high a (b ∷ c ∷ []) h = ground (arith, three-high a b c)
decode_rune-high a (b ∷ c ∷ d ∷ s) h = ground (arith, four-high a b c d)

-- A byte that continues a rune starts none.
pub decode_rune-cont : (a : ℕ) (s : Bytes) → 0x80 ≤ a → a < 0xC2 → decode_rune a s ≡ (rune_error, 1)
unfolding decode_rune
decode_rune-cont a [] h k = ground arith
decode_rune-cont a (b ∷ s) h k = rw (decode_rune-two a b s h (omega arith)) (two-below a b k)

runes_after-step :
    (a : ℕ) (s : Bytes) {r w : ℕ}
    → decode_rune a s ≡ (r, w)
    → runes_after 0 (a ∷ s) ≡ r ∷ runes_after (w - 1) s
unfolding runes_after
runes_after-step a s e = rw e

pub runes_after-encode_rune :
    (r : ℕ) (s : Bytes) → IsScalar r → runes_after 0 (encode_rune r ++ s) ≡ r ∷ runes_after 0 s
unfolding runes_after encode_rune
runes_after-encode_rune r s h = ground (
  arith,
  decode_rune-ascii r s,
  decode_rune-two (0xC0 + r / 64) (0x80 + r % 64) s,
  two-encode r,
  decode_rune-three (0xE0 + r / 4096) (0x80 + r / 64 % 64) (0x80 + r % 64) s,
  three-encode r,
  decode_rune-four (0xF0 + r / 262144) (0x80 + r / 4096 % 64) (0x80 + r / 64 % 64) (0x80 + r % 64)
      s,
  four-encode r,
)

runes_after-encode : (rs : List ℕ) → All IsScalar rs → runes_after 0 (encode rs) ≡ rs
unfolding encode
runes_after-encode [] h = unfold runes_after in refl
runes_after-encode (r ∷ rs) h =
    rw (runes_after-encode_rune r (encode rs) h.0, runes_after-encode rs h.1)

-- Reading back what was written.
pub runes-encode : (rs : List ℕ) → All IsScalar rs → runes (encode rs) ≡ rs
unfolding runes
runes-encode = runes_after-encode

pub runes_one-cont : (c : ℕ) → 0x80 ≤ c → c < 0xC2 → runes (c ∷ []) ≡ rune_error ∷ []
unfolding runes
runes_one-cont c h k = runes_after-step c [] (decode_rune-cont c [] h k)

-- The bytes that a rune passes over continue it.
abbrev pub Conts : ℕ → Bytes → Type 0
Conts zero s = Unit
Conts (suc k) [] = Unit
Conts (suc k) (c ∷ s) = (0x80 ≤ c) × (c < 0xC0) × Conts k s

two-Conts : (a b : ℕ) (s : Bytes) → Conts ((two a b).1 - 1) (b ∷ s)
unfolding two
two-Conts a b s = elim (Bool-cases (within 0xC2 0xDF a && is_cont b)) [
  | inl t ↦ rw t (ground arith)
  | inr f ↦ rw f tt
]

three-Conts : (a b c : ℕ) (s : Bytes) → Conts ((three a b c).1 - 1) (b ∷ c ∷ s)
unfolding three
three-Conts a b c s = elim (Bool-cases (within 0xE0 0xEF a && (second_of_three a b && is_cont c))) [
  | inl t ↦ rw t (ground arith)
  | inr f ↦ rw f (two-Conts a b (c ∷ s))
]

four-Conts : (a b c d : ℕ) (s : Bytes) → Conts ((four a b c d).1 - 1) (b ∷ c ∷ d ∷ s)
unfolding four
four-Conts a b c d s =
    elim (Bool-cases (within 0xF0 0xF4 a && (second_of_four a b && (is_cont c && is_cont d)))) [
      | inl t ↦ rw t (ground arith)
      | inr f ↦ rw f (three-Conts a b c (d ∷ s))
    ]

pub decode_rune-Conts : (a : ℕ) (s : Bytes) → Conts ((decode_rune a s).1 - 1) s
unfolding decode_rune
decode_rune-Conts a [] = elim (Bool-cases (ltb a 0x80)) [ inl t ↦ rw t tt | inr f ↦ rw f tt ]
decode_rune-Conts a (b ∷ []) = elim (Bool-cases (ltb a 0x80)) [
  | inl t ↦ rw t tt
  | inr f ↦ rw f (two-Conts a b [])
]
decode_rune-Conts a (b ∷ c ∷ []) = elim (Bool-cases (ltb a 0x80)) [
  | inl t ↦ rw t tt
  | inr f ↦ rw f (three-Conts a b c [])
]
decode_rune-Conts a (b ∷ c ∷ d ∷ s) = elim (Bool-cases (ltb a 0x80)) [
  | inl t ↦ rw t tt
  | inr f ↦ rw f (four-Conts a b c d s)
]

sample :
    runes (codes "a" ++ (0xC3 ∷ 0xA9 ∷ 0xE2 ∷ 0x82 ∷ 0xAC ∷ 0xF0 ∷ 0x9F ∷ 0x98 ∷ 0x80 ∷ 0xFF ∷ []))
    ≡ b'a' ∷ 0xE9 ∷ 0x20AC ∷ 0x1F600 ∷ rune_error ∷ []
unfolding runes
sample = refl
