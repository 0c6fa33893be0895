-- ===== src/Httpx/Proto/Tokens.antt =====
-- Taking tokens out of the values of a header (httpx/proto.go), against a description of the values
-- that stay.
use mathlib.Core.Path.{subst}
use netx.Base.{
  ℕ, ◌+◌, ◌≤◌, ◌<◌, ◌≡◌, refl, sym, ap, ◌∙◌, ◌⊎◌, inl, inr, true, false, List, [], ◌∷◌, map, arith,
  Bytes, codes, All, Bool-cases, join, is_empty, if◌then◌else◌, if_true, if_false,
}
use netx.Httpx.Lex.Laws.{token_equal_iff}
use netx.Httpx.Lex.{lower_ascii, token_equal}
use netx.Httpx.Proto.Hop.{Any}
use netx.Httpx.Proto.Values.{IsValue, texts, remove_tokens-cons}
use netx.Httpx.Proto.{any_equal, keep_values, header_values_remove_tokens}

-- A capital letter of ASCII, and the small one 32 behind it.
abbrev pub Capital : ℕ → ℕ → Type 0
Capital c d = (65 ≤ c) × (c ≤ 90) × (d ≡ c + 32)

-- The same letter, in any case.
abbrev pub SameLetter : ℕ → ℕ → Type 0
SameLetter c d = (c ≡ d) ⊎ (Capital c d ⊎ Capital d c)

abbrev pub SameLetters : Bytes → Bytes → Type 0
SameLetters [] [] = Unit
SameLetters [] (d ∷ t) = ⊥
SameLetters (c ∷ s) [] = ⊥
SameLetters (c ∷ s) (d ∷ t) = SameLetter c d × SameLetters s t

-- A token of ASCII bytes and a value with the same letters.
abbrev pub SameToken : Bytes → Bytes → Type 0
SameToken t v = All (λ c. c < 128) t × SameLetters t v

lower-SameLetter : (c d : ℕ) → lower_ascii c ≡ lower_ascii d → SameLetter c d
unfolding lower_ascii
lower-SameLetter c d e = ground arith

SameLetter-lower : (c d : ℕ) → SameLetter c d → lower_ascii c ≡ lower_ascii d
unfolding lower_ascii
SameLetter-lower c d h = ground arith

lower-SameLetters : (s t : Bytes) → map lower_ascii s ≡ map lower_ascii t → SameLetters s t
lower-SameLetters [] [] e = tt
lower-SameLetters [] (d ∷ t) e = cc e
lower-SameLetters (c ∷ s) [] e = cc e
lower-SameLetters (c ∷ s) (d ∷ t) e = (lower-SameLetter c d cc, lower-SameLetters s t cc)

SameLetters-lower : (s t : Bytes) → SameLetters s t → map lower_ascii s ≡ map lower_ascii t
SameLetters-lower [] [] h = refl
SameLetters-lower [] (d ∷ t) h = absurd h
SameLetters-lower (c ∷ s) [] h = absurd h
SameLetters-lower (c ∷ s) (d ∷ t) h =
    let e = SameLetter-lower c d h.0 in let f = SameLetters-lower s t h.1 in cc (e, f)

-- The value is one of the tokens.
abbrev pub IsOneOf : List Bytes → Bytes → Type 0
IsOneOf tokens v = Any (λ t. SameToken t v) tokens

any_equal-IsOneOf : (v : Bytes) (tokens : List Bytes) → any_equal v tokens ≡ true → IsOneOf tokens v
any_equal-IsOneOf v [] e = cc e
any_equal-IsOneOf v (t ∷ tokens) e = elim (Bool-cases (token_equal t v)) [
  | inl h ↦ let (a, l) = (token_equal_iff t v).0 h in inl (a, lower-SameLetters t v l)
  | inr f ↦ inr (any_equal-IsOneOf v tokens (ground (arith, e, f)))
]

any_equal-not : (v : Bytes) (tokens : List Bytes) → any_equal v tokens ≡ false → ¬ IsOneOf tokens v
any_equal-not v [] e h = h
any_equal-not v (t ∷ tokens) e (inl h) =
    let same = (token_equal_iff t v).1 (h.0, SameLetters-lower t v h.1) in ground (arith, e, same)
any_equal-not v (t ∷ tokens) e (inr h) = any_equal-not v tokens (ground (arith, e)) h

-- The values of a text without those that are one of the tokens, the others in their order.
pub data Without (tokens : List Bytes) : List Bytes → List Bytes → Type 0 where
  done : Without tokens [] []
  drops :
      {v : Bytes} {vs ws : List Bytes}
      → IsOneOf tokens v
      → Without tokens vs ws
      → Without tokens (v ∷ vs) ws
  keeps :
      {v : Bytes} {vs ws : List Bytes}
      → ¬ IsOneOf tokens v
      → Without tokens vs ws
      → Without tokens (v ∷ vs) (v ∷ ws)

keep_values-Without : (tokens vs : List Bytes) → Without tokens vs (keep_values tokens vs)
unfolding keep_values
keep_values-Without tokens [] = done
keep_values-Without tokens (v ∷ vs) =
    let rest = keep_values tokens vs in
    let at = Without tokens (v ∷ vs) in
    elim (Bool-cases (any_equal v tokens)) [
      | inl t ↦
          subst at (sym (if_true rest (v ∷ rest) _ t))
            (drops (any_equal-IsOneOf v tokens t) (keep_values-Without tokens vs))
      | inr f ↦
          subst at (sym (if_false rest (v ∷ rest) _ f))
            (keeps (any_equal-not v tokens f) (keep_values-Without tokens vs))
    ]

-- The same for the texts of a header; a text of which no value stays is left out.
pub data Removed (tokens : List Bytes) : List (List Bytes) → List (List Bytes) → Type 0 where
  nothing_left : Removed tokens [] []
  leaves_out :
      {l : List Bytes} {ls ms : List (List Bytes)}
      → Without tokens l []
      → Removed tokens ls ms
      → Removed tokens (l ∷ ls) ms
  leaves :
      {l m : List Bytes} {v : Bytes} {ls ms : List (List Bytes)}
      → Without tokens l (v ∷ m)
      → Removed tokens ls ms
      → Removed tokens (l ∷ ls) ((v ∷ m) ∷ ms)

-- What a text adds to the texts behind it.
abbrev added : List Bytes → List (List Bytes) → List (List Bytes)
added [] ms = ms
added (v ∷ m) ms = (v ∷ m) ∷ ms

added-texts :
    (item : List Bytes) (ms : List (List Bytes))
    → (if is_empty item then texts ms else join item (codes ", ") ∷ texts ms)
      ≡ texts (added item ms)
added-texts [] ms = refl
added-texts (v ∷ m) ms = refl

added-Removed :
    (tokens l item : List Bytes) (ls ms : List (List Bytes))
    → Without tokens l item
    → Removed tokens ls ms
    → Removed tokens (l ∷ ls) (added item ms)
added-Removed tokens l [] ls ms h r = leaves_out h r
added-Removed tokens l (v ∷ m) ls ms h r = leaves h r

-- For texts that are values joined by a comma and a space, each value without a comma, not empty and
-- without white space at an end, `headerValuesRemoveTokens` gives such texts again, of the values that
-- are none of the tokens, in their order and each in the place of its text; a text of which no value
-- stays is left out. A value is a token if both have the same letters, in any case, and the token is
-- ASCII.
pub header_values_remove_tokens-Removed :
    (ls : List (List Bytes)) (tokens : List Bytes)
    → All (All IsValue) ls
    → (ms : List (List Bytes)) × (header_values_remove_tokens (texts ls) tokens ≡ texts ms)
      × Removed tokens ls ms
header_values_remove_tokens-Removed [] tokens h =
    ([], unfold header_values_remove_tokens in refl, nothing_left)
header_values_remove_tokens-Removed (l ∷ ls) tokens h =
    let (ms, e, r) = header_values_remove_tokens-Removed ls tokens h.1 in
    let item = keep_values tokens l in
    let behind : List Bytes → List Bytes =
      λ rest. if is_empty item then rest else join item (codes ", ") ∷ rest in
    (
      added item ms,
      remove_tokens-cons l (texts ls) tokens h.0 ∙ ap behind e ∙ added-texts item ms,
      added-Removed tokens l item ls ms (keep_values-Without tokens l) r,
    )
