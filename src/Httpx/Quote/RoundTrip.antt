-- ===== src/Httpx/Quote/RoundTrip.antt =====
-- A quoted string is read back.
use netx.Base.{
  ℕ, suc, ◌-◌, ◌≤◌, ◌<◌, ◌≡◌, ◌≢◌, refl, sym, ◌∙◌, true, false, List, [], ◌∷◌, ◌++◌, none, some,
  ◌⊎◌, inl, inr, arith, Bytes, length, get_or, All, append_assoc, append-nil, Bool-cases,
  Option-cases, All-append, dec_lt, length-append, take-length-append,
}
use netx.Utf8.{
  encode_rune-ascii, encode_rune-high, runes, encode_rune, encode, IsScalar, runes-encode,
  runes_one-cont, rune_error,
}
use netx.Httpx.Lex.{is_token, is_token_byte}
use netx.Httpx.Lex.Laws.{is_token_iff}
use netx.Httpx.Quote.{
  or_invalid, unescape, unquote, parse_quoted, escape, write_from, quote, format_quoted,
}
use netx.Httpx.Result.{ok}

-- The runes, and so the bytes, that stand between the quotes.
pub escape_rune : ℕ → List ℕ
escape_rune r = elim (escape r) [ some d ↦ b'\\' ∷ d ∷ [] | none ↦ r ∷ [] ]

unfoldable pub escaped : List ℕ → List ℕ
escaped [] = []
escaped (r ∷ rs) = escape_rune r ++ escaped rs

pub escape_rune-some : (r d : ℕ) → escape r ≡ some d → escape_rune r ≡ b'\\' ∷ d ∷ []
unfolding escape_rune
escape_rune-some r d e = rw (e, escape_rune)

pub escape_rune-none : (r : ℕ) → escape r ≡ none → escape_rune r ≡ r ∷ []
unfolding escape_rune
escape_rune-none r e = rw (e, escape_rune)

write_from-step :
    (c : ℕ) (s w pending : Bytes)
    → ((d : ℕ) × (escape c ≡ some d)
        × (write_from w pending (c ∷ s) ≡ write_from (w ++ (pending ++ (b'\\' ∷ d ∷ []))) [] s))
      ⊎ (escape c ≡ none) × (write_from w pending (c ∷ s) ≡ write_from w (pending ++ (c ∷ [])) s)
unfolding write_from
write_from-step c s w pending = elim (Option-cases (escape c)) [
  | inl e ↦ inr (e, rw (e, write_from))
  | inr (d, e) ↦ inl (d, e, rw (e, write_from))
]

-- The writer with no accumulator.
write_from-append :
    (s w pending : Bytes) → write_from w pending s ≡ w ++ (pending ++ (escaped s ++ (b'"' ∷ [])))
unfolding escaped
write_from-append [] w pending = unfold write_from in refl
write_from-append (c ∷ s) w pending = elim (write_from-step c s w pending) [
  | inr (e, f) ↦
      rw (f, escape_rune-none c e) (write_from-append s w (pending ++ (c ∷ [])) ∙ simp append_assoc)
  | inl (d, e, f) ↦
      rw (f, escape_rune-some c d e)
        (write_from-append s (w ++ (pending ++ (b'\\' ∷ d ∷ []))) [] ∙ simp append_assoc)
]

pub quote-escaped : (s : Bytes) → quote s ≡ b'"' ∷ (escaped s ++ (b'"' ∷ []))
unfolding quote
quote-escaped s = write_from-append s (b'"' ∷ []) []

escape-high : (c : ℕ) → 0x80 ≤ c → escape c ≡ none
unfolding escape
escape-high c h = ground arith

escape-ascii : (r d : ℕ) → escape r ≡ some d → (r < 0x80) × (d < 0x80) × (unescape d ≡ r)
unfolding escape unescape
escape-ascii r d h = ground arith

pub escape-none : (r : ℕ) → escape r ≡ none → (r ≢ b'\\') × (r ≢ b'"')
unfolding escape
escape-none r h = ground arith

escaped-append : (s t : List ℕ) → escaped (s ++ t) ≡ escaped s ++ escaped t
unfolding escaped
escaped-append [] t = refl
escaped-append (c ∷ s) t = simp (escaped-append s t, append_assoc)

escaped-high : (s : Bytes) → All (λ c. 0x80 ≤ c) s → escaped s ≡ s
unfolding escaped
escaped-high [] h = refl
escaped-high (c ∷ s) h = rw (escape_rune-none c (escape-high c h.0), escaped-high s h.1)

encode-append : (s t : List ℕ) → encode (s ++ t) ≡ encode s ++ encode t
unfolding encode
encode-append [] t = refl
encode-append (c ∷ s) t = simp (encode-append s t, append_assoc)

encode_two : (c d : ℕ) → c < 0x80 → d < 0x80 → encode (c ∷ d ∷ []) ≡ c ∷ d ∷ []
unfolding encode
encode_two c d h k = rw (encode_rune-ascii c h, encode_rune-ascii d k)

encode_one : (r : ℕ) → encode (r ∷ []) ≡ encode_rune r
unfolding encode
encode_one r = append-nil (encode_rune r)

escaped_one : (r : ℕ) → escaped (r ∷ []) ≡ escape_rune r
unfolding escaped
escaped_one r = append-nil (escape_rune r)

escaped-encode_rune : (r : ℕ) → escaped (encode_rune r) ≡ encode (escape_rune r)
escaped-encode_rune r = elim (dec_lt r 0x80) [
  | yes h ↦
      rw (encode_rune-ascii r h, escaped_one r)
        (elim (Option-cases (escape r)) [
          | inl e ↦ rw (escape_rune-none r e, encode_one r, encode_rune-ascii r h)
          | inr (d, e) ↦
              rw (escape_rune-some r d e, encode_two b'\\' d (omega arith) (escape-ascii r d e).1)
        ])
  | no h ↦
      let high : 0x80 ≤ r = omega arith in
      rw (
        escaped-high (encode_rune r) (encode_rune-high r high),
        escape_rune-none r (escape-high r high),
        encode_one r,
      )
]

escaped-encode : (rs : List ℕ) → escaped (encode rs) ≡ encode (escaped rs)
unfolding encode escaped
escaped-encode [] = refl
escaped-encode (r ∷ rs) =
    escaped-append (encode_rune r) (encode rs)
    ∙ rw (escaped-encode_rune r, escaped-encode rs)
        (sym (encode-append (escape_rune r) (escaped rs)))

unquote-escape_rune :
    (r : ℕ) (rs : List ℕ) (b : Bytes)
    → unquote (escape_rune r ++ rs) false b ≡ unquote rs false (b ++ encode_rune r)
unfolding unquote
unquote-escape_rune r rs b = elim (Option-cases (escape r)) [
  | inl e ↦ rw (escape_rune-none r e) (ground (arith, escape-none r e))
  | inr (d, e) ↦ rw (escape_rune-some r d e) (ground (arith, escape-ascii r d e))
]

unquote-escaped : (rs : List ℕ) (b : Bytes) → unquote (escaped rs) false b ≡ some (b ++ encode rs)
unfolding escaped encode
unquote-escaped [] b = rw append-nil (unfold unquote in refl)
unquote-escaped (r ∷ rs) b =
    unquote-escape_rune r (escaped rs) b ∙ unquote-escaped rs (b ++ encode_rune r) ∙ rw append_assoc

escape_rune-IsScalar : (r : ℕ) → IsScalar r → All IsScalar (escape_rune r)
escape_rune-IsScalar r h = elim (Option-cases (escape r)) [
  | inl e ↦ rw (escape_rune-none r e) (h, tt)
  | inr (d, e) ↦
      let small = escape-ascii r d e in rw (escape_rune-some r d e) (omega arith, (omega arith, tt))
]

escaped-IsScalar : (rs : List ℕ) → All IsScalar rs → All IsScalar (escaped rs)
unfolding escaped
escaped-IsScalar [] h = tt
escaped-IsScalar (r ∷ rs) h =
    All-append IsScalar (escape_rune r) (escaped rs) (escape_rune-IsScalar r h.0)
      (escaped-IsScalar rs h.1)

quote-ne-token : (s : Bytes) → is_token (b'"' ∷ s) ≡ false
unfolding is_token_byte
quote-ne-token s = elim (Bool-cases (is_token (b'"' ∷ s))) [
  | inl t ↦ cc (((is_token_iff (b'"' ∷ s)).0 t).1.0)
  | inr f ↦ f
]

get_or-last : (s : Bytes) (c d : ℕ) → get_or (s ++ (c ∷ [])) (length s) d ≡ c
get_or-last [] c d = refl
get_or-last (x ∷ s) c d = get_or-last s c d

-- A text between double quotes is read by the loop.
pub parse_quoted-quoted :
    (s : Bytes)
    → parse_quoted (b'"' ∷ (s ++ (b'"' ∷ [])))
      ≡ or_invalid (b'"' ∷ (s ++ (b'"' ∷ []))) (unquote (runes s) false [])
unfolding parse_quoted
parse_quoted-quoted s =
    let t = s ++ (b'"' ∷ []) in
    let last : suc (length t) - 1 ≡ length (b'"' ∷ s) =
      omega (arith, length-append s (b'"' ∷ [])) in
    let inner : suc (length t) - 2 ≡ length s = omega (arith, length-append s (b'"' ∷ [])) in
    rw (quote-ne-token t, last, inner, get_or-last s b'"' 0, take-length-append s (b'"' ∷ []))
      (ground (arith, length-append s (b'"' ∷ [])))

-- Every text of valid UTF-8 is read back from its quoted form, whatever characters it holds.
pub parse_quoted-quote :
    (rs : List ℕ) → All IsScalar rs → parse_quoted (quote (encode rs)) ≡ ok (encode rs)
parse_quoted-quote rs h = rw (
  quote-escaped (encode rs),
  parse_quoted-quoted (escaped (encode rs)),
  escaped-encode rs,
  runes-encode (escaped rs) (escaped-IsScalar rs h),
  unquote-escaped rs [],
)

pub format_quoted-cases :
    (v : Bytes)
    → ((is_token v ≡ true) × (format_quoted v ≡ v))
      ⊎ (format_quoted v ≡ b'"' ∷ (escaped v ++ (b'"' ∷ [])))
unfolding format_quoted quote
format_quoted-cases v = elim (Bool-cases (is_token v)) [
  | inl t ↦ inl (t, rw t)
  | inr f ↦ inr (rw f (quote-escaped v))
]

-- Formatting and parsing back, for tokens and quoted strings alike.
pub parse_quoted-format_quoted :
    (rs : List ℕ) → All IsScalar rs → parse_quoted (format_quoted (encode rs)) ≡ ok (encode rs)
unfolding format_quoted quote
parse_quoted-format_quoted rs h = elim (Bool-cases (is_token (encode rs))) [
  | inl t ↦ rw t (unfold parse_quoted in rw t)
  | inr f ↦ rw f (parse_quoted-quote rs h)
]

unquote_error : unquote (rune_error ∷ []) false [] ≡ some (encode_rune rune_error)
unfolding unquote
unquote_error = refl

escape-cont : (c : ℕ) → 0x80 ≤ c → escaped (c ∷ []) ≡ c ∷ []
escape-cont c h = rw (escaped_one c) (escape_rune-none c (escape-high c h))

-- A byte that is no text is lost: it comes back as the replacement character.
pub parse_quoted-quote_invalid :
    (c : ℕ) → 0x80 ≤ c → c < 0xC2 → parse_quoted (quote (c ∷ [])) ≡ ok (encode_rune rune_error)
parse_quoted-quote_invalid c h k = rw (
  quote-escaped (c ∷ []),
  parse_quoted-quoted (escaped (c ∷ [])),
  escape-cont c h,
  runes_one-cont c h k,
  unquote_error,
)
