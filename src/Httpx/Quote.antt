-- ===== src/Httpx/Quote.antt =====
-- httpx/quote.go: quoted strings, and cutting a text at a separator outside of them.
pub mod Split
pub mod RoundTrip
use netx.Base.{
  ℕ, zero, suc, ◌+◌, ◌-◌, ◌≡◌, refl, Bool, true, false, not, ◌&&◌, ◌||◌, List, [], ◌∷◌, ◌++◌,
  Option, none, some, ltb, ◌==◌, if◌then◌else◌, Bytes, codes, length, take, drop, get_or,
}
use netx.Utf8.{runes, encode_rune, decode_rune}
use netx.Httpx.Lex.{is_token, trim_ows}
use netx.Httpx.Result.{Result, ok, err, invalid_quoted_string}

-- `type quoted string`
abbrev pub Quoted : Type 0
Quoted = Bytes

-- The switch of `parseQuoted`: what an escaped rune stands for.
unfoldable pub unescape : ℕ → ℕ
unescape c =
    if c == b'n'
    then b'\n'
    else if c == b'r'
    then b'\r'
    else if c == b't'
    then b'\t'
    else if c == b'v'
    then 0x0B
    else if c == b'f'
    then 0x0C
    else if c == b'b'
    then 0x08
    else if c == b'0'
    then 0x00
    else c

-- The loop of `parseQuoted` over the runes between the quotes; `e` is set behind a backslash, and
-- `b` is the buffer. None for an error.
unfoldable pub unquote : List ℕ → Bool → Bytes → Option Bytes
unquote [] e b = if e then none else some b
unquote (c ∷ cs) true b = unquote cs false (b ++ encode_rune (unescape c))
unquote (c ∷ cs) false b = elim (c == b'\\') [
  | true ↦ unquote cs true b
  | false ↦ elim (c == b'"') [ true ↦ none | false ↦ unquote cs false (b ++ encode_rune c) ]
]

abbrev pub or_invalid : Bytes → Option Quoted → Result Quoted
or_invalid s none = err (invalid_quoted_string s)
or_invalid s (some q) = ok q

unfoldable pub parse_quoted : Bytes → Result Quoted
unfolding unquote unescape runes encode_rune is_token
parse_quoted s =
    let n = length s in
    if is_token s
    then ok s
    else if ltb n 2 || not (get_or s 0 0 == b'"') || not (get_or s (n - 1) 0 == b'"')
    then err (invalid_quoted_string s)
    else or_invalid s (unquote (runes (take (n - 2) (drop 1 s))) false [])

-- The switch of `writeQuoted`: the byte to put behind a backslash, none for `continue`.
unfoldable pub escape : ℕ → Option ℕ
escape c =
    if c == b'\\' || c == b'"'
    then some c
    else if c == b'\n'
    then some b'n'
    else if c == b'\r'
    then some b'r'
    else if c == b'\t'
    then some b't'
    else if c == 0x0C
    then some b'f'
    else if c == 0x0B
    then some b'v'
    else if c == 0x08
    then some b'b'
    else if c == 0x00
    then some b'0'
    else none

-- The loop of `writeQuoted`: what is written so far, `s[i:j]`, and `s[j:]`.
unfoldable pub write_from : Bytes → Bytes → Bytes → Bytes
write_from w pending [] = w ++ (pending ++ (b'"' ∷ []))
write_from w pending (c ∷ s) = elim (escape c) [
  | some d ↦ write_from (w ++ (pending ++ (b'\\' ∷ d ∷ []))) [] s
  | none ↦ write_from w (pending ++ (c ∷ [])) s
]

-- `writeQuoted` appends to `w`.
unfoldable pub write_quoted : Bytes → Bytes → Bytes
unfolding write_from escape
write_quoted w s = write_from (w ++ (b'"' ∷ [])) [] s

unfoldable pub quote : Bytes → Bytes
unfolding write_quoted
quote s = write_quoted [] s

-- `quoted.Format`: a token as it is, anything else in quotes.
unfoldable pub format_quoted : Quoted → Bytes
unfolding write_quoted is_token
format_quoted q = if is_token q then q else write_quoted [] q

-- What one byte outside or inside of quotes does to the flags `e` and `q` of `split`.
unfoldable pub split_step : Bool → Bool → ℕ → Bool × Bool
split_step e q c =
    if q
    then (if e
        then (false, q)
        else if c == b'\\'
        then (true, q)
        else if c == b'"'
        then (e, false)
        else (e, q))
    else if c == b'"'
    then (e, true)
    else (e, q)

-- The test on which `split` returns.
unfoldable pub split_here : Bool → ℕ → ℕ → Bool
split_here q b c = not q && (not (c == b'"') && c == b)

-- The loop `for i := range s` of `split`: the index at which the text is cut. `skip` bytes of the
-- last rune are still to be passed.
unfoldable pub split_index : ℕ → Bool → Bool → ℕ → Bytes → Option ℕ
split_index skip e q b [] = none
split_index (suc skip) e q b (c ∷ s) = elim (split_index skip e q b s) [
  | none ↦ none
  | some i ↦ some (suc i)
]
split_index zero e q b (c ∷ s) =
    let f = split_step e q c in
    let rest = split_index ((decode_rune c s).1 - 1) f.0 f.1 b s in
    if split_here q b c then some 0 else elim rest [ none ↦ none | some i ↦ some (suc i) ]

unfoldable pub split : Bytes → ℕ → Bytes × Bytes
unfolding split_index split_step split_here decode_rune
split s b = elim (split_index 0 false false b s) [
  | none ↦ (s, [])
  | some i ↦ (take i s, drop (i + 1) s)
]

unfoldable pub split_trim_ows : Bytes → ℕ → Bytes × Bytes
unfolding split trim_ows
split_trim_ows s b = let (head, tail) = split s b in (trim_ows head, trim_ows tail)
