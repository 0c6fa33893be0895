-- ===== src/Httpx/Media.antt =====
-- httpx/media.go: media types, ranges and parameters.
pub mod RoundTrip
pub mod Order
use netx.Base.{
  ℕ, zero, suc, ◌+◌, ◌≡◌, refl, Bool, true, false, not, ◌&&◌, ◌||◌, List, [], ◌∷◌, ◌++◌, Option,
  none, some, ◌==◌, if◌then◌else◌, Bytes, codes, length, take, drop, is_empty, index_byte, bytes_eq,
  bytes_lt,
}
use netx.Httpx.Lex.{is_token, trim_ows, token_equal}
use netx.Httpx.Quote.{parse_quoted, format_quoted}
use netx.Httpx.Result.{
  Result, ok, err, ◌>>=◌, ◌>>◌, or_error, guard, Error, invalid_media_range, invalid_media_param,
  invalid_media_type,
}

pub record MediaParam : Type 0 where
  pub name : Bytes
  pub value : Bytes

pub record MediaRange : Type 0 where
  pub typ : Bytes
  pub sub : Bytes
  pub params : List MediaParam

pub record MediaType : Type 0 where
  pub typ : Bytes
  pub sub : Bytes

-- The loop of `MediaRange.Param`.
pub find_param : List MediaParam → Bytes → Bytes
find_param [] name = []
find_param (p ∷ ps) name =
    let rest = find_param ps name in if token_equal p.name name then p.value else rest

unfoldable pub param : MediaRange → Bytes → Bytes
unfolding find_param
param r name = find_param r.params name

-- `MediaParam.Format`
unfoldable pub format_param : MediaParam → Bytes
unfolding format_quoted
format_param p = p.name ++ (b'=' ∷ format_quoted p.value)

-- The loop of `MediaRange.Format`.
unfoldable pub format_params : List MediaParam → Bytes
format_params [] = []
format_params (p ∷ ps) = b';' ∷ (format_param p ++ format_params ps)

unfoldable pub format_range : MediaRange → Bytes
unfolding format_params format_param
format_range r = r.typ ++ (b'/' ∷ (r.sub ++ format_params r.params))

unfoldable pub parse_media_param : Bytes → Result MediaParam
unfolding index_byte is_token parse_quoted
parse_media_param s = elim (index_byte s b'=') [
  | none ↦ err (invalid_media_param s)
  | some i ↦ do
    guard (is_token (take i s)) (invalid_media_param s)
    q ← or_error (parse_quoted (drop (i + 1) s)) (invalid_media_param s)
    ok (record { name = take i s; value = q })
]

-- The loop of `ParseMediaRange` over `s3`, which is shorter after each round: its length is
-- enough fuel. An error of a parameter is replaced by the caller.
unfoldable pub parse_params : ℕ → Bytes → Result (List MediaParam)
unfolding trim_ows
parse_params fuel [] = ok []
parse_params zero (c ∷ s) = err (invalid_media_range (c ∷ s))
parse_params (suc fuel) (c ∷ s) =
    let s3 = c ∷ s in
    let i : ℕ = elim (index_byte s3 b';') [ none ↦ length s3 | some i ↦ i ] in
    do
      p ← parse_media_param (trim_ows (take i s3))
      mp ← parse_params fuel (drop 1 (drop i s3))
      ok (p ∷ mp)

-- `s2` and `s3` of `ParseMediaRange`, from the text behind the slash.
unfoldable pub sub_parts : Bytes → Bytes × Bytes
sub_parts t = elim (index_byte t b';') [ none ↦ (t, []) | some j ↦ (take j t, drop (j + 1) t) ]

-- `s1`, `s2` and `s3`, if there is a slash.
unfoldable pub range_parts : Bytes → Option (Bytes × (Bytes × Bytes))
range_parts s = elim (index_byte s b'/') [
  | none ↦ none
  | some i ↦ some (take i s, sub_parts (drop (i + 1) s))
]

unfoldable pub parse_media_range : Bytes → Result MediaRange
unfolding range_parts sub_parts parse_params parse_media_param
parse_media_range s = elim (range_parts s) [
  | none ↦ err (invalid_media_range s)
  | some (s1, (s2, s3)) ↦ do
    guard (is_token s1) (invalid_media_range s)
    guard (is_token s2) (invalid_media_range s)
    mp ← or_error (parse_params (length s3) s3) (invalid_media_range s)
    ok (record { typ = s1; sub = s2; params = mp })
]

abbrev pub star : Bytes
star = b'*' ∷ []

-- `MediaType.Contains`
unfoldable pub contains : MediaType → MediaType → Bool
unfolding bytes_eq
contains t t2 =
    bytes_eq t.typ star || (bytes_eq t.typ t2.typ && (bytes_eq t.sub star || bytes_eq t.sub t2.sub))

-- `MediaType.Format`
unfoldable pub format_type : MediaType → Bytes
format_type t = t.typ ++ (b'/' ∷ t.sub)

unfoldable pub parse_media_type : Bytes → Result MediaType
unfolding index_byte is_token
parse_media_type s = elim (index_byte s b'/') [
  | none ↦ err (invalid_media_type s)
  | some i ↦
      let s1 = take i s in
      let s2 = drop (i + 1) s in
      if not (is_token s1) || not (is_token s2)
      then err (invalid_media_type s)
      else ok (record { typ = s1; sub = s2 })
]

unfoldable pub media_type_less : Bytes → Bytes → Bool
unfolding bytes_eq bytes_lt
media_type_less t1 t2 =
    if bytes_eq t1 t2
    then false
    else if bytes_eq t1 star
    then false
    else if bytes_eq t2 star
    then true
    else bytes_lt t1 t2
