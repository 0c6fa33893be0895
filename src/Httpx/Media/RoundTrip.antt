-- ===== src/Httpx/Media/RoundTrip.antt =====
-- Media parameters and ranges are read back from their formatted text.
use netx.Base.{
  ℕ, zero, suc, ◌≤◌, ◌≡◌, ◌≢◌, refl, ap, ◌∙◌, true, false, List, [], ◌∷◌, ◌++◌, Option, none, some,
  inl, inr, arith, Bytes, length, take, drop, All, append_assoc, append-nil, Option-cases,
  take-length-append, drop-add_one, take-length, drop-length, drop-length-append, length-append,
  Lacks, index_byte, index_byte-append, index_byte-Lacks, All-append,
}
use netx.Utf8.{encode, IsScalar}
use netx.Httpx.Lex.{is_token, is_token_byte, trim_ows, is_ows}
use netx.Httpx.Lex.Laws.{
  is_token_iff, IsTokenByte, StartsTrimmed, EndsTrimmed, EndsTrimmed-append, trim_ows-fixed,
}
use netx.Httpx.Media.{
  MediaParam, MediaRange, MediaType, format_param, format_params, format_range, parse_media_param,
  parse_params, parse_media_range, sub_parts, range_parts, format_type, parse_media_type,
}
use netx.Httpx.Quote.{escape, format_quoted, parse_quoted}
use netx.Httpx.Quote.RoundTrip.{
  escaped, escape_rune-some, escape_rune-none, format_quoted-cases, parse_quoted-format_quoted,
}
use netx.Httpx.Result.{ok}

-- No token holds a byte that is no token byte.
All-token-Lacks : (s : Bytes) (b : ℕ) → is_token_byte b ≡ false → All IsTokenByte s → Lacks b s
All-token-Lacks [] b n h = tt
All-token-Lacks (c ∷ s) b n h = ((λ e. cc), All-token-Lacks s b n h.1)

pub token-Lacks : (s : Bytes) (b : ℕ) → is_token_byte b ≡ false → is_token s ≡ true → Lacks b s
token-Lacks s b n h = All-token-Lacks s b n ((is_token_iff s).0 h).1

-- A value that is valid UTF-8.
pub record IsText (v : Bytes) : Type 0 where
  pub text_runes : List ℕ
  pub scalars : All IsScalar text_runes
  pub spells : v ≡ encode text_runes

pub record IsParam (p : MediaParam) : Type 0 where
  pub name_token : is_token p.name ≡ true
  pub value_text : IsText p.value

parse_quoted-IsText : (v : Bytes) → IsText v → parse_quoted (format_quoted v) ≡ ok v
parse_quoted-IsText v t = rw (t.spells) (parse_quoted-format_quoted t.text_runes t.scalars)

-- A parameter with a token for its name and text for its value is read back.
pub parse_media_param-format_param :
    (p : MediaParam) → IsParam p → parse_media_param (format_param p) ≡ ok p
unfolding parse_media_param format_param is_token_byte
parse_media_param-format_param p h = rw (
  index_byte-append p.name b'=' (format_quoted p.value) (token-Lacks p.name b'=' refl h.name_token),
  parse_media_param,
  take-length-append p.name (b'=' ∷ format_quoted p.value),
  drop-add_one p.name b'=' (format_quoted p.value),
  h.name_token,
  parse_quoted-IsText p.value h.value_text,
)

-- A media type made of two tokens is read back.
pub parse_media_type-format_type :
    (t : MediaType)
    → is_token t.typ ≡ true
    → is_token t.sub ≡ true
    → parse_media_type (format_type t) ≡ ok t
unfolding parse_media_type format_type is_token_byte
parse_media_type-format_type t h k = rw (
  index_byte-append t.typ b'/' t.sub (token-Lacks t.typ b'/' refl h),
  parse_media_type,
  take-length-append t.typ (b'/' ∷ t.sub),
  drop-add_one t.typ b'/' t.sub,
  h,
  k,
)

token_byte-not_ows : (c : ℕ) → is_token_byte c ≡ true → is_ows c ≡ false
unfolding is_token_byte is_ows
token_byte-not_ows c h = ground arith

escape-ne : (c d : ℕ) → escape c ≡ some d → c ≢ b';' → d ≢ b';'
unfolding escape
escape-ne c d h k = ground arith

escaped-Lacks : (v : Bytes) → Lacks b';' v → Lacks b';' (escaped v)
unfolding escaped
escaped-Lacks [] h = tt
escaped-Lacks (c ∷ v) h = elim (Option-cases (escape c)) [
  | inl e ↦ rw (escape_rune-none c e) (h.0, escaped-Lacks v h.1)
  | inr (d, e) ↦
      rw (escape_rune-some c d e)
        ((λ x. absurd (omega arith)), (escape-ne c d e h.0, escaped-Lacks v h.1))
]

format_quoted-Lacks : (v : Bytes) → Lacks b';' v → Lacks b';' (format_quoted v)
format_quoted-Lacks v h = elim (format_quoted-cases v) [
  | inl (t, e) ↦ rw e h
  | inr e ↦ rw e (
    (λ x. absurd (omega arith)),
    All-append (λ c. c ≢ b';') (escaped v) (b'"' ∷ []) (escaped-Lacks v h)
        ((λ x. absurd (omega arith)), tt),
  )
]

token-EndsTrimmed : (s : Bytes) → All IsTokenByte s → EndsTrimmed s
token-EndsTrimmed [] h = tt
token-EndsTrimmed (c ∷ []) h = token_byte-not_ows c h.0
token-EndsTrimmed (c ∷ d ∷ s) h = token-EndsTrimmed (d ∷ s) h.1

format_quoted_end : (v : Bytes) → (format_quoted v ≢ []) × EndsTrimmed (format_quoted v)
format_quoted_end v = elim (format_quoted-cases v) [
  | inl (t, e) ↦ rw e (((is_token_iff v).0 t).0, token-EndsTrimmed v ((is_token_iff v).0 t).1)
  | inr e ↦ rw e (
    (λ x. cc),
    EndsTrimmed-append (b'"' ∷ escaped v) (b'"' ∷ []) (λ x. cc) (unfold is_ows in refl),
  )
]

append-ne-nil : (s t : Bytes) → t ≢ [] → s ++ t ≢ []
append-ne-nil [] t h = h
append-ne-nil (c ∷ s) t h = λ e. cc

token-StartsTrimmed : (s t : Bytes) → is_token s ≡ true → StartsTrimmed (s ++ t)
token-StartsTrimmed [] t h = absurd (((is_token_iff []).0 h).0 refl)
token-StartsTrimmed (c ∷ s) t h = token_byte-not_ows c ((is_token_iff (c ∷ s)).0 h).1.0

-- A parameter that a range keeps: its value holds no `;`.
pub record IsRangeParam (p : MediaParam) : Type 0 where
  pub is_param : IsParam p
  pub no_semicolon : Lacks b';' p.value

format_param-Lacks : (p : MediaParam) → IsRangeParam p → Lacks b';' (format_param p)
unfolding format_param is_token_byte
format_param-Lacks p h =
    All-append (λ c. c ≢ b';') p.name (b'=' ∷ format_quoted p.value)
      (token-Lacks p.name b';' refl h.is_param.name_token)
      ((λ x. absurd (omega arith)), format_quoted-Lacks p.value h.no_semicolon)

trim_ows-format_param : (p : MediaParam) → IsParam p → trim_ows (format_param p) ≡ format_param p
unfolding format_param
trim_ows-format_param p h =
    let (n, e) = format_quoted_end p.value in
    trim_ows-fixed (p.name ++ (b'=' ∷ format_quoted p.value))
      (token-StartsTrimmed p.name (b'=' ∷ format_quoted p.value) h.name_token)
      (EndsTrimmed-append p.name (b'=' ∷ format_quoted p.value) (λ x. cc)
        (EndsTrimmed-append (b'=' ∷ []) (format_quoted p.value) n e))

-- The index at which a round of the loop cuts `s3`.
abbrev cut_or : Bytes → Option ℕ → ℕ
cut_or s3 o = elim o [ none ↦ length s3 | some i ↦ i ]

abbrev cut_at : Bytes → ℕ
cut_at s3 = cut_or s3 (index_byte s3 b';')

format_param-ne-nil : (p : MediaParam) (t : Bytes) → format_param p ++ t ≢ []
unfolding format_param
format_param-ne-nil p t =
    rw (append_assoc p.name (b'=' ∷ format_quoted p.value) t) (append-ne-nil p.name _ (λ e. cc))

cut_last : (s : Bytes) → Lacks b';' s → (take (cut_at s) s ≡ s) × (drop (cut_at s) s ≡ [])
cut_last s h =
    let e : cut_at s ≡ length s = ap (cut_or s) (index_byte-Lacks s b';' h) in
    rw e (take-length s, drop-length s)

cut_here :
    (s t : Bytes)
    → Lacks b';' s
    → (take (cut_at (s ++ (b';' ∷ t))) (s ++ (b';' ∷ t)) ≡ s)
      × (drop (cut_at (s ++ (b';' ∷ t))) (s ++ (b';' ∷ t)) ≡ b';' ∷ t)
cut_here s t h =
    let u = s ++ (b';' ∷ t) in
    let e : cut_at u ≡ length s = ap (cut_or u) (index_byte-append s b';' t h) in
    rw e (take-length-append s _, drop-length-append s _)

parse_params_step :
    (fuel : ℕ) (s : Bytes) {p : MediaParam} {mp : List MediaParam}
    → s ≢ []
    → parse_media_param (trim_ows (take (cut_at s) s)) ≡ ok p
    → parse_params fuel (drop 1 (drop (cut_at s) s)) ≡ ok mp
    → parse_params (suc fuel) s ≡ ok (p ∷ mp)
unfolding parse_params
parse_params_step fuel [] n h k = absurd (n refl)
parse_params_step fuel (c ∷ s) n h k = rw (parse_params, h, k)

length-zero : (s : Bytes) → length s ≡ 0 → s ≡ []
length-zero [] h = refl
length-zero (c ∷ s) h = absurd (omega arith)

parse_params_end : (fuel : ℕ) → parse_params fuel [] ≡ ok []
unfolding parse_params
parse_params_end zero = refl
parse_params_end (suc fuel) = refl

parse_params-format_params :
    (ps : List MediaParam) (p : MediaParam) (fuel : ℕ)
    → All IsRangeParam (p ∷ ps)
    → length (format_param p ++ format_params ps) ≤ fuel
    → parse_params fuel (format_param p ++ format_params ps) ≡ ok (p ∷ ps)
unfolding format_params
parse_params-format_params ps p zero h l =
    absurd (format_param-ne-nil p (format_params ps) (length-zero _ (omega arith)))
parse_params-format_params [] p (suc fuel) h l =
    let (t, d) = cut_last (format_param p) (format_param-Lacks p h.0) in
    rw (append-nil (format_param p)) (
      parse_params_step fuel (format_param p) (rw (append-nil _) at (format_param-ne-nil p []))
        (rw (t, trim_ows-format_param p h.0.is_param)
          (parse_media_param-format_param p h.0.is_param))
        (rw d (parse_params_end fuel)))
parse_params-format_params (q ∷ ps) p (suc fuel) h l =
    let s = format_param q ++ format_params ps in
    let (t, d) = cut_here (format_param p) s (format_param-Lacks p h.0) in
    let fits = length-append (format_param p) (b';' ∷ s) in
    parse_params_step fuel (format_param p ++ (b';' ∷ s)) (format_param-ne-nil p (b';' ∷ s))
      (rw (t, trim_ows-format_param p h.0.is_param) (parse_media_param-format_param p h.0.is_param))
      (rw d (parse_params-format_params ps q fuel h.1 (omega (arith, fits))))

pub record IsRange (r : MediaRange) : Type 0 where
  pub typ_token : is_token r.typ ≡ true
  pub sub_token : is_token r.sub ≡ true
  pub range_params : All IsRangeParam r.params

-- `s1`, `s2` and `s3` of a formatted range.
params_tail : List MediaParam → Bytes
params_tail [] = []
params_tail (p ∷ ps) = format_param p ++ format_params ps

sub_parts-format_params :
    (sub : Bytes) (ps : List MediaParam)
    → is_token sub ≡ true
    → sub_parts (sub ++ format_params ps) ≡ (sub, params_tail ps)
unfolding sub_parts format_params params_tail is_token_byte
sub_parts-format_params sub [] h =
    ap sub_parts (append-nil sub)
    ∙ rw (index_byte-Lacks sub b';' (token-Lacks sub b';' refl h), sub_parts)
sub_parts-format_params sub (p ∷ ps) h =
    let t = format_param p ++ format_params ps in
    rw (
      index_byte-append sub b';' t (token-Lacks sub b';' refl h),
      sub_parts,
      take-length-append sub (b';' ∷ t),
      drop-add_one sub b';' t,
    )

range_parts-format_range :
    (r : MediaRange)
    → IsRange r
    → range_parts (format_range r) ≡ some (r.typ, (r.sub, params_tail r.params))
unfolding range_parts format_range is_token_byte
range_parts-format_range r h =
    let t = r.sub ++ format_params r.params in
    rw (
      index_byte-append r.typ b'/' t (token-Lacks r.typ b'/' refl h.typ_token),
      range_parts,
      take-length-append r.typ (b'/' ∷ t),
      drop-add_one r.typ b'/' t,
      sub_parts-format_params r.sub r.params h.sub_token,
    )

parse_params-tail :
    (ps : List MediaParam)
    → All IsRangeParam ps
    → parse_params (length (params_tail ps)) (params_tail ps) ≡ ok ps
unfolding params_tail
parse_params-tail [] h = parse_params_end 0
parse_params-tail (p ∷ ps) h = parse_params-format_params ps p _ h (omega arith)

-- A range whose parameters have no `;` in their values is read back.
pub parse_media_range-format_range :
    (r : MediaRange) → IsRange r → parse_media_range (format_range r) ≡ ok r
unfolding parse_media_range
parse_media_range-format_range r h = rw (
  range_parts-format_range r h,
  parse_media_range,
  h.typ_token,
  h.sub_token,
  parse_params-tail r.params h.range_params,
)
