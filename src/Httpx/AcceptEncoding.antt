-- ===== src/Httpx/AcceptEncoding.antt =====
-- httpx/accept.go, the Accept-Encoding header: items, their order, the parser and the negotiation.
pub mod Choice
use netx.Base.{
  ℕ, zero, suc, ◌+◌, Bool, true, false, not, ◌&&◌, ◌||◌, List, [], ◌∷◌, ◌++◌, Option, none, some,
  if◌then◌else◌, Bytes, codes, length, take, drop, bytes_eq, index_byte,
}
use netx.Httpx.Float.{Float32}
use netx.Httpx.Lex.{is_token, trim_ows}
use netx.Httpx.Media.{parse_media_param, media_type_less}
use netx.Httpx.Quote.{split_trim_ows}
use netx.Httpx.Result.{
  Result, ok, err, ◌>>=◌, ◌>>◌, or_error, guard, Error, invalid_accept_encoding,
}
use netx.Httpx.Sort.{Sort}

pub record AcceptEncodingItem (F : Float32) : Type 0 where
  pub coding : Bytes
  pub q : F.Value

-- The loop of `AcceptEncoding.Negotiate` over the offered codings, for one item.
unfoldable pub first_coding : Bytes → List Bytes → Option Bytes
first_coding wanted [] = none
first_coding wanted (coding ∷ codings) =
    let rest = first_coding wanted codings in if bytes_eq coding wanted then some coding else rest

module _ (F : Float32) where
  open F use {Value, parse, one, print, less, equal}

  unfoldable pub format_encoding_item : AcceptEncodingItem F → Bytes
  format_encoding_item item = item.coding ++ (codes ";q=" ++ print item.q)

  unfoldable pub format_accept_encoding : List (AcceptEncodingItem F) → Bytes
  format_accept_encoding [] = []
  format_accept_encoding (a ∷ []) = format_encoding_item a
  format_accept_encoding (a ∷ b ∷ l) =
      format_encoding_item a ++ (codes ", " ++ format_accept_encoding (b ∷ l))

  unfoldable pub parse_accept_encoding_item : Bytes → Result (AcceptEncodingItem F)
  unfolding index_byte parse_media_param bytes_eq
  parse_accept_encoding_item s = elim (index_byte s b';') [
    | none ↦ do guard (is_token s) (invalid_accept_encoding s); ok (record { coding = s; q = one })
    | some i ↦ do
      p ← or_error (parse_media_param (trim_ows (drop (i + 1) s))) (invalid_accept_encoding s)
      guard (bytes_eq p.name (b'q' ∷ [])) (invalid_accept_encoding s)
      guard (is_token (take i s)) (invalid_accept_encoding s)
      ok (record { coding = take i s; q = parse p.value })
  ]

  unfoldable pub negotiate_codings : List (AcceptEncodingItem F) → List Bytes → Bytes
  unfolding first_coding
  negotiate_codings [] codings = []
  negotiate_codings (acc ∷ accept) codings =
      let rest = negotiate_codings accept codings in
      elim (first_coding acc.coding codings) [ none ↦ rest | some coding ↦ coding ]

  -- `AcceptEncoding.Less`
  unfoldable pub encoding_less : AcceptEncodingItem F → AcceptEncodingItem F → Bool
  encoding_less ai aj = less aj.q ai.q || (equal ai.q aj.q && media_type_less ai.coding aj.coding)

  -- The loop of `ParseAcceptEncoding`, with the length of the text as fuel.
  unfoldable pub parse_encoding_items :
      ℕ → List (AcceptEncodingItem F) → Bytes → List (AcceptEncodingItem F) × Option Error
  parse_encoding_items fuel accept [] = (accept, none)
  parse_encoding_items zero accept (c ∷ s) = (accept, some (invalid_accept_encoding (c ∷ s)))
  parse_encoding_items (suc fuel) accept (c ∷ s) =
      let (head, tail) = split_trim_ows (c ∷ s) b',' in
      elim (parse_accept_encoding_item head) [
        | err e ↦ (accept, some e)
        | ok item ↦ parse_encoding_items fuel (accept ++ (item ∷ [])) tail
      ]

  module _ (S : Sort (AcceptEncodingItem F)) where
    abbrev pub sort_encodings :
        List (AcceptEncodingItem F) × Option Error → List (AcceptEncodingItem F) × Option Error
    sort_encodings (accept, none) = (S.sort encoding_less accept, none)
    sort_encodings (accept, some e) = (accept, some e)

    unfoldable pub parse_accept_encoding : Bytes → List (AcceptEncodingItem F) × Option Error
    unfolding parse_encoding_items parse_accept_encoding_item encoding_less
    parse_accept_encoding s = sort_encodings (parse_encoding_items (length s) [] s)

    -- `NegotiateEncoding`, which drops the error.
    unfoldable pub negotiate_encoding : Bytes → List Bytes → Bytes
    unfolding parse_accept_encoding negotiate_codings
    negotiate_encoding accept codings = negotiate_codings (parse_accept_encoding accept).0 codings
