-- ===== src/Tests/Lexical.antt =====
-- Tokens, white space, quoted strings and media types.
use netx.Base.{
  ◌<◌, ◌≡◌, ◌≢◌, ◌↔◌, refl, true, false, [], ◌∷◌, ◌++◌, map, ◌⊎◌, inl, inr, arith, codes, All,
}
use netx.Utf8.{encode, encode_rune, rune_error, IsScalar}
use netx.Httpx.Lex.{
  is_token, is_ows, trim_ows, token_equal, lower_ascii, header_value_contains_token,
  header_values_contains_token,
}
use netx.Httpx.Lex.Laws.{
  IsTokenByte, is_token_iff, Trims, trim_ows-Trims, Trims-unique, token_equal_iff,
}
use netx.Httpx.Media.{
  MediaRange, MediaType, parse_media_range, parse_media_type, format_range, format_type, contains,
  media_type_less,
}
use netx.Httpx.Media.RoundTrip.{
  IsParam, IsRange, parse_media_range-format_range, parse_media_type-format_type,
}
use netx.Httpx.Quote.{parse_quoted, format_quoted, quote, split, split_index, split_trim_ows}
use netx.Httpx.Quote.RoundTrip.{parse_quoted-format_quoted, parse_quoted-quote_invalid}
use netx.Httpx.Quote.Split.{byte_index, split_index-byte_index, split_cut}
use netx.Httpx.Result.{ok, err, invalid_media_range, invalid_quoted_string}

tokens :
    (is_token (codes "gzip") ≡ true)
    × (is_token [] ≡ false)
    × (is_token (codes "a b") ≡ false)
    × (is_token (b'a' ∷ 0xC3 ∷ 0xA9 ∷ []) ≡ false)
unfolding is_token
tokens = (refl, refl, refl, refl)

trims : trim_ows (codes " \ta b ") ≡ codes "a b"
unfolding trim_ows
trims = refl

header_tokens :
    (header_value_contains_token (codes "keep-alive, Upgrade") (codes "upgrade") ≡ true)
    × (header_values_contains_token (codes "close" ∷ []) (codes "upgrade") ≡ false)
unfolding header_values_contains_token
header_tokens = (refl, refl)

quotes :
    (quote (codes "a\"b\n") ≡ codes "\"a\\\"b\\n\"")
    × (parse_quoted (codes "\"a\\\"b\\n\"") ≡ ok (codes "a\"b\n"))
    × (parse_quoted (codes "\"a") ≡ err (invalid_quoted_string (codes "\"a")))
unfolding quote parse_quoted
quotes = (refl, refl, refl)

splits : split_trim_ows (codes "a;x=\",\" , b") b',' ≡ (codes "a;x=\",\"", codes "b")
unfolding split_trim_ows
splits = refl

ranges :
    (parse_media_range (codes "text/html;level=1; q=0.5")
      ≡ ok (record {
        typ = codes "text";
        sub = codes "html";
        params =
            record { name = codes "level"; value = codes "1" }
            ∷ record { name = codes "q"; value = codes "0.5" }
            ∷ [];
      }))
    × (parse_media_range (codes "text") ≡ err (invalid_media_range (codes "text")))
unfolding parse_media_range
ranges = (refl, refl)

is_token_iff_instance :
    (is_token (codes "gzip") ≡ true) ↔ ((codes "gzip" ≢ []) × All IsTokenByte (codes "gzip"))
is_token_iff_instance = is_token_iff (codes "gzip")

trim_ows-Trims_instance : Trims (codes "\t a ") (trim_ows (codes "\t a "))
trim_ows-Trims_instance = trim_ows-Trims (codes "\t a ")

trimmed : Trims (codes "\t a ") (codes "a")
unfolding is_ows
trimmed = record {
  before = codes "\t ";
  after = codes " ";
  splits = refl;
  before_blank = (inr refl, (inl refl, tt));
  after_blank = (inl refl, tt);
  starts = refl;
  ends = refl;
}

Trims-unique_example : trim_ows (codes "\t a ") ≡ codes "a"
Trims-unique_example = Trims-unique trimmed

token_equal_iff_instance : (token_equal (codes "GZip") (codes "gzip") ≡ true) ↔ (
    All (λ c. c < 0x80) (codes "GZip")
    × (map lower_ascii (codes "GZip") ≡ map lower_ascii (codes "gzip")))
token_equal_iff_instance = token_equal_iff (codes "GZip") (codes "gzip")

-- "é", a quote and a line feed.
scalars : All IsScalar (0xE9 ∷ b'"' ∷ b'\n' ∷ [])
scalars = omega arith

parse_quoted-format_quoted_example :
    parse_quoted (format_quoted (encode (0xE9 ∷ b'"' ∷ b'\n' ∷ [])))
    ≡ ok (encode (0xE9 ∷ b'"' ∷ b'\n' ∷ []))
parse_quoted-format_quoted_example = parse_quoted-format_quoted (0xE9 ∷ b'"' ∷ b'\n' ∷ []) scalars

parse_quoted-quote_invalid_instance : parse_quoted (quote (0xBF ∷ [])) ≡ ok (encode_rune rune_error)
parse_quoted-quote_invalid_instance = parse_quoted-quote_invalid 0xBF (omega arith) (omega arith)

split_index-byte_index_instance :
    split_index 0 false false b',' (0xC3 ∷ b',' ∷ [])
    ≡ byte_index false false b',' (0xC3 ∷ b',' ∷ [])
split_index-byte_index_instance = split_index-byte_index b',' (0xC3 ∷ b',' ∷ []) (omega arith)

split_cut_instance :
    (split (codes "a,b") b',' ≡ (codes "a,b", []))
    ⊎ (codes "a,b" ≡ (split (codes "a,b") b',').0 ++ (b',' ∷ (split (codes "a,b") b',').1))
split_cut_instance = split_cut (codes "a,b") b','

charset-IsParam : IsParam (record { name = codes "charset"; value = codes "utf 8" })
unfolding is_token encode encode_rune
charset-IsParam = record {
  name_token = refl;
  value_text = record { text_runes = codes "utf 8"; scalars = omega arith; spells = refl };
}

abbrev html : MediaRange
html = record {
  typ = codes "text";
  sub = codes "html";
  params = record { name = codes "charset"; value = codes "utf 8" } ∷ [];
}

html-IsRange : IsRange html
unfolding is_token
html-IsRange = record {
  typ_token = refl;
  sub_token = refl;
  range_params = (record { is_param = charset-IsParam; no_semicolon = omega arith }, tt);
}

parse_media_range-format_range_example : parse_media_range (format_range html) ≡ ok html
parse_media_range-format_range_example = parse_media_range-format_range html html-IsRange

abbrev any_text : MediaType
any_text = record { typ = codes "text"; sub = codes "*" }

text_token : is_token (codes "text") ≡ true
unfolding is_token
text_token = refl

star_token : is_token (codes "*") ≡ true
unfolding is_token
star_token = refl

reads_back : parse_media_type (format_type any_text) ≡ ok any_text
reads_back = parse_media_type-format_type any_text text_token star_token

wildcards :
    (contains any_text (record { typ = codes "text"; sub = codes "html" }) ≡ true)
    × (media_type_less (codes "text") (codes "*") ≡ true)
    × (media_type_less (codes "*") (codes "text") ≡ false)
unfolding contains media_type_less
wildcards = (refl, refl, refl)
