-- ===== src/Tests/Negotiation.antt =====
-- Accept and Accept-Encoding headers, with one decimal for a quality and an insertion sort.
use netx.Base.{◌≡◌, ◌≤◌, refl, true, [], ◌∷◌, none, arith, Bytes, codes, length, join}
use netx.Httpx.Accept.Choice.{Outcome, negotiate-Outcome}
use netx.Httpx.Accept.Order.{IsNumber, accept_less_cycle, accept_less-IsStrictWeak}
use netx.Httpx.Accept.Parse.{Reads, nil, cons, parse_items-join, parse_items_fuel}
use netx.Httpx.Accept.{
  AcceptItem, parse_accept_item, parse_items, accept_less, name_less, negotiate,
}
use netx.Httpx.AcceptEncoding.Choice.{
  HasNumber, CodingOutcome, negotiate_encoding-CodingOutcome, encoding_less-IsStrictWeak,
}
use netx.Httpx.AcceptEncoding.{
  AcceptEncodingItem, parse_accept_encoding_item, parse_encoding_items, encoding_less,
  negotiate_encoding,
}
use netx.Httpx.Lex.{is_ows}
use netx.Httpx.Media.{media_type_less, parse_media_type, contains}
use netx.Httpx.Quote.Split.{Unsplit, plain}
use netx.Httpx.Quote.Split
use netx.Httpx.Quote.{split_trim_ows}
use netx.Httpx.Result.{ok}
use netx.Httpx.Sort.{IsStrictWeak}
use netx.Tests.Floats.{tenths, num, nan}
use netx.Tests.Sorting.{by_insertion, insert_by, insertion_sort}

abbrev html : AcceptItem tenths
html = record { typ = codes "text"; sub = codes "html"; q = num 5; params = []; extens = [] }

abbrev png : AcceptItem tenths
png = record { typ = codes "image"; sub = codes "png"; q = num 10; params = []; extens = [] }

abbrev header : Bytes
header = codes "text/html;q=0.5, image/png"

header_items : parse_items tenths (length header) [] header ≡ (html ∷ png ∷ [], none)
unfolding parse_items parse_accept_item split_trim_ows
header_items = refl

negotiated :
    negotiate tenths
      (by_insertion (AcceptItem tenths))
      header
      (codes "text/html" ∷ codes "image/png" ∷ [])
    ≡ codes "image/png"
unfolding negotiate insertion_sort insert_by parse_items split_trim_ows parse_media_type contains
    media_type_less
negotiated = refl

negotiate-Outcome_example :
    Outcome tenths (html ∷ png ∷ []) (codes "text/html" ∷ codes "image/png" ∷ []) (
      negotiate tenths
        (by_insertion (AcceptItem tenths))
        header
        (codes "text/html" ∷ codes "image/png" ∷ []))
negotiate-Outcome_example =
    negotiate-Outcome tenths (by_insertion (AcceptItem tenths)) header
      (codes "text/html" ∷ codes "image/png" ∷ []) (html ∷ png ∷ []) header_items (refl, (refl, tt))

accept_less-IsStrictWeak_instance :
    IsStrictWeak (AcceptItem tenths) (IsNumber tenths) (accept_less tenths)
accept_less-IsStrictWeak_instance = accept_less-IsStrictWeak tenths

abbrev gif : AcceptItem tenths
gif = record { typ = codes "m"; sub = codes "gif"; q = nan; params = []; extens = [] }

abbrev last : AcceptItem tenths
last = record { typ = codes "z"; sub = codes "a"; q = num 10; params = []; extens = [] }

abbrev first : AcceptItem tenths
first = record { typ = codes "a"; sub = codes "a"; q = num 5; params = []; extens = [] }

first-gif : name_less tenths first gif ≡ true
unfolding name_less media_type_less
first-gif = refl

gif-last : name_less tenths gif last ≡ true
unfolding name_less media_type_less
gif-last = refl

accept_less_cycle_instance :
    (accept_less tenths last first ≡ true)
    × (accept_less tenths first gif ≡ true)
    × (accept_less tenths gif last ≡ true)
accept_less_cycle_instance = accept_less_cycle tenths last first gif refl refl first-gif gif-last

abbrev short : AcceptItem tenths
short = record { typ = codes "a"; sub = codes "b"; q = num 10; params = []; extens = [] }

short_text : parse_accept_item tenths (codes "a/b") ≡ ok short
unfolding parse_accept_item
short_text = refl

a_b-Unsplit : Unsplit b',' (codes "a/b")
a_b-Unsplit =
    plain (λ e. absurd (omega arith)) (λ e. absurd (omega arith))
      (plain (λ e. absurd (omega arith)) (λ e. absurd (omega arith))
        (plain (λ e. absurd (omega arith)) (λ e. absurd (omega arith)) Split.nil))

Reads-two : Reads tenths (codes "a/b" ∷ codes "a/b" ∷ []) (short ∷ short ∷ [])
unfolding is_ows
Reads-two =
    cons (λ e. cc) a_b-Unsplit refl refl short_text
      (cons (λ e. cc) a_b-Unsplit refl refl short_text nil)

short_enough : length (join (codes "a/b" ∷ codes "a/b" ∷ []) (codes ", ")) ≤ 8
unfolding join
short_enough = omega arith

parse_items-join_instance :
    parse_items tenths 8 [] (join (codes "a/b" ∷ codes "a/b" ∷ []) (codes ", "))
    ≡ (short ∷ short ∷ [], none)
parse_items-join_instance = parse_items-join tenths 8 [] Reads-two short_enough

parse_items_fuel_example :
    parse_items tenths 3 [] (codes "a/b") ≡ parse_items tenths 9 [] (codes "a/b")
parse_items_fuel_example = parse_items_fuel tenths 3 9 [] (codes "a/b") (omega arith) (omega arith)

abbrev gzip : AcceptEncodingItem tenths
gzip = record { coding = codes "gzip"; q = num 10 }

abbrev deflate : AcceptEncodingItem tenths
deflate = record { coding = codes "deflate"; q = num 5 }

codings_read :
    parse_encoding_items tenths 19 [] (codes "deflate;q=0.5, gzip") ≡ (deflate ∷ gzip ∷ [], none)
unfolding parse_encoding_items parse_accept_encoding_item split_trim_ows
codings_read = refl

agreed_coding :
    negotiate_encoding tenths
      (by_insertion (AcceptEncodingItem tenths))
      (codes "deflate;q=0.5, gzip")
      (codes "deflate" ∷ codes "gzip" ∷ [])
    ≡ codes "gzip"
unfolding negotiate_encoding insertion_sort insert_by split_trim_ows media_type_less
agreed_coding = refl

negotiate_encoding-CodingOutcome_example :
    CodingOutcome tenths (deflate ∷ gzip ∷ []) (codes "deflate" ∷ codes "gzip" ∷ []) (
      negotiate_encoding tenths
        (by_insertion (AcceptEncodingItem tenths))
        (codes "deflate;q=0.5, gzip")
        (codes "deflate" ∷ codes "gzip" ∷ []))
negotiate_encoding-CodingOutcome_example =
    negotiate_encoding-CodingOutcome tenths (by_insertion (AcceptEncodingItem tenths))
      (codes "deflate;q=0.5, gzip") (codes "deflate" ∷ codes "gzip" ∷ []) (deflate ∷ gzip ∷ [])
      codings_read (refl, (refl, tt))

encoding_less-IsStrictWeak_instance :
    IsStrictWeak (AcceptEncodingItem tenths) (HasNumber tenths) (encoding_less tenths)
encoding_less-IsStrictWeak_instance = encoding_less-IsStrictWeak tenths
