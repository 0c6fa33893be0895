-- ===== src/Tests/Encoding.antt =====
-- A body that is encoded by a byte before it, and decoded.
use netx.Base.{
  ◌≡◌, ◌≢◌, ◌∙◌, ap, inl, inr, arith, List, Bool-cases, bytes_eq_iff, if_false, if◌then◌else◌, refl,
  Bool, true, false, [], ◌∷◌, Option, none, some, Bytes, codes, bytes_eq, join,
}
use netx.Httpx.AcceptEncoding.{AcceptEncodingItem, negotiate_encoding}
use netx.Httpx.Encoding.Carried.{AllowsBody, Plain, Same, Carrier, Answers}
use netx.Httpx.Encoding.Compose.{served, encoding_transport-encoding_handler}
use netx.Httpx.Encoding.{
  ContentEncoding, put_values, Response, accept_encoding, content_encoding, content_length, Handler,
  as_it_came, encoding_handler, encoding_of, encoding_transport, decode_response,
}
use netx.Httpx.Quote.{split_trim_ows}
use netx.Httpx.Sort.{Sort}
use netx.Tests.Floats.{tenths}
use netx.Tests.Responses.{no_header}
use netx.Tests.Sorting.{by_insertion, insert_by, insertion_sort}

abbrev unmark : Bytes → Option Bytes
unmark [] = none
unmark (c ∷ b) = some b

abbrev starts_marked : Bytes → Bool
starts_marked [] = false
starts_marked (c ∷ b) = true

abbrev marked : ContentEncoding
marked = record {
  coding = codes "mark";
  can_write = true;
  encode = λ b. b'!' ∷ b;
  can_read = starts_marked;
  decode = unmark;
  can_read-encode = λ b. refl;
  decode_encode = λ b. refl;
}

abbrev hello : Handler
hello req h = record { status = 200; header = h; body = codes "hello" }

hello-Plain : Plain hello
hello-Plain = record {
  keeps_encoding = λ req h. refl;
  keeps_length = λ req h. refl;
  allows = λ req h. (omega arith, (λ e. omega (arith, e)), (λ e. omega (arith, e)));
}

-- Responses to HEAD and those with a declared length are lost.
abbrev lossy : Bytes → Response → Option Response
lossy method sent =
    if bytes_eq method (codes "HEAD")
    then none
    else elim (sent.header content_length) [ none ↦ some sent | some l ↦ none ]

lossy-carries :
    (method : Bytes) (sent : Response)
    → method ≢ codes "HEAD"
    → AllowsBody sent.status
    → sent.header content_length ≡ none
    → (got : Response) × (lossy method sent ≡ some got) × Same sent got
lossy-carries method sent m a k =
    let pick : Option (List Bytes) → Option Response =
      λ o. elim o [ none ↦ some sent | some l ↦ none ] in
    elim (Bool-cases (bytes_eq method (codes "HEAD"))) [
      | inl t ↦ absurd (m ((bytes_eq_iff method (codes "HEAD")).0 t))
      | inr f ↦ (sent, if_false _ _ _ f ∙ ap pick k, (refl, refl, refl))
    ]

abbrev carrier : Carrier
carrier = record { carry = lossy; carries = lossy-carries }

abbrev sorted : Sort (AcceptEncodingItem tenths)
sorted = by_insertion (AcceptEncodingItem tenths)

encoding_transport-encoding_handler_example :
    Answers
      (marked ∷ [])
      hello
      (put_values no_header accept_encoding (codes "mark" ∷ []))
      no_header
      (encoding_transport
        (marked ∷ [])
        (served tenths sorted carrier (marked ∷ []) hello (codes "GET") no_header)
        no_header)
unfolding join
encoding_transport-encoding_handler_example =
    encoding_transport-encoding_handler tenths sorted carrier (marked ∷ []) hello (codes "GET")
      no_header no_header hello-Plain (λ e. cc e) refl refl

-- A body that cannot be decoded is an error.
abbrev cut_short : Response
cut_short = record {
  status = 200;
  header = put_values no_header content_encoding (codes "mark" ∷ []);
  body = [];
}

broken : decode_response (marked ∷ []) cut_short ≡ (some (as_it_came cut_short), true)
unfolding decode_response put_values encoding_of bytes_eq
broken = refl

-- What the handler sends before it is decoded.
abbrev body_of : Option Response → Bytes
body_of none = []
body_of (some res) = res.body

sent :
    body_of (
      encoding_handler tenths
        (by_insertion (AcceptEncodingItem tenths))
        (marked ∷ [])
        hello
        (put_values no_header accept_encoding (codes "mark" ∷ []))
        no_header)
    ≡ codes "!hello"
unfolding encoding_handler put_values bytes_eq negotiate_encoding encoding_of split_trim_ows
    insertion_sort insert_by
sent = refl
