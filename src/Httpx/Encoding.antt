-- ===== src/Httpx/Encoding.antt =====
-- httpx/encoding.go: the transport that decodes responses and the handler that encodes them.
pub mod Carried
pub mod Compose
use netx.Base.{
  ℕ, ◌≡◌, Bool, true, false, List, [], ◌∷◌, Option, none, some, if◌then◌else◌, Bytes, codes,
  bytes_eq, is_empty, join,
}
use netx.Httpx.AcceptEncoding.{AcceptEncodingItem, negotiate_encoding}
use netx.Httpx.Float.{Float32}
use netx.Httpx.Header.{Header, first, values}
use netx.Httpx.Sort.{Sort}
use netx.Strconv.{ℤ, negsuc}

-- `ContentEncoding` on whole bodies: whether a writer can be made, what it writes for a body until it
-- is closed, whether a reader can be made for a body, and what it reads, none for an error.
pub record ContentEncoding : Type 0 where
  pub coding : Bytes
  pub can_write : Bool
  pub encode : Bytes → Bytes
  pub can_read : Bytes → Bool
  pub decode : Bytes → Option Bytes
  pub can_read-encode : (b : Bytes) → can_read (encode b) ≡ true
  pub decode_encode : (b : Bytes) → decode (encode b) ≡ some b

-- A package of `compress`, by the level: writing, and reading, with its documented round trip.
pub record Algorithm : Type 0 where
  pub can_write : ℤ → Bool
  pub encode : ℤ → Bytes → Bytes
  pub can_read : Bytes → Bool
  pub decode : Bytes → Option Bytes
  pub can_read-encode : (level : ℤ) (b : Bytes) → can_read (encode level b) ≡ true
  pub decode_encode : (level : ℤ) (b : Bytes) → decode (encode level b) ≡ some b

-- The encoding with this coding, of the package and the level.
unfoldable pub encoding_at : Bytes → Algorithm → ℤ → ContentEncoding
encoding_at coding A level = record {
  coding = coding;
  can_write = A.can_write level;
  encode = A.encode level;
  can_read = A.can_read;
  decode = A.decode;
  can_read-encode = A.can_read-encode level;
  decode_encode = A.decode_encode level;
}

-- The algorithms' `DefaultCompression`
abbrev default_level : ℤ
default_level = negsuc 0

module _ (flate gzip zlib : Algorithm) where
  unfoldable pub deflate_encoding : ℤ → ContentEncoding
  unfolding encoding_at
  deflate_encoding level = encoding_at (codes "deflate") flate level

  unfoldable pub gzip_encoding : ℤ → ContentEncoding
  unfolding encoding_at
  gzip_encoding level = encoding_at (codes "gzip") gzip level

  unfoldable pub zlib_encoding : ℤ → ContentEncoding
  unfolding encoding_at
  zlib_encoding level = encoding_at (codes "zlib") zlib level

  unfoldable pub default_encodings : List ContentEncoding
  unfolding gzip_encoding zlib_encoding deflate_encoding
  default_encodings =
      gzip_encoding default_level
      ∷ zlib_encoding default_level
      ∷ deflate_encoding default_level
      ∷ []

-- `h[name] = l` and `delete(h, name)`
unfoldable pub put_values : Header → Bytes → List Bytes → Header
unfolding bytes_eq
put_values h name l key = if bytes_eq key name then some l else h key

unfoldable pub delete : Header → Bytes → Header
unfolding bytes_eq
delete h name key = if bytes_eq key name then none else h key

abbrev pub codings : List ContentEncoding → List Bytes
codings [] = []
codings (e ∷ l) = e.coding ∷ codings l

-- The map of the encodings by their coding: the last with a coding has it.
unfoldable pub encoding_of : List ContentEncoding → Bytes → Option ContentEncoding
unfolding bytes_eq
encoding_of [] name = none
encoding_of (e ∷ l) name = elim (encoding_of l name) [
  | some x ↦ some x
  | none ↦ if bytes_eq e.coding name then some e else none
]

pub record Response : Type 0 where
  pub status : ℕ
  pub header : Header
  pub body : Bytes

abbrev pub accept_encoding : Bytes
accept_encoding = codes "Accept-Encoding"

abbrev pub content_encoding : Bytes
content_encoding = codes "Content-Encoding"

abbrev pub content_length : Bytes
content_length = codes "Content-Length"

-- A handler: from the request's header and the response's header so far, the response.
abbrev pub Handler : Type 0
Handler = Header → Header → Response

-- The handler's writes go through the encoding's writer, which is closed after it.
abbrev pub encode_response : ContentEncoding → Response → Response
encode_response e res = record res { body = e.encode res.body }

-- The handler is called with the negotiated coding; none for the panic of a missing encoding.
unfoldable pub encode_with :
    Handler → Bytes → Option ContentEncoding → Header → Header → Option Response
unfolding put_values delete
encode_with handler coding none req h = none
encode_with handler coding (some e) req h =
    let h' = delete (put_values h content_encoding (coding ∷ [])) content_length in
    if e.can_write
    then some (encode_response e (handler (delete req accept_encoding) h'))
    else some (handler req h)

module _ (F : Float32) (S : Sort (AcceptEncodingItem F)) where
  -- The handler that `NewEncodingHandler` makes of a handler and a list of encodings.
  unfoldable pub encoding_handler :
      List ContentEncoding → Handler → Header → Header → Option Response
  unfolding encode_with encoding_of values
  encoding_handler encodings handler req h =
      let accept = values req accept_encoding in
      let coding = negotiate_encoding F S (first accept) (codings encodings) in
      if is_empty accept
      then some (handler req h)
      else if is_empty coding
      then some (handler req h)
      else encode_with handler coding (encoding_of encodings coding) req h

-- A response as the client reads it; no body if reading it ends with an error.
pub record Answer : Type 0 where
  pub status : ℕ
  pub header : Header
  pub body : Option Bytes

abbrev pub as_it_came : Response → Answer
as_it_came res = record { status = res.status; header = res.header; body = some res.body }

-- The response with a decoder on its body.
unfoldable pub with_decoder : ContentEncoding → Response → Answer
unfolding delete
with_decoder e res = record {
  status = res.status;
  header = delete (delete res.header content_length) content_encoding;
  body = e.decode res.body;
}

-- What `RoundTrip` returns: a response or nil, and whether there is an error.
abbrev pub Returned : Type 0
Returned = Option Answer × Bool

-- The response of the transport below with its body decoded.
unfoldable pub decode_response : List ContentEncoding → Response → Returned
unfolding encoding_of with_decoder values
decode_response encodings res =
    let coding = values res.header content_encoding in
    if is_empty coding
    then (some (as_it_came res), false)
    else elim (encoding_of encodings (first coding)) [
      | none ↦ (some (as_it_came res), false)
      | some e ↦
          if e.can_read res.body
          then (some (with_decoder e res), false)
          else (some (as_it_came res), true)
    ]

-- `RoundTrip` of the transport that `NewEncodingTransport` makes, over a transport that returns a
-- response for the request's header, none for an error. Without arguments the encodings are
-- `default_encodings`, here and in the handler.
unfoldable pub encoding_transport :
    List ContentEncoding → (Header → Option Response) → Header → Returned
unfolding decode_response put_values join
encoding_transport encodings transport req =
    elim (transport (put_values req accept_encoding (join (codings encodings) (codes ", ") ∷ []))) [
      | none ↦ (none, true)
      | some res ↦ decode_response encodings res
    ]
