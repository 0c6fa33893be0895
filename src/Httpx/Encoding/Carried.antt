-- ===== src/Httpx/Encoding/Carried.antt =====
-- What a client and a handler with the encodings of httpx/encoding.go promise each other, over what
-- carries the responses between them.
use netx.Base.{
  ℕ, ◌≤◌, ◌≢◌, ◌≡◌, ap, ◌∙◌, true, false, List, [], ◌∷◌, Option, none, some, if◌then◌else◌, Bytes,
  codes, is_empty, if_true, if_false,
}
use netx.Httpx.Encoding.{
  ContentEncoding, put_values, delete, encoding_of, Response, accept_encoding, content_encoding,
  content_length, Handler, Answer, as_it_came, with_decoder, Returned, decode_response,
}
use netx.Httpx.Header.{Header, first, values}

-- The status allows a body.
abbrev pub AllowsBody : ℕ → Type 0
AllowsBody status = (200 ≤ status) × (status ≢ 204) × (status ≢ 304)

-- A handler that leaves the response's Content-Encoding and Content-Length as they are, and answers
-- with a status that allows a body.
pub record Plain (handler : Handler) : Type 0 where
  pub keeps_encoding :
      (req h : Header) → (handler req h).header content_encoding ≡ h content_encoding
  pub keeps_length : (req h : Header) → (handler req h).header content_length ≡ h content_length
  pub allows : (req h : Header) → AllowsBody (handler req h).status

-- A response as it arrives: other fields than Content-Encoding may differ.
abbrev pub Same : Response → Response → Type 0
Same sent got =
    (got.status ≡ sent.status)
    × (got.body ≡ sent.body)
    × (got.header content_encoding ≡ sent.header content_encoding)

-- A way of responses from a server to a client, by the method of the request; none for an error. The
-- response to a request other than HEAD, with a status that allows a body and without a declared
-- length, arrives.
pub record Carrier : Type 0 where
  pub carry : Bytes → Response → Option Response
  pub carries :
      (method : Bytes) (sent : Response)
      → method ≢ codes "HEAD"
      → AllowsBody sent.status
      → sent.header content_length ≡ none
      → (got : Response) × (carry method sent ≡ some got) × Same sent got

-- The handler saw the request and the response's header as they came, or without Accept-Encoding and
-- with the Content-Encoding of one of the encodings in place of the Content-Length.
pub data Calls (l : List ContentEncoding) (req h : Header) : Header → Header → Type 0 where
  untouched : Calls l req h req h
  encoded :
      (c : Bytes) (e : ContentEncoding)
      → encoding_of l c ≡ some e
      → Calls l req h
          (delete req accept_encoding)
          (delete (put_values h content_encoding (c ∷ [])) content_length)

-- The answer of the client's transport is not marked as encoded, and has the status and the body of
-- the handler's response.
abbrev pub Answers : List ContentEncoding → Handler → Header → Header → Returned → Type 0
Answers l handler req h r =
    (res : Answer) × (r ≡ (some res, false))
    × (res.header content_encoding ≡ none)
    × (seen : Header) × (header : Header) × Calls l req h seen header
    × (res.status ≡ (handler seen header).status)
    × (res.body ≡ some (handler seen header).body)

values-none : (h : Header) (k : Bytes) → h k ≡ none → values h k ≡ []
unfolding values
values-none h k e =
    let pick : Option (List Bytes) → List Bytes = λ o. elim o [ none ↦ [] | some l ↦ l ] in
    ap pick e

values-some : (h : Header) (k : Bytes) (l : List Bytes) → h k ≡ some l → values h k ≡ l
unfolding values
values-some h k l e =
    let pick : Option (List Bytes) → List Bytes = λ o. elim o [ none ↦ [] | some l ↦ l ] in
    ap pick e

pub decode_response-plain :
    (l : List ContentEncoding) (res : Response)
    → res.header content_encoding ≡ none
    → decode_response l res ≡ (some (as_it_came res), false)
unfolding decode_response
decode_response-plain l res e =
    if_true _ _ _ (ap is_empty (values-none res.header content_encoding e))

pub decode_response-encoded :
    (l : List ContentEncoding) (res : Response) (e : ContentEncoding) (coding : Bytes)
    → res.header content_encoding ≡ some (coding ∷ [])
    → encoding_of l coding ≡ some e
    → e.can_read res.body ≡ true
    → decode_response l res ≡ (some (with_decoder e res), false)
unfolding decode_response
decode_response-encoded l res e coding h f d =
    let v = values-some res.header content_encoding (coding ∷ []) h in
    let pick : Option ContentEncoding → Returned = λ o. elim o [
      | none ↦ (some (as_it_came res), false)
      | some e ↦
          if e.can_read res.body
          then (some (with_decoder e res), false)
          else (some (as_it_came res), true)
    ] in
    if_false _ _ _ (ap is_empty v)
    ∙ ap (λ w. pick (encoding_of l (first w))) v
    ∙ ap pick f
    ∙ if_true _ _ _ d
