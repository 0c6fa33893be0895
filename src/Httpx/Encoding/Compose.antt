-- ===== src/Httpx/Encoding/Compose.antt =====
-- The two sides of httpx/encoding.go together: a client gets the body that the handler wrote.
use mathlib.Core.Path.{subst}
use netx.Base.{
  ◌≢◌, ◌≡◌, refl, sym, ap, ◌∙◌, ◌⊎◌, inl, inr, true, List, [], ◌∷◌, Option, none, some,
  if◌then◌else◌, Bytes, codes, bytes_eq, bytes_eq_iff, is_empty, join, Bool-cases, Option-cases,
  if_true, if_false,
}
use netx.Httpx.AcceptEncoding.{
  AcceptEncodingItem, first_coding, negotiate_codings, parse_accept_encoding, negotiate_encoding,
}
use netx.Httpx.Encoding.Carried.{
  AllowsBody, Plain, Same, Carrier, untouched, encoded, Answers, decode_response-plain,
  decode_response-encoded,
}
use netx.Httpx.Encoding.{
  ContentEncoding, put_values, delete, codings, encoding_of, Response, accept_encoding,
  content_encoding, content_length, Handler, as_it_came, with_decoder, encode_response, encode_with,
  encoding_handler, Returned, decode_response, encoding_transport,
}
use netx.Httpx.Float.{Float32}
use netx.Httpx.Header.{Header, first, values}
use netx.Httpx.Sort.{Sort}

-- The coding is one of the list, by its bytes.
abbrev Offered : List Bytes → Bytes → Type 0
Offered [] c = ⊥
Offered (x ∷ l) c = (x ≡ c) ⊎ Offered l c

some-eq : {A : Type 0} {x y : A} → some x ≡ some y → x ≡ y
some-eq h = cc

first_coding-Offered :
    (wanted c : Bytes) (l : List Bytes) → first_coding wanted l ≡ some c → Offered l c
unfolding first_coding
first_coding-Offered wanted c [] h = cc h
first_coding-Offered wanted c (x ∷ l) h = elim (Bool-cases (bytes_eq x wanted)) [
  | inl t ↦ inl (some-eq (sym (if_true (some x) (first_coding wanted l) _ t) ∙ h))
  | inr t ↦
      inr
        (first_coding-Offered wanted c l (sym (if_false (some x) (first_coding wanted l) _ t) ∙ h))
]

encoding_of-Offered :
    (l : List ContentEncoding) (c : Bytes)
    → Offered (codings l) c
    → (e : ContentEncoding) × (encoding_of l c ≡ some e)
unfolding encoding_of
encoding_of-Offered [] c h = absurd h
encoding_of-Offered (x ∷ l) c h =
    let here : Option ContentEncoding = if bytes_eq x.coding c then some x else none in
    let pick : Option ContentEncoding → Option ContentEncoding =
      λ o. elim o [ some y ↦ some y | none ↦ here ] in
    elim (Option-cases (encoding_of l c)) [
      | inr (e, p) ↦ (e, ap pick p)
      | inl p ↦ elim h [
        | inl q ↦ (x, ap pick p ∙ if_true _ _ _ ((bytes_eq_iff x.coding c).1 q))
        | inr q ↦ let (e, p') = encoding_of-Offered l c q in (e, ap pick p')
      ]
    ]

-- A response is sent that declares no length and allows a body, and the client that gets it has that
-- answer.
Received : Handler → Header → Header → Option Response → List ContentEncoding → Type 0
Received handler req h o l =
    (sent : Response) × (o ≡ some sent)
    × AllowsBody sent.status
    × (sent.header content_length ≡ none)
    × ((got : Response) → Same sent got → Answers l handler req h (decode_response l got))

module _ (F : Float32) (S : Sort (AcceptEncodingItem F)) where
  negotiate_codings-Offered :
      (accept : List (AcceptEncodingItem F)) (l : List Bytes)
      → (negotiate_codings F accept l ≡ []) ⊎ Offered l (negotiate_codings F accept l)
  unfolding negotiate_codings
  negotiate_codings-Offered [] l = inl refl
  negotiate_codings-Offered (a ∷ accept) l =
      let rest = negotiate_codings F accept l in
      let pick : Option Bytes → Bytes = λ o. elim o [ none ↦ rest | some c ↦ c ] in
      elim (Option-cases (first_coding a.coding l)) [
        | inl p ↦
            subst (λ c. (c ≡ []) ⊎ Offered l c) (sym (ap pick p))
              (negotiate_codings-Offered accept l)
        | inr (c, p) ↦
            inr (subst (Offered l) (sym (ap pick p)) (first_coding-Offered a.coding c l p))
      ]

  plain-Received :
      (l : List ContentEncoding) (handler : Handler) (req h : Header)
      → Plain handler
      → h content_encoding ≡ none
      → h content_length ≡ none
      → Received handler req h (some (handler req h)) l
  unfolding Received
  plain-Received l handler req h p hn hl =
      let sent = handler req h in
      let e = p.keeps_encoding req h ∙ hn in
      (
        sent,
        refl,
        p.allows req h,
        p.keeps_length req h ∙ hl,
        λ got same. (
          as_it_came got,
          decode_response-plain l got (same.2 ∙ e),
          same.2 ∙ e,
          req,
          h,
          untouched,
          same.0,
          ap some same.1,
        ),
      )

  encode_with-Received :
      (l : List ContentEncoding) (handler : Handler) (req h : Header) (c : Bytes)
      (e : ContentEncoding)
      → Plain handler
      → h content_encoding ≡ none
      → h content_length ≡ none
      → encoding_of l c ≡ some e
      → Received handler req h (encode_with handler c (some e) req h) l
  unfolding Received encode_with put_values with_decoder delete bytes_eq
  encode_with-Received l handler req h c e p hn hl f =
      let seen = delete req accept_encoding in
      let header = delete (put_values h content_encoding (c ∷ [])) content_length in
      let res = handler seen header in
      let sent = encode_response e res in
      elim (Bool-cases e.can_write) [
        | inl t ↦ (
          sent,
          if_true _ _ _ t,
          p.allows seen header,
          p.keeps_length seen header,
          λ got same. (
            with_decoder e got,
            decode_response-encoded l got e c (same.2 ∙ p.keeps_encoding seen header) f
                (ap e.can_read same.1 ∙ e.can_read-encode res.body),
            refl,
            seen,
            header,
            encoded c e f,
            same.0,
            ap e.decode same.1 ∙ e.decode_encode res.body,
          ),
        )
        | inr t ↦
            subst (λ o. Received handler req h o l) (sym (if_false _ _ _ t))
              (plain-Received l handler req h p hn hl)
      ]

  encoding_handler-Received :
      (l : List ContentEncoding) (handler : Handler) (req h : Header)
      → Plain handler
      → h content_encoding ≡ none
      → h content_length ≡ none
      → Received handler req h (encoding_handler F S l handler req h) l
  unfolding encoding_handler negotiate_encoding
  encoding_handler-Received l handler req h p hn hl =
      let plain = plain-Received l handler req h p hn hl in
      let accept = values req accept_encoding in
      let coding = negotiate_encoding F S (first accept) (codings l) in
      let at : Option Response → Type 0 = λ o. Received handler req h o l in
      let with : Option ContentEncoding → Option Response =
        λ o. encode_with handler coding o req h in
      elim (Bool-cases (is_empty accept)) [
        | inl t ↦ subst at (sym (if_true _ _ _ t)) plain
        | inr t ↦ subst at (sym (if_false _ _ _ t)) (elim (Bool-cases (is_empty coding)) [
          | inl u ↦ subst at (sym (if_true _ _ _ u)) plain
          | inr u ↦
              subst at (sym (if_false _ _ _ u))
                (elim (negotiate_codings-Offered (parse_accept_encoding F S (first accept)).0
                  (codings l)) [
                    | inl z ↦ cc (sym u ∙ ap is_empty z)
                    | inr o ↦
                        let (e, f) = encoding_of-Offered l coding o in
                        subst at (sym (ap with f))
                          (encode_with-Received l handler req h coding e p hn hl f)
                  ])
        ])
      ]

  -- The handler's response as it arrives.
  abbrev pub served :
      Carrier → List ContentEncoding → Handler → Bytes → Header → Header → Option Response
  served C l handler method h req = elim (encoding_handler F S l handler req h) [
    | none ↦ none
    | some res ↦ C.carry method res
  ]

  -- A client that speaks through `NewEncodingTransport` to a server whose handler is wrapped by
  -- `NewEncodingHandler`, with the same encodings, by a request other than HEAD: if the response
  -- header starts without a Content-Encoding and a Content-Length, and the handler leaves both alone
  -- and gives a status that allows a body, then the client gets a response without an error, with no
  -- Content-Encoding, whose status and body are those that the handler wrote, and the handler saw the
  -- request and the response's header as `Calls` says; the panic of a missing encoding does not
  -- happen.
  pub encoding_transport-encoding_handler :
      (C : Carrier) (l : List ContentEncoding) (handler : Handler) (method : Bytes) (req h : Header)
      → Plain handler
      → method ≢ codes "HEAD"
      → h content_encoding ≡ none
      → h content_length ≡ none
      → Answers l handler
          (put_values req accept_encoding (join (codings l) (codes ", ") ∷ []))
          h
          (encoding_transport l (served C l handler method h) req)
  unfolding Received encoding_transport
  encoding_transport-encoding_handler C l handler method req h p m hn hl =
      let asked = put_values req accept_encoding (join (codings l) (codes ", ") ∷ []) in
      let (sent, e, a, k, answers) = encoding_handler-Received l handler asked h p hn hl in
      let (got, g, same) = C.carries method sent m a k in
      let (res, d, n, seen, header, c, s, b) = answers got same in
      let through : Option Response → Option Response =
        λ o. elim o [ none ↦ none | some r ↦ C.carry method r ] in
      let pick : Option Response → Returned =
        λ o. elim o [ none ↦ (none, true) | some r ↦ decode_response l r ] in
      (res, ap pick (ap through e ∙ g) ∙ d, n, seen, header, c, s, b)
