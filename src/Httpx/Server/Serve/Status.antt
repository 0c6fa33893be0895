-- ===== src/Httpx/Server/Serve/Status.antt =====
-- A response that was flushed without an error has a status (httpx/server.go).
use mathlib.Core.Path.{subst}
use netx.Base.{
  ℕ, ◌≡◌, refl, sym, ap, ◌∙◌, inl, inr, Bool, true, false, List, [], ◌∷◌, Option, none, some, ◌==◌,
  if◌then◌else◌, Bytes, codes, Bool-cases, Option-cases, if_true, if_false, some-none, arith,
}
use netx.Httpx.Header.{set, del}
use netx.Httpx.Server.Chunk.{flush, crlf}
use netx.Httpx.Server.Response.{
  ResponseWriter, ResponseError, Texts, Flusher, io, io_error, chunk_writer, parse_uint, with_count,
  with_length, body_mode, write_head, with_date, status_line, finish_header, allows_body,
  write_header, flush_conn, flush_body, flush_response,
}
use netx.Httpx.Server.Writer.{Writer}

module _ {Fault : Type 0} (W : Writer Fault) (T : Texts) where
  with_count-status :
      (s : Bytes) (n : ℕ × Bool) (res : ResponseWriter W)
      → (with_count W s n res).1.status ≡ res.status
  with_count-status s (n, true) res = refl
  with_count-status s (n, false) res = refl

  with_length-status :
      (l : List Bytes) (res : ResponseWriter W) → (with_length W l res).1.status ≡ res.status
  with_length-status [] res = refl
  with_length-status (s ∷ l) res = with_count-status s (parse_uint s) res

  body_mode-status : (res : ResponseWriter W) → (body_mode W res).1.status ≡ res.status
  unfolding body_mode
  body_mode-status res =
      let no_body = record res {
        header = del (del res.header (codes "Transfer-Encoding")) (codes "Content-Length");
      } in
      let in_chunks = record res {
        header = set res.header (codes "Transfer-Encoding") (codes "chunked");
        chunked = true;
        b = [];
      } in
      let sized : Option (List Bytes) → Bool × ResponseWriter W =
        λ o. elim o [ none ↦ (false, in_chunks) | some l ↦ with_length W l res ] in
      let mode : Bool → Bool × ResponseWriter W =
        λ c. if c then sized (res.header (codes "Content-Length")) else (false, no_body) in
      elim res.has_body as (λ c. (mode c).1.status ≡ res.status) [
        | false ↦ refl
        | true ↦
            elim (res.header (codes "Content-Length")) as (λ o. (sized o).1.status ≡ res.status) [
              | none ↦ refl
              | some l ↦ with_length-status l res
            ]
      ]

  write_head-status : (res : ResponseWriter W) → (write_head W T res).status ≡ res.status
  unfolding write_head
  write_head-status res =
      let h = with_date W T res.header in
      let w1 = W.next (status_line W T res) res.w in
      let w2 = W.next (T.header_text h) w1 in
      let w3 = W.next crlf w2 in
      let broken : W.State → Fault → ResponseWriter W =
        λ w e. record res { header = h; w = w; err = some (io e) } in
      let third : Option Fault → ResponseWriter W =
        λ e. elim e [ some e ↦ broken w3 e | none ↦ record res { header = h; w = w3 } ] in
      let second : Option Fault → ResponseWriter W =
        λ e. elim e [ some e ↦ broken w2 e | none ↦ third (W.fault crlf w2) ] in
      let first : Option Fault → ResponseWriter W =
        λ e. elim e [ some e ↦ broken w1 e | none ↦ second (W.fault (T.header_text h) w1) ] in
      elim (W.fault (status_line W T res) res.w) as (λ e. (first e).status ≡ res.status) [
        | some e ↦ refl
        | none ↦ elim (W.fault (T.header_text h) w1) as (λ e. (second e).status ≡ res.status) [
          | some e ↦ refl
          | none ↦ elim (W.fault crlf w2) as (λ e. (third e).status ≡ res.status) [
            | some e ↦ refl
            | none ↦ refl
          ]
        ]
      ]

  finish_header-status : (r : Bool × ResponseWriter W) → (finish_header W T r).status ≡ r.1.status
  finish_header-status (true, res) = refl
  finish_header-status (false, res) = write_head-status res

  pub write_header-status :
      (status : ℕ) (res : ResponseWriter W) → ((write_header W T status res).status == 0) ≡ false
  unfolding write_header
  write_header-status status res =
      let code = if status == 0 then 200 else status in
      let started = record res { status = code; has_body = allows_body W code } in
      let finished = finish_header W T (body_mode W started) in
      elim (Bool-cases (res.status == 0)) [
        | inr h ↦
            subst (λ (r : ResponseWriter W). (r.status == 0) ≡ false)
              (sym (if_false finished res _ h)) h
        | inl h ↦
            let same = finish_header-status (body_mode W started) ∙ body_mode-status started in
            let nonzero : (code == 0) ≡ false = ground arith in
            subst (λ (r : ResponseWriter W). (r.status == 0) ≡ false)
              (sym (if_true finished res _ h)) (ap (λ x. x == 0) same ∙ nonzero)
      ]

  module _ (F : Flusher W) where
    flush_body-status : (res : ResponseWriter W) → (flush_body W T F res).status ≡ res.status
    unfolding flush_body
    flush_body-status res =
        let (e, cw) = flush W (chunk_writer W T res) in
        let flushed = record res { w = cw.w; b = cw.b; err = io_error e } in
        let after : Option Fault → ResponseWriter W =
          λ e. elim e [ some f ↦ flushed | none ↦ flush_conn W T F flushed ] in
        let pick : Bool → ResponseWriter W = λ c. if c then after e else flush_conn W T F res in
        elim res.chunked as (λ c. (pick c).status ≡ res.status) [
          | false ↦ refl
          | true ↦ elim e as (λ e. (after e).status ≡ res.status) [ some f ↦ refl | none ↦ refl ]
        ]

    -- A `Flush` that ends without an error has written the header, now or before.
    pub flush_response-status :
        (res : ResponseWriter W)
        → (flush_response W T F res).err ≡ none
        → ((flush_response W T F res).status == 0) ≡ false
    unfolding flush_response
    flush_response-status res e =
        let headed = write_header W T 0 res in
        let last : Option (ResponseError Fault) → ResponseWriter W =
          λ e. elim e [ some f ↦ headed | none ↦ flush_body W T F headed ] in
        let pick : Option (ResponseError Fault) → ResponseWriter W =
          λ e. elim e [ some f ↦ res | none ↦ last headed.err ] in
        let h = write_header-status 0 res in
        elim (Option-cases res.err) [
          | inr (f, p) ↦
              absurd
                (some-none (sym p ∙ sym (ap (λ (r : ResponseWriter W). r.err) (ap pick p)) ∙ e))
          | inl p ↦
              subst (λ (r : ResponseWriter W). (r.status == 0) ≡ false) (sym (ap pick p))
                (elim headed.err as (λ e. ((last e).status == 0) ≡ false) [
                  | some f ↦ h
                  | none ↦ ap (λ x. x == 0) (flush_body-status headed) ∙ h
                ])
        ]
