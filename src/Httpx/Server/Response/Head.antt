-- ===== src/Httpx/Server/Response/Head.antt =====
-- The status line and the header that a response puts on the connection
-- (`WriteHeader` of httpx/server.go).
use netx.Base.{
  ℕ, ◌≡◌, refl, sym, ap, ◌∙◌, inl, inr, [], true, false, ◌++◌, none, ◌==◌, if◌then◌else◌, Bytes,
  codes, Option-cases, if_true,
}
use netx.Httpx.Header.{set}
use netx.Httpx.Server.Chunk.{crlf}
use netx.Httpx.Server.Chunk.Wire.{append_three, sent-next_all}
use netx.Httpx.Server.Response.{
  ResponseWriter, Texts, allows_body, with_date, status_line, write_head, write_header, body_mode,
  finish_header,
}
use netx.Httpx.Server.Writer.{Writer}

module _ {Fault : Type 0} (W : Writer Fault) (T : Texts) where
  open W use {State, sent, fault, next}

  -- The status line, the header with a date, and an empty line.
  abbrev pub head : ResponseWriter W → Bytes
  head res = (status_line W T res ++ T.header_text (with_date W T res.header)) ++ crlf

  abbrev line_sent : ResponseWriter W → State
  line_sent res = next (status_line W T res) res.w

  abbrev header_sent : ResponseWriter W → State
  header_sent res = next (T.header_text (with_date W T res.header)) (line_sent res)

  abbrev head_sent : ResponseWriter W → State
  head_sent res = next crlf (header_sent res)

  write_head-head_sent :
      (res : ResponseWriter W)
      → fault (status_line W T res) res.w ≡ none
      → fault (T.header_text (with_date W T res.header)) (line_sent res) ≡ none
      → fault crlf (header_sent res) ≡ none
      → write_head W T res ≡ record res { header = with_date W T res.header; w = head_sent res }
  unfolding write_head
  write_head-head_sent res f1 f2 f3 = rw (f1, f2, f3) refl

  -- A head written without an error is on the connection.
  pub write_head-head :
      (res : ResponseWriter W)
      → (write_head W T res).err ≡ none
      → (res.err ≡ none)
        × (sent (head_sent res) ≡ sent res.w ++ head res)
        × (write_head W T res ≡ record res { header = with_date W T res.header; w = head_sent res })
  unfolding write_head
  write_head-head res h = elim (Option-cases (fault (status_line W T res) res.w)) [
    | inr (e, f) ↦ cc
    | inl f1 ↦
        elim (Option-cases (fault (T.header_text (with_date W T res.header)) (line_sent res))) [
          | inr (e, f) ↦ cc
          | inl f2 ↦ elim (Option-cases (fault crlf (header_sent res))) [
            | inr (e, f) ↦ cc
            | inl f3 ↦
                let same = write_head-head_sent res f1 f2 f3 in
                (
                  sym (ap (λ r. r.err) same) ∙ h,
                  sent-next_all W crlf (header_sent res) f3
                      ∙ ap (λ x. x ++ crlf)
                          (sent-next_all W (T.header_text (with_date W T res.header))
                              (line_sent res) f2
                            ∙ ap (λ x. x ++ T.header_text (with_date W T res.header))
                                (sent-next_all W (status_line W T res) res.w f1))
                      ∙ append_three W (sent res.w) (status_line W T res)
                          (T.header_text (with_date W T res.header)) crlf,
                  same,
                )
          ]
        ]
  ]

  -- The status that `WriteHeader` writes.
  abbrev pub code : ℕ → ℕ
  code status = if status == 0 then 200 else status

  -- The response once it is known to be sent in chunks.
  abbrev pub in_chunks : ℕ → ResponseWriter W → ResponseWriter W
  in_chunks status res = record res {
    status = code status;
    header = set res.header (codes "Transfer-Encoding") (codes "chunked");
    has_body = true;
    chunked = true;
    b = [];
  }

  -- A header without the length of a body that the status allows is that of a body in chunks.
  pub write_header-in_chunks :
      (status : ℕ) (res : ResponseWriter W)
      → (res.status == 0) ≡ true
      → allows_body W (code status) ≡ true
      → res.header (codes "Content-Length") ≡ none
      → write_header W T status res ≡ write_head W T (in_chunks status res)
  write_header-in_chunks status res h p l =
      let r : ResponseWriter W = record res {
        status = code status;
        has_body = allows_body W (code status);
      } in
      let mode : body_mode W r ≡ (false, in_chunks status res) =
        unfold body_mode in
        rw (p, l) (ap (λ x. (false, record (in_chunks status res) { has_body = x })) p) in
      let opened : write_header W T status res ≡ finish_header W T (body_mode W r) =
        unfold write_header in if_true _ _ _ h in
      opened ∙ ap (finish_header W T) mode
