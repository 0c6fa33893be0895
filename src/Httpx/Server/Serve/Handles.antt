-- ===== src/Httpx/Server/Serve/Handles.antt =====
-- What handlers do with a response writer that wrote its header for another request
-- (`responseWriter` of httpx/server.go).
use mathlib.Core.Path.{subst}
use netx.Base.{ℕ, ◌≡◌, sym, ap, ◌∙◌, false, Option, none, some, ◌==◌, Bytes, if_false}
use netx.Httpx.Header.{Header}
use netx.Httpx.Server.Response.{
  ResponseWriter, ResponseError, Texts, Flusher, write_header, write_body, write_response,
  close_response, flush_body, flush_response,
}
use netx.Httpx.Server.Response.Chunked.{write_header-started}
use netx.Httpx.Server.Writer.{Writer}

module _ {Fault : Type 0} (W : Writer Fault) (T : Texts) (F : Flusher W) where
  open W use {sent}

  -- What a handler does with the response writer, unless it takes the connection over.
  pub data Handles : ResponseWriter W → ResponseWriter W → Type 0 where
    done : {res : ResponseWriter W} → Handles res res
    edits :
        {res last : ResponseWriter W} (h : Header)
        → Handles (record res { header = h }) last
        → Handles res last
    heads :
        {res last : ResponseWriter W} (status : ℕ)
        → Handles (write_header W T status res) last
        → Handles res last
    writes :
        {res last : ResponseWriter W} (b : Bytes)
        → Handles (write_response W T b res).2 last
        → Handles res last
    flushes :
        {res last : ResponseWriter W} → Handles (flush_response W T F res) last → Handles res last

  -- The header is written, of a response without a body; the connection has what it had.
  pub record Spent (before : Bytes) (res : ResponseWriter W) : Type 0 where
    pub started : (res.status == 0) ≡ false
    pub body : res.has_body ≡ false
    pub mode : res.chunked ≡ false
    pub on_wire : sent res.w ≡ before

  pub write_header-Spent :
      (status : ℕ) (before : Bytes) (res : ResponseWriter W)
      → Spent before res
      → Spent before (write_header W T status res)
  write_header-Spent status before res h =
      subst (Spent before) (sym (write_header-started W T status res h.started)) h

  pub write_body-Spent :
      (b before : Bytes) (res : ResponseWriter W)
      → Spent before res
      → Spent before (write_body W T b res).2
  unfolding write_body
  write_body-Spent b before res h =
      let last : ℕ × Option (ResponseError Fault) × ResponseWriter W → ResponseWriter W =
        λ r. r.2 in
      subst (Spent before) (sym (ap last (if_false _ _ _ h.body))) h

  pub write_response-Spent :
      (b before : Bytes) (res : ResponseWriter W)
      → Spent before res
      → Spent before (write_response W T b res).2
  unfolding write_response
  write_response-Spent b before res h =
      let pick : Option (ResponseError Fault)
          → ℕ × Option (ResponseError Fault) × ResponseWriter W =
        λ e. elim e [
          | some f ↦ (0, some f, res)
          | none ↦ write_body W T b (write_header W T 0 res)
        ] in
      elim res.err as (λ e. Spent before (pick e).2) [
        | some f ↦ h
        | none ↦
            write_body-Spent b before (write_header W T 0 res) (write_header-Spent 0 before res h)
      ]

  pub flush_body-Spent :
      (before : Bytes) (res : ResponseWriter W)
      → Spent before res
      → Spent before (flush_body W T F res)
  unfolding flush_body
  flush_body-Spent before res h = subst (Spent before) (sym (if_false _ _ _ h.mode)) (record {
    started = h.started;
    body = h.body;
    mode = h.mode;
    on_wire = F.sent_flush res.w ∙ h.on_wire;
  })

  pub flush_response-Spent :
      (before : Bytes) (res : ResponseWriter W)
      → Spent before res
      → Spent before (flush_response W T F res)
  unfolding flush_response
  flush_response-Spent before res h =
      let headed = write_header W T 0 res in
      let h' = write_header-Spent 0 before res h in
      elim res.err
        as (λ e. Spent before (elim e [
          | some f ↦ res
          | none ↦ elim headed.err [ some f ↦ headed | none ↦ flush_body W T F headed ]
        ])) [
          | some f ↦ h
          | none ↦
              elim headed.err
                as (λ e.
                  Spent before (elim e [ some f ↦ headed | none ↦ flush_body W T F headed ])) [
                    | some f ↦ h'
                    | none ↦ flush_body-Spent before headed h'
                  ]
        ]

  pub close_response-Spent :
      (before : Bytes) (res : ResponseWriter W)
      → Spent before res
      → Spent before (close_response W T res)
  unfolding close_response
  close_response-Spent before res h = subst (Spent before) (sym (if_false _ _ _ h.mode)) h

  -- A handler puts nothing on the connection.
  pub Handles-Spent :
      {res last : ResponseWriter W} (before : Bytes)
      → Handles res last
      → Spent before res
      → Spent before last
  Handles-Spent before done h = h
  Handles-Spent before (edits x c) h =
      Handles-Spent before c
        (record { started = h.started; body = h.body; mode = h.mode; on_wire = h.on_wire })
  Handles-Spent before (heads status c) h =
      Handles-Spent before c (write_header-Spent status before _ h)
  Handles-Spent before (writes b c) h = Handles-Spent before c (write_response-Spent b before _ h)
  Handles-Spent before (flushes c) h = Handles-Spent before c (flush_response-Spent before _ h)
