-- ===== src/Httpx/Server/Response/Chunked.antt =====
-- A response without a length: what its writes, flushes and its close put on the connection
-- (`responseWriter` of httpx/server.go).
use mathlib.Core.Path.{subst}
use netx.Base.{
  ℕ, ◌≡◌, refl, sym, ap, ◌∙◌, inl, inr, true, false, [], ◌++◌, append-nil, Option, none, some,
  arith, ◌==◌, Bytes, codes, Option-cases, if_true, some-none,
}
use netx.Httpx.Server.Chunk.Inv.{Holds, write-Holds, flush-Holds, close-Chunks}
use netx.Httpx.Server.Chunk.Wire.{Chunks, start}
use netx.Httpx.Server.Chunk.{ChunkWriter, write, flush, close}
use netx.Httpx.Server.Response.Head.{head, code, in_chunks, write_head-head, write_header-in_chunks}
use netx.Httpx.Server.Response.{
  ResponseWriter, Texts, Flusher, io_error, write_header, write_body, write_response,
  close_response, flush_body, flush_response, chunk_writer, from_chunks, flush_conn, allows_body,
}
use netx.Httpx.Server.Writer.{Writer}

io_error-none : {Fault : Type 0} (e : Option Fault) → io_error e ≡ none → e ≡ none
io_error-none none h = refl
io_error-none (some e) h = cc h

module _ {Fault : Type 0} (W : Writer Fault) (T : Texts) where
  open W use {State, sent, fault, next}

  -- The header is written, the body is sent in chunks, and the connection and the buffer hold the
  -- bytes in `written` after those in `before`.
  pub record InChunks (before written : Bytes) (res : ResponseWriter W) : Type 0 where
    pub started : (res.status == 0) ≡ false
    pub body : res.has_body ≡ true
    pub mode : res.chunked ≡ true
    pub no_error : res.err ≡ none
    pub holds : Holds W before written (chunk_writer W T res)

  pub write_header-started :
      (status : ℕ) (res : ResponseWriter W)
      → (res.status == 0) ≡ false
      → write_header W T status res ≡ res
  unfolding write_header
  write_header-started status res h = rw h refl

  write_response-from_chunks :
      (b before written : Bytes) (res : ResponseWriter W)
      → InChunks before written res
      → write_response W T b res ≡ from_chunks W T res (write W b (chunk_writer W T res))
  unfolding write_response
  write_response-from_chunks b before written res h =
      rw (h.no_error, write_response)
        (ap (write_body W T b) (write_header-started 0 res h.started)
          ∙ unfold write_body in rw (h.body, h.mode) refl)

  -- A `Write` without an error adds its bytes.
  pub write_response-InChunks :
      (b before written : Bytes) (res res' : ResponseWriter W) (n : ℕ)
      → InChunks before written res
      → write_response W T b res ≡ (n, none, res')
      → InChunks before (written ++ b) res'
  write_response-InChunks b before written res res' n h e =
      let (k, (f, cw)) = write W b (chunk_writer W T res) in
      let r = sym (write_response-from_chunks b before written res h) ∙ e in
      let nf : f ≡ none = io_error-none f (ap (λ x. x.1) r) in
      let done =
        write-Holds W before written b (chunk_writer W T res) cw k h.holds
          (ap (λ x. (k, (x, cw))) nf) in
      subst (λ x. InChunks before (written ++ b) x) (ap (λ x. x.2) r)
        (record {
          started = h.started;
          body = h.body;
          mode = h.mode;
          no_error = ap io_error nf;
          holds = done;
        })

  allows_body-code :
      (status : ℕ) → allows_body W (code W T status) ≡ true → (code W T status == 0) ≡ false
  allows_body-code status h = ground arith

  -- A header without the length of the body, and without an error, starts a body in chunks.
  pub write_header-InChunks :
      (status : ℕ) (res : ResponseWriter W)
      → (res.status == 0) ≡ true
      → allows_body W (code W T status) ≡ true
      → res.header (codes "Content-Length") ≡ none
      → (write_header W T status res).err ≡ none
      → InChunks
          (sent res.w ++ head W T (in_chunks W T status res))
          []
          (write_header W T status res)
  write_header-InChunks status res s p l e =
      let same = write_header-in_chunks W T status res s p l in
      let (n, on_wire, done) =
        write_head-head W T (in_chunks W T status res) (sym (ap (λ r. r.err) same) ∙ e) in
      subst (InChunks (sent res.w ++ head W T (in_chunks W T status res)) []) (sym (same ∙ done))
        (record {
          started = allows_body-code status p;
          body = refl;
          mode = refl;
          no_error = n;
          holds = record {
            wire = [];
            payload = [];
            on_wire = on_wire ∙ sym (append-nil _);
            chunked = start;
            held = refl;
            bounded = omega arith;
          };
        })

  close_response-close :
      (before written : Bytes) (res : ResponseWriter W)
      → InChunks before written res
      → close_response W T res ≡ (from_chunks W T res (0, close W (chunk_writer W T res))).2
  unfolding close_response
  close_response-close before written res h =
      (if_true _ _ _ h.mode)
      ∙ ap
          (λ r.
            let (e, cw) = close W (chunk_writer W T r) in
            elim r.err [ some f ↦ r | none ↦ record r { w = cw.w; b = cw.b; err = io_error e } ])
          (write_header-started 0 res h.started)
      ∙ (let (e, cw) = close W (chunk_writer W T res) in
          ap
            (λ f. elim f [
              | some f ↦ res
              | none ↦ record res { w = cw.w; b = cw.b; err = io_error e }
            ])
            h.no_error)

  -- What a `close` without an error leaves on the connection.
  pub close_response-Chunks :
      (before written : Bytes) (res : ResponseWriter W)
      → InChunks before written res
      → (close_response W T res).err ≡ none
      → (wire : Bytes) × Chunks wire written
        × (sent (close_response W T res).w ≡ before ++ (wire ++ codes "0\r\n\r\n"))
  close_response-Chunks before written res h e =
      let same = close_response-close before written res h in
      let (_, cw) = close W (chunk_writer W T res) in
      let ne = io_error-none _ (sym (ap (λ x. x.err) same) ∙ e) in
      let (wire, c, on_wire) =
        close-Chunks W before written (chunk_writer W T res) cw h.holds (ap (λ x. (x, cw)) ne) in
      (wire, c, ap (λ x. sent x.w) same ∙ on_wire)

  module _ (F : Flusher W) where
    open F use {flush_fault, flush_next, sent_flush}

    Holds-flush_next :
        (before written : Bytes) (cw : ChunkWriter W)
        → Holds W before written cw
        → Holds W before written (record { w = flush_next cw.w; b = cw.b })
    Holds-flush_next before written cw h = record {
      wire = h.wire;
      payload = h.payload;
      on_wire = sent_flush cw.w ∙ h.on_wire;
      chunked = h.chunked;
      held = h.held;
      bounded = h.bounded;
    }

    flush_response-flush_body :
        (before written : Bytes) (res : ResponseWriter W)
        → InChunks before written res
        → flush_response W T F res ≡ flush_body W T F res
    flush_response-flush_body before written res h =
        unfold flush_response in
        ap
          (λ e. elim e [
            | some f ↦ res
            | none ↦
                let headed = write_header W T 0 res in
                elim headed.err [ some f ↦ headed | none ↦ flush_body W T F headed ]
          ])
          h.no_error
        ∙ ap (λ r. elim r.err [ some f ↦ r | none ↦ flush_body W T F r ])
            (write_header-started 0 res h.started)
        ∙ ap (λ e. elim e [ some f ↦ res | none ↦ flush_body W T F res ]) h.no_error

    abbrev flushed : ResponseWriter W → ResponseWriter W
    flushed res =
        let (e, cw) = flush W (chunk_writer W T res) in
        record res { w = cw.w; b = cw.b; err = io_error e }

    flush_body-flush_conn :
        (res : ResponseWriter W)
        → res.chunked ≡ true
        → (flush_body W T F res).err ≡ none
        → ((flush W (chunk_writer W T res)).0 ≡ none)
          × (flush_body W T F res ≡ flush_conn W T F (flushed res))
    unfolding flush_body
    flush_body-flush_conn res m e =
        let r = flushed res in
        let pick : Option Fault → ResponseWriter W =
          λ f. elim f [ some f ↦ r | none ↦ flush_conn W T F r ] in
        elim (Option-cases ((flush W (chunk_writer W T res)).0)) [
          | inl nf ↦ (nf, if_true _ _ _ m ∙ ap pick nf)
          | inr (f, sf) ↦
              let chosen : flush_body W T F res ≡ r = if_true _ _ _ m ∙ ap pick sf in
              absurd (some-none (sym (ap (λ x. x.err) chosen ∙ ap io_error sf) ∙ e))
        ]

    -- A `Flush` without an error keeps the bytes.
    pub flush_response-InChunks :
        (before written : Bytes) (res : ResponseWriter W)
        → InChunks before written res
        → (flush_response W T F res).err ≡ none
        → InChunks before written (flush_response W T F res)
    flush_response-InChunks before written res h e =
        let same = flush_response-flush_body before written res h in
        let (nf, r) = flush_body-flush_conn res h.mode (sym (ap (λ x. x.err) same) ∙ e) in
        let (_, cw) = flush W (chunk_writer W T res) in
        let held =
          flush-Holds W before written (chunk_writer W T res) cw h.holds (ap (λ x. (x, cw)) nf) in
        subst (InChunks before written) (sym (same ∙ r)) (record {
          started = h.started;
          body = h.body;
          mode = h.mode;
          no_error = sym (ap (λ x. x.err) (same ∙ r)) ∙ e;
          holds = Holds-flush_next before written cw held.0;
        })
