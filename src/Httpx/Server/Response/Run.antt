-- ===== src/Httpx/Server/Response/Run.antt =====
-- A response from its header to its close: the handler's calls of `Write` and `Flush` in any order
-- (httpx/server.go).
use mathlib.Core.Path.{subst}
use netx.Base.{ℕ, ◌≡◌, sym, true, [], ◌++◌, append-nil, append_assoc, none, Bytes, codes, ◌==◌}
use netx.Httpx.Server.Chunk.Wire.{Chunks}
use netx.Httpx.Server.Response.{
  ResponseWriter, Texts, Flusher, allows_body, write_header, write_response, flush_response,
  close_response,
}
use netx.Httpx.Server.Response.Chunked.{
  InChunks, write_response-InChunks, flush_response-InChunks, write_header-InChunks,
  close_response-Chunks,
}
use netx.Httpx.Server.Response.Head.{head, code, in_chunks}
use netx.Httpx.Server.Writer.{Writer}

module _ {Fault : Type 0} (W : Writer Fault) (T : Texts) (F : Flusher W) where
  open W use {sent}

  -- Calls without an error, the bytes of the writes among them, and the last state.
  pub data Calls : ResponseWriter W → Bytes → ResponseWriter W → Type 0 where
    done : {res : ResponseWriter W} → Calls res [] res
    wrote :
        {res res' last : ResponseWriter W} {rest : Bytes} (b : Bytes) (n : ℕ)
        → write_response W T b res ≡ (n, none, res')
        → Calls res' rest last
        → Calls res (b ++ rest) last
    flushed :
        {res last : ResponseWriter W} {rest : Bytes}
        → (flush_response W T F res).err ≡ none
        → Calls (flush_response W T F res) rest last
        → Calls res rest last

  -- Calls without an error keep what was written and add their bytes.
  pub Calls-InChunks :
      {res last : ResponseWriter W} {body : Bytes} (before written : Bytes)
      → InChunks W T before written res
      → Calls res body last
      → InChunks W T before (written ++ body) last
  Calls-InChunks {last = last} before written h done =
      subst (λ x. InChunks W T before x last) (sym (append-nil written)) h
  Calls-InChunks {last = last} before written h (wrote b n e c) =
      subst (λ x. InChunks W T before x last) (append_assoc written b _)
        (Calls-InChunks before (written ++ b)
          (write_response-InChunks W T b before written _ _ n h e) c)
  Calls-InChunks {last = last} before written h (flushed e c) =
      Calls-InChunks {last = last} before written
        (flush_response-InChunks W T F before written _ h e) c

  -- When the header of a response has no Content-Length and its status allows a body, then after
  -- `WriteHeader`, any `Write` and `Flush` calls in any order and `close`, all without an error, the
  -- connection has, after what it had, the status line and the header with the chunked coding
  -- declared, chunks, none of them empty, whose data are the bytes written in their order, and the
  -- last, empty chunk.
  pub close_response-Calls :
      (status : ℕ) (res last : ResponseWriter W) (body : Bytes)
      → (res.status == 0) ≡ true
      → allows_body W (code W T status) ≡ true
      → res.header (codes "Content-Length") ≡ none
      → (write_header W T status res).err ≡ none
      → Calls (write_header W T status res) body last
      → (close_response W T last).err ≡ none
      → (wire : Bytes) × Chunks wire body
        × (sent (close_response W T last).w
            ≡ (sent res.w ++ head W T (in_chunks W T status res)) ++ (wire ++ codes "0\r\n\r\n"))
  close_response-Calls status res last body s p l e c ne =
      let before = sent res.w ++ head W T (in_chunks W T status res) in
      close_response-Chunks W T before body last
        (Calls-InChunks before [] (write_header-InChunks W T status res s p l e) c) ne
