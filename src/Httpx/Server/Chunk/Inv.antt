-- ===== src/Httpx/Server/Chunk/Inv.antt =====
-- What `Write`, `Flush` and `Close` of `chunkWriter` (httpx/server.go) put on the connection.
use mathlib.Core.Path.{subst}
use netx.Base.{
  ℕ, suc, ◌+◌, ◌<◌, ◌≤◌, dec_lt, ◌≡◌, refl, sym, ap, ◌∙◌, inl, inr, [], ◌∷◌, ◌++◌, append-nil,
  append_assoc, none, some, arith, Bytes, codes, length, take, drop, length-append, Option-cases,
  take-drop, length-take,
}
use netx.Httpx.Server.Chunk.{
  ChunkWriter, write_chunk, unsent, flush, write_loop, write, close, buffer_size,
}
use netx.Httpx.Server.Chunk.Wire.{Chunks, more, chunk, sent-next_all, write_chunk-chunk}
use netx.Httpx.Server.Chunk.Loop.{room, loop_last, loop_fits, loop_flushes}
use netx.Httpx.Server.Writer.{Writer}

module _ {Fault : Type 0} (W : Writer Fault) where
  open W use {State, sent, count, fault, next}

  -- After the bytes in `before`, the connection has chunks; their data and what the buffer holds
  -- are the bytes of `written`, and the buffer is within its size.
  pub record Holds (before written : Bytes) (res : ChunkWriter W) : Type 0 where
    pub wire : Bytes
    pub payload : Bytes
    pub on_wire : sent res.w ≡ before ++ wire
    pub chunked : Chunks wire payload
    pub held : payload ++ res.b ≡ written
    pub bounded : length res.b ≤ buffer_size

  Holds-chunk :
      (before written b : Bytes) (w w' : State) (n : ℕ)
      → 0 < length b
      → Holds before written (record { w = w; b = [] })
      → write_chunk W b w ≡ (n, (none, w'))
      → Holds before (written ++ b) (record { w = w'; b = [] })
  Holds-chunk before written b w w' n p h e = record {
    wire = h.wire ++ chunk b;
    payload = h.payload ++ b;
    on_wire =
        (write_chunk-chunk W b w n w' p e).1
        ∙ rw (h.on_wire) (append_assoc before h.wire (chunk b));
    chunked = more b p h.chunked;
    held = append-nil (h.payload ++ b) ∙ ap (λ x. x ++ b) (sym (append-nil h.payload) ∙ h.held);
    bounded = omega arith;
  }

  unsent-length : (b : Bytes) → unsent (length b) b ≡ []
  unfolding unsent
  unsent-length [] = refl
  unsent-length (c ∷ b) = ground arith

  Holds-flushed :
      (before written b : Bytes) (w w' : State) (n : ℕ)
      → Holds before written (record { w = w; b = b })
      → write_chunk W b w ≡ (n, (none, w'))
      → Holds before written (record { w = w'; b = unsent n b }) × (unsent n b ≡ [])
  unfolding write_chunk unsent
  Holds-flushed before written [] w w' n h e =
      rw (sym (ap (λ r. r.0) e), sym (ap (λ r. r.1.1) e)) (h, refl)
  Holds-flushed before written (c ∷ b) w w' n h e =
      let p : 0 < length (c ∷ b) = omega arith in
      let empty : Holds before h.payload (record { w = w; b = [] }) = record {
        wire = h.wire;
        payload = h.payload;
        on_wire = h.on_wire;
        chunked = h.chunked;
        held = append-nil h.payload;
        bounded = omega arith;
      } in
      let left : unsent n (c ∷ b) ≡ [] =
        rw ((write_chunk-chunk W (c ∷ b) w n w' p e).0) (unsent-length (c ∷ b)) in
      let done = Holds-chunk before h.payload (c ∷ b) w w' n p empty e in
      (rw (left, sym h.held) done, left)

  Holds-buffered :
      (before written buf b : Bytes) (w : State)
      → Holds before written (record { w = w; b = buf })
      → length buf + length b ≤ buffer_size
      → Holds before (written ++ b) (record { w = w; b = buf ++ b })
  Holds-buffered before written buf b w h p = record {
    wire = h.wire;
    payload = h.payload;
    on_wire = h.on_wire;
    chunked = h.chunked;
    held = sym (append_assoc h.payload buf b) ∙ ap (λ x. x ++ b) h.held;
    bounded = rw (length-append buf b) p;
  }

  -- `Flush` without an error empties the buffer.
  pub flush-Holds :
      (before written : Bytes) (res res' : ChunkWriter W)
      → Holds before written res
      → flush W res ≡ (none, res')
      → Holds before written res' × (res'.b ≡ [])
  unfolding flush
  flush-Holds before written res res' h e =
      let (n, (f, w')) = write_chunk W res.b res.w in
      let e' : write_chunk W res.b res.w ≡ (n, (none, w')) =
        ap (λ x. (n, (x, w'))) (ap (λ r. r.0) e) in
      rw (sym (ap (λ r. r.1) e)) (Holds-flushed before written res.b res.w w' n h e')

  Holds-last :
      (before written b : Bytes) (fuel n m : ℕ) (w : State) (res' : ChunkWriter W)
      → Holds before written (record { w = w; b = [] })
      → write_loop W (suc fuel) b n (record { w = w; b = [] }) ≡ (m, (none, res'))
      → Holds before (written ++ b) res'
  Holds-last before written b fuel n m w res' h e = elim (loop_last W fuel b n w) [
    | inl (p, q) ↦
        let (k, (f, w')) = write_chunk W b w in
        let r = sym q ∙ e in
        let e' : write_chunk W b w ≡ (k, (none, w')) = ap (λ x. (k, (x, w'))) (ap (λ r. r.1.0) r) in
        let p' : 0 < length b = omega (arith, p) in
        rw (sym (ap (λ r. r.1.1) r)) (Holds-chunk before written b w w' k p' h e')
    | inr (p, q) ↦ rw (sym (ap (λ r. r.1.1) (sym q ∙ e))) (record {
      wire = h.wire;
      payload = h.payload;
      on_wire = h.on_wire;
      chunked = h.chunked;
      held = ap (λ x. x ++ b) (sym (append-nil h.payload) ∙ h.held);
      bounded = omega (arith, p);
    })
  ]

  Holds-after :
      (before written b : Bytes) (fuel n m : ℕ) (res res' : ChunkWriter W)
      → res.b ≡ []
      → Holds before written res
      → write_loop W (suc fuel) b n res ≡ (m, (none, res'))
      → Holds before (written ++ b) res'
  Holds-after before written b fuel n m res res' z h e =
      let same : res ≡ record { w = res.w; b = [] } = ap (λ x. record { w = res.w; b = x }) z in
      Holds-last before written b fuel n m res.w res' (subst (λ r. Holds before written r) same h)
        (subst (λ r. write_loop W (suc fuel) b n r ≡ (m, (none, res'))) same e)

  loop-Holds :
      (before written b buf : Bytes) (w : State) (res' : ChunkWriter W) (m : ℕ)
      → Holds before written (record { w = w; b = buf })
      → write_loop W 2 b 0 (record { w = w; b = buf }) ≡ (m, (none, res'))
      → Holds before (written ++ b) res'
  loop-Holds before written b [] w res' m h e = Holds-last before written b 1 0 m w res' h e
  loop-Holds before written b (x ∷ buf) w res' m h e =
      let k = room x buf in
      elim (dec_lt k (length b)) [
        | no f ↦
            let fits : length b ≤ k = omega (arith, f) in
            let q = loop_fits W 1 b 0 w x buf fits in
            rw (sym (ap (λ r. r.1.1) (sym q ∙ e)))
              (Holds-buffered before written (x ∷ buf) b w h (omega (arith, fits, h.bounded)))
        | yes p ↦
            let full = take k b in
            let res1 : ChunkWriter W = record { w = w; b = (x ∷ buf) ++ full } in
            let (f, flushed) = flush W res1 in
            let q = sym (loop_flushes W 1 b 0 w x buf p) ∙ e in
            elim (Option-cases f) [
              | inr (g, c) ↦
                  (let r = rw c at q in let d : some g ≡ none = ap (λ r. r.1.0) r in absurd (cc d))
              | inl c ↦
                  let h1 =
                    Holds-buffered before written (x ∷ buf) full w h
                      (omega (arith, length-take k b, h.bounded)) in
                  let (h2, z) =
                    flush-Holds before (written ++ full) res1 flushed h1
                      (ap (λ x. (x, flushed)) c) in
                  let h3 =
                    Holds-after before (written ++ full) (drop k b) 0 (0 + k) m flushed res' z h2
                      (rw c at q) in
                  rw (append_assoc written full (drop k b), take-drop k b) at h3
            ]
      ]

  -- `Write` without an error: its bytes are on the connection or in the buffer, after those before.
  pub write-Holds :
      (before written b : Bytes) (res res' : ChunkWriter W) (n : ℕ)
      → Holds before written res
      → write W b res ≡ (n, (none, res'))
      → Holds before (written ++ b) res'
  write-Holds before written b res res' n h e =
      loop-Holds before written b res.b res.w res' n h (unfold write in e)

  -- `Close` without an error: the connection has chunks with all the bytes written, then the last,
  -- empty chunk.
  pub close-Chunks :
      (before written : Bytes) (res res' : ChunkWriter W)
      → Holds before written res
      → close W res ≡ (none, res')
      → (wire : Bytes) × Chunks wire written × (sent res'.w ≡ before ++ (wire ++ codes "0\r\n\r\n"))
  unfolding close
  close-Chunks before written res res' h e =
      let (f, flushed) = flush W res in
      elim (Option-cases f) [
        | inr (g, c) ↦
            let r = rw (c, close) at e in let d : some g ≡ none = ap (λ r. r.0) r in absurd (cc d)
        | inl c ↦
            let (h2, z) = flush-Holds before written res flushed h (ap (λ x. (x, flushed)) c) in
            let r = rw (c, close) at e in
            let all : h2.payload ≡ written = sym (append-nil h2.payload) ∙ (rw z at h2.held) in
            let out = sent-next_all W (codes "0\r\n\r\n") flushed.w (ap (λ r. r.0) r) in
            (
              h2.wire,
              rw all at h2.chunked,
              rw (sym (ap (λ r. r.1) r))
                  (out ∙ rw (h2.on_wire) (append_assoc before h2.wire (codes "0\r\n\r\n"))),
            )
      ]
