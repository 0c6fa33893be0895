-- ===== src/Httpx/Server/Chunk/Count.antt =====
-- The count that `Write` of `chunkWriter` (httpx/server.go) returns.
use netx.Base.{
  ℕ, zero, suc, ◌+◌, ◌-◌, ◌<◌, ◌≤◌, dec_lt, ◌≡◌, refl, ap, sym, append-nil, length-append,
  length-take, ◌∙◌, true, false, inl, inr, [], ◌∷◌, ◌++◌, none, arith, leb, if◌then◌else◌, Bytes,
  length, take, drop, length-drop,
}
use netx.Httpx.Server.Chunk.{
  hex, crlf, ChunkWriter, write_chunk, flush, write_loop, write, buffer_size,
}
use netx.Httpx.Server.Chunk.Inv.{Holds, flush-Holds}
use netx.Httpx.Server.Chunk.Loop.{room, loop_last, loop_fits, loop_flushes}
use netx.Httpx.Server.Chunk.Wire.{start, write_chunk-chunk}
use netx.Httpx.Server.Writer.{Writer}

-- The count for a buffer that holds `held` bytes and a call with `len` of them: when what fills
-- up the buffer leaves a buffer or more, only those that are left.
abbrev pub reported : ℕ → ℕ → ℕ
reported zero len = len
reported (suc held) len =
    let k = buffer_size - suc held in if leb (k + buffer_size) len then len - k else len

counts :
    (k len d : ℕ)
    → k < len
    → d ≡ len - k
    → (if leb buffer_size d then d else 0 + k + d)
      ≡ (if leb (k + buffer_size) len then len - k else len)
counts k len d h e = ground arith

module _ {Fault : Type 0} (W : Writer Fault) where
  open W use {State, sent, fault, next}

  -- Every call of the writer succeeds.
  abbrev pub Succeeds : Type 0
  Succeeds = (b : Bytes) (w : State) → fault b w ≡ none

  write_chunk-Succeeds : Succeeds → (b : Bytes) (w : State) → (write_chunk W b w).1.0 ≡ none
  unfolding write_chunk
  write_chunk-Succeeds s [] w = refl
  write_chunk-Succeeds s (c ∷ b) w =
      rw (s (hex (length (c ∷ b)) ++ crlf) w, s (c ∷ b) (next (hex (length (c ∷ b)) ++ crlf) w))
        (s crlf _)

  loop-last_count :
      Succeeds
      → (fuel : ℕ) (b : Bytes) (n : ℕ) (w : State)
      → let r = write_loop W (suc fuel) b n (record { w = w; b = [] }) in
        (r.1.0 ≡ none) × (r.0 ≡ (if leb buffer_size (length b) then length b else n + length b))
  loop-last_count s fuel b n w = elim (loop_last W fuel b n w) [
    | inl (p, q) ↦
        let (k, (f, w')) = write_chunk W b w in
        let nf : f ≡ none = write_chunk-Succeeds s b w in
        let t : leb buffer_size (length b) ≡ true = ground arith in
        let p' : 0 < length b = omega (arith, p) in
        let e = (write_chunk-chunk W b w k w' p' (ap (λ x. (k, (x, w'))) nf)).0 in
        (ap (λ r. r.1.0) q ∙ nf, rw t (ap (λ r. r.0) q ∙ e))
    | inr (p, q) ↦
        let t : leb buffer_size (length b) ≡ false = ground arith in
        (ap (λ r. r.1.0) q, rw t (ap (λ r. r.0) q))
  ]

  flush_empties :
      Succeeds
      → (res : ChunkWriter W) → length res.b ≤ buffer_size
      → let (f, flushed) = flush W res in (f ≡ none) × (flushed.b ≡ [])
  unfolding flush
  flush_empties s res h =
      let (f, flushed) = flush W res in
      let nf : f ≡ none = write_chunk-Succeeds s res.b res.w in
      let holds : Holds W (sent res.w) res.b res = record {
        wire = [];
        payload = [];
        on_wire = sym (append-nil (sent res.w));
        chunked = start;
        held = refl;
        bounded = h;
      } in
      (nf, (flush-Holds W (sent res.w) res.b res flushed holds (ap (λ x. (x, flushed)) nf)).1)

  loop_count :
      Succeeds
      → (b buf : Bytes) (w : State) → length buf ≤ buffer_size
      → let r = write_loop W 2 b 0 (record { w = w; b = buf }) in
        (r.1.0 ≡ none) × (r.0 ≡ reported (length buf) (length b))
  loop_count s b [] w h = let (e, c) = loop-last_count s 1 b 0 w in (e, c ∙ ground arith)
  loop_count s b (x ∷ buf) w h =
      let k = room x buf in
      elim (dec_lt k (length b)) [
        | no f ↦
            let q = loop_fits W 1 b 0 w x buf (omega (arith, f)) in
            (ap (λ r. r.1.0) q, ap (λ r. r.0) q ∙ ground arith)
        | yes p ↦
            let res1 : ChunkWriter W = record { w = w; b = (x ∷ buf) ++ take k b } in
            let (f, flushed) = flush W res1 in
            let (nf, z) =
              flush_empties s res1
                (omega (arith, length-append buf (take k b), length-take k b, h)) in
            let q = rw nf at (loop_flushes W 1 b 0 w x buf p) in
            let same : flushed ≡ record { w = flushed.w; b = [] } =
              ap (λ x. record { w = flushed.w; b = x }) z in
            let q' = q ∙ ap (λ r. write_loop W 1 (drop k b) (0 + k) r) same in
            let (e, c) = loop-last_count s 0 (drop k b) (0 + k) flushed.w in
            (
              ap (λ r. r.1.0) q' ∙ e,
              ap (λ r. r.0) q' ∙ c ∙ counts k (length b) (length (drop k b)) p (length-drop k b),
            )
      ]

  -- On a writer that never fails `Write` succeeds, and returns the number of its bytes, but for a
  -- buffer that holds some: if the bytes left after filling it up are 512 or more, `Write` returns
  -- the number of those alone.
  pub write-reported :
      (b : Bytes) (res : ChunkWriter W)
      → Succeeds
      → length res.b ≤ buffer_size
      → ((write W b res).1.0 ≡ none) × ((write W b res).0 ≡ reported (length res.b) (length b))
  unfolding write
  write-reported b res s h = loop_count s b res.b res.w h
