-- ===== src/Httpx/Server/Chunk/Loop.antt =====
-- What a round of the loop of `Write` does (`chunkWriter` of httpx/server.go).
use netx.Base.{
  ℕ, suc, ◌+◌, ◌-◌, ◌<◌, ◌≤◌, ◌≡◌, refl, ◌⊎◌, inl, inr, true, false, [], ◌∷◌, ◌++◌, append-nil,
  none, some, arith, leb, ◌==◌, Bytes, length, take, drop, take-length, drop-length, Bool-cases,
  drop-more,
}
use netx.Httpx.Server.Chunk.{ChunkWriter, Wrote, write_chunk, flush, fill, write_loop, buffer_size}
use netx.Httpx.Server.Writer.{Writer}

-- The room that `x` and `buf` leave in the buffer.
abbrev pub room : ℕ → Bytes → ℕ
room x buf = buffer_size - length (x ∷ buf)

module _ {Fault : Type 0} (W : Writer Fault) where
  open W use {State, sent, count, fault, next}

  plus_zero : (n : ℕ) → n + 0 ≡ n
  plus_zero n = omega arith

  fill-all :
      (loop : Bytes → ℕ → ChunkWriter W → Wrote W (ChunkWriter W)) (b : Bytes) (n : ℕ)
      (res : ChunkWriter W)
      → fill W loop (length b) b n res
        ≡ (n + length b, (none, record { w = res.w; b = res.b ++ b }))
  unfolding fill
  fill-all loop b n res = rw (drop-length b, fill, take-length b) refl

  fill-more :
      (loop : Bytes → ℕ → ChunkWriter W → Wrote W (ChunkWriter W)) (k : ℕ) (b : Bytes) (n : ℕ)
      (res : ChunkWriter W)
      → k < length b
      → let (e, flushed) = flush W (record { w = res.w; b = res.b ++ take k b }) in
        fill W loop k b n res
        ≡ elim e [ none ↦ loop (drop k b) (n + k) flushed | some f ↦ (n + k, (some f, flushed)) ]
  unfolding fill
  fill-more loop k b n res h = let (y, ys, d) = drop-more k b h in rw (d, fill) refl

  -- A loop that starts with an empty buffer ends in one round.
  pub loop_last :
      (fuel : ℕ) (b : Bytes) (n : ℕ) (w : State)
      → ((buffer_size ≤ length b)
          × (write_loop W (suc fuel) b n (record { w = w; b = [] })
              ≡ (let (k, (f, w')) = write_chunk W b w in (k, (f, record { w = w'; b = [] })))))
        ⊎ ((length b < buffer_size)
            × (write_loop W (suc fuel) b n (record { w = w; b = [] })
                ≡ (n + length b, (none, record { w = w; b = b }))))
  unfolding write_loop
  loop_last fuel [] n w = inr (omega arith, rw (plus_zero n) refl)
  loop_last fuel (c ∷ b) n w = elim (Bool-cases (leb 512 (suc (length b)))) [
    | inl t ↦ inl (ground arith, rw t refl)
    | inr f ↦
        inr (ground arith, rw f (fill-all (write_loop W fuel) (c ∷ b) n (record { w = w; b = [] })))
  ]

  nonzero : (n : ℕ) → (suc n == 0) ≡ false
  nonzero n = ground arith

  -- Bytes that fit are put in the buffer.
  pub loop_fits :
      (fuel : ℕ) (b : Bytes) (n : ℕ) (w : State) (x : ℕ) (buf : Bytes)
      → length b ≤ room x buf
      → write_loop W (suc fuel) b n (record { w = w; b = x ∷ buf })
        ≡ (n + length b, (none, record { w = w; b = (x ∷ buf) ++ b }))
  unfolding write_loop
  loop_fits fuel [] n w x buf h = rw (plus_zero n, append-nil buf) refl
  loop_fits fuel (c ∷ b) n w x buf h =
      let k = room x buf in
      elim (Bool-cases (leb k (suc (length b)))) [
        | inl t ↦
            let e : k ≡ suc (length b) = ground arith in
            rw (t, e, nonzero (length buf))
              (fill-all (write_loop W fuel) (c ∷ b) n (record { w = w; b = x ∷ buf }))
        | inr f ↦ rw f (fill-all (write_loop W fuel) (c ∷ b) n (record { w = w; b = x ∷ buf }))
      ]

  -- Bytes that do not fit fill the buffer, which is then flushed.
  pub loop_flushes :
      (fuel : ℕ) (b : Bytes) (n : ℕ) (w : State) (x : ℕ) (buf : Bytes)
      → room x buf < length b
      → let k = room x buf in
        let (e, flushed) = flush W (record { w = w; b = (x ∷ buf) ++ take k b }) in
        write_loop W (suc fuel) b n (record { w = w; b = x ∷ buf }) ≡ elim e [
          | none ↦ write_loop W fuel (drop k b) (n + k) flushed
          | some f ↦ (n + k, (some f, flushed))
        ]
  unfolding write_loop
  loop_flushes fuel [] n w x buf h = absurd (omega (arith, h))
  loop_flushes fuel (c ∷ b) n w x buf h =
      let k = room x buf in
      let t : leb k (suc (length b)) ≡ true = ground arith in
      rw (t, nonzero (length buf))
        (fill-more (write_loop W fuel) k (c ∷ b) n (record { w = w; b = x ∷ buf }) h)
