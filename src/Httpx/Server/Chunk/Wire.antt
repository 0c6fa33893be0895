-- ===== src/Httpx/Server/Chunk/Wire.antt =====
-- The chunked coding that httpx/server.go puts on the connection, and what one chunk adds to it.
use netx.Base.{
  ℕ, ◌<◌, ◌≡◌, refl, sym, ◌∙◌, ap, [], ◌∷◌, ◌++◌, append_assoc, none, arith, inl, inr, Bytes,
  length, take-length, Option-cases,
}
use netx.Httpx.Server.Chunk.{hex, crlf, write_chunk}
use netx.Httpx.Server.Writer.{Writer}

-- A chunk: its size in base 16, a line end, its data, a line end.
abbrev pub chunk : Bytes → Bytes
chunk b = ((hex (length b) ++ crlf) ++ b) ++ crlf

-- A sequence of chunks, none of them empty, and the data they carry.
pub data Chunks : Bytes → Bytes → Type 0 where
  start : Chunks [] []
  more :
      {wire payload : Bytes} (b : Bytes)
      → 0 < length b
      → Chunks wire payload
      → Chunks (wire ++ chunk b) (payload ++ b)

module _ {Fault : Type 0} (W : Writer Fault) where
  open W use {State, sent, count, fault, next, count_full, sent_next}

  pub append_three : (s a b c : Bytes) → (((s ++ a) ++ b) ++ c) ≡ s ++ ((a ++ b) ++ c)
  append_three s a b c = rw (append_assoc s a b, append_assoc s (a ++ b) c) refl

  pub sent-next_all : (b : Bytes) (w : State) → fault b w ≡ none → sent (next b w) ≡ sent w ++ b
  sent-next_all b w h =
      sent_next b w ∙ rw (count_full b w h) (ap (λ x. sent w ++ x) (take-length b))

  -- A chunk written without an error is counted whole and is on the connection.
  pub write_chunk-chunk :
      (b : Bytes) (w : State) (n : ℕ) (w' : State)
      → 0 < length b
      → write_chunk W b w ≡ (n, (none, w'))
      → (n ≡ length b) × (sent w' ≡ sent w ++ chunk b)
  unfolding write_chunk
  write_chunk-chunk [] w n w' p h = absurd (omega (arith, p))
  write_chunk-chunk (c ∷ b) w n w' p h =
      let size = hex (length (c ∷ b)) ++ crlf in
      let w1 = next size w in
      let w2 = next (c ∷ b) w1 in
      elim (Option-cases (fault size w)) [
        | inr (e, f) ↦ cc
        | inl f1 ↦ elim (Option-cases (fault (c ∷ b) w1)) [
          | inr (e, f) ↦ cc
          | inl f2 ↦
              let e = rw (f1, f2) at h in
              (
                sym (ap (λ r. r.0) e) ∙ count_full (c ∷ b) w1 f2,
                rw (sym (ap (λ r. r.1.1) e)) (
                    sent-next_all crlf w2 (ap (λ r. r.1.0) e)
                    ∙ rw (sent-next_all (c ∷ b) w1 f2, sent-next_all size w f1)
                        (append_three (sent w) size (c ∷ b) crlf)),
              )
        ]
      ]
