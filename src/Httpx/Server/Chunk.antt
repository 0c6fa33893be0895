-- ===== src/Httpx/Server/Chunk.antt =====
-- `chunkWriter` of httpx/server.go: the chunked transfer encoding with a buffer of 512 bytes.
pub mod Wire
pub mod Hex
pub mod Loop
pub mod Inv
pub mod Count
use netx.Base.{
  ℕ, zero, suc, ◌+◌, ◌-◌, ◌/◌, ◌%◌, ◌≡◌, refl, Bool, true, false, List, [], ◌∷◌, ◌++◌, Option, none,
  some, ltb, leb, ◌==◌, ◌&&◌, if◌then◌else◌, Bytes, codes, is_empty, length, take, drop,
}
use netx.Httpx.Server.Writer.{Writer}

-- One digit of `strconv.AppendInt(…, 16)`.
unfoldable pub hex_digit : ℕ → ℕ
hex_digit d = if ltb d 10 then b'0' + d else b'a' + (d - 10)

-- The digits of a number in base 16 before those in `out`; the number is enough fuel.
unfoldable pub hex_digits : ℕ → ℕ → Bytes → Bytes
hex_digits zero n out = out
hex_digits (suc fuel) n out =
    let more = hex_digits fuel (n / 16) (hex_digit (n % 16) ∷ out) in
    if ltb n 16 then hex_digit n ∷ out else more

unfoldable pub hex : ℕ → Bytes
unfolding hex_digits hex_digit
hex n = hex_digits (suc n) n []

abbrev pub crlf : Bytes
crlf = 0x0D ∷ 0x0A ∷ []

-- `len(res.b)`
abbrev pub buffer_size : ℕ
buffer_size = 512

-- What `Flush` leaves in the buffer when `n` bytes of it were written.
unfoldable pub unsent : ℕ → Bytes → Bytes
unsent n b = if ltb 0 n then (if n == length b then [] else drop n b) else b

module _ {Fault : Type 0} (W : Writer Fault) where
  open W use {State, count, fault, next}

  -- The writer and `res.b[:res.n]`; the scratch space `res.a` holds nothing between calls.
  pub record ChunkWriter : Type 0 where
    pub w : State
    pub b : Bytes

  -- A count of bytes, an error, and the new state.
  abbrev pub Wrote : Type 0 → Type 0
  Wrote S = ℕ × (Option Fault × S)

  -- `res.w.Write(b)`
  abbrev pub put : Bytes → State → Wrote State
  put b w = (count b w, (fault b w, next b w))

  unfoldable pub write_chunk : Bytes → State → Wrote State
  write_chunk [] w = (0, (none, w))
  write_chunk (c ∷ b) w =
      let (_, (e1, w1)) = put (hex (length (c ∷ b)) ++ crlf) w in
      let (n, (e2, w2)) = put (c ∷ b) w1 in
      let (_, (e3, w3)) = put crlf w2 in
      elim e1 [
        | some e ↦ (0, (some e, w1))
        | none ↦ elim e2 [ some e ↦ (n, (some e, w2)) | none ↦ (n, (e3, w3)) ]
      ]

  unfoldable pub flush : ChunkWriter → Option Fault × ChunkWriter
  unfolding write_chunk unsent
  flush res = let (n, (e, w)) = write_chunk res.b res.w in (e, record { w = w; b = unsent n res.b })

  -- A round of the loop of `Write` that puts `n1` bytes of `b` in the buffer, with what the loop
  -- does with the bytes that are left.
  unfoldable pub fill :
      (Bytes → ℕ → ChunkWriter → Wrote ChunkWriter)
      → ℕ
      → Bytes
      → ℕ
      → ChunkWriter
      → Wrote ChunkWriter
  unfolding flush
  fill loop n1 b n res =
      let filled : ChunkWriter = record { w = res.w; b = res.b ++ take n1 b } in
      let rest = drop n1 b in
      let (e, flushed) = flush filled in
      let again = loop rest (n + n1) flushed in
      if is_empty rest
      then (n + n1, (none, filled))
      else elim e [ none ↦ again | some f ↦ (n + n1, (some f, flushed)) ]

  -- The loop of `Write`, with the bytes to write and those counted so far. A round fills the
  -- buffer and flushes it, or is the last: two rounds are enough fuel.
  unfoldable pub write_loop : ℕ → Bytes → ℕ → ChunkWriter → Wrote ChunkWriter
  write_loop fuel [] n res = (n, (none, res))
  write_loop zero (c ∷ b) n res = (n, (none, res))
  write_loop (suc fuel) (c ∷ b) n res =
      let n2 = buffer_size - length res.b in
      let full = leb n2 (length (c ∷ b)) in
      let n1 = if full then n2 else length (c ∷ b) in
      let (sent, (fault', w)) = write_chunk (c ∷ b) res.w in
      let filled = fill (write_loop fuel) n1 (c ∷ b) n res in
      if full && length res.b == 0 then (sent, (fault', record { w = w; b = res.b })) else filled

  -- `Write`
  unfoldable pub write : Bytes → ChunkWriter → Wrote ChunkWriter
  unfolding write_loop
  write b res = write_loop 2 b 0 res

  -- `Close`
  unfoldable pub close : ChunkWriter → Option Fault × ChunkWriter
  close res =
      let (e, flushed) = flush res in
      elim e [
        | some f ↦ (some f, flushed)
        | none ↦ (
          fault (codes "0\r\n\r\n") flushed.w,
          record { w = next (codes "0\r\n\r\n") flushed.w; b = flushed.b },
        )
      ]
