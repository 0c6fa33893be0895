-- ===== src/Tests/Serving.antt =====
-- Runs of the chunk writer over a writer that keeps what it is given, and its theorems at inputs.
use netx.Base.{
  ℕ, zero, suc, ◌≡◌, refl, sym, ap, [], ◌∷◌, ◌++◌, none, arith, Bytes, codes, length, take-length,
}
use netx.Httpx.Server.Chunk.{
  ChunkWriter, hex, hex_digits, hex_digit, unsent, write_chunk, flush, fill, write_loop, write,
  close,
}
use netx.Httpx.Server.Chunk.Count.{write-reported}
use netx.Httpx.Server.Chunk.Hex.{read_hex, read_hex-hex}
use netx.Httpx.Server.Chunk.Inv.{Holds, write-Holds, close-Chunks}
use netx.Httpx.Server.Chunk.Wire.{Chunks, start}
use netx.Httpx.Server.Writer.{Writer}

-- A writer in memory that takes everything.
abbrev pub memory : Writer Unit
memory = record {
  State = Bytes;
  sent = λ w. w;
  count = λ b w. length b;
  fault = λ b w. none;
  next = λ b w. w ++ b;
  count_le = λ b w. omega arith;
  count_full = λ b w e. refl;
  sent_next = λ b w. ap (λ x. w ++ x) (sym (take-length b));
}

abbrev text : Bytes
text = codes "abc"

abbrev after : ChunkWriter memory
after = record { w = codes "start"; b = text }

after-Holds : Holds memory (codes "start") text after
after-Holds = record {
  wire = [];
  payload = [];
  on_wire = refl;
  chunked = start;
  held = refl;
  bounded = omega arith;
}

abbrev flushed : ChunkWriter memory
flushed = record { w = codes "start3\r\nabc\r\n"; b = [] }

flushes : flush memory after ≡ (none, flushed)
unfolding flush write_chunk unsent hex hex_digits hex_digit
flushes = refl

sizes : (hex 512 ≡ codes "200") × (hex 10 ≡ codes "a") × (hex 0 ≡ codes "0")
unfolding hex hex_digits hex_digit
sizes = (refl, refl, refl)

abbrev written : ChunkWriter memory
written = record { w = codes "start"; b = codes "abcde" }

writes : write memory (codes "de") after ≡ (2, (none, written))
unfolding write write_loop fill flush
writes = refl

write-Holds_example : Holds memory (codes "start") (codes "abcde") written
write-Holds_example =
    write-Holds memory (codes "start") text (codes "de") after written 2 after-Holds writes

abbrev closed : ChunkWriter memory
closed = record { w = codes "start3\r\nabc\r\n0\r\n\r\n"; b = [] }

closes : close memory after ≡ (none, closed)
unfolding close flush write_chunk unsent hex hex_digits hex_digit
closes = refl

close-Chunks_example :
    (wire : Bytes) × Chunks wire text × (closed.w ≡ codes "start" ++ (wire ++ codes "0\r\n\r\n"))
close-Chunks_example = close-Chunks memory (codes "start") text after closed after-Holds closes

abbrev many : ℕ → Bytes
many zero = []
many (suc n) = 0x78 ∷ many n

-- With three bytes in the buffer a call with 1100 bytes counts 591 of them.
write-reported_instance :
    ((write memory (many 1100) after).1.0 ≡ none) × ((write memory (many 1100) after).0 ≡ 591)
write-reported_instance = write-reported memory (many 1100) after (λ b w. refl) (omega arith)

read_hex-hex_instance : read_hex 0 (hex 512) ≡ 512
read_hex-hex_instance = read_hex-hex 512
