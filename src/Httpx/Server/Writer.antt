-- ===== src/Httpx/Server/Writer.antt =====
-- The interface io.Writer, as the connection's buffered writer offers it.
use netx.Base.{ℕ, ◌≤◌, ◌≡◌, Option, none, ◌++◌, Bytes, length, take}

-- The state of a writer, what was written to it, and a call of `Write`: how many bytes it took,
-- the error if any, and the new state. The laws are the documented contract: no more bytes are
-- taken than given, fewer only with an error, and those taken are the first of them.
pub record Writer (Fault : Type 0) : Type 1 where
  pub State : Type 0
  pub sent : State → Bytes
  pub count : Bytes → State → ℕ
  pub fault : Bytes → State → Option Fault
  pub next : Bytes → State → State
  pub count_le : (b : Bytes) (w : State) → count b w ≤ length b
  pub count_full : (b : Bytes) (w : State) → fault b w ≡ none → count b w ≡ length b
  pub sent_next : (b : Bytes) (w : State) → sent (next b w) ≡ sent w ++ take (count b w) b
