-- ===== src/Httpx/Conn.antt =====
-- `connReader` of httpx/conn.go: a connection that limits how much is read of it.
pub mod Limit
use netx.Base.{
  ℕ, zero, suc, ◌-◌, ◌≤◌, Bool, true, false, List, [], ◌∷◌, ◌++◌, Option, none, some, ltb,
  if◌then◌else◌, Bytes, length,
}
use netx.Strconv.{ℤ, pos, negsuc}

-- The connection below: a call of `Read` for so many bytes gives bytes, no more than those, an
-- error or none, and the new state; and which errors are temporary.
pub record Reader (Fault : Type 0) : Type 1 where
  pub State : Type 0
  pub read : ℕ → State → Bytes × (Option Fault × State)
  pub temporary : Fault → Bool
  pub length_read : (n : ℕ) (s : State) → length (read n s).0 ≤ n

pub data ReadError (Fault : Type 0) : Type 0 where
  end_of_file : ReadError Fault
  below : Fault → ReadError Fault

module _ {Fault : Type 0} (R : Reader Fault) where
  open R use {State, read, temporary}

  -- `cancels` says whether there is a cancel function, `cancelled` whether it was called.
  pub record ConnReader : Type 0 where
    pub conn : State
    pub limit : ℤ
    pub cancels : Bool
    pub cancelled : Bool

  -- What `Read` returns with the new state, or a panic.
  pub data Outcome : Type 0 where
    gave : Bytes → Option (ReadError Fault) → ConnReader → Outcome
    crashed : Outcome

  -- The number of bytes to ask for.
  abbrev pub asked : ℕ → ℤ → ℕ
  asked n (pos zero) = n
  asked n (pos (suc l)) = if ltb (suc l) n then suc l else n
  asked n (negsuc l) = n

  -- The limit after so many bytes were read.
  abbrev pub lowered : ℕ → ℤ → ℤ
  lowered n (pos l) = pos (l - n)
  lowered n (negsuc l) = negsuc l

  -- `c.cancel()`; the panic of a nil function otherwise.
  abbrev pub cancel : Bytes → Fault → ConnReader → Outcome
  cancel b e c =
      if c.cancels then gave b (some (below e)) (record c { cancelled = true }) else crashed

  abbrev pub ended : Bytes → Option Fault → ConnReader → Outcome
  ended b none c = gave b none c
  ended b (some e) c = if temporary e then gave b (some (below e)) c else cancel b e c

  abbrev pub read_below : ℕ → ConnReader → Outcome
  read_below n c =
      let (b, (e, s)) = read (asked n c.limit) c.conn in
      ended b e (record c { conn = s; limit = lowered (length b) c.limit })

  abbrev pub at_end : ℤ → Bool
  at_end (pos zero) = true
  at_end (pos (suc l)) = false
  at_end (negsuc l) = false

  -- `Read` for `n` bytes
  unfoldable pub read_conn_limited : ℕ → ConnReader → Outcome
  read_conn_limited n c = if at_end c.limit then gave [] (some end_of_file) c else read_below n c

  -- Calls of `Read` for these numbers of bytes, one after the other, until one panics: the bytes
  -- that they give and the last state.
  unfoldable pub read_calls : List ℕ → ConnReader → Bytes × ConnReader
  unfolding read_conn_limited
  read_calls [] c = ([], c)
  read_calls (n ∷ ns) c = elim (read_conn_limited n c) [
    | crashed ↦ ([], c)
    | gave b e c' ↦ let (more, last) = read_calls ns c' in (b ++ more, last)
  ]
