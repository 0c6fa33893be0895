-- ===== src/Handler.antt =====
-- readLine and EchoLine of handler.go, over the buffer of a bufio.Reader.
pub mod Echo
pub mod Lines
use netx.Base.{
  ℕ, zero, suc, ◌+◌, ◌==◌, Bool, true, false, List, [], ◌∷◌, ◌++◌, Option, none, some,
  if◌then◌else◌, Bytes, index_byte, is_empty, length, take, drop,
}

-- What happens on a connection: bytes arrive, a second passes without any, or the context is done.
pub data Event : Type 0 where
  segment : Bytes → Event
  timeout cancelled : Event

-- `eof` and `fault` are what the connection gives when nothing arrives any more.
pub data LineError : Type 0 where
  eof fault timed_out canceled line_too_long no_pipeline : LineError

-- `bufio.Reader`: the bytes of its buffer before those that are buffered, these, and those behind.
pub record Reader : Type 0 where
  pub front : Bytes
  pub buffered : Bytes
  pub stale : Bytes

abbrev pub memory : Reader → Bytes
memory r = r.front ++ (r.buffered ++ r.stale)

-- The rest of a segment that did not fit arrives next.
abbrev pub push : Bytes → List Event → List Event
push [] events = events
push (c ∷ s) events = segment (c ∷ s) ∷ events

-- The buffered bytes move to the start, and as many of the segment as fit are put behind them.
unfoldable pub fill : Reader → Bytes → Reader
fill r s =
    let tail = drop (length r.buffered) (memory r) in
    record {
      front = [];
      buffered = r.buffered ++ take (length tail) s;
      stale = drop (length s) tail;
    }

-- What did not fit.
abbrev pub left_over : Reader → Bytes → Bytes
left_over r s = drop (length (drop (length r.buffered) (memory r))) s

unfoldable pub consume : ℕ → Reader → Reader
consume k r = record {
  front = r.front ++ take k r.buffered;
  buffered = drop k r.buffered;
  stale = r.stale;
}

-- What `ReadSlice` returns: bytes up to and with a newline, a full buffer, or the bytes before an
-- error.
pub data Slice : Type 0 where
  found : Bytes → Slice
  is_full : Slice
  failed : Bytes → LineError → Slice

-- The reader, what happens next, and whether the context is done.
pub record State : Type 0 where
  pub reader : Reader
  pub events : List Event
  pub done : Bool

-- `ReadSlice` when it need not read.
unfoldable pub settled : Reader → Option (Slice × Reader)
unfolding consume
settled r = elim (index_byte r.buffered b'\n') [
  | some i ↦ some (found (take (i + 1) r.buffered), consume (i + 1) r)
  | none ↦
      if length r.buffered == length (memory r)
      then some (is_full, consume (length r.buffered) r)
      else none
]

abbrev pub fails : LineError → Reader → List Event → Bool → Slice × State
fails e r events done = (
  failed r.buffered e,
  record { reader = consume (length r.buffered) r; events = events; done = done },
)

-- The length of a line without the newline and a carriage return before it.
unfoldable pub text_length : Bytes → ℕ
text_length [] = 0
text_length (c ∷ []) = if c == b'\n' then 0 else 1
text_length (c ∷ d ∷ []) = if d == b'\n' then (if c == b'\r' then 0 else 1) else 2
text_length (c ∷ d ∷ e ∷ s) = suc (text_length (d ∷ e ∷ s))

-- The byte at a place, if there is one.
abbrev pub byte_at : ℕ → Bytes → Option ℕ
byte_at n s = elim (drop n s) [ [] ↦ none | c ∷ t ↦ some c ]

-- `line[:len(line)+1]`, and one byte more if the last is a carriage return, of the buffer behind
-- the start of the line; none for the panic where the buffer ends.
unfoldable pub extend : Bytes → ℕ → Option Bytes
extend memory n = elim (byte_at n memory) [
  | none ↦ none
  | some c ↦
      if c == b'\r'
      then elim (byte_at (n + 1) memory) [ none ↦ none | some d ↦ some (take (n + 2) memory) ]
      else some (take (n + 1) memory)
]

pub data Outcome : Type 0 where
  line : Bytes → Outcome
  error : LineError → Outcome
  panics : Outcome

abbrev pub or_panic : Option Bytes → Outcome
or_panic none = panics
or_panic (some l) = line l

-- What `readLine` makes of the bytes that `ReadLine` got.
unfoldable pub line_of : Bytes → Reader → Outcome
unfolding extend text_length
line_of slice r =
    if is_empty r.buffered
    then or_panic (extend (slice ++ r.stale) (text_length slice))
    else error no_pipeline

-- An error with bytes before it is dropped by `ReadLine`.
unfoldable pub outcome : Slice × State → Outcome × State
unfolding line_of
outcome (found s, state) = (line_of s state.reader, state)
outcome (is_full, state) = (error line_too_long, state)
outcome (failed [] e, state) = (error e, state)
outcome (failed (c ∷ s) e, state) = (line_of (c ∷ s) state.reader, state)

module _ (end : LineError) where
  -- The loop of `ReadSlice`. A segment that does not fit fills the buffer, and the slice is settled.
  unfoldable pub read_more : Reader → List Event → Bool → Slice × State
  unfolding settled fill consume
  read_more r [] done = fails end r [] done
  read_more r (timeout ∷ events) done = fails timed_out r events done
  read_more r (cancelled ∷ events) done = read_more r events true
  read_more r (segment s ∷ events) done =
      let r' = fill r s in
      let more = read_more r' events done in
      elim (settled r') [
        | some (slice, r'') ↦
            (slice, record { reader = r''; events = push (left_over r s) events; done = done })
        | none ↦ more
      ]

  unfoldable pub read_slice : Reader → List Event → Bool → Slice × State
  unfolding settled read_more
  read_slice r events done = elim (settled r) [
    | some (slice, r') ↦ (slice, record { reader = r'; events = events; done = done })
    | none ↦ read_more r events done
  ]

  -- The loop of `readLine` with no byte buffered, behind the test of the context: `Peek`, and around
  -- again when a second passed.
  unfoldable pub wait : Reader → List Event → Bool → Outcome × State
  unfolding read_slice outcome fill
  wait r [] done = outcome (read_slice r [] done)
  wait r (cancelled ∷ events) done = wait r events true
  wait r (timeout ∷ events) done =
      let again = wait r events done in
      if done then (error canceled, record { reader = r; events = events; done = done }) else again
  wait r (segment s ∷ events) done =
      outcome (read_slice (fill r s) (push (left_over r s) events) done)

  -- `readLine`
  unfoldable pub read_line : State → Outcome × State
  unfolding read_slice outcome wait
  read_line state =
      if state.done
      then (error canceled, state)
      else if is_empty state.reader.buffered
      then wait state.reader state.events false
      else outcome (read_slice state.reader state.events false)

-- How `echoLine` ends: it returns, it closes the connection and panics with an error, or it panics;
-- `unfinished` when the fuel is used up.
pub data Ended : Type 0 where
  returned : Ended
  fatal : LineError → Ended
  write_failed crashed unfinished : Ended

abbrev pub ended : LineError → Ended
ended eof = returned
ended canceled = returned
ended e = fatal e

module _ (end : LineError) (can_write : List Bytes → Bool) where
  -- The loop of `echoLine`, with the lines that it wrote; whether it can write one more depends on
  -- these.
  unfoldable pub echo_line : ℕ → List Bytes → State → List Bytes × Ended
  unfolding read_line
  echo_line zero sent state = (sent, unfinished)
  echo_line (suc fuel) sent state =
      let (o, state') = read_line end state in
      elim o [
        | line l ↦
            let more = echo_line fuel (sent ++ (l ∷ [])) state' in
            if can_write sent then more else (sent, write_failed)
        | error e ↦ (sent, ended e)
        | panics ↦ (sent, crashed)
      ]
