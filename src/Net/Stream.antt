-- ===== src/Net/Stream.antt =====
-- The interface io.Reader over what a connection delivers, and what the code uses of the package io.
pub mod Laws
use netx.Base.{
  ℕ, ◌+◌, ◌-◌, ◌≡◌, refl, List, [], ◌∷◌, ◌++◌, Option, none, some, arith, leb, if◌then◌else◌, Bytes,
  append_assoc, length, take, drop,
}

pub data IoError : Type 0 where
  eof unexpected_eof broken : IoError

-- What arrives, a segment for each time that bytes are there, and the error after all of them. A
-- segment without bytes is a call of `Read` that returns no bytes and no error.
pub record Stream : Type 0 where
  pub segments : List Bytes
  pub last : IoError

abbrev pub concat : List Bytes → Bytes
concat [] = []
concat (s ∷ ss) = s ++ concat ss

-- `r.Read(b)` with `room` bytes in `b`: the bytes read, the error, what is left.
unfoldable pub read : ℕ → List Bytes → IoError → Bytes × Option IoError × List Bytes
read room [] last = ([], some last, [])
read room (s ∷ ss) last =
    if leb (length s) room then (s, none, ss) else (take room s, none, drop room s ∷ ss)

abbrev pub short : Bytes → IoError → IoError
short [] last = last
short (c ∷ got) eof = unexpected_eof
short (c ∷ got) last = last

-- `io.ReadAtLeast`, with the bytes that are read so far and the room that is left behind them. A
-- read that takes a part of a segment fills the buffer, and is the last.
unfoldable pub read_at_least :
    ℕ → ℕ → Bytes → List Bytes → IoError → Bytes × Option IoError × List Bytes
read_at_least least room got [] last =
    if leb least (length got) then (got, none, []) else (got, some (short got last), [])
read_at_least least room got (s ∷ ss) last =
    let more = read_at_least least (room - length s) (got ++ s) ss last in
    if leb least (length got)
    then (got, none, s ∷ ss)
    else if leb (length s) room
    then more
    else (got ++ take room s, none, drop room s ∷ ss)
