-- ===== src/Tests/Limits.antt =====
-- Runs of the limited reader over bytes in memory, and its theorem at an input.
use netx.Base.{
  ◌≡◌, refl, true, false, [], ◌∷◌, none, some, Bytes, codes, length-take, take, drop, is_empty,
  if◌then◌else◌,
}
use netx.Httpx.Conn.Limit.{Within, read_calls-Within}
use netx.Httpx.Conn.{Reader, ConnReader, crashed, gave, end_of_file, read_conn_limited, read_calls}
use netx.Strconv.{pos, negsuc}

-- Bytes in memory, and an error that is not temporary behind them.
abbrev stored : Reader Unit
stored = record {
  State = Bytes;
  read = λ n s. (take n s, (if is_empty s then some tt else none, drop n s));
  temporary = λ e. false;
  length_read = λ n s. length-take n s;
}

abbrev limited : ConnReader stored
limited = record { conn = codes "abcdef"; limit = pos 4; cancels = true; cancelled = false }

reads :
    read_calls stored (3 ∷ 3 ∷ 3 ∷ []) limited
    ≡ (codes "abcd", record limited { conn = codes "ef"; limit = pos 0 })
unfolding read_calls read_conn_limited
reads = refl

at_limit :
    read_conn_limited stored 9 (record limited { limit = pos 0 })
    ≡ gave [] (some end_of_file) (record limited { limit = pos 0 })
unfolding read_conn_limited
at_limit = refl

-- Without a cancel function, as in the connection of `ConnTransport`, the end of the connection is a
-- panic.
no_cancel :
    read_conn_limited stored 9
      (record { conn = []; limit = negsuc 0; cancels = false; cancelled = false })
    ≡ crashed
unfolding read_conn_limited
no_cancel = refl

read_calls-Within_example :
    let (b, last) = read_calls stored (3 ∷ 3 ∷ 3 ∷ []) limited in Within stored 4 b last
read_calls-Within_example = read_calls-Within stored (3 ∷ 3 ∷ 3 ∷ []) 4 limited refl
