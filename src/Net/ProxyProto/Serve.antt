-- ===== src/Net/ProxyProto/Serve.antt =====
-- ProxyProtocol.ServeConn of proxy.go, and the connection that it hands to its handler.
use netx.Base.{
  ℕ, arith, ◌≡◌, refl, ap, List, [], ◌∷◌, ◌++◌, Option, none, some, Bool, inl, inr, if◌then◌else◌,
  leb, Bytes, length, take, drop, length-take, ◌≤◌, All, Bool-cases,
}
use netx.Net.Ip.{Addr, IpText}
use netx.Net.ProxyProto.Encode.{append_v2}
use netx.Net.ProxyProto.Parse.{Parsed, failed, parsed, panics, parse_proxy_proto}
use netx.Net.ProxyProto.Carries.{Carries}
use netx.Net.ProxyProto.V2.{parse_proxy_proto-append_v2}
use netx.Net.Stream.Laws.{HasBytes, split-concat}
use netx.Net.Stream.{Stream, IoError, concat, read}

-- `proxyProtoConn`: the source address, the bytes read ahead, and the connection below.
pub record ProxyProtoConn : Type 0 where
  pub src : Option Addr
  pub buf : Bytes
  pub conn : Stream

-- `RemoteAddr`
abbrev pub remote_addr : ProxyProtoConn → Option Addr
remote_addr c = c.src

abbrev read_conn :
    ProxyProtoConn → Bytes × Option IoError × List Bytes → Bytes × Option IoError × ProxyProtoConn
read_conn c (b, e, ss) = (b, e, record c { conn = record { segments = ss; last = c.conn.last } })

-- `Read`, with the room in the slice: first what was read ahead.
unfoldable pub conn_read : ℕ → ProxyProtoConn → Bytes × Option IoError × ProxyProtoConn
unfolding read
conn_read room c = elim c.buf [
  | [] ↦ read_conn c (read room c.conn.segments c.conn.last)
  | x ∷ buf ↦ (take room (x ∷ buf), none, record c { buf = drop room (x ∷ buf) })
]

-- What `ServeConn` does: it panics, closes a local connection, or calls the handler.
pub data Serves : Type 0 where
  panicked : Serves
  closed : Serves
  handled : ProxyProtoConn → Serves

abbrev pub serve_parsed : IoError → Parsed → Serves
serve_parsed last (failed e) = panicked
serve_parsed last panics = panicked
serve_parsed last (parsed h) =
    if h.local
    then closed
    else handled
        (record { src = h.src; buf = h.buf; conn = record { segments = h.rest; last = last } })

unfoldable pub serve_conn : IpText → Stream → Serves
serve_conn text conn = serve_parsed conn.last (parse_proxy_proto text conn)

-- All that the handler will read.
abbrev pub content : ProxyProtoConn → Bytes
content c = c.buf ++ concat c.conn.segments

-- What one call gives.
abbrev pub GivesNext : ℕ → ProxyProtoConn → Type 0
GivesNext room c =
    let (b, e, c') = conn_read room c in
    (b ++ content c' ≡ content c) × (remote_addr c' ≡ remote_addr c) × (length b ≤ room)

conn_read_step :
    (room : ℕ) (buf : Bytes) (ss : List Bytes) (last : IoError) (src : Option Addr)
    → GivesNext room (record { src = src; buf = buf; conn = record { segments = ss; last = last } })
unfolding conn_read
conn_read_step room (x ∷ buf) ss last src =
    (split-concat room (x ∷ buf) ss, refl, length-take room (x ∷ buf))
conn_read_step room [] [] last src = (refl, refl, omega arith)
conn_read_step room [] (s ∷ ss) last src = elim (Bool-cases (leb (length s) room)) [
  | inl fits ↦ rw (fits, read) (refl, refl, ground arith)
  | inr over ↦ rw (over, read) (split-concat room s ss, refl, length-take room s)
]

-- `Read` gives the next bytes of the content, as many as there is room for at most, and keeps the
-- bytes behind them and the source address.
pub conn_read-content : (room : ℕ) (c : ProxyProtoConn) → GivesNext room c
conn_read-content room c = conn_read_step room c.buf c.conn.segments c.conn.last c.src

-- A connection whose client sent a header of version 2 for addresses that it can carry is handled
-- with the source address, and its content is what follows the header; a local one is closed.
pub serve_conn-append_v2 :
    (text : IpText) (src dst src' dst' : Addr) (local : Bool) (header rest : Bytes)
    (ss : List Bytes) (last : IoError)
    → Carries src dst src' dst'
    → append_v2 [] src dst local ≡ some header
    → All HasBytes ss
    → concat ss ≡ header ++ rest
    → (c : ProxyProtoConn) × (serve_conn text (record { segments = ss; last = last })
        ≡ (if local then closed else handled c))
      × (remote_addr c ≡ some src')
      × (content c ≡ rest)
unfolding serve_conn
serve_conn-append_v2 text src dst src' dst' local header rest ss last c e h bytes =
    let (buf, left, r, k) =
      parse_proxy_proto-append_v2 text src dst src' dst' local header rest ss last c e h bytes in
    (
      record { src = some src'; buf = buf; conn = record { segments = left; last = last } },
      ap (serve_parsed last) r,
      refl,
      k,
    )
