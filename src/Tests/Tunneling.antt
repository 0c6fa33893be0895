-- ===== src/Tests/Tunneling.antt =====
-- A line and its reply through a tunnel, with buffers of eight bytes.
use netx.Base.{◌≡◌, refl, Bool, true, [], ◌∷◌, List, Bytes, codes, index_byte}
use netx.Handler.Echo.{waiting}
use netx.Handler.{Event, segment, eof, Reader, fatal}
use netx.Tunnel.{tunnel_line}

abbrev eight : Reader
eight = record { front = []; buffered = []; stale = codes "........" }

abbrev always : List Bytes → Bool
always sent = true

abbrev ask : List Event
ask = segment (codes "a\n") ∷ []

abbrev reply : List Event
reply = segment (codes "b\r\n") ∷ []

-- A target that ends without a reply is an error.
unanswered :
    (tunnel_line eof eof always always 2 [] [] (waiting eof eight ask) (waiting eof eight [])).end
    ≡ fatal eof
unfolding tunnel_line index_byte
unanswered = refl
