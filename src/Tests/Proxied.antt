-- ===== src/Tests/Proxied.antt =====
-- Runs of the proxy protocol of proxy.go, and its theorems at inputs.
use netx.Base.{
  ◌≤◌, ◌≡◌, refl, List, [], ◌∷◌, ◌++◌, none, some, false, arith, Bytes, codes, length, take, drop,
  if◌then◌else◌,
}
use netx.Net.Ip.{tcp, to4, to16, v4_prefix}
use netx.Net.ProxyProto.Encode.{append_v1, append_v2, fields, address_fields, put_port}
use netx.Net.ProxyProto.Parse.{
  parsed, panics, failed, io, bad_signature, stream, serve_v1, read_line, index_crlf,
  parse_proxy_proto,
}
use netx.Net.ProxyProto.Serve.{
  ProxyProtoConn, GivesNext, conn_read-content, remote_addr, content, serve_conn, closed, handled,
  serve_conn-append_v2,
}
use netx.Net.ProxyProto.V1.{IsTcp, append_v1_bounds, parse_proxy_proto-append_v1}
use netx.Net.ProxyProto.Carries.{Carries, tcp_inet}
use netx.Net.ProxyProto.V2.{parse_proxy_proto-append_v2, parse_proxy_proto_unspec}
use netx.Net.ProxyProto.{signature}
use netx.Net.Stream.{eof, broken, unexpected_eof, concat, read_at_least}
use netx.Strconv.Decimal.{atoi-decimal}
use netx.Strconv.{pos, negsuc, atoi, decimal, wrap}
use netx.Tests.Addresses.{shifted}

numbers :
    (decimal 65535 ≡ codes "65535")
    × (atoi (codes "-12") ≡ some (negsuc 11))
    × (atoi (codes "+7") ≡ some (pos 7))
    × (atoi (codes "12x") ≡ none)
    × (atoi (codes "9223372036854775808") ≡ none)
unfolding decimal atoi
numbers = (refl, refl, refl, refl, refl)

reads_number : atoi (decimal 8080) ≡ some (pos 8080)
reads_number = atoi-decimal 8080 (omega arith)

abbrev source : Bytes
source = 10 ∷ 0 ∷ 0 ∷ 1 ∷ []

abbrev target : Bytes
target = 10 ∷ 0 ∷ 0 ∷ 2 ∷ []

source-IsTcp : IsTcp source (v4_prefix ++ source) 4000
unfolding to16
source-IsTcp = record { address = refl; small = omega arith }

target-IsTcp : IsTcp target (v4_prefix ++ target) 80
unfolding to16
target-IsTcp = record { address = refl; small = omega arith }

-- The header of version 1, with the addresses in the form of the tests.
abbrev line : Bytes
line =
    codes "PROXY TCP4 !!!!!!!!!!"
    ++ (288 ∷ 288 ∷ 43 ∷ 33 ∷ 33 ∷ 34 ∷ codes " !!!!!!!!!!")
    ++ (288 ∷ 288 ∷ 43 ∷ 33 ∷ 33 ∷ 35 ∷ codes " 4000 80\r\n")

writes_v1 : append_v1 shifted [] (tcp source (pos 4000)) (tcp target (pos 80)) ≡ some line
unfolding append_v1 to16 to4 decimal wrap
writes_v1 = refl

append_v1_bounds_example : length line ≤ 104
append_v1_bounds_example =
    append_v1_bounds shifted source target (v4_prefix ++ source) (v4_prefix ++ target) 4000 80 line
      source-IsTcp target-IsTcp writes_v1

-- The header and the first bytes of the data, in two segments.
abbrev arrives : List Bytes
arrives = take 20 line ∷ (drop 20 line ++ codes "hello") ∷ []

parse_proxy_proto-append_v1_example :
    (buf : Bytes) × (left : List Bytes) × (parse_proxy_proto shifted
        (record { segments = arrives; last = eof })
      ≡ parsed (record {
        src = some (tcp (v4_prefix ++ source) (pos 4000));
        dst = some (tcp (v4_prefix ++ target) (pos 80));
        buf = buf;
        local = false;
        rest = left;
      }))
    × (buf ++ concat left ≡ codes "hello")
parse_proxy_proto-append_v1_example =
    parse_proxy_proto-append_v1 shifted source target (v4_prefix ++ source) (v4_prefix ++ target)
      4000 80 line (codes "hello") arrives eof source-IsTcp target-IsTcp writes_v1 (omega arith)
      refl

abbrev binary_header : Bytes
binary_header =
    signature ++ (0x21 ∷ 0x11 ∷ 10 ∷ 0 ∷ 0 ∷ 1 ∷ 10 ∷ 0 ∷ 0 ∷ 2 ∷ 15 ∷ 160 ∷ 0 ∷ 80 ∷ [])

writes_v2 : append_v2 [] (tcp source (pos 4000)) (tcp target (pos 80)) false ≡ some binary_header
unfolding append_v2 fields address_fields put_port to4
writes_v2 = refl

carries :
    Carries
      (tcp source (pos 4000))
      (tcp target (pos 80))
      (tcp (v4_prefix ++ source) (pos 4000))
      (tcp (v4_prefix ++ target) (pos 80))
unfolding to4
carries = tcp_inet refl refl (omega arith) (omega arith)

abbrev arrives_v2 : List Bytes
arrives_v2 = take 15 binary_header ∷ (drop 15 binary_header ++ codes "hello") ∷ []

reads_v2 :
    (buf : Bytes) × (left : List Bytes) × (parse_proxy_proto shifted
        (record { segments = arrives_v2; last = eof })
      ≡ parsed (record {
        src = some (tcp (v4_prefix ++ source) (pos 4000));
        dst = some (tcp (v4_prefix ++ target) (pos 80));
        buf = buf;
        local = false;
        rest = left;
      }))
    × (buf ++ concat left ≡ codes "hello")
reads_v2 =
    parse_proxy_proto-append_v2 shifted _ _ _ _ false binary_header (codes "hello") arrives_v2 eof
      carries writes_v2 (omega arith) refl

serve_conn-append_v2_example :
    (c : ProxyProtoConn) × (serve_conn shifted (record { segments = arrives_v2; last = eof })
      ≡ (if false then closed else handled c))
    × (remote_addr c ≡ some (tcp (v4_prefix ++ source) (pos 4000)))
    × (content c ≡ codes "hello")
serve_conn-append_v2_example =
    serve_conn-append_v2 shifted _ _ _ _ false binary_header (codes "hello") arrives_v2 eof carries
      writes_v2 (omega arith) refl

abbrev ahead : ProxyProtoConn
ahead = record {
  src = none;
  buf = codes "he";
  conn = record { segments = codes "llo" ∷ []; last = eof };
}

conn_read-content_example : GivesNext 4 ahead
conn_read-content_example = conn_read-content 4 ahead

abbrev unspec : Bytes
unspec = signature ++ (0x21 ∷ 0x01 ∷ [])

parse_proxy_proto_unspec_example :
    parse_proxy_proto shifted (record { segments = unspec ∷ []; last = eof }) ≡ panics
parse_proxy_proto_unspec_example =
    parse_proxy_proto_unspec shifted stream false [] (unspec ∷ []) eof (omega arith) refl

-- A request of another protocol, and a line that does not end.
refuses :
    (parse_proxy_proto shifted (record { segments = codes "GET / HTTP/1.1\r\n" ∷ []; last = eof })
      ≡ failed bad_signature)
    × (parse_proxy_proto shifted (record { segments = codes "PROXY TCP4 1 2 3" ∷ []; last = eof })
        ≡ failed (io unexpected_eof))
    × (parse_proxy_proto shifted (record { segments = codes "PROXY" ∷ []; last = broken })
        ≡ failed (io broken))
unfolding parse_proxy_proto read_at_least serve_v1 read_line index_crlf
refuses = (refl, refl, refl)
