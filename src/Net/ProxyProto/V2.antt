-- ===== src/Net/ProxyProto/V2.antt =====
-- Version 2 of the header: what appendProxyProtoV2 writes, parseProxyProto reads back (proxy.go).
use netx.Base.{
  ℕ, ◌+◌, ◌*◌, ◌≤◌, ◌<◌, ◌≡◌, refl, sym, ap, ◌∙◌, List, [], ◌∷◌, ◌++◌, none, some, arith, Bool,
  Bytes, bytes_eq, length, All, Lacks,
}
use netx.Net.Ip.{Addr, tcp, udp, unix, IpText, to4, v4_prefix}
use netx.Net.ProxyProto.Carries.{
  tcp_inet, udp_inet, tcp_inet6, udp_inet6, domain, Carries, Encoded, uint16-put_port,
  length-put_port, to4-length, append_v2-inet, append_v2-inet6, make_ip-v4, make_ip-v6,
  uint16-put_port_nil, until_zero-zeros, length-name_field,
}
use netx.Net.ProxyProto.Binary.{socket_number, Parts, command, parse_proxy_proto-Makes}
use netx.Net.ProxyProto.Encode.{append_v2, address_fields, fields, ip_fields, put_port, name_field}
use netx.Net.ProxyProto.Parse.{
  parsed, panics, Socket, stream, dgram, make_addr, uint16, unix_net, parse_proxy_proto,
}
use netx.Net.ProxyProto.{signature}
use netx.Net.Stream.Laws.{HasBytes}
use netx.Net.Stream.{IoError, concat}
use netx.Strconv.{pos}

-- A stream with a socket type but no family: the parser panics.
pub parse_proxy_proto_unspec :
    (text : IpText) (socket : Socket) (local : Bool) (rest : Bytes) (ss : List Bytes)
    (last : IoError)
    → All HasBytes ss
    → concat ss ≡ (signature ++ (command local ∷ socket_number socket ∷ [])) ++ rest
    → parse_proxy_proto text (record { segments = ss; last = last }) ≡ panics
parse_proxy_proto_unspec text stream local rest ss last h e =
    let parts : Parts 0 [] [] [] [] = omega arith in
    let m = parse_proxy_proto-Makes text 0 stream local [] [] [] [] rest ss last parts h e in
    m.2 ∙ unfold make_addr in refl
parse_proxy_proto_unspec text dgram local rest ss last h e =
    let parts : Parts 0 [] [] [] [] = omega arith in
    let m = parse_proxy_proto-Makes text 0 dgram local [] [] [] [] rest ss last parts h e in
    m.2 ∙ unfold make_addr in refl

-- The parts for an IPv4 address; the socket decides which type of address is made.
inet_addr : Socket → Bytes → ℕ → Addr
inet_addr stream ip port = tcp ip (pos port)
inet_addr dgram ip port = udp ip (pos port)

make_addr-v4 :
    (socket : Socket) (ip ports : Bytes) (n : ℕ)
    → length ip ≡ 4
    → uint16 ports ≡ some (pos n)
    → make_addr 1 socket ip ports ≡ some (inet_addr socket (v4_prefix ++ ip) n)
unfolding make_addr inet_addr
make_addr-v4 stream ip ports n h e = rw (e, make_ip-v4 ip h) refl
make_addr-v4 dgram ip ports n h e = rw (e, make_ip-v4 ip h) refl

make_addr-v6 :
    (socket : Socket) (ip ports : Bytes) (n : ℕ)
    → length ip ≡ 16
    → uint16 ports ≡ some (pos n)
    → make_addr 2 socket ip ports ≡ some (inet_addr socket ip n)
unfolding make_addr inet_addr
make_addr-v6 stream ip ports n h e = rw (e, make_ip-v6 ip h) refl
make_addr-v6 dgram ip ports n h e = rw (e, make_ip-v6 ip h) refl

fields-inet_addr :
    (socket : Socket) (s d : Bytes) (p q : ℕ)
    → fields (inet_addr socket s p) (inet_addr socket d q)
      ≡ some (ip_fields (socket_number socket) s d (pos p) (pos q))
unfolding fields inet_addr
fields-inet_addr stream s d p q = refl
fields-inet_addr dgram s d p q = refl

Encoded-v4 :
    (socket : Socket) (s d s4 d4 : Bytes) (p q : ℕ)
    → to4 s ≡ some s4
    → to4 d ≡ some d4
    → p < 65536
    → q < 65536
    → Encoded
        (inet_addr socket s p)
        (inet_addr socket d q)
        (inet_addr socket (v4_prefix ++ s4) p)
        (inet_addr socket (v4_prefix ++ d4) q)
Encoded-v4 socket s d s4 d4 p q hs hd hp hq = record {
  family = 1;
  socket = socket;
  a = s4;
  d = d4;
  p = put_port (pos p);
  q = put_port (pos q);
  parts = record {
    known = omega arith;
    size_a = (to4-length s s4 hs).0;
    size_d = (to4-length d d4 hd).0;
    size_p = length-put_port p;
    size_q = length-put_port q;
  };
  written = λ local.
      append_v2-inet _ _ (socket_number socket) s d s4 d4 p q local
        (fields-inet_addr socket s d p q) hs hd;
  src_read = make_addr-v4 socket s4 _ p (to4-length s s4 hs).0 (uint16-put_port_nil p hp);
  dst_read = λ buf. make_addr-v4 socket d4 _ q (to4-length d d4 hd).0 (uint16-put_port q buf hq);
}

Encoded-v6 :
    (socket : Socket) (s d : Bytes) (p q : ℕ)
    → to4 s ≡ none
    → length s ≡ 16
    → length d ≡ 16
    → p < 65536
    → q < 65536
    → Encoded
        (inet_addr socket s p)
        (inet_addr socket d q)
        (inet_addr socket s p)
        (inet_addr socket d q)
Encoded-v6 socket s d p q hs ls ld hp hq = record {
  family = 2;
  socket = socket;
  a = s;
  d = d;
  p = put_port (pos p);
  q = put_port (pos q);
  parts = record {
    known = omega arith;
    size_a = ls;
    size_d = ld;
    size_p = length-put_port p;
    size_q = length-put_port q;
  };
  written = λ local.
      append_v2-inet6 _ _ (socket_number socket) s d p q local (fields-inet_addr socket s d p q) hs
        ls ld;
  src_read = make_addr-v6 socket s _ p ls (uint16-put_port_nil p hp);
  dst_read = λ buf. make_addr-v6 socket d _ q ld (uint16-put_port q buf hq);
}

append_v2-domain :
    (socket : Socket) (s d : Bytes) (local : Bool)
    → append_v2 [] (unix (unix_net socket) s) (unix (unix_net socket) d) local
      ≡ some (
          signature
          ++ (command local
              ∷ (3 * 16 + socket_number socket)
              ∷ (name_field s ++ (name_field d ++ ([] ++ [])))))
unfolding append_v2 address_fields fields bytes_eq
append_v2-domain stream s d local = refl
append_v2-domain dgram s d local = refl

make_addr-domain :
    (socket : Socket) (name ports : Bytes)
    → Lacks 0 name
    → length name ≤ 108
    → make_addr 3 socket (name_field name) ports ≡ some (unix (unix_net socket) name)
unfolding make_addr name_field
make_addr-domain socket name ports l h =
    ap (λ x. some (unix (unix_net socket) x)) (until_zero-zeros 108 108 name l h)

Encoded-domain :
    (socket : Socket) (s d : Bytes)
    → Lacks 0 s
    → Lacks 0 d
    → length s ≤ 108
    → length d ≤ 108
    → Encoded
        (unix (unix_net socket) s)
        (unix (unix_net socket) d)
        (unix (unix_net socket) s)
        (unix (unix_net socket) d)
Encoded-domain socket s d ls ld hs hd = record {
  family = 3;
  socket = socket;
  a = name_field s;
  d = name_field d;
  p = [];
  q = [];
  parts = record {
    known = omega arith;
    size_a = length-name_field s;
    size_d = length-name_field d;
    size_p = refl;
    size_q = refl;
  };
  written = append_v2-domain socket s d;
  src_read = make_addr-domain socket s [] ls hs;
  dst_read = λ buf. make_addr-domain socket d buf ld hd;
}

Carries-Encoded : {src dst src' dst' : Addr} → Carries src dst src' dst' → Encoded src dst src' dst'
unfolding inet_addr
Carries-Encoded (tcp_inet hs hd hp hq) = Encoded-v4 stream _ _ _ _ _ _ hs hd hp hq
Carries-Encoded (udp_inet hs hd hp hq) = Encoded-v4 dgram _ _ _ _ _ _ hs hd hp hq
Carries-Encoded (tcp_inet6 hs ls ld hp hq) = Encoded-v6 stream _ _ _ _ hs ls ld hp hq
Carries-Encoded (udp_inet6 hs ls ld hp hq) = Encoded-v6 dgram _ _ _ _ hs ls ld hp hq
Carries-Encoded (domain socket ls ld hs hd) = Encoded-domain socket _ _ ls ld hs hd

-- A header of version 2 is read back, from any segments that the bytes come in: the addresses as
-- `Carries` says, the local flag, and no byte behind the header is lost.
pub parse_proxy_proto-append_v2 :
    (text : IpText) (src dst src' dst' : Addr) (local : Bool) (header rest : Bytes)
    (ss : List Bytes) (last : IoError)
    → Carries src dst src' dst'
    → append_v2 [] src dst local ≡ some header
    → All HasBytes ss
    → concat ss ≡ header ++ rest
    → (buf : Bytes) × (left : List Bytes) × (parse_proxy_proto text
          (record { segments = ss; last = last })
        ≡ parsed
            (record { src = some src'; dst = some dst'; buf = buf; local = local; rest = left }))
      × (buf ++ concat left ≡ rest)
parse_proxy_proto-append_v2 text src dst src' dst' local header rest ss last c e h bytes =
    let enc = Carries-Encoded c in
    let made = sym e ∙ enc.written local in
    let same : header
        ≡ signature
          ++ (command local
              ∷ (enc.family * 16 + socket_number enc.socket)
              ∷ (enc.a ++ (enc.d ++ (enc.p ++ enc.q)))) =
      cc made in
    let (buf, left, r, k) =
      parse_proxy_proto-Makes text enc.family enc.socket local enc.a enc.d enc.p enc.q rest ss last
        enc.parts h (bytes ∙ ap (λ x. x ++ rest) same) in
    (buf, left, r ∙ rw (enc.src_read, enc.dst_read buf) refl, k)
