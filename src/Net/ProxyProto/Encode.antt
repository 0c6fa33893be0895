-- ===== src/Net/ProxyProto/Encode.antt =====
-- appendProxyProtoV1 and appendProxyProtoV2 of proxy.go.
use netx.Base.{
  ℕ, zero, suc, ◌+◌, ◌*◌, ◌/◌, ◌%◌, ◌^◌, [], ◌∷◌, ◌++◌, Option, none, some, Bool, if◌then◌else◌,
  Bytes, codes, bytes_eq, is_empty, take,
}
use netx.Net.Ip.{Addr, tcp, udp, unix, other, IpText, to4, to16}
use netx.Net.ProxyProto.{proxy_word, tcp4, tcp6, crlf_bytes, signature}
use netx.Strconv.{ℤ, decimal, wrap}

abbrev pub family_word : Option Bytes → Bytes
family_word none = tcp6
family_word (some ip) = tcp4

-- `appendProxyProtoV1(b, src, dst)`; none where the type assertions panic.
unfoldable pub append_v1 : IpText → Bytes → Addr → Addr → Option Bytes
append_v1 text b (tcp src_ip src_port) (tcp dst_ip dst_port) =
    let ports =
      decimal (wrap (2 ^ 64) src_port)
      ++ (b' ' ∷ (decimal (wrap (2 ^ 64) dst_port) ++ crlf_bytes)) in
    let addresses = text.show src_ip ++ (b' ' ∷ (text.show dst_ip ++ (b' ' ∷ ports))) in
    some (b ++ (proxy_word ++ (b' ' ∷ (family_word (to4 src_ip) ++ (b' ' ∷ addresses)))))
append_v1 text b src dst = none

-- `binary.BigEndian.PutUint16(b, uint16(port))`
unfoldable pub put_port : ℤ → Bytes
unfolding wrap
put_port port = wrap 65536 port / 256 ∷ wrap 65536 port % 256 ∷ []

abbrev pub zeros : ℕ → Bytes
zeros zero = []
zeros (suc n) = 0 ∷ zeros n

-- `copy(buf, name)` for a buffer of 108 zeros.
unfoldable pub name_field : Bytes → Bytes
name_field name = take 108 (name ++ zeros 108)

-- What the first switch of `appendProxyProtoV2` sets: the socket type, the IP addresses, the family
-- and the addresses of a unix domain, the ports.
pub record Fields : Type 0 where
  pub socktype : ℕ
  pub src_ip : Bytes
  pub dst_ip : Bytes
  pub family : ℕ
  pub src_addr : Bytes
  pub dst_addr : Bytes
  pub src_port : Bytes
  pub dst_port : Bytes

abbrev pub unix_socktype : Bytes → ℕ
unix_socktype net =
    if bytes_eq net (codes "unix") then 1 else if bytes_eq net (codes "unixgram") then 2 else 0

abbrev pub ip_fields : ℕ → Bytes → Bytes → ℤ → ℤ → Fields
ip_fields socktype src dst src_port dst_port = record {
  socktype = socktype;
  src_ip = src;
  dst_ip = dst;
  family = 0;
  src_addr = [];
  dst_addr = [];
  src_port = put_port src_port;
  dst_port = put_port dst_port;
}

-- The first switch; none where the type assertion on `dst` panics.
unfoldable pub fields : Addr → Addr → Option Fields
unfolding bytes_eq
fields (tcp ip port) (tcp ip' port') = some (ip_fields 1 ip ip' port port')
fields (tcp ip port) dst = none
fields (udp ip port) (udp ip' port') = some (ip_fields 2 ip ip' port port')
fields (udp ip port) dst = none
fields (unix net name) (unix net' name') = some (record {
  socktype = unix_socktype net;
  src_ip = [];
  dst_ip = [];
  family = 3;
  src_addr = name_field name;
  dst_addr = name_field name';
  src_port = [];
  dst_port = [];
})
fields (unix net name) dst = none
fields (other name) dst = some (record {
  socktype = 0;
  src_ip = [];
  dst_ip = [];
  family = 0;
  src_addr = [];
  dst_addr = [];
  src_port = [];
  dst_port = [];
})

abbrev pub or_nil : Option Bytes → Bytes
or_nil none = []
or_nil (some ip) = ip

-- The second part: IP addresses set the family and the addresses.
unfoldable pub address_fields : Fields → Fields
address_fields f =
    let v4 : Option Bytes = to4 f.src_ip in
    let inet =
      λ (ip : Bytes). record f { family = 1; src_addr = ip; dst_addr = or_nil (to4 f.dst_ip) } in
    let inet6 = record f {
      family = 2;
      src_addr = or_nil (to16 f.src_ip);
      dst_addr = or_nil (to16 f.dst_ip);
    } in
    if is_empty f.src_ip then f else elim v4 [ none ↦ inet6 | some ip ↦ inet ip ]

-- `appendProxyProtoV2(b, src, dst, local)`; none where it panics.
unfoldable pub append_v2 : Bytes → Addr → Addr → Bool → Option Bytes
append_v2 b src dst local = elim (fields src dst) [
  | none ↦ none
  | some g ↦
      let f = address_fields g in
      let vercmd : ℕ = if local then 0x20 else 0x21 in
      let body = f.src_addr ++ (f.dst_addr ++ (f.src_port ++ f.dst_port)) in
      some (b ++ (signature ++ (vercmd ∷ (f.family * 16 + f.socktype) ∷ body)))
]
