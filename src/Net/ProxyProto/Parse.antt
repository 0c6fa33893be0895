-- ===== src/Net/ProxyProto/Parse.antt =====
-- parseProxyProto of proxy.go and what it calls.
use netx.Base.{
  ℕ, suc, ◌+◌, ◌-◌, ◌*◌, ◌/◌, ◌%◌, List, [], ◌∷◌, ◌++◌, Option, none, some, Bool, true, false, ◌||◌,
  ◌==◌, ltb, leb, if◌then◌else◌, Bytes, codes, bytes_eq, has_prefix, is_empty, length, take, drop,
}
use netx.Net.Ip.{Addr, tcp, udp, unix, IpText, v4_prefix}
use netx.Net.ProxyProto.{proxy_word, tcp4, tcp6, crlf_bytes, signature}
use netx.Net.ProxyProto.Encode.{zeros}
use netx.Net.Stream.{Stream, IoError, eof, unexpected_eof, read_at_least}
use netx.Strconv.{ℤ, pos, atoi}

pub data ProxyError : Type 0 where
  io : IoError → ProxyError
  no_crlf bad_signature no_proxy extra_bytes : ProxyError
  bad_version bad_command bad_family bad_socktype : ℕ → ProxyError
  bad_family_word bad_source bad_destination bad_source_port bad_destination_port :
      Bytes → ProxyError

-- Two addresses, or an error.
pub data Ends : Type 0 where
  wrong : ProxyError → Ends
  ends : Addr → Addr → Ends

unfoldable pub parse_word : Bytes → Bytes × Bytes
parse_word [] = ([], [])
parse_word (c ∷ b) =
    let (word, tail) = parse_word b in if c == b' ' then ([], b) else (c ∷ word, tail)

abbrev pub skip_space : Bytes → Bytes
skip_space [] = []
skip_space (c ∷ b) = if c == b' ' then b else c ∷ b

-- The checks of `parseProxyProtoV1` on the five words and what is left.
unfoldable pub check_v1 : IpText → Bytes → Bytes → Bytes → Bytes → Bytes → Bytes → Ends
unfolding bytes_eq
check_v1 text family src_ip dst_ip src_port dst_port b =
    if bytes_eq family tcp4 || bytes_eq family tcp6
    then elim (text.parse src_ip) [
      | none ↦ wrong (bad_source src_ip)
      | some src ↦ elim (text.parse dst_ip) [
        | none ↦ wrong (bad_destination dst_ip)
        | some dst ↦ elim (atoi src_port) [
          | none ↦ wrong (bad_source_port src_port)
          | some p ↦ elim (atoi dst_port) [
            | none ↦ wrong (bad_destination_port dst_port)
            | some q ↦ if is_empty b then ends (tcp src p) (tcp dst q) else wrong extra_bytes
          ]
        ]
      ]
    ]
    else wrong (bad_family_word family)

unfoldable pub parse_v1 : IpText → Bytes → Ends
unfolding has_prefix
parse_v1 text b =
    let (family, b1) = parse_word (skip_space (drop 5 b)) in
    let (src_ip, b2) = parse_word b1 in
    let (dst_ip, b3) = parse_word b2 in
    let (src_port, b4) = parse_word b3 in
    let (dst_port, b5) = parse_word b4 in
    if has_prefix b proxy_word
    then check_v1 text family src_ip dst_ip src_port dst_port b5
    else wrong no_proxy

-- `bytes.Index(b, crlf[:])`; none for -1.
unfoldable pub index_crlf : Bytes → Option ℕ
unfolding has_prefix
index_crlf [] = none
index_crlf (c ∷ b) =
    let rest = index_crlf b in
    if has_prefix (c ∷ b) crlf_bytes
    then some 0
    else elim rest [ none ↦ none | some i ↦ some (suc i) ]

-- The addresses, the bytes read behind the header, whether the connection is local, and what is
-- still to be read.
pub record Header : Type 0 where
  pub src : Option Addr
  pub dst : Option Addr
  pub buf : Bytes
  pub local : Bool
  pub rest : List Bytes

-- What parseProxyProto does: it returns an error, it returns none, or it panics.
pub data Parsed : Type 0 where
  failed : ProxyError → Parsed
  parsed : Header → Parsed
  panics : Parsed

abbrev pub end_v1 : Ends → Bytes → List Bytes → Parsed
end_v1 (wrong e) buf rest = failed e
end_v1 (ends src dst) buf rest =
    parsed (record { src = some src; dst = some dst; buf = buf; local = false; rest = rest })

abbrev pub end_of_file : IoError → IoError
end_of_file eof = unexpected_eof
end_of_file e = e

module _ (text : IpText) where
  unfoldable pub found_v1 : Bytes → ℕ → List Bytes → Parsed
  found_v1 b i rest = end_v1 (parse_v1 text (take i b)) (drop (i + 2) b) rest

  -- The loop that reads up to 107 bytes until they have a line end, with the bytes read. A read that
  -- takes a part of a segment makes it 107 bytes, and the next round is the last.
  unfoldable pub read_line : Bytes → List Bytes → IoError → Parsed
  read_line b [] last = elim (index_crlf b) [
    | some i ↦ found_v1 b i []
    | none ↦ if leb 107 (length b) then failed no_crlf else failed (io (end_of_file last))
  ]
  read_line b (s ∷ ss) last =
      let room = 107 - length b in
      let again = read_line (b ++ s) ss last in
      let full = b ++ take room s in
      elim (index_crlf b) [
        | some i ↦ found_v1 b i (s ∷ ss)
        | none ↦
            if leb 107 (length b)
            then failed no_crlf
            else if is_empty s
            then parsed (record { src = none; dst = none; buf = []; local = false; rest = ss })
            else if leb (length s) room
            then again
            else elim (index_crlf full) [
              | some i ↦ found_v1 full i (drop room s ∷ ss)
              | none ↦ failed no_crlf
            ]
      ]

  -- The first case: the line end is looked for in the first 107 bytes of the array, then as above.
  unfoldable pub serve_v1 : Bytes → List Bytes → IoError → Parsed
  serve_v1 b rest last = elim (index_crlf (take 107 (b ++ zeros 107))) [
    | some i ↦ found_v1 b i rest
    | none ↦ elim (leb 107 (length b)) [ true ↦ failed no_crlf | false ↦ read_line b rest last ]
  ]

unfoldable pub make_ip : Bytes → Bytes
make_ip b = if length b == 4 then v4_prefix ++ b else b

-- `int(binary.BigEndian.Uint16(port))`; none where it panics.
abbrev pub uint16 : Bytes → Option ℤ
uint16 [] = none
uint16 (a ∷ []) = none
uint16 (a ∷ b ∷ port) = some (pos (a * 256 + b))

abbrev pub until_zero : Bytes → Bytes
until_zero [] = []
until_zero (c ∷ name) = let rest = until_zero name in if c == 0 then [] else c ∷ rest

pub data Socket : Type 0 where
  stream dgram : Socket

abbrev pub unix_net : Socket → Bytes
unix_net stream = codes "unix"
unix_net dgram = codes "unixgram"

abbrev pub with_port : (ℤ → Addr) → Option ℤ → Option Addr
with_port f none = none
with_port f (some port) = some (f port)

-- `makeTCPAddr`, `makeUDPAddr` or `makeUnixAddr`, as the family and the socket type choose.
unfoldable pub make_addr : ℕ → Socket → Bytes → Bytes → Option Addr
unfolding make_ip
make_addr family socket ip port =
    if family == 3 then some (unix (unix_net socket) (until_zero ip)) else elim socket [
      | stream ↦ with_port (tcp (make_ip ip)) (uint16 port)
      | dgram ↦ with_port (udp (make_ip ip)) (uint16 port)
    ]

abbrev pub addr_len : ℕ → ℕ
addr_len family =
    if family == 1 then 4 else if family == 2 then 16 else if family == 3 then 108 else 0

abbrev pub port_len : ℕ → ℕ
port_len family = if family == 1 then 2 else if family == 2 then 2 else 0

abbrev pub both : Option Addr → Option Addr → Bytes → Bool → List Bytes → Parsed
both none dst buf local rest = panics
both (some src) none buf local rest = panics
both (some src) (some dst) buf local rest =
    parsed (record { src = some src; dst = some dst; buf = buf; local = local; rest = rest })

-- The addresses in `b`, which has the two addresses and the two ports of the family at least.
unfoldable pub addresses_v2 : ℕ → ℕ → Bool → Bytes → List Bytes → Parsed
addresses_v2 family socktype local b rest =
    let n = addr_len family in
    let p = port_len family in
    let buf = drop (2 * n + 2 * p) b in
    let make = λ (socket : Socket).
      both (make_addr family socket (take n b) (take p (drop (2 * n) b)))
        (make_addr family socket (take n (drop n b)) (drop (2 * n + p) b)) buf local rest in
    if socktype == 1
    then make stream
    else if socktype == 2
    then make dgram
    else parsed (record { src = none; dst = none; buf = buf; local = local; rest = rest })

abbrev pub filled : ℕ → ℕ → Bool → Bytes → Bytes × Option IoError × List Bytes → Parsed
filled family socktype local b (more, some e, rest) = failed (io e)
filled family socktype local b (more, none, rest) =
    addresses_v2 family socktype local (b ++ more) rest

-- The second case, with the version and the command, the family and the socket type, and the bytes
-- behind these.
unfoldable pub serve_v2 : ℕ → ℕ → Bytes → List Bytes → IoError → Parsed
serve_v2 vercmd fam b rest last =
    let n1 = 2 * addr_len (fam / 16) + 2 * port_len (fam / 16) in
    let room = n1 - length b in
    let local = vercmd % 16 == 0 in
    if vercmd / 16 == 2
    then (if leb (vercmd % 16) 1
        then (if leb (fam / 16) 3
            then (if leb (fam % 16) 2
                then (if ltb (length b) n1
                    then filled (fam / 16) (fam % 16) local b (read_at_least room room [] rest last)
                    else addresses_v2 (fam / 16) (fam % 16) local b rest)
                else failed (bad_socktype (fam % 16)))
            else failed (bad_family (fam / 16)))
        else failed (bad_command (vercmd % 16)))
    else failed (bad_version (vercmd / 16))

abbrev pub serve_signed : Bytes → List Bytes → IoError → Parsed
serve_signed [] rest last = panics
serve_signed (vercmd ∷ []) rest last = panics
serve_signed (vercmd ∷ fam ∷ b) rest last = serve_v2 vercmd fam b rest last

module _ (text : IpText) where
  abbrev pub choose_version : IoError → Bytes × Option IoError × List Bytes → Parsed
  choose_version last (b, some e, rest) = failed (io e)
  choose_version last (b, none, rest) =
      if has_prefix b proxy_word
      then serve_v1 text b rest last
      else if has_prefix b signature
      then serve_signed (drop 12 b) rest last
      else failed bad_signature

  -- `parseProxyProto`: it reads 14 bytes at least, and 256 at most.
  unfoldable pub parse_proxy_proto : Stream → Parsed
  unfolding has_prefix
  parse_proxy_proto r = choose_version r.last (read_at_least 14 256 [] r.segments r.last)
