-- ===== src/Httpx/Forwarded.antt =====
-- The Forwarded field, Max-Forwards and protoVersion of httpx/proto.go.
use netx.Addr.{is_ipv4, is_ipv6}
use netx.Base.{
  ℕ, suc, ◌==◌, List, [], ◌∷◌, ◌++◌, Option, some, if◌then◌else◌, Bytes, codes, is_empty,
  has_prefix, join, drop,
}
use netx.Httpx.Header.{Header, get, set}
use netx.Httpx.Lex.{trim_ows}
use netx.Httpx.Proto.{for_each_header_values, delete_all, add_header_value}
use netx.Httpx.Quote.{quote, format_quoted}
use netx.Net.Ip.{IpText}
use netx.Strconv.{ℤ, negsuc, atoi}

unfoldable pub proto_version : Bytes → Bytes
unfolding has_prefix
proto_version proto = if has_prefix proto (codes "HTTP/") then drop 5 proto else proto

-- `maxForwards`; none for an error.
unfoldable pub max_forwards : Header → Option ℤ
unfolding get atoi
max_forwards header =
    let s = get header (codes "Max-Forwards") in if is_empty s then some (negsuc 0) else atoi s

-- `strings.Count` of a byte.
unfoldable pub count_byte : Bytes → ℕ → ℕ
count_byte [] b = 0
count_byte (c ∷ s) b = let n = count_byte s b in if c == b then suc n else n

abbrev pub x_fields : List Bytes
x_fields =
    codes "X-Forwarded-For"
    ∷ codes "X-Forwarded-By"
    ∷ codes "X-Forwarded-Port"
    ∷ codes "X-Forwarded-Proto"
    ∷ []

-- An element of `s`, if the text is not empty.
abbrev pub unless_missing : Bytes → Bytes → List Bytes
unless_missing value element = if is_empty value then [] else element ∷ []

module _ (T : IpText) where
  unfoldable pub quote_forwarded : Bytes → Bytes
  unfolding is_ipv4 is_ipv6 quote
  quote_forwarded addr =
      if is_ipv4 T addr
      then addr
      else if is_ipv6 T addr
      then quote (codes "[" ++ (addr ++ codes "]"))
      else quote addr

  unfoldable pub make_forwarded : Bytes → Bytes → Bytes → Bytes
  unfolding quote_forwarded format_quoted join
  make_forwarded proto for_addr by_addr =
      join
        (unless_missing proto (codes "proto=" ++ format_quoted proto)
          ++ (unless_missing for_addr (codes "for=" ++ quote_forwarded for_addr)
              ++ unless_missing by_addr (codes "by=" ++ quote_forwarded by_addr)))
        (codes ";")

  unfoldable pub add_forwarded : Header → Bytes → Bytes → Bytes → Header
  unfolding add_header_value make_forwarded
  add_forwarded header proto for_addr by_addr =
      add_header_value header (codes "Forwarded") (make_forwarded proto for_addr by_addr)

  -- The callback of `translateXForwarded`.
  unfoldable pub add_for : Bytes → List Bytes → List Bytes
  unfolding quote_forwarded
  add_for v s = s ++ ((codes "for=" ++ quote_forwarded v) ∷ [])

  -- The Forwarded value that `translateXForwarded` makes, with `net.JoinHostPort`.
  unfoldable pub x_forwarded : (Bytes → Bytes → Bytes) → Header → Bytes
  unfolding get count_byte for_each_header_values add_for join make_forwarded trim_ows
  x_forwarded join_host_port h =
      let x_for = get h (codes "X-Forwarded-For") in
      let x_by = get h (codes "X-Forwarded-By") in
      let x_port = get h (codes "X-Forwarded-Port") in
      let x_proto = get h (codes "X-Forwarded-Proto") in
      let with_port =
        if is_empty x_port then x_for else join_host_port (trim_ows x_for) (trim_ows x_port) in
      if count_byte x_for b',' == 0
      then make_forwarded (trim_ows x_proto) (trim_ows with_port) (trim_ows x_by)
      else join (for_each_header_values (x_for ∷ []) add_for []) (codes ", ")

  abbrev pub set_forwarded : Header → Bytes → Header
  set_forwarded h forwarded = if is_empty forwarded then h else set h (codes "Forwarded") forwarded

  -- `translateXForwarded`
  unfoldable pub translate_x_forwarded : (Bytes → Bytes → Bytes) → Header → Header
  unfolding x_forwarded delete_all
  translate_x_forwarded join_host_port h =
      delete_all x_fields (set_forwarded h (x_forwarded join_host_port h))
