-- ===== src/Net/ProxyProto.antt =====
-- proxy.go: the header that the proxy protocol puts before a connection's data, versions 1 and 2.
pub mod Encode
pub mod Parse
pub mod Line
pub mod Words
pub mod ReadLine
pub mod V1
pub mod Carries
pub mod V2
pub mod Serve
pub mod Binary
use netx.Base.{
  ℕ, ◌≡◌, List, [], ◌∷◌, ◌++◌, Option, none, some, Bool, true, false, ◌&&◌, ◌==◌, ltb,
  if◌then◌else◌, Bytes, codes, length, drop, take,
}

abbrev pub proxy_word : Bytes
proxy_word = codes "PROXY"

abbrev pub tcp4 : Bytes
tcp4 = codes "TCP4"

abbrev pub tcp6 : Bytes
tcp6 = codes "TCP6"

abbrev pub crlf_bytes : Bytes
crlf_bytes = 0x0D ∷ 0x0A ∷ []

abbrev pub signature : Bytes
signature = 0x0D ∷ 0x0A ∷ 0x0D ∷ 0x0A ∷ 0x00 ∷ 0x0D ∷ 0x0A ∷ 0x51 ∷ 0x55 ∷ 0x49 ∷ 0x54 ∷ 0x0A ∷ []
