-- ===== src/Net/Ip.antt =====
-- The type net.IP, a list of 4 or 16 bytes, as proxy.go uses it, and the addresses of package net.
use netx.Base.{
  ◌≡◌, ◌≤◌, [], ◌∷◌, ◌++◌, Option, none, some, ◌==◌, if◌then◌else◌, Bytes, bytes_eq, All, length,
  take, drop,
}
use netx.Strconv.{ℤ}

abbrev pub v4_prefix : Bytes
v4_prefix = 0 ∷ 0 ∷ 0 ∷ 0 ∷ 0 ∷ 0 ∷ 0 ∷ 0 ∷ 0 ∷ 0 ∷ 0xFF ∷ 0xFF ∷ []

-- `ip.To4()`; none for nil.
unfoldable pub to4 : Bytes → Option Bytes
unfolding bytes_eq
to4 ip =
    if length ip == 4
    then some ip
    else if length ip == 16
    then (if bytes_eq (take 12 ip) v4_prefix then some (drop 12 ip) else none)
    else none

-- `ip.To16()`
unfoldable pub to16 : Bytes → Option Bytes
to16 ip =
    if length ip == 4 then some (v4_prefix ++ ip) else if length ip == 16 then some ip else none

-- A pointer to a TCPAddr or UDPAddr without a zone, to a UnixAddr, or any other implementation.
pub data Addr : Type 0 where
  tcp : Bytes → ℤ → Addr
  udp : Bytes → ℤ → Addr
  unix : Bytes → Bytes → Addr
  other : Bytes → Addr

-- `ip.String()` and `net.ParseIP`: the text of an address has at most 39 bytes, none of them a
-- space or a control character, and is read back as the address in its form of 16 bytes.
pub record IpText : Type 0 where
  pub show : Bytes → Bytes
  pub parse : Bytes → Option Bytes
  pub parse_show : (ip ip16 : Bytes) → to16 ip ≡ some ip16 → parse (show ip) ≡ some ip16
  pub show_size : (ip ip16 : Bytes) → to16 ip ≡ some ip16 → length (show ip) ≤ 39
  pub show_visible : (ip ip16 : Bytes) → to16 ip ≡ some ip16 → All (λ c. 33 ≤ c) (show ip)
