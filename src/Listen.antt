-- ===== src/Listen.antt =====
-- Listen, ListenPacket and resolveListen of listen.go: what an address says to listen on.
pub mod Multi
pub mod Resolve
use netx.Addr.{index_text, is_ip}
use netx.Base.{
  ℕ, ◌+◌, ◌≡◌, Bool, true, false, List, [], ◌∷◌, ◌++◌, Option, none, some, if◌then◌else◌, Bytes,
  codes, bytes_eq, is_empty, has_prefix, length, take, drop,
}
use netx.Net.Ip.{IpText}
use netx.Strconv.{ℤ, pos, negsuc, atoi}

pub data ListenError : Type 0 where
  unsupported_protocol : Bytes → ListenError
  not_a_number invalid_descriptor negative_descriptor : Bytes → ListenError
  interface_error : Bytes → ListenError
  listen_error : Bytes → ListenError

pub data Result {ℓ} (A : Type ℓ) : Type ℓ where
  err : ListenError → Result A
  ok : A → Result A

-- What the package net gives: `SplitHostPort`, none for an error, `JoinHostPort`, and the addresses
-- of an interface, none if there is no such interface, some none if they cannot be had.
pub record Network : Type 0 where
  pub split_host_port : Bytes → Option (Bytes × Bytes)
  pub join_host_port : Bytes → Bytes → Bytes
  pub interface_addrs : Bytes → Option (Option (List Bytes))

-- The first of the protocols that the address starts with, and the rest of the address.
unfoldable pub find_protocol : List Bytes → Bytes → Option (Bytes × Bytes)
unfolding has_prefix
find_protocol [] address = none
find_protocol (proto ∷ l) address =
    if has_prefix address (proto ++ codes "://")
    then some (proto, drop (length proto + 3) address)
    else find_protocol l address

-- The network and the address behind it; no network if there is no scheme.
unfoldable pub cut_scheme : List Bytes → Bytes → Result (Bytes × Bytes)
unfolding index_text find_protocol
cut_scheme protocols address = elim (index_text address (codes "://")) [
  | none ↦ ok ([], address)
  | some off ↦ elim (find_protocol protocols address) [
    | none ↦ err (unsupported_protocol (take off address))
    | some r ↦ ok r
  ]
]

abbrev pub or_default : Bytes → Bytes → Bytes
or_default network default = if is_empty network then default else network

module _ (T : IpText) (N : Network) where
  open N use {split_host_port, join_host_port, interface_addrs}

  abbrev pub with_ports : Bytes → List Bytes → List Bytes
  with_ports port [] = []
  with_ports port (s ∷ l) = (if is_empty port then s else join_host_port s port) ∷ with_ports port l

  abbrev pub host_port : Bytes → Bytes × Bytes
  host_port address = elim (split_host_port address) [
    | some hp ↦ hp
    | none ↦ if has_prefix address (codes ":") then ([], drop 1 address) else (address, [])
  ]

  -- An IP address, the name of an interface, or the path of a socket.
  unfoldable pub resolve_host : Bytes → Bytes → Bytes → Bytes → Result (Bytes × List Bytes)
  unfolding is_ip
  resolve_host net unix network address =
      let (host, port) = host_port address in
      if is_ip T host
      then ok (or_default network net, address ∷ [])
      else elim (interface_addrs host) [
        | none ↦ ok (or_default network unix, address ∷ [])
        | some none ↦ err (interface_error host)
        | some (some addrs) ↦ ok (or_default network net, with_ports port addrs)
      ]

  -- What `resolveListen` does when the scheme is cut off.
  unfoldable pub resolve_rest : Bytes → Bytes → Bytes × Bytes → Result (Bytes × List Bytes)
  unfolding resolve_host
  resolve_rest net unix (network, address) =
      if bytes_eq network (codes "fd")
      then elim (atoi address) [
        | none ↦ err (not_a_number address)
        | some fd ↦ ok (network, address ∷ [])
      ]
      else if has_prefix address (codes ":")
      then ok (net, address ∷ [])
      else resolve_host net unix network address

  -- `resolveListen`
  unfoldable pub resolve_listen : Bytes → Bytes → Bytes → List Bytes → Result (Bytes × List Bytes)
  unfolding cut_scheme resolve_rest
  resolve_listen address net unix protocols = elim (cut_scheme protocols address) [
    | err e ↦ err e
    | ok r ↦ resolve_rest net unix r
  ]

  abbrev pub listen_protocols : List Bytes
  listen_protocols =
      codes "tcp"
      ∷ codes "tcp4"
      ∷ codes "tcp6"
      ∷ codes "unix"
      ∷ codes "unixpacket"
      ∷ codes "fd"
      ∷ []

  abbrev pub packet_protocols : List Bytes
  packet_protocols =
      codes "udp"
      ∷ codes "udp4"
      ∷ codes "udp6"
      ∷ codes "ip"
      ∷ codes "ip4"
      ∷ codes "ip6"
      ∷ codes "unixdgram"
      ∷ codes "fd"
      ∷ []

  -- Listening on a descriptor, which is that of a Unix socket, and on a network and an address; none
  -- for an error.
  module _ {Listener : Type 0} (open_fd : ℕ → Option Listener)
      (open_net : Bytes → Bytes → Option Listener) where
    abbrev pub opened : Bytes → Option Listener → Result Listener
    opened address none = err (listen_error address)
    opened address (some l) = ok l

    abbrev pub listen_fd : Bytes → Option ℤ → Result Listener
    listen_fd address none = err (invalid_descriptor address)
    listen_fd address (some (negsuc n)) = err (negative_descriptor address)
    listen_fd address (some (pos n)) = opened address (open_fd n)

    -- `listen`
    unfoldable pub listen : Bytes → Bytes → Result Listener
    listen network address =
        if bytes_eq network (codes "fd")
        then listen_fd address (atoi address)
        else opened address (open_net network address)

    -- What `Listen` returns: one listener, an error, a compound listener, or nil without an error,
    -- with the listeners that it closed.
    pub data Listening : Type 0 where
      one : Listener → Listening
      fails : ListenError → Listening
      multi : List Listener → Listening
      nothing : List Listener → Listening

    -- The loop of `Listen` with the listeners opened before.
    unfoldable pub listen_all : Bytes → List Bytes → List Listener → Listening
    unfolding listen
    listen_all network [] lstns = multi lstns
    listen_all network (a ∷ l) lstns = elim (listen network a) [
      | err e ↦ nothing lstns
      | ok lstn ↦ listen_all network l (lstns ++ (lstn ∷ []))
    ]

    abbrev pub one_listener : Result Listener → Listening
    one_listener (err e) = fails e
    one_listener (ok l) = one l

    unfoldable pub listen_addrs : Bytes → List Bytes → Listening
    unfolding listen_all
    listen_addrs network (a ∷ []) = one_listener (listen network a)
    listen_addrs network [] = listen_all network [] []
    listen_addrs network (a ∷ b ∷ l) = listen_all network (a ∷ b ∷ l) []

    -- `Listen`
    unfoldable pub listen_on : Bytes → Listening
    unfolding resolve_listen listen_addrs
    listen_on address =
        elim (resolve_listen address (codes "tcp") (codes "unix") listen_protocols) [
          | err e ↦ fails e
          | ok (network, addrs) ↦ listen_addrs network addrs
        ]

    -- The loop of `ListenPacket`: the first address that can be listened on, with the last error.
    unfoldable pub packet_addrs :
        Bytes → List Bytes → Option ListenError → Option Listener × Option ListenError
    packet_addrs network [] e = (none, e)
    packet_addrs network (a ∷ l) e = elim (open_net network a) [
      | some c ↦ (some c, none)
      | none ↦ packet_addrs network l (some (listen_error a))
    ]

    abbrev pub packet_fd : Result Listener → Option Listener × Option ListenError
    packet_fd (err e) = (none, some e)
    packet_fd (ok c) = (some c, none)

    abbrev pub first_addr : List Bytes → Bytes
    first_addr [] = []
    first_addr (a ∷ l) = a

    -- `ListenPacket`: a connection or nil, and an error or nil.
    unfoldable pub listen_packet : Bytes → Option Listener × Option ListenError
    unfolding resolve_listen packet_addrs
    listen_packet address =
        elim (resolve_listen address (codes "udp") (codes "unixdgram") packet_protocols) [
          | err e ↦ (none, some e)
          | ok (network, addrs) ↦
              if bytes_eq network (codes "fd")
              then packet_fd (listen_fd (first_addr addrs) (atoi (first_addr addrs)))
              else packet_addrs network addrs none
        ]
