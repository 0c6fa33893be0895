-- ===== src/Httpx/Proxy.antt =====
-- ReverseProxy of httpx/proxy.go: how a request is rewritten, how it is served, and the response.
pub mod Choice
pub mod Passes
pub mod Replies
pub mod Serve
pub mod Switch
use netx.Addr.{split_net_addr}
use netx.Base.{
  ℕ, zero, suc, ◌+◌, ◌-◌, ◌^◌, ◌==◌, ◌||◌, Bool, true, false, List, [], ◌∷◌, ◌++◌, Option, none,
  some, if◌then◌else◌, Bytes, codes, bytes_eq, is_empty,
}
use netx.Httpx.Forwarded.{proto_version, max_forwards, add_forwarded, translate_x_forwarded}
use netx.Httpx.Header.{Header, values, set}
use netx.Httpx.Proto.{copy_header, delete_hop_fields, add_via, connection_upgrade}
use netx.Net.Ip.{IpText}
use netx.Strconv.{ℤ, pos, negsuc, decimal}

-- The fields of `http.Request` that the proxy reads or sets.
pub record Request : Type 0 where
  pub method : Bytes
  pub url_scheme : Bytes
  pub url_host : Bytes
  pub host : Bytes
  pub proto : Bytes
  pub close : Bool
  pub header : Header
  pub remote_addr : Bytes
  pub local_addr : Bytes

-- How a request is served: by status 400, by one of the methods `serveCONNECT`, `serveTRACE`,
-- `serveOPTIONS` and `serveUpgrade`, or by the transport, with the request that is passed on.
pub data Plan : Type 0 where
  refuses : Plan
  connects traces options upgrades forwards : Request → Plan

abbrev pub no_header : Header
no_header name = none

-- The least `int` wraps around.
unfoldable pub decrement : ℤ → ℤ
decrement (pos zero) = negsuc 0
decrement (pos (suc n)) = pos n
decrement (negsuc n) = if n == 2 ^ 63 - 1 then pos (2 ^ 63 - 1) else negsuc (n + 1)

-- `strconv.Itoa`
unfoldable pub itoa : ℤ → Bytes
unfolding decimal
itoa (pos n) = decimal n
itoa (negsuc n) = b'-' ∷ decimal (n + 1)

abbrev pub is_zero : ℤ → Bool
is_zero (pos n) = n == 0
is_zero (negsuc n) = false

abbrev pub scheme_of_port : Option (Bytes × Bytes) → Bytes
scheme_of_port none = codes "http"
scheme_of_port (some (host, port)) =
    if bytes_eq port (codes "443") then codes "https" else codes "http"

-- `guessScheme`, with `net.SplitHostPort`, none for an error, where the port is empty.
unfoldable pub guess_scheme : (Bytes → Option (Bytes × Bytes)) → Bytes → Bytes → Bytes
unfolding split_net_addr bytes_eq
guess_scheme split_host_port local_addr remote_addr =
    if bytes_eq (split_net_addr local_addr).0 (codes "tls")
    then codes "https"
    else scheme_of_port (split_host_port remote_addr)

abbrev pub out_host : Request → Bytes
out_host req = if is_empty req.url_host then req.host else req.url_host

-- What is set for a protocol upgrade.
unfoldable pub set_upgrade : Header → Bytes → Header
unfolding set
set_upgrade header upgrade =
    set (set header (codes "Connection") (codes "Upgrade")) (codes "Upgrade") upgrade

-- What is set for TRACE and OPTIONS.
unfoldable pub set_max : Header → ℤ → Header
unfolding set itoa
set_max header max = set header (codes "Max-Forward") (itoa max)

-- Behind the switch over the method: a protocol upgrade or a round trip.
unfoldable pub pass_on : Request → Request → Plan
unfolding connection_upgrade set_upgrade
pass_on req out =
    let upgrade = connection_upgrade req.header in
    if is_empty upgrade
    then forwards out
    else upgrades (record out { header = set_upgrade out.header upgrade })

abbrev pub answer : Request → Plan
answer out = if bytes_eq out.method (codes "TRACE") then traces out else options out

unfoldable pub limit_forwards : Request → Request → Option ℤ → Plan
unfolding pass_on decrement set_max
limit_forwards req out none = answer out
limit_forwards req out (some max) =
    if is_zero (decrement max)
    then answer out
    else pass_on req (record out { header = set_max out.header (decrement max) })

module _ (T : IpText) (split_host_port : Bytes → Option (Bytes × Bytes))
    (join_host_port : Bytes → Bytes → Bytes) where
  abbrev pub out_scheme : Request → Bytes
  out_scheme req =
      if is_empty req.url_scheme
      then guess_scheme split_host_port req.local_addr req.url_host
      else req.url_scheme

  -- The conversion of the X-Forwarded fields, unless there is a Forwarded field.
  abbrev pub with_forwarded : Header → Header
  with_forwarded h = elim (h (codes "Forwarded")) [
    | none ↦ translate_x_forwarded T join_host_port h
    | some l ↦ h
  ]

  unfoldable pub out_header : Request → Header
  unfolding copy_header delete_hop_fields translate_x_forwarded add_forwarded add_via proto_version
  out_header req =
      let h = with_forwarded (delete_hop_fields (copy_header no_header req.header)) in
      add_via (add_forwarded T h (out_scheme req) req.remote_addr req.local_addr)
        (proto_version req.proto) req.local_addr

  -- The request before the switch over its method.
  unfoldable pub out_request : Request → Request
  unfolding out_header guess_scheme
  out_request req = record req {
    url_scheme = out_scheme req;
    url_host = out_host req;
    proto = codes "HTTP/1.1";
    close = false;
    header = out_header req;
  }

  unfoldable pub plan : Request → Plan
  unfolding out_request limit_forwards pass_on max_forwards bytes_eq
  plan req =
      let out = out_request req in
      if is_empty (out_host req)
      then refuses
      else if bytes_eq req.method (codes "CONNECT")
      then connects out
      else if bytes_eq req.method (codes "TRACE") || bytes_eq req.method (codes "OPTIONS")
      then limit_forwards req out (max_forwards out.header)
      else pass_on req out
