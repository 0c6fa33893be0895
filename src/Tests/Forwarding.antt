-- ===== src/Tests/Forwarding.antt =====
-- Requests that the proxy forwards, answers or upgrades.
use netx.Base.{
  ℕ, ◌≡◌, inl, inr, ◌||◌, refl, Bool, true, false, List, [], ◌∷◌, ◌++◌, Option, none, some, Bytes,
  codes, bytes_eq, bytes_eq_iff, if◌then◌else◌, arith,
}
use netx.Httpx.Forwarded.{proto_version, max_forwards, translate_x_forwarded}
use netx.Httpx.Header.{Header, canonical, values, get, set, del}
use netx.Httpx.Lex.{header_values_contains_token}
use netx.Httpx.Proto.Hop.{Deletes, IsHopField}
use netx.Httpx.Proto.{connection_upgrade}
use netx.Httpx.Proxy.Choice.{is_answered, is_last, Asks, plan-is_answered, plan-Asks}
use netx.Httpx.Proxy.Passes.{proxy_fields, IsNamed, OnRequest, plan-Deletes}
use netx.Httpx.Proxy.Replies.{Tunnelled, serve_http-Tunnelled}
use netx.Httpx.Proxy.Serve.{Reply, answers, Backend, hijacked, passed_back, upgraded, serve_http}
use netx.Httpx.Proxy.{Request, Plan, no_header, decrement, itoa, guess_scheme, out_header, plan}
use netx.Strconv.{pos}
use netx.Tests.Addresses.{sixteen}

abbrev no_port : Bytes → Option (Bytes × Bytes)
no_port s = none

abbrev with_colon : Bytes → Bytes → Bytes
with_colon host port = host ++ (codes ":" ++ port)

-- The field `X-Test`
abbrev tested : Header
tested key = if bytes_eq key (codes "X-Test") then some (codes "1" ∷ []) else none

abbrev request : Bytes → Header → Request
request method h = record {
  method = method;
  url_scheme = [];
  url_host = [];
  host = codes "b";
  proto = codes "HTTP/1.0";
  close = true;
  header = h;
  remote_addr = codes "c";
  local_addr = codes "p";
}

abbrev get_test : Request
get_test = request (codes "GET") tested

abbrev the_plan : Request → Plan
the_plan req = plan sixteen no_port with_colon req

is_named : Bytes → List Bytes → Bool
is_named key [] = false
is_named key (name ∷ names) = bytes_eq key (canonical name) || is_named key names

is_named-IsNamed :
    (key : Bytes) (names : List Bytes) → is_named key names ≡ false → ¬ IsNamed key names
unfolding is_named
is_named-IsNamed key [] e h = h
is_named-IsNamed key (name ∷ names) e (inl h) =
    ground (arith, e, (bytes_eq_iff key (canonical name)).1 h)
is_named-IsNamed key (name ∷ names) e (inr h) = is_named-IsNamed key names (ground (arith, e)) h

plan-Deletes_example :
    OnRequest
      (λ out. Deletes (IsHopField tested (codes "X-Test")) tested out.header (codes "X-Test"))
      (the_plan get_test)
unfolding is_named canonical bytes_eq
plan-Deletes_example =
    plan-Deletes sixteen no_port with_colon get_test (codes "X-Test")
      (is_named-IsNamed (codes "X-Test") proxy_fields refl)

plan-is_answered_example :
    is_answered (the_plan (request (codes "TRACE") tested))
    ≡ is_last
        (max_forwards (out_header sixteen no_port with_colon (request (codes "TRACE") tested)))
plan-is_answered_example =
    plan-is_answered sixteen no_port with_colon (request (codes "TRACE") tested) refl (inl refl)

-- A request for the protocol `ws`.
abbrev ask : Header
ask key =
    if bytes_eq key (codes "Connection")
    then some (codes "Upgrade" ∷ [])
    else if bytes_eq key (codes "Upgrade")
    then some (codes "ws" ∷ [])
    else none

abbrev get_ws : Request
get_ws = request (codes "GET") ask

plan-Asks_example : Asks get_ws (the_plan get_ws)
plan-Asks_example = plan-Asks sixteen no_port with_colon get_ws

asked : connection_upgrade ask ≡ codes "ws"
unfolding connection_upgrade values get canonical bytes_eq header_values_contains_token
asked = refl

-- A request with this Max-Forwards.
abbrev trace : Bytes → Request
trace max =
    request (codes "TRACE")
      (λ key. if bytes_eq key (codes "Max-Forwards") then some (max ∷ []) else none)

limits :
    (is_answered (the_plan (trace (codes "1"))) ≡ true)
    × (is_answered (the_plan (trace (codes "x"))) ≡ true)
    × (is_answered (the_plan (trace (codes "0"))) ≡ false)
unfolding plan bytes_eq
limits = (refl, refl, refl)

-- A backend that has a reply, with this status.
abbrev reply : ℕ → Reply
reply n = record { status = n; header = tested; body = codes "hello"; trailer = no_header }

abbrev backend : Backend
backend = record {
  dial = λ host. bytes_eq host (codes "b");
  round_trip = λ out. some (reply 200);
  upgrade_trip = λ out. some (reply 101);
  dump = λ out. none;
  hijack = hijacked;
  flush = true;
}

serve_http-Tunnelled_example :
    Tunnelled backend no_header get_ws (upgraded backend no_header (reply 101))
unfolding serve_http plan bytes_eq
serve_http-Tunnelled_example =
    serve_http-Tunnelled backend sixteen no_port with_colon no_header get_ws
      (upgraded backend no_header (reply 101)) refl

-- What the client of `get_test` gets.
relayed :
    serve_http backend sixteen no_port with_colon no_header get_test
    ≡ answers (passed_back backend no_header (reply 200))
unfolding serve_http plan bytes_eq
relayed = refl

forwarded :
    (get
        (translate_x_forwarded sixteen with_colon (λ key.
          if bytes_eq key (codes "X-Forwarded-For") then some (codes "a, b" ∷ []) else none))
        (codes "Forwarded")
      ≡ codes "for=\"a\", for=\"b\"")
    × (proto_version (codes "HTTP/1.1") ≡ codes "1.1")
    × (itoa (decrement (pos 0)) ≡ codes "-1")
    × (guess_scheme no_port (codes "tls://p") [] ≡ codes "https")
unfolding translate_x_forwarded proto_version itoa decrement guess_scheme get set del canonical
    bytes_eq
forwarded = (refl, refl, refl, refl)
