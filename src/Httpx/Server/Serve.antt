-- ===== src/Httpx/Server/Serve.antt =====
-- `Server` of httpx/server.go: the requests of a connection and the handlers they go to.
pub mod Status
pub mod Handles
pub mod Spent
use netx.Base.{
  ℕ, ◌/◌, ◌^◌, ◌≡◌, Bool, true, false, ◌&&◌, ◌||◌, List, [], ◌∷◌, ◌++◌, Option, none, some, ltb,
  leb, ◌==◌, if◌then◌else◌, Bytes, codes, is_empty, bytes_eq,
}
use netx.Httpx.Header.{Header, canonical, values, set}
use netx.Httpx.Proto.{connection_upgrade, copy_header}
use netx.Httpx.Server.Response.{
  ResponseWriter, Texts, Flusher, write_header, close_response, flush_response, reset,
}
use netx.Httpx.Server.Writer.{Writer}
use netx.Strconv.{decimal}

-- What the server uses of a request that it read.
pub record Request : Type 0 where
  pub header : Header
  pub close : Bool
  pub proto : Bytes
  pub major : ℕ
  pub minor : ℕ

-- `h.Add(name, value)`
unfoldable pub add : Header → Bytes → Bytes → Header
add h name value key =
    let key' = canonical name in
    if bytes_eq key key' then some (values h key' ++ (value ∷ [])) else h key

-- The header that each response starts with, for the server's name and its idle timeout in
-- nanoseconds.
unfoldable pub base_header : Bytes → ℕ → Header
unfolding set
base_header name idle =
    let named : Header =
      set (set (λ key. none) (codes "Content-Type") (codes "application/octet-stream"))
        (codes "Server") name in
    if idle == 0
    then named
    else set (set named (codes "Connection") (codes "Keep-Alive")) (codes "Keep-Alive")
        (codes "timeout=" ++ decimal (idle / 10 ^ 9))

-- `req.ProtoAtLeast(major, minor)`
abbrev pub proto_at_least : Request → ℕ → ℕ → Bool
proto_at_least req major minor = ltb major req.major || (req.major == major && leb minor req.minor)

unfoldable pub proto_equal : Request → ℕ → ℕ → Bool
proto_equal req major minor = req.major == major && req.minor == minor

-- The header of a response with the connection's persistence added.
unfoldable pub persist : Request → Header → Header
persist req h =
    if req.close
    then (if proto_at_least req 1 1 then add h (codes "Connection") (codes "close") else h)
    else (if proto_equal req 1 0 then add h (codes "Connection") (codes "keep-alive") else h)

module _ {Fault : Type 0} (W : Writer Fault) (T : Texts) (F : Flusher W) where
  -- What a handler leaves, with true if it panics.
  abbrev pub Handler : Type 0
  Handler = Request → ResponseWriter W → Bool × ResponseWriter W

  -- `StatusHandler` of httpx/handler.go
  abbrev pub status_handler : ℕ → Handler
  status_handler status req res = (false, write_header W T status res)

  -- The handler of a request; without an upgrader there is none for upgrades.
  unfoldable pub select_handler : Handler → Option Handler → Request → Handler
  select_handler handler upgrader req =
      if is_empty (values req.header (codes "Expect"))
      then (if is_empty (connection_upgrade req.header)
          then handler
          else elim upgrader [ none ↦ status_handler 501 | some h ↦ h ])
      else status_handler 417

  abbrev pub end_response : ResponseWriter W → ResponseWriter W
  end_response res = flush_response W T F (close_response W T res)

  -- What `serveHTTP` does when the handler is done: whether the connection is to be closed, and the
  -- response writer.
  unfoldable pub finish_response : Bool × ResponseWriter W → Bool × ResponseWriter W
  finish_response (panicked, res) =
      if panicked
      then (if res.status == 0
          then (false, end_response (write_header W T 500 res))
          else (true, res))
      else (false, end_response res)

  -- `serveHTTP`
  unfoldable pub serve_http :
      Handler → Option Handler → Request → ResponseWriter W → Bool × ResponseWriter W
  unfolding select_handler finish_response
  serve_http handler upgrader req res =
      finish_response (select_handler handler upgrader req req res)

  -- The loop of `ServeConn` over the requests that are read from the connection, until one cannot
  -- be read, with the header that each response starts with. A handler does not change `req.Close`.
  unfoldable pub serve_requests :
      Handler → Option Handler → Header → List Request → ResponseWriter W → ResponseWriter W
  unfolding serve_http persist
  serve_requests handler upgrader base [] res = res
  serve_requests handler upgrader base (req ∷ reqs) res =
      let ready = record res { proto = req.proto; header = persist req res.header } in
      let (closes, res') = serve_http handler upgrader req ready in
      let again = serve_requests handler upgrader base reqs (reset W T base res') in
      elim res'.err [ some e ↦ res' | none ↦ if req.close || closes then res' else again ]

  abbrev pub first_response : Header → W.State → ResponseWriter W
  first_response base w = record {
    status = 0;
    header = copy_header (λ key. none) base;
    w = w;
    proto = [];
    err = none;
    remain = 0;
    has_body = false;
    chunked = false;
    b = [];
  }

  -- `ServeConn`, for a connection whose writer is `w`.
  unfoldable pub serve_conn :
      Handler → Option Handler → Bytes → ℕ → List Request → W.State → ResponseWriter W
  unfolding serve_requests base_header
  serve_conn handler upgrader name idle reqs w =
      let base = base_header name idle in
      serve_requests handler upgrader base reqs (first_response base w)
