-- ===== src/Httpx/Proxy/Serve.antt =====
-- ServeHTTP of httpx/proxy.go: what the client gets, by what the backend and the connections do.
use netx.Base.{ℕ, ◌==◌, Bool, [], ◌∷◌, Option, none, some, if◌then◌else◌, Bytes, codes, is_empty}
use netx.Httpx.Encoding.{put_values}
use netx.Httpx.Header.{Header, values, set}
use netx.Httpx.Proto.{copy_header, delete_hop_fields}
use netx.Httpx.Proxy.{Request, Plan, refuses, connects, traces, options, upgrades, forwards, plan}
use netx.Net.Ip.{IpText}

pub record Reply : Type 0 where
  pub status : ℕ
  pub header : Header
  pub body : Bytes
  pub trailer : Header

-- What the client gets: the header when it is written, and the fields that are set behind the body.
pub record Written : Type 0 where
  pub status : ℕ
  pub header : Header
  pub body : Bytes
  pub trailer : Header

-- An answer; one behind which bytes are passed between both connections; one behind which the
-- connection of the client is given up; or a panic.
pub data Served : Type 0 where
  answers tunnels gives_up : Written → Served
  panics : Served

-- Whether the connection of the client can be taken over: its writer is no http.Hijacker, `Hijack`
-- gives an error, or it succeeds.
pub data Takeover : Type 0 where
  no_hijacker refused hijacked : Takeover

-- What the backend and the connections do: whether a dial succeeds, the reply of the transport and of
-- the transport on a new connection, none for an error, the text of a request, none for an error, and
-- whether the connection of the client can be taken over and flushed.
pub record Backend : Type 0 where
  pub dial : Bytes → Bool
  pub round_trip : Request → Option Reply
  pub upgrade_trip : Request → Option Reply
  pub dump : Request → Option Bytes
  pub hijack : Takeover
  pub flush : Bool

-- A status alone, with the fields set so far.
abbrev pub bare : ℕ → Header → Written
bare status h = record { status = status; header = h; body = []; trailer = h }

module _ (B : Backend) where
  abbrev pub serve_connect : Header → Request → Served
  serve_connect w out =
      if B.dial out.url_host
      then elim B.hijack [
        | no_hijacker ↦ panics
        | refused ↦ panics
        | hijacked ↦ tunnels (bare 200 w)
      ]
      else answers (bare 502 w)

  abbrev pub serve_options : Header → Served
  serve_options w = answers (bare 200 w)

  unfoldable pub serve_trace : Header → Request → Served
  unfolding set
  serve_trace w out = elim (B.dump out) [
    | none ↦ panics
    | some content ↦
        let h = set w (codes "Content-Type") (codes "message/http") in
        answers (record { status = 200; header = h; body = content; trailer = h })
  ]

  -- The fields of a reply to an upgrade: those that are not hop-by-hop, and Upgrade.
  unfoldable pub upgrade_header : Header → Header
  unfolding values delete_hop_fields put_values
  upgrade_header h =
      let upgrade = values h (codes "Upgrade") in
      let h' = delete_hop_fields h in
      if is_empty upgrade
      then h'
      else put_values (put_values h' (codes "Upgrade") upgrade) (codes "Connection")
          (codes "Upgrade" ∷ [])

  -- The reply to an upgrade as the client gets it.
  unfoldable pub upgraded : Header → Reply → Written
  unfolding copy_header upgrade_header
  upgraded w res =
      let h = copy_header w (upgrade_header res.header) in
      record { status = res.status; header = h; body = res.body; trailer = h }

  -- Behind a reply with status 101 the connection of the client is taken over.
  abbrev pub switched : Written → Served
  switched x =
      if x.status == 101
      then elim B.hijack [
        | no_hijacker ↦ panics
        | refused ↦ gives_up x
        | hijacked ↦ if B.flush then tunnels x else gives_up x
      ]
      else answers x

  unfoldable pub serve_upgrade : Header → Request → Served
  unfolding upgraded
  serve_upgrade w out =
      if B.dial out.url_host
      then elim (B.upgrade_trip out) [
        | none ↦ answers (bare 502 w)
        | some res ↦ switched (upgraded w res)
      ]
      else answers (bare 502 w)

  -- The reply of the transport as the client gets it.
  unfoldable pub passed_back : Header → Reply → Written
  unfolding copy_header delete_hop_fields
  passed_back w res =
      let h = copy_header w (delete_hop_fields res.header) in
      record {
        status = res.status;
        header = h;
        body = res.body;
        trailer = copy_header h (delete_hop_fields res.trailer);
      }

  unfoldable pub serve_forward : Header → Request → Served
  unfolding passed_back
  serve_forward w out = elim (B.round_trip out) [
    | none ↦ answers (bare 502 w)
    | some res ↦ answers (passed_back w res)
  ]

  unfoldable pub serve_plan : Header → Plan → Served
  unfolding serve_trace serve_upgrade serve_forward
  serve_plan w refuses = answers (bare 400 w)
  serve_plan w (connects out) = serve_connect w out
  serve_plan w (traces out) = serve_trace w out
  serve_plan w (options out) = serve_options w
  serve_plan w (upgrades out) = serve_upgrade w out
  serve_plan w (forwards out) = serve_forward w out

  -- `ServeHTTP`, with the header of the response as it is so far.
  unfoldable pub serve_http :
      IpText
      → (Bytes → Option (Bytes × Bytes))
      → (Bytes → Bytes → Bytes)
      → Header
      → Request
      → Served
  unfolding plan serve_plan
  serve_http T split_host_port join_host_port w req =
      serve_plan w (plan T split_host_port join_host_port req)
