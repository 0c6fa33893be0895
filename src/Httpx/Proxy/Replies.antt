-- ===== src/Httpx/Proxy/Replies.antt =====
-- The response of the proxy: which fields of the backend's reply it has, and when it is followed by
-- a tunnel (httpx/proxy.go).
use mathlib.Core.Path.{subst}
use netx.Base.{
  ◌≡◌, ◌≢◌, [], codes, refl, sym, ap, ◌∙◌, inl, inr, ◌⊎◌, true, List, ◌∷◌, is_empty, bytes_eq,
  Option, none, some, Bytes, arith, Option-cases, Bool-cases, if_true, if_false,
}
use netx.Httpx.Header.{Header, values, get}
use netx.Httpx.Encoding.{put_values}
use netx.Httpx.Proto.Hop.{IsHopField}
use netx.Httpx.Proto.{copy_header}
use netx.Httpx.Proxy.Serve.{
  Reply, Written, Served, answers, tunnels, Backend, bare, upgraded, upgrade_header, switched,
  serve_upgrade, serve_trace, serve_forward, serve_plan, serve_http,
}
use netx.Httpx.Proxy.Switch.{AsksUpgrade, Fits, plan-Fits}
use netx.Httpx.Proxy.{
  Request, Plan, refuses, connects, traces, options, upgrades, forwards, out_host, plan,
}
use netx.Net.Ip.{IpText}

-- How the client's field comes out of a header of the backend and the client's header before.
pub data Merged (from w out : Header) (key : Bytes) : Type 0 where
  kept_hop : IsHopField from key → out key ≡ w key → Merged from w out key
  kept_other : ¬ IsHopField from key → from key ≡ none → out key ≡ w key → Merged from w out key
  passed :
      {l : List Bytes}
      → ¬ IsHopField from key
      → from key ≡ some l
      → out key ≡ some l
      → Merged from w out key

is_empty-nil : (l : List Bytes) → is_empty l ≡ true → l ≡ []
is_empty-nil [] e = refl
is_empty-nil (v ∷ l) e = cc e

module _ (B : Backend) where
  -- A response has been written, and bytes are passed between the two connections.
  switched-tunnels : (x y : Written) → switched B x ≡ tunnels y → (x ≡ y) × (x.status ≡ 101)
  switched-tunnels x y e = ground arith

  serve_upgrade-tunnels :
      (w : Header) (out : Request) (y : Written)
      → serve_upgrade B w out ≡ tunnels y
      → (res : Reply) × (B.upgrade_trip out ≡ some res)
        × (res.status ≡ 101)
        × (y ≡ upgraded B w res)
  unfolding serve_upgrade upgraded
  serve_upgrade-tunnels w out y e =
      let pick : Option Reply → Served =
        λ o. elim o [ none ↦ answers (bare 502 w) | some res ↦ switched B (upgraded B w res) ] in
      elim (Bool-cases (B.dial out.url_host)) [
        | inr f ↦ cc (sym (if_false (pick (B.upgrade_trip out)) (answers (bare 502 w)) _ f) ∙ e)
        | inl t ↦
            let got = sym (if_true (pick (B.upgrade_trip out)) (answers (bare 502 w)) _ t) ∙ e in
            elim (Option-cases (B.upgrade_trip out)) [
              | inl n ↦ cc (sym (ap pick n) ∙ got)
              | inr (res, r) ↦
                  let (same, status) =
                    switched-tunnels (upgraded B w res) y (sym (ap pick r) ∙ got) in
                  (res, r, status, sym same)
            ]
      ]

  -- What it takes to open the tunnel of a plan.
  Opened : Header → Plan → Written → Type 0
  Opened w (connects out) y = (B.dial out.url_host ≡ true) × (y ≡ bare 200 w)
  Opened w (upgrades out) y =
      (res : Reply) × (B.upgrade_trip out ≡ some res) × (res.status ≡ 101) × (y ≡ upgraded B w res)
  Opened w _ y = ⊥

  serve_plan-Opened :
      (w : Header) (p : Plan) (y : Written) → serve_plan B w p ≡ tunnels y → Opened w p y
  unfolding Opened serve_plan serve_trace serve_forward
  serve_plan-Opened w refuses y e = cc e
  serve_plan-Opened w (connects out) y e = ground arith
  serve_plan-Opened w (traces out) y e = ground arith
  serve_plan-Opened w (options out) y e = cc e
  serve_plan-Opened w (upgrades out) y e = serve_upgrade-tunnels w out y e
  serve_plan-Opened w (forwards out) y e = ground arith

  -- The client has the Upgrade field of the reply, if that has one.
  abbrev pub HasUpgrade : Header → Written → Type 0
  HasUpgrade h y =
      (values h (codes "Upgrade") ≡ [])
      ⊎ (values y.header (codes "Upgrade") ≡ values h (codes "Upgrade"))

  -- The request is a CONNECT, its backend was reached, and the client got status 200; or it has
  -- another method and its Connection and Upgrade fields ask for an upgrade, the backend of the same
  -- host was asked for the same, gave a reply with status 101, and the client got its status, its
  -- body and its Upgrade field.
  pub data Tunnelled (w : Header) (req : Request) (y : Written) : Type 0 where
    by_connect :
        req.method ≡ codes "CONNECT"
        → B.dial (out_host req) ≡ true
        → y ≡ bare 200 w
        → Tunnelled w req y
    by_upgrade :
        (out : Request) (res : Reply)
        → req.method ≢ codes "CONNECT"
        → AsksUpgrade req.header
        → get out.header (codes "Upgrade") ≡ get req.header (codes "Upgrade")
        → out.url_host ≡ out_host req
        → B.upgrade_trip out ≡ some res
        → res.status ≡ 101
        → y.status ≡ 101
        → y.body ≡ res.body
        → HasUpgrade res.header y
        → Tunnelled w req y

  upgraded-HasUpgrade : (w : Header) (res : Reply) → HasUpgrade res.header (upgraded B w res)
  unfolding upgraded upgrade_header copy_header values put_values bytes_eq
  upgraded-HasUpgrade w res =
      let u = values res.header (codes "Upgrade") in
      let at : Header → List Bytes = λ h. values (copy_header w h) (codes "Upgrade") in
      elim (Bool-cases (is_empty u)) [
        | inl t ↦ inl (is_empty-nil u t)
        | inr f ↦ inr (ap at (if_false _ _ _ f))
      ]

  Opened-Tunnelled :
      (w : Header) (req : Request) (p : Plan) (y : Written)
      → Fits req p
      → Opened w p y
      → Tunnelled w req y
  unfolding Opened upgraded
  Opened-Tunnelled w req (connects out) y f (d, e) =
      by_connect f.0 (subst (λ host. B.dial host ≡ true) f.1 d) e
  Opened-Tunnelled w req (upgrades out) y (n, a, g, h) (res, r, s, e) =
      by_upgrade out res n a g h r s (ap (λ z. z.status) e ∙ s) (ap (λ z. z.body) e)
        (subst (HasUpgrade res.header) (sym e) (upgraded-HasUpgrade w res))
  Opened-Tunnelled w req refuses y f o = absurd o
  Opened-Tunnelled w req (traces out) y f o = absurd o
  Opened-Tunnelled w req (options out) y f o = absurd o
  Opened-Tunnelled w req (forwards out) y f o = absurd o

  -- The client gets status 502 when the transport has no reply for the request, and otherwise the
  -- status and the body of the reply, with its fields and its trailer merged into what the client's
  -- header was before.
  pub data Relayed (w : Header) (out : Request) : Served → Type 0 where
    no_reply : B.round_trip out ≡ none → Relayed w out (answers (bare 502 w))
    replied :
        (res : Reply) (x : Written)
        → B.round_trip out ≡ some res
        → x.status ≡ res.status
        → x.body ≡ res.body
        → ((key : Bytes) → Merged res.header w x.header key)
        → ((key : Bytes) → Merged res.trailer x.header x.trailer key)
        → Relayed w out (answers x)

  module _ (T : IpText) (split_hp : Bytes → Option (Bytes × Bytes))
      (join_hp : Bytes → Bytes → Bytes) where
    -- When the proxy passes bytes between the client and the backend, the request is a CONNECT or,
    -- with another method, asks for an upgrade, and the backend and the client agreed to it as
    -- `Tunnelled` says.
    pub serve_http-Tunnelled :
        (w : Header) (req : Request) (y : Written)
        → serve_http B T split_hp join_hp w req ≡ tunnels y
        → Tunnelled w req y
    unfolding serve_http
    serve_http-Tunnelled w req y e =
        let p = plan T split_hp join_hp req in
        Opened-Tunnelled w req p y (plan-Fits T split_hp join_hp req) (serve_plan-Opened w p y e)
