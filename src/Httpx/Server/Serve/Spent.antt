-- ===== src/Httpx/Server/Serve/Spent.antt =====
-- The requests of a connection after the first (`ServeConn` of httpx/server.go).
use mathlib.Core.Path.{subst}
use netx.Base.{
  ℕ, ◌||◌, ◌≡◌, refl, sym, ap, ◌∙◌, inl, inr, Bool, true, false, List, [], ◌∷◌, Option, none, some,
  ◌==◌, if◌then◌else◌, Bytes, codes, is_empty, Bool-cases, Option-cases, if_true, if_false,
}
use netx.Httpx.Header.{Header, values}
use netx.Httpx.Proto.{connection_upgrade}
use netx.Httpx.Server.Response.{
  ResponseWriter, ResponseError, Texts, Flusher, write_header, close_response, reset,
}
use netx.Httpx.Server.Serve.{
  Request, Handler, status_handler, select_handler, end_response, finish_response, serve_http,
  serve_requests, persist, base_header, first_response, serve_conn,
}
use netx.Httpx.Server.Serve.Status.{flush_response-status}
use netx.Httpx.Server.Serve.Handles.{
  Handles, Spent, flush_response-Spent, close_response-Spent, Handles-Spent, done, heads,
}
use netx.Httpx.Server.Writer.{Writer}

or_false : (a b : Bool) → (a || b) ≡ false → b ≡ false
or_false true b h = cc h
or_false false b h = h

module _ {Fault : Type 0} (W : Writer Fault) (T : Texts) (F : Flusher W) where
  open W use {sent}

  -- A handler uses the response writer only as `Handles W T F` says.
  abbrev pub HandlesAll : Handler W T F → Type 0
  HandlesAll handler =
      (req : Request) (res : ResponseWriter W) → Handles W T F res (handler req res).1

  abbrev pub Upgrades : Option (Handler W T F) → Type 0
  Upgrades none = Unit
  Upgrades (some h) = HandlesAll h

  status_handler-Handles : (status : ℕ) → HandlesAll (status_handler W T F status)
  status_handler-Handles status req res = heads status done

  if-Handles :
      (b : Bool) (x y : Handler W T F)
      → HandlesAll x
      → HandlesAll y
      → HandlesAll (if b then x else y)
  if-Handles true x y h k = h
  if-Handles false x y h k = k

  upgrader-Handles :
      (upgrader : Option (Handler W T F))
      → Upgrades upgrader
      → HandlesAll (elim upgrader [ none ↦ status_handler W T F 501 | some h ↦ h ])
  upgrader-Handles none u = status_handler-Handles 501
  upgrader-Handles (some h) u = u

  select_handler-Handles :
      (handler : Handler W T F) (upgrader : Option (Handler W T F)) (req : Request)
      → HandlesAll handler
      → Upgrades upgrader
      → HandlesAll (select_handler W T F handler upgrader req)
  unfolding select_handler
  select_handler-Handles handler upgrader req h u =
      let fallback : Handler W T F = elim upgrader [
        | none ↦ status_handler W T F 501
        | some h ↦ h
      ] in
      let plain = is_empty (connection_upgrade req.header) in
      if-Handles (is_empty (values req.header (codes "Expect")))
        (if plain then handler else fallback) (status_handler W T F 417)
        (if-Handles plain handler fallback h (upgrader-Handles upgrader u))
        (status_handler-Handles 417)

  finish_response-Spent :
      (panicked : Bool) (before : Bytes) (res : ResponseWriter W)
      → Spent W T F before res
      → Spent W T F before (finish_response W T F (panicked, res)).1
  unfolding finish_response
  finish_response-Spent true before res h =
      let last : Bool × ResponseWriter W → ResponseWriter W = λ r. r.1 in
      subst (Spent W T F before) (sym (ap last (if_false _ _ _ h.started))) h
  finish_response-Spent false before res h =
      flush_response-Spent W T F before (close_response W T res)
        (close_response-Spent W T F before res h)

  -- A response that a spent response writer is used for puts nothing on the connection.
  serve_http-Spent :
      (handler : Handler W T F) (upgrader : Option (Handler W T F)) (req : Request) (before : Bytes)
      (res : ResponseWriter W)
      → HandlesAll handler
      → Upgrades upgrader
      → Spent W T F before res
      → Spent W T F before (serve_http W T F handler upgrader req res).1
  unfolding serve_http
  serve_http-Spent handler upgrader req before res h u s =
      let (panicked, last) = select_handler W T F handler upgrader req req res in
      finish_response-Spent panicked before last
        (Handles-Spent W T F before (select_handler-Handles handler upgrader req h u req res) s)

  reset-Spent :
      (base : Header) (before : Bytes) (res : ResponseWriter W)
      → (res.status == 0) ≡ false
      → sent res.w ≡ before
      → Spent W T F before (reset W T base res)
  unfolding reset
  reset-Spent base before res s e = record { started = s; body = refl; mode = refl; on_wire = e }

  serve_requests-Spent :
      (handler : Handler W T F) (upgrader : Option (Handler W T F)) (base : Header)
      (reqs : List Request) (before : Bytes) (res : ResponseWriter W)
      → HandlesAll handler
      → Upgrades upgrader
      → Spent W T F before res
      → Spent W T F before (serve_requests W T F handler upgrader base reqs res)
  unfolding serve_requests
  serve_requests-Spent handler upgrader base [] before res h u s = s
  serve_requests-Spent handler upgrader base (req ∷ reqs) before res h u s =
      let ready = record res { proto = req.proto; header = persist req res.header } in
      let (closes, res') = serve_http W T F handler upgrader req ready in
      let s' : Spent W T F before res' =
        serve_http-Spent handler upgrader req before ready h u
          (record { started = s.started; body = s.body; mode = s.mode; on_wire = s.on_wire }) in
      let again = serve_requests W T F handler upgrader base reqs (reset W T base res') in
      let s2 =
        serve_requests-Spent handler upgrader base reqs before (reset W T base res') h u
          (reset-Spent base before res' s'.started s'.on_wire) in
      elim res'.err
        as (λ e.
          Spent W T F before
            (elim e [ some f ↦ res' | none ↦ if req.close || closes then res' else again ])) [
              | some f ↦ s'
              | none ↦ elim (Bool-cases (req.close || closes)) [
                | inl c ↦ subst (Spent W T F before) (sym (if_true res' again _ c)) s'
                | inr c ↦ subst (Spent W T F before) (sym (if_false res' again _ c)) s2
              ]
            ]

  finish_response-status :
      (panicked : Bool) (res : ResponseWriter W)
      → (finish_response W T F (panicked, res)).1.err ≡ none
      → (finish_response W T F (panicked, res)).0 ≡ false
      → ((finish_response W T F (panicked, res)).1.status == 0) ≡ false
  unfolding finish_response
  finish_response-status false res e c = flush_response-status W T F (close_response W T res) e
  finish_response-status true res e c =
      let failed = end_response W T F (write_header W T 500 res) in
      let ended : Bool × ResponseWriter W = (false, failed) in
      let closed : Bool × ResponseWriter W = (true, res) in
      let pick : Bool → Bool × ResponseWriter W = λ b. if b then ended else closed in
      let Good : Bool → Type 0 =
        λ b. (pick b).1.err ≡ none → (pick b).0 ≡ false → ((pick b).1.status == 0) ≡ false in
      let all : (b : Bool) → Good b = λ b. elim b as Good [
        | true ↦
            λ e c. flush_response-status W T F (close_response W T (write_header W T 500 res)) e
        | false ↦ λ e c. cc c
      ] in
      all (res.status == 0) e c

  -- The bytes on the connection after the first request and any others are those after the first.
  serve_requests-first :
      (handler : Handler W T F) (upgrader : Option (Handler W T F)) (base : Header) (req : Request)
      (reqs : List Request) (res : ResponseWriter W)
      → HandlesAll handler
      → Upgrades upgrader
      → let ready = record res { proto = req.proto; header = persist req res.header } in
        sent (serve_requests W T F handler upgrader base (req ∷ reqs) res).w
        ≡ sent (serve_http W T F handler upgrader req ready).1.w
  unfolding serve_requests serve_http
  serve_requests-first handler upgrader base req reqs res h u =
      let ready = record res { proto = req.proto; header = persist req res.header } in
      let (panicked, left) = select_handler W T F handler upgrader req req ready in
      let (closes, res') = finish_response W T F (panicked, left) in
      let again = serve_requests W T F handler upgrader base reqs (reset W T base res') in
      let more : ResponseWriter W = if req.close || closes then res' else again in
      let pick : Option (ResponseError Fault) → ResponseWriter W =
        λ e. elim e [ some f ↦ res' | none ↦ more ] in
      elim (Option-cases res'.err) [
        | inr (f, e) ↦ ap (λ r. sent (pick r).w) e
        | inl e ↦ ap (λ r. sent (pick r).w) e ∙ elim (Bool-cases (req.close || closes)) [
          | inl c ↦ ap (λ (r : ResponseWriter W). sent r.w) (if_true res' again _ c)
          | inr c ↦
              ap (λ (r : ResponseWriter W). sent r.w) (if_false res' again _ c)
              ∙ (serve_requests-Spent handler upgrader base reqs (sent res'.w) (reset W T base res')
                  h u
                  (reset-Spent base (sent res'.w) res'
                    (finish_response-status panicked left e (or_false req.close closes c))
                    refl)).on_wire
        ]
      ]

  -- When the handlers only change the header and call `WriteHeader`, `Write` and `Flush`, the bytes
  -- on the connection after `ServeConn` served a request and any number of others are those after it
  -- served the first alone: the others get no answer.
  pub serve_conn-first :
      (handler : Handler W T F) (upgrader : Option (Handler W T F)) (name : Bytes) (idle : ℕ)
      (req : Request) (reqs : List Request) (w : W.State)
      → HandlesAll handler
      → Upgrades upgrader
      → sent (serve_conn W T F handler upgrader name idle (req ∷ reqs) w).w
        ≡ sent (serve_conn W T F handler upgrader name idle (req ∷ []) w).w
  unfolding serve_conn
  serve_conn-first handler upgrader name idle req reqs w h u =
      let base = base_header name idle in
      let res = first_response W T F base w in
      serve_requests-first handler upgrader base req reqs res h u
      ∙ sym (serve_requests-first handler upgrader base req [] res h u)
