-- ===== src/Httpx/Upgrade/Routing.antt =====
-- Which handler `UpgradeMux` and `UpgradeMap` of httpx/upgrade.go choose.
use mathlib.Core.Path.{subst}
use netx.Base.{
  ◌≡◌, ◌≢◌, refl, sym, ap, inl, inr, [], ◌∷◌, Option, none, some, Bytes, codes, bytes_eq,
  bytes_eq_iff, Bool-cases, Option-cases, if◌then◌else◌,
}
use netx.Httpx.Header.{Header, canonical, get}
use netx.Httpx.Upgrade.{
  UpgradeMap, Served, by, not_implemented, serve, lookup, upgrade_key, serve_map, handle_key,
  handle, mux_handler, serve_mux,
}

handle_key-star : handle_key (codes "*") ≡ []
unfolding handle_key bytes_eq
handle_key-star = refl

handle_key-canonical : (name : Bytes) → name ≢ codes "*" → handle_key name ≡ canonical name
unfolding handle_key
handle_key-canonical name n = elim (Bool-cases (bytes_eq name (codes "*"))) [
  | inl t ↦ absurd (n ((bytes_eq_iff name (codes "*")).0 t))
  | inr f ↦ rw (f, handle_key) refl
]

module _ {H : Type 0} where
  -- What a registration that does not panic leaves in the map.
  handle-some :
      (mux mux' : UpgradeMap H) (name : Bytes) (handler : Option H)
      → handle mux name handler ≡ some mux'
      → (mux (handle_key name) ≡ none)
        × ((key : Bytes) → mux' key ≡ (if bytes_eq key (handle_key name) then handler else mux key))
  unfolding handle
  handle-some mux mux' name handler e = elim (Option-cases (mux (handle_key name))) [
    | inr (h, c) ↦ let d : none ≡ some mux' = rw (c, handle) at e in absurd (cc d)
    | inl c ↦
        let d = rw (c, handle) at e in
        let same = ap (λ o. elim o [ none ↦ mux | some m ↦ m ]) d in
        (c, λ key. ap (λ m. m key) (sym same))
  ]

  lookup-registered :
      (mux mux' : UpgradeMap H) (key name : Bytes) (handler : Option H)
      → name ≢ []
      → mux' key ≡ (if bytes_eq key name then handler else mux key)
      → lookup mux' key ≡ (if bytes_eq key name then handler else lookup mux key)
  unfolding bytes_eq
  lookup-registered mux mux' [] [] handler n e = absurd (n refl)
  lookup-registered mux mux' [] (c ∷ name) handler n e = refl
  lookup-registered mux mux' (c ∷ key) name handler n e = e

  lookup-unregistered :
      (mux mux' : UpgradeMap H) (key : Bytes) (handler : Option H)
      → mux' key ≡ (if bytes_eq key [] then handler else mux key)
      → lookup mux' key ≡ lookup mux key
  unfolding bytes_eq
  lookup-unregistered mux mux' [] handler e = refl
  lookup-unregistered mux mux' (c ∷ key) handler e = e

  -- A handler that is registered under a name other than "*" serves the requests that ask for the
  -- name; every other request has the handler that it had.
  pub handle-mux_handler :
      (mux mux' : UpgradeMap H) (name : Bytes) (handler : Option H) (header : Header)
      → name ≢ codes "*"
      → canonical name ≢ []
      → handle mux name handler ≡ some mux'
      → mux_handler mux' header ≡ (
          if bytes_eq (upgrade_key header) (canonical name)
          then handler
          else mux_handler mux header)
  handle-mux_handler mux mux' name handler header n m e =
      let key = upgrade_key header in
      let at_key = (handle-some mux mux' name handler e).1 key in
      unfold mux_handler in
      lookup-registered mux mux' key (canonical name) handler m
        (rw (handle_key-canonical name n) at at_key)

  -- Registering a handler for "*" changes the handler of no request.
  pub handle-mux_handler_star :
      (mux mux' : UpgradeMap H) (handler : Option H) (header : Header)
      → handle mux (codes "*") handler ≡ some mux'
      → mux_handler mux' header ≡ mux_handler mux header
  handle-mux_handler_star mux mux' handler header e =
      let at_key = (handle-some mux mux' (codes "*") handler e).1 (upgrade_key header) in
      unfold mux_handler in
      lookup-unregistered mux mux' (upgrade_key header) handler (rw handle_key-star at at_key)

  -- How a request for a name is served by an `UpgradeMap`, and by an `UpgradeMux` with the same
  -- handlers: by the handler of the name, or not at all, by both, except that the map alone serves
  -- the empty name, and names without a handler by the fallback.
  pub data Serves (u : UpgradeMap H) (name : Bytes) : Served H → Served H → Type 0 where
    by_both : {h : H} → name ≢ [] → u name ≡ some h → Serves u name (by h) (by h)
    by_map : {h : H} → name ≡ [] → u name ≡ some h → Serves u name (by h) not_implemented
    by_fallback :
        {h : H} → u name ≡ none → u (codes "*") ≡ some h → Serves u name (by h) not_implemented
    by_none : u name ≡ none → u (codes "*") ≡ none → Serves u name not_implemented not_implemented

  fallback-Serves :
      (u : UpgradeMap H) (name : Bytes)
      → u name ≡ none
      → Serves u name (serve (u (codes "*"))) not_implemented
  fallback-Serves u name e =
      let at : Option H → Type 0 = λ o. Serves u name (serve o) not_implemented in
      elim (Option-cases (u (codes "*"))) [
        | inl z ↦ subst at (sym z) (by_none e z)
        | inr (h, z) ↦ subst at (sym z) (by_fallback e z)
      ]

  lookup-Serves :
      (u : UpgradeMap H) (name : Bytes)
      → Serves u name
          (elim (u name) [ none ↦ serve (u (codes "*")) | some h ↦ by h ])
          (serve (lookup u name))
  lookup-Serves u [] =
      let served : Option H → Served H =
        λ o. elim o [ none ↦ serve (u (codes "*")) | some h ↦ by h ] in
      let at : Option H → Type 0 = λ o. Serves u [] (served o) not_implemented in
      elim (Option-cases (u [])) [
        | inl e ↦ subst at (sym e) (fallback-Serves u [] e)
        | inr (h, e) ↦ subst at (sym e) (by_map refl e)
      ]
  lookup-Serves u (c ∷ name) =
      let served : Option H → Served H =
        λ o. elim o [ none ↦ serve (u (codes "*")) | some h ↦ by h ] in
      let at : Option H → Type 0 = λ o. Serves u (c ∷ name) (served o) (serve o) in
      elim (Option-cases (u (c ∷ name))) [
        | inl e ↦ subst at (sym e) (fallback-Serves u (c ∷ name) e)
        | inr (h, e) ↦ subst at (sym e) (by_both (λ n. cc n) e)
      ]

  -- Every request, by the name that http.CanonicalHeaderKey makes of its Upgrade field, is served by
  -- an `UpgradeMap` and by an `UpgradeMux` with the same handlers as `Serves` says.
  pub serve_map-serve_mux :
      (u : UpgradeMap H) (header : Header)
      → Serves u
          (canonical (get header (codes "Upgrade")))
          (serve_map u header)
          (serve_mux u header)
  unfolding serve_map serve_mux mux_handler upgrade_key
  serve_map-serve_mux u header = lookup-Serves u (canonical (get header (codes "Upgrade")))
