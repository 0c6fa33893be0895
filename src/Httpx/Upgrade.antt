-- ===== src/Httpx/Upgrade.antt =====
-- httpx/upgrade.go: which handler serves a request to upgrade to another protocol.
pub mod Routing
use netx.Base.{List, [], ◌∷◌, Option, none, some, if◌then◌else◌, Bytes, codes, bytes_eq, is_empty}
use netx.Httpx.Header.{Header, canonical, get}

-- The handlers, of any type, by protocol name; none for nil and for a name that is not there.
abbrev pub UpgradeMap : Type 0 → Type 0
UpgradeMap H = Bytes → Option H

-- What `ServeHTTP` does: a handler serves the request, or the status is 501.
pub data Served (H : Type 0) : Type 0 where
  by : H → Served H
  not_implemented : Served H

-- The name that a request asks for.
unfoldable pub upgrade_key : Header → Bytes
unfolding get canonical
upgrade_key header = canonical (get header (codes "Upgrade"))

-- The key under which `Handle` keeps a name.
unfoldable pub handle_key : Bytes → Bytes
unfolding canonical bytes_eq
handle_key name = if bytes_eq name (codes "*") then [] else canonical name

module _ {H : Type 0} where
  abbrev pub serve : Option H → Served H
  serve none = not_implemented
  serve (some h) = by h

  -- `UpgradeMap.ServeHTTP`
  unfoldable pub serve_map : UpgradeMap H → Header → Served H
  serve_map u header = elim (u (upgrade_key header)) [
    | none ↦ serve (u (codes "*"))
    | some h ↦ by h
  ]

  -- `UpgradeMux.Handle`; none when it panics.
  unfoldable pub handle : UpgradeMap H → Bytes → Option H → Option (UpgradeMap H)
  unfolding bytes_eq
  handle mux name handler =
      let updated : UpgradeMap H =
        λ key. if bytes_eq key (handle_key name) then handler else mux key in
      elim (mux (handle_key name)) [ none ↦ some updated | some h ↦ none ]

  -- The handler for a name; none for the empty name.
  abbrev pub lookup : UpgradeMap H → Bytes → Option H
  lookup mux [] = none
  lookup mux (c ∷ key) = mux (c ∷ key)

  -- `UpgradeMux.Handler`
  unfoldable pub mux_handler : UpgradeMap H → Header → Option H
  mux_handler mux header = lookup mux (upgrade_key header)

  -- `UpgradeMux.ServeHTTP`
  unfoldable pub serve_mux : UpgradeMap H → Header → Served H
  serve_mux mux header = serve (mux_handler mux header)
