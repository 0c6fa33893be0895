-- ===== src/Tests/Upgrades.antt =====
-- Runs of httpx/upgrade.go with numbers for handlers, and its theorems at inputs.
use netx.Base.{ℕ, ◌≡◌, refl, [], ◌∷◌, none, some, if◌then◌else◌, codes, bytes_eq}
use netx.Httpx.Header.{Header, canonical, get}
use netx.Httpx.Upgrade.Routing.{
  handle-mux_handler, handle-mux_handler_star, Serves, serve_map-serve_mux,
}
use netx.Httpx.Upgrade.{
  UpgradeMap, by, not_implemented, handle, handle_key, upgrade_key, serve_map, serve_mux,
  mux_handler,
}

abbrev asking : Header
asking key = if bytes_eq key (codes "Upgrade") then some (codes "websocket" ∷ []) else none

-- A map with a handler for Websocket.
abbrev handlers : UpgradeMap ℕ
handlers key = if bytes_eq key (codes "Websocket") then some 7 else none

-- A map with a fallback alone.
abbrev fallback : UpgradeMap ℕ
fallback key = if bytes_eq key (codes "*") then some 8 else none

abbrev nothing : UpgradeMap ℕ
nothing key = none

-- The maps that registrations in an empty one leave.
abbrev registered : UpgradeMap ℕ
registered key = if bytes_eq key (handle_key (codes "websocket")) then some 7 else none

abbrev with_star : UpgradeMap ℕ
with_star key = if bytes_eq key (handle_key (codes "*")) then some 8 else none

serves :
    (serve_map handlers asking ≡ by 7)
    × (serve_map fallback asking ≡ by 8)
    × (serve_mux fallback asking ≡ not_implemented)
    × (serve_mux handlers asking ≡ by 7)
unfolding serve_map serve_mux mux_handler upgrade_key bytes_eq
serves = (refl, refl, refl, refl)

registers : handle nothing (codes "websocket") (some 7) ≡ some registered
unfolding handle
registers = refl

registers_star : handle nothing (codes "*") (some 8) ≡ some with_star
unfolding handle
registers_star = refl

websocket_name : canonical (codes "websocket") ≡ codes "Websocket"
unfolding canonical
websocket_name = refl

handle-mux_handler_example : mux_handler registered asking ≡ (
    if bytes_eq (upgrade_key asking) (canonical (codes "websocket"))
    then some 7
    else mux_handler nothing asking)
handle-mux_handler_example =
    handle-mux_handler nothing registered (codes "websocket") (some 7) asking (λ e. cc)
      (λ e. cc (websocket_name, e)) registers

handle-mux_handler_star_instance : mux_handler with_star asking ≡ mux_handler nothing asking
handle-mux_handler_star_instance =
    handle-mux_handler_star nothing with_star (some 8) asking registers_star

serve_map-serve_mux_example :
    Serves handlers
      (canonical (get asking (codes "Upgrade")))
      (serve_map handlers asking)
      (serve_mux handlers asking)
serve_map-serve_mux_example = serve_map-serve_mux handlers asking
