-- ===== src/Tunnel.antt =====
-- TunnelLine of tunnel.go: a line from the client to the target, and one back.
pub mod Lines
use netx.Base.{ℕ, zero, suc, Bool, true, false, List, [], ◌∷◌, ◌++◌, if◌then◌else◌, Bytes}
use netx.Handler.{
  LineError, State, Outcome, line, error, panics, read_line, Ended, write_failed, crashed,
  unfinished, fatal, ended,
}

-- The lines that were written to the target and to the client, and how `tunnelLine` ended.
pub record Tunnelled : Type 0 where
  pub to_target : List Bytes
  pub to_client : List Bytes
  pub end : Ended

-- What each side gives when nothing arrives any more, and whether one more line can be written to it,
-- by those written before.
module _ (client_end target_end : LineError) (can_ask can_reply : List Bytes → Bool) where
  abbrev pub stops : List Bytes → List Bytes → Ended → Tunnelled
  stops asked replied e = record { to_target = asked; to_client = replied; end = e }

  -- The loop of `tunnelLine`. The context of the target's reads is never done: `cancelled` is not
  -- among what happens on it.
  unfoldable pub tunnel_line : ℕ → List Bytes → List Bytes → State → State → Tunnelled
  unfolding read_line
  tunnel_line zero asked replied client target = stops asked replied unfinished
  tunnel_line (suc fuel) asked replied client target =
      let (o, client') = read_line client_end client in
      let (p, target') = read_line target_end target in
      elim o [
        | error e ↦ stops asked replied (ended e)
        | panics ↦ stops asked replied crashed
        | line l ↦
            let asked' = asked ++ (l ∷ []) in
            let replies : Tunnelled = elim p [
              | error e ↦ stops asked' replied (fatal e)
              | panics ↦ stops asked' replied crashed
              | line m ↦
                  let more = tunnel_line fuel asked' (replied ++ (m ∷ [])) client' target' in
                  if can_reply replied then more else stops asked' replied write_failed
            ] in
            if can_ask asked then replies else stops asked replied write_failed
      ]
