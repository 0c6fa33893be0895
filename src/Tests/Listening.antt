-- ===== src/Tests/Listening.antt =====
-- Addresses to listen on, on an interface `lo` with two of them, and runs of a compound listener.
use mathlib.Core.List.{Perm}
use netx.Addr.{split_net_addr, split_net_addr-append}
use netx.Base.{
  ℕ, suc, ◌+◌, ◌*◌, ◌≤◌, ◌≡◌, ◌==◌, ◌⊎◌, refl, false, [], ◌∷◌, ◌++◌, Option, none, some, Bytes,
  codes, length, bytes_eq, if◌then◌else◌, has_prefix,
}
use netx.Listen.Multi.Closing.{Steps-finished}
use netx.Listen.Multi.Ending.{Steps-ending}
use netx.Listen.Multi.{
  Multi, multi_listener, accepting, sending_conn, sending_err, exiting, draining, finished, gives,
  breaks, delivers, closes, drops, drops_err, counts, finishes, Step, Steps, here, later,
}
use netx.Listen.Resolve.{resolve_listen-network, none_open, opens, listen_on-nothing}
use netx.Listen.{
  Network, cut_scheme, resolve_listen, listen_protocols, listen, multi, nothing, one, listen_on,
  listen_packet,
}
use netx.Strconv.{atoi}
use netx.Tests.Addresses.{sixteen}

-- The text before the first colon, and that behind it.
abbrev behind : Bytes → Option (Bytes × Bytes) → Option (Bytes × Bytes)
behind c none = none
behind c (some (h, p)) = some (c ++ h, p)

abbrev split_colon : Bytes → Option (Bytes × Bytes)
split_colon [] = none
split_colon (c ∷ s) = if c == b':' then some ([], s) else behind (c ∷ []) (split_colon s)

abbrev two_addrs : Network
two_addrs = record {
  split_host_port = split_colon;
  join_host_port = λ host port. host ++ (codes ":" ++ port);
  interface_addrs =
      λ name. if bytes_eq name (codes "lo") then some (some (codes "a" ∷ codes "b" ∷ [])) else none;
}

-- A descriptor is itself; any address but `b:80` is listened on, as 0.
abbrev by_fd : ℕ → Option ℕ
by_fd n = some n

abbrev not_b : Bytes → Bytes → Option ℕ
not_b network address = if bytes_eq address (codes "b:80") then none else some 0

split_net_addr-append_instance :
    split_net_addr (codes "tcp" ++ (codes "://" ++ codes "a:80")) ≡ (codes "tcp", codes "a:80")
split_net_addr-append_instance =
    split_net_addr-append (codes "tcp") (codes "a:80") (cc, (cc, (cc, tt)))

resolve_listen-network_instance :
    codes "tcp" ≡ (if has_prefix (codes ":80") (codes ":") then codes "tcp" else codes "tcp4")
unfolding bytes_eq cut_scheme resolve_listen
resolve_listen-network_instance =
    resolve_listen-network sixteen two_addrs (codes "tcp4://:80") (codes "tcp") (codes "unix")
      (codes "tcp4") (codes ":80") (codes "tcp") (listen_protocols sixteen two_addrs)
      (codes ":80" ∷ []) refl refl refl refl

listen_on-nothing_example :
    listen_on sixteen two_addrs by_fd not_b (codes "lo:80") ≡ nothing (0 ∷ [])
unfolding resolve_listen listen bytes_eq has_prefix
listen_on-nothing_example =
    listen_on-nothing sixteen two_addrs by_fd not_b (codes "lo:80") (codes "tcp") (codes "b:80")
      (codes "a:80") [] [] refl (opens refl none_open) refl

listen_on_runs :
    (listen_on sixteen two_addrs by_fd not_b (codes "lo:81") ≡ multi (0 ∷ 0 ∷ []))
    × (listen_on sixteen two_addrs by_fd not_b (codes "fd://3") ≡ one 3)
    × (listen_packet sixteen two_addrs by_fd not_b (codes "lo:80") ≡ (some 0, none))
unfolding listen_on listen_packet bytes_eq has_prefix atoi
listen_on_runs = (refl, refl, refl)

-- Two listeners, each with a connection; `Accept` gets that of the first, and `Close` is called.
abbrev closing : Multi ℕ
closing = record (multi_listener ℕ 2) {
  pumps = accepting ∷ sending_conn 2 ∷ [];
  phase = draining 0;
  accepted = 2 ∷ 1 ∷ [];
  delivered = 1 ∷ [];
}

closing-Steps : Steps ℕ 4 (multi_listener ℕ 2) closing
closing-Steps =
    later
      (later
        (later (later here (gives 1 [] (accepting ∷ []) refl refl))
          (gives 2 (sending_conn 1 ∷ []) [] refl refl))
        (delivers 1 [] (sending_conn 2 ∷ []) refl))
      (closes refl)

abbrev closed : Multi ℕ
closed = record closing { pumps = []; phase = finished; dropped = 2 ∷ [] }

closed-Steps :
    {n : ℕ} {s : Multi ℕ}
    → Steps ℕ n s closing
    → Steps ℕ (suc (suc (suc (suc (suc (suc (suc (suc n)))))))) s closed
closed-Steps r =
    later
      (later
        (later
          (later
            (later
              (later
                (later (later r (drops 2 0 (accepting ∷ []) [] refl refl))
                  (breaks [] (accepting ∷ []) refl))
                (breaks (sending_err false ∷ []) [] refl))
              (drops_err false 0 [] (sending_err false ∷ []) refl refl))
            (drops_err false 0 (exiting ∷ []) [] refl refl))
          (counts 0 [] (exiting ∷ []) refl refl))
        (counts 1 [] [] refl refl))
      (finishes refl)

Steps-finished_example : (closed.pumps ≡ []) × Perm {A = ℕ} (2 ∷ 1 ∷ []) ((1 ∷ []) ++ (2 ∷ []))
Steps-finished_example = Steps-finished ℕ (closed-Steps closing-Steps) refl

Steps-ending_example :
    (8 ≤ 4 * length closing.pumps + 1)
    × (((u : Multi ℕ) × Step ℕ closed u) ⊎ (closed.phase ≡ finished))
Steps-ending_example = Steps-ending ℕ closing-Steps refl (closed-Steps here)
