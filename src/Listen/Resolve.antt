-- ===== src/Listen/Resolve.antt =====
-- Which network an address is listened on, and a failure to listen on one of several (listen.go).
use netx.Base.{
  ℕ, ◌≡◌, sym, ap, ◌∙◌, false, List, [], ◌∷◌, ◌++◌, append-nil, append_assoc, Option, if◌then◌else◌,
  Bytes, codes, bytes_eq, is_empty, has_prefix, arith,
}
use netx.Listen.{
  ListenError, Result, err, ok, Network, cut_scheme, resolve_host, resolve_rest, resolve_listen,
  listen_protocols, listen, Listening, fails, nothing, listen_all, listen_addrs, listen_on,
}
use netx.Net.Ip.{IpText}

module _ (T : IpText) (N : Network) where
  resolve_host-network :
      (net unix network address n : Bytes) (l : List Bytes)
      → is_empty network ≡ false
      → resolve_host T N net unix network address ≡ ok (n, l)
      → n ≡ network
  unfolding resolve_host
  resolve_host-network net unix network address n l e h = ground arith

  resolve_rest-network :
      (net unix network rest n : Bytes) (l : List Bytes)
      → is_empty network ≡ false
      → bytes_eq network (codes "fd") ≡ false
      → resolve_rest T N net unix (network, rest) ≡ ok (n, l)
      → n ≡ (if has_prefix rest (codes ":") then net else network)
  unfolding resolve_rest
  resolve_rest-network net unix network rest n l e f h =
      ground (arith, resolve_host-network net unix network rest n l)

  -- An address with a scheme other than `fd`, whose rest starts with a colon, is listened on by the
  -- default network and not by that of the scheme; any other by that of the scheme.
  pub resolve_listen-network :
      (address net unix network rest n : Bytes) (protocols l : List Bytes)
      → cut_scheme protocols address ≡ ok (network, rest)
      → is_empty network ≡ false
      → bytes_eq network (codes "fd") ≡ false
      → resolve_listen T N address net unix protocols ≡ ok (n, l)
      → n ≡ (if has_prefix rest (codes ":") then net else network)
  unfolding resolve_listen resolve_rest
  resolve_listen-network address net unix network rest n protocols l c e f h =
      let pick : Result (Bytes × Bytes) → Result (Bytes × List Bytes) =
        λ r. elim r [ err x ↦ err x | ok r ↦ resolve_rest T N net unix r ] in
      let found : resolve_rest T N net unix (network, rest) ≡ ok (n, l) = sym (ap pick c) ∙ h in
      resolve_rest-network net unix network rest n l e f found

  module _ {Listener : Type 0} (open_fd : ℕ → Option Listener)
      (open_net : Bytes → Bytes → Option Listener) where
    -- These addresses are listened on by these listeners.
    pub data Opens (network : Bytes) : List Bytes → List Listener → Type 0 where
      none_open : Opens network [] []
      opens :
          {a : Bytes} {addrs : List Bytes} {l : Listener} {ls : List Listener}
          → listen T N open_fd open_net network a ≡ ok l
          → Opens network addrs ls
          → Opens network (a ∷ addrs) (l ∷ ls)

    listen_all-nothing :
        (a : Bytes) {network : Bytes} {before : List Bytes} {e : ListenError} {ls : List Listener}
        (after : List Bytes) (lstns : List Listener)
        → Opens network before ls
        → listen T N open_fd open_net network a ≡ err e
        → listen_all T N open_fd open_net network (before ++ (a ∷ after)) lstns
          ≡ nothing (lstns ++ ls)
    unfolding listen_all
    listen_all-nothing a after lstns none_open f =
        rw (f, listen_all) (ap nothing (sym (append-nil lstns)))
    listen_all-nothing a {ls = l ∷ ls} after lstns (opens o r) f =
        rw (o, listen_all)
          (listen_all-nothing a after (lstns ++ (l ∷ [])) r f
            ∙ ap nothing (append_assoc lstns (l ∷ []) ls))

    listen_addrs-nothing :
        (network a : Bytes) {e : ListenError} {ls : List Listener} (b : Bytes)
        (before after : List Bytes)
        → Opens network (b ∷ before) ls
        → listen T N open_fd open_net network a ≡ err e
        → listen_addrs T N open_fd open_net network ((b ∷ before) ++ (a ∷ after)) ≡ nothing ls
    unfolding listen_addrs
    listen_addrs-nothing network a b [] after o f = listen_all-nothing a after [] o f
    listen_addrs-nothing network a b (c ∷ before) after o f = listen_all-nothing a after [] o f

    -- When `Listen` finds several addresses for its argument, opens those before one that cannot be
    -- listened on, and that one fails, then it closes the listeners that it opened and returns nil
    -- without an error.
    pub listen_on-nothing :
        (address network a : Bytes) {e : ListenError} {ls : List Listener} (b : Bytes)
        (before after : List Bytes)
        → resolve_listen T N address (codes "tcp") (codes "unix") (listen_protocols T N)
          ≡ ok (network, (b ∷ before) ++ (a ∷ after))
        → Opens network (b ∷ before) ls
        → listen T N open_fd open_net network a ≡ err e
        → listen_on T N open_fd open_net address ≡ nothing ls
    unfolding listen_on listen_addrs
    listen_on-nothing address network a {ls = ls} b before after r o f =
        let pick : Result (Bytes × List Bytes) → Listening T N open_fd open_net = λ r. elim r [
          | err e ↦ fails e
          | ok (network, addrs) ↦ listen_addrs T N open_fd open_net network addrs
        ] in
        ap pick r ∙ listen_addrs-nothing network a b before after o f
