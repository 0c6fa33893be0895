-- ===== src/Server/Start.antt =====
-- What holds in every state that `Serve` reaches (server.go).
use mathlib.Core.List.{Perm, perm_middle}
use mathlib.Core.List.Perm
use mathlib.Core.Path.{subst}
use netx.Base.{ℕ, ◌+◌, ◌≤◌, ◌≡◌, refl, true, false, List, [], ◌∷◌, ◌++◌, Option, arith}
use netx.Server.{
  backoff, Acceptor, accepting, pausing, failed, sending_err, sending_conn, closing_conns,
  closing_errs, leaving, gone, Main, selecting, cancelling, waiting, closing, returned, Server,
  start, Outside, arrives, stumbles, breaks, ends, handles, cancels, Own, retries, gives_up, drops,
  reports, closes_conns, closes_errs, leaves, stops, takes_conn, takes_err, ends_conns, ends_errs,
  exits, cancels_all, joins, returns, own, outside, Steps, here, later,
}

module _ (Conn Fault : Type 0) where
  -- How far `accept` is in its deferred calls.
  abbrev pub stage : Acceptor Conn Fault → ℕ
  stage closing_conns = 1
  stage closing_errs = 2
  stage leaving = 3
  stage gone = 4
  stage _ = 0

  -- What the place of `Serve` says about the rest.
  abbrev pub Fits : Main Conn Fault → Server Conn Fault → Type 0
  Fits (selecting w eo co) s =
      (eo ≡ false → 3 ≤ stage s.acceptor) × (co ≡ false → 2 ≤ stage s.acceptor)
  Fits (cancelling r) s = 1 ≤ stage s.acceptor
  Fits (waiting r) s = 1 ≤ stage s.acceptor
  Fits (closing r) s = (s.acceptor ≡ gone) × (s.running ≡ [])
  Fits (returned r) s = (s.acceptor ≡ gone) × (s.running ≡ []) × (s.closed ≡ true)

  Own-Fits : {s t : Server Conn Fault} → Own Conn Fault s t → Fits s.main s → Fits t.main t
  Own-Fits (retries n w e) f = ground arith
  Own-Fits (gives_up n w e c) f = ground arith
  Own-Fits (drops x e c) f = ground arith
  Own-Fits (reports x e c) f = ground arith
  Own-Fits (closes_conns e) f = ground arith
  Own-Fits (closes_errs e) f = ground arith
  Own-Fits (leaves e) f = ground arith
  Own-Fits (stops x y m c) f = ground arith
  Own-Fits (takes_conn x y c m e) f = ground arith
  Own-Fits (takes_err x y c m e) f = ground arith
  Own-Fits (ends_conns x y m e) f = ground arith
  Own-Fits (ends_errs x y m e) f = ground arith
  Own-Fits (exits x m) f = ground arith
  Own-Fits (cancels_all r m) f = ground arith
  Own-Fits (joins r m e d) f = ground arith
  Own-Fits (returns r m) f = ground arith

  Outside-Fits : {s t : Server Conn Fault} → Outside Conn Fault s t → Fits s.main s → Fits t.main t
  Outside-Fits (arrives c n e d) f = ground arith
  Outside-Fits (stumbles n e d) f = ground arith
  Outside-Fits (breaks x n e) f = ground arith
  Outside-Fits (ends n e) f = ground arith
  Outside-Fits (handles c [] ys e) f = ground arith
  Outside-Fits (handles c (x ∷ xs) ys e) f = ground arith
  Outside-Fits (cancels e) f = ground arith

  -- The connection that `accept` has at hand.
  abbrev pub at_hand : Acceptor Conn Fault → List Conn
  at_hand (sending_conn c) = c ∷ []
  at_hand _ = []

  -- Each connection that was accepted is at hand, served now, or was served and closed.
  abbrev pub Tally : Acceptor Conn Fault → Server Conn Fault → Type 0
  Tally a s = Perm s.accepted (at_hand a ++ (s.running ++ s.served))

  Tally-at :
      (a b : Acceptor Conn Fault) (s : Server Conn Fault)
      → s.acceptor ≡ a
      → Tally a s ≡ Tally b s
      → Tally s.acceptor s
      → Tally b s
  Tally-at a b s e same h = subst (λ x. x) same (subst (λ x. Tally x s) e h)

  Own-Tally :
      {s t : Server Conn Fault} → Own Conn Fault s t → Tally s.acceptor s → Tally t.acceptor t
  Own-Tally {s} (retries n w e) h = Tally-at _ (accepting (n + 1)) s e refl h
  Own-Tally {s} (gives_up n w e c) h = Tally-at _ closing_conns s e refl h
  Own-Tally {s} (drops x e c) h = Tally-at _ closing_conns s e refl h
  Own-Tally {s} (reports x e c) h = Tally-at _ (sending_err x) s e refl h
  Own-Tally {s} (closes_conns e) h = Tally-at _ closing_errs s e refl h
  Own-Tally {s} (closes_errs e) h = Tally-at _ leaving s e refl h
  Own-Tally {s} (leaves e) h = Tally-at _ gone s e refl h
  Own-Tally (stops x y m c) h = h
  Own-Tally {s} (takes_conn x y c m e) h = subst (λ a. Tally a s) e h
  Own-Tally {s} (takes_err x y z m e) h = Tally-at _ closing_conns s e refl h
  Own-Tally (ends_conns x y m e) h = h
  Own-Tally (ends_errs x y m e) h = h
  Own-Tally (exits x m) h = h
  Own-Tally (cancels_all r m) h = h
  Own-Tally (joins r m e d) h = h
  Own-Tally (returns r m) h = h

  Outside-Tally :
      {s t : Server Conn Fault} → Outside Conn Fault s t → Tally s.acceptor s → Tally t.acceptor t
  Outside-Tally {s} (arrives c n e d) h = Perm.cons c (subst (λ a. Tally a s) e h)
  Outside-Tally {s} (stumbles n e d) h = Tally-at _ (pausing n (backoff n)) s e refl h
  Outside-Tally {s} (breaks x n e) h = Tally-at _ (failed x) s e refl h
  Outside-Tally {s} (ends n e) h = Tally-at _ closing_conns s e refl h
  Outside-Tally {s} (handles c xs ys e) h =
      let moved : Perm ((xs ++ (c ∷ ys)) ++ s.served) ((xs ++ ys) ++ (c ∷ s.served)) =
        Perm.trans (Perm.append_right s.served (perm_middle xs ys))
          (Perm.symm (perm_middle (xs ++ ys) s.served)) in
      Perm.trans (subst (λ r. Perm s.accepted (at_hand s.acceptor ++ (r ++ s.served))) e h)
        (Perm.append_left (at_hand s.acceptor) moved)
  Outside-Tally (cancels e) h = h

  pub record Reached (s : Server Conn Fault) : Type 0 where
    pub fits : Fits s.main s
    pub tally : Tally s.acceptor s

  pub Steps-Reached :
      {n : ℕ} {s : Server Conn Fault} → Steps Conn Fault n (start Conn Fault) s → Reached s
  Steps-Reached here = record { fits = (cc, cc); tally = Perm.nil }
  Steps-Reached (later r (own o)) =
      let h = Steps-Reached r in record { fits = Own-Fits o h.fits; tally = Own-Tally o h.tally }
  Steps-Reached (later r (outside o)) =
      let h = Steps-Reached r in
      record { fits = Outside-Fits o h.fits; tally = Outside-Tally o h.tally }

  -- When `Serve` has returned, each connection that `Accept` gave was served and closed, once for
  -- each time that it was given, no handler runs, `accept` is at its end and the listener is closed.
  pub Steps-returned :
      {n : ℕ} {s : Server Conn Fault} {r : Option Fault}
      → Steps Conn Fault n (start Conn Fault) s
      → s.main ≡ returned r
      → Perm s.accepted s.served × (s.running ≡ []) × (s.acceptor ≡ gone) × (s.closed ≡ true)
  Steps-returned {s} p e =
      let h = Steps-Reached p in
      let (g, r, c) = subst (λ m. Fits m s) e h.fits in
      let t = subst (λ a. Tally a s) g h.tally in
      (subst (λ x. Perm s.accepted (x ++ s.served)) r t, r, g, c)
