-- ===== src/Server/Shutdown.antt =====
-- After the listener is closed `Serve` ends: no run goes on for ever, and none is stuck (server.go).
use netx.Base.{
  ℕ, suc, ◌+◌, ◌-◌, ◌≤◌, ◌<◌, ◌≡◌, refl, ap, ◌⊎◌, inl, inr, Bool, true, false, List, [], ◌∷◌,
  Option, arith, length, length-append, Bool-cases,
}
use netx.Server.Start.{stage, Fits, Steps-Reached}
use netx.Server.{
  Acceptor, accepting, pausing, failed, sending_err, sending_conn, closing_conns, closing_errs,
  leaving, gone, Main, selecting, cancelling, waiting, closing, returned, Server, start,
  conns_closed, errs_closed, Outside, arrives, stumbles, breaks, ends, handles, cancels, Own,
  retries, gives_up, drops, reports, closes_conns, closes_errs, leaves, stops, takes_conn,
  takes_err, ends_conns, ends_errs, exits, cancels_all, joins, returns, Step, own, outside, Steps,
  here, later,
}

List-cases : {A : Type 0} (l : List A) → (l ≡ []) ⊎ ((x : A) × (r : List A) × (l ≡ x ∷ r))
List-cases [] = inl refl
List-cases (x ∷ r) = inr (x, r, refl)

module _ (Conn Fault : Type 0) where
  -- Bounds on what each part has still to do once the listener is closed.
  abbrev acceptor_left : Acceptor Conn Fault → ℕ
  acceptor_left (pausing n wait) = 8
  acceptor_left (accepting n) = 7
  acceptor_left (failed e) = 6
  acceptor_left (sending_err e) = 5
  acceptor_left (sending_conn c) = 9
  acceptor_left closing_conns = 4
  acceptor_left closing_errs = 3
  acceptor_left leaving = 2
  acceptor_left gone = 1

  abbrev bit : Bool → ℕ
  bit true = 1
  bit false = 0

  abbrev main_left : Main Conn Fault → ℕ
  main_left (selecting w eo co) = 5 + bit w + bit eo + bit co
  main_left (cancelling r) = 4
  main_left (waiting r) = 3
  main_left (closing r) = 2
  main_left (returned r) = 1

  abbrev pub steps_left : Server Conn Fault → ℕ
  steps_left s =
      main_left s.main + acceptor_left s.acceptor + (1 - bit s.cancelled) + length s.running

  Own-closed : {s t : Server Conn Fault} → Own Conn Fault s t → s.closed ≡ true → t.closed ≡ true
  Own-closed (stops x y m c) h = refl
  Own-closed (returns r m) h = refl
  Own-closed (retries n w e) h = h
  Own-closed (gives_up n w e c) h = h
  Own-closed (drops x e c) h = h
  Own-closed (reports x e c) h = h
  Own-closed (closes_conns e) h = h
  Own-closed (closes_errs e) h = h
  Own-closed (leaves e) h = h
  Own-closed (takes_conn x y c m e) h = h
  Own-closed (takes_err x y c m e) h = h
  Own-closed (ends_conns x y m e) h = h
  Own-closed (ends_errs x y m e) h = h
  Own-closed (exits x m) h = h
  Own-closed (cancels_all r m) h = h
  Own-closed (joins r m e d) h = h

  Outside-closed :
      {s t : Server Conn Fault} → Outside Conn Fault s t → s.closed ≡ true → t.closed ≡ true
  Outside-closed (arrives c n e d) h = h
  Outside-closed (stumbles n e d) h = h
  Outside-closed (breaks x n e) h = h
  Outside-closed (ends n e) h = h
  Outside-closed (handles c xs ys e) h = h
  Outside-closed (cancels e) h = h

  Own-steps_left : {s t : Server Conn Fault} → Own Conn Fault s t → steps_left t < steps_left s
  Own-steps_left (retries n w e) = ground arith
  Own-steps_left (gives_up n w e c) = ground arith
  Own-steps_left (drops x e c) = ground arith
  Own-steps_left (reports x e c) = ground arith
  Own-steps_left (closes_conns e) = ground arith
  Own-steps_left (closes_errs e) = ground arith
  Own-steps_left (leaves e) = ground arith
  Own-steps_left (stops x y m c) = ground arith
  Own-steps_left (takes_conn x y c m e) = ground arith
  Own-steps_left (takes_err x y c m e) = ground arith
  Own-steps_left (ends_conns x y m e) = ground arith
  Own-steps_left (ends_errs x y m e) = ground arith
  Own-steps_left (exits x m) = ground arith
  Own-steps_left (cancels_all r m) = ground arith
  Own-steps_left (joins r m e d) = ground arith
  Own-steps_left (returns r m) = ground arith

  Outside-steps_left :
      {s t : Server Conn Fault}
      → Outside Conn Fault s t
      → s.closed ≡ true
      → steps_left t < steps_left s
  Outside-steps_left (arrives c n e d) h = cc (d, h)
  Outside-steps_left (stumbles n e d) h = cc (d, h)
  Outside-steps_left (breaks x n e) h = ground arith
  Outside-steps_left (ends n e) h = ground arith
  Outside-steps_left (handles c xs ys e) h =
      ground (arith, ap length e, length-append xs ys, length-append xs (c ∷ ys))
  Outside-steps_left (cancels e) h = ground arith

  Step-closed :
      {s t : Server Conn Fault}
      → Step Conn Fault s t
      → s.closed ≡ true
      → (t.closed ≡ true) × (steps_left t < steps_left s)
  Step-closed (own o) h = (Own-closed o h, Own-steps_left o)
  Step-closed (outside o) h = (Outside-closed o h, Outside-steps_left o h)

  Steps-closed :
      {n : ℕ} {s t : Server Conn Fault}
      → Steps Conn Fault n s t
      → s.closed ≡ true
      → (t.closed ≡ true) × (steps_left t + n ≤ steps_left s)
  Steps-closed here h = (h, omega arith)
  Steps-closed (later r o) h =
      let (c, p) = Steps-closed r h in let (d, q) = Step-closed o c in (d, omega (arith, p, q))

  Steps-join :
      {n m : ℕ} {s t u : Server Conn Fault}
      → Steps Conn Fault n s t
      → Steps Conn Fault m t u
      → (k : ℕ) × Steps Conn Fault k s u
  Steps-join {n} p here = (n, p)
  Steps-join p (later q o) = let (k, r) = Steps-join p q in (suc k, later r o)

  -- There is a next step of `Serve` and `accept` themselves.
  abbrev pub CanStep : Server Conn Fault → Type 0
  CanStep s = (t : Server Conn Fault) × Own Conn Fault s t

  accept-CanStep :
      (a : Acceptor Conn Fault) (s : Server Conn Fault)
      → s.acceptor ≡ a
      → 1 ≤ stage Conn Fault a
      → (a ≡ gone) ⊎ CanStep s
  accept-CanStep closing_conns s e h = inr (_, closes_conns e)
  accept-CanStep closing_errs s e h = inr (_, closes_errs e)
  accept-CanStep leaving s e h = inr (_, leaves e)
  accept-CanStep gone s e h = inl refl
  accept-CanStep (accepting n) s e h = absurd (omega (arith, h))
  accept-CanStep (pausing n w) s e h = absurd (omega (arith, h))
  accept-CanStep (failed x) s e h = absurd (omega (arith, h))
  accept-CanStep (sending_err x) s e h = absurd (omega (arith, h))
  accept-CanStep (sending_conn c) s e h = absurd (omega (arith, h))

  -- What a state without a next step waits for, unless `Serve` has returned: the listener in a call
  -- of `Accept`, or a handler.
  pub data Waits (s : Server Conn Fault) : Type 0 where
    back : (r : Option Fault) → s.main ≡ returned r → Waits s
    for_listener : (n : ℕ) → s.acceptor ≡ accepting n → Waits s
    for_handler : (c : Conn) (l : List Conn) → s.running ≡ c ∷ l → Waits s

  selecting-CanStep :
      (a : Acceptor Conn Fault) (w eo co : Bool) (s : Server Conn Fault)
      → s.main ≡ selecting w eo co
      → s.acceptor ≡ a
      → Fits Conn Fault (selecting w eo co) s
      → CanStep s ⊎ Waits s
  selecting-CanStep (accepting n) w eo co s m e f = inr (for_listener n e)
  selecting-CanStep (pausing n t) w eo co s m e f = inl (_, retries n t e)
  selecting-CanStep (failed x) w eo co s m e f = elim (Bool-cases s.cancelled) [
    | inl c ↦ inl (_, drops x e c)
    | inr c ↦ inl (_, reports x e c)
  ]
  selecting-CanStep (sending_err x) w true co s m e f = inl (_, takes_err w co x m e)
  selecting-CanStep (sending_err x) w false co s m e f =
      absurd (omega (arith, f.0 refl, ap (stage Conn Fault) e))
  selecting-CanStep (sending_conn c) w eo true s m e f = inl (_, takes_conn w eo c m e)
  selecting-CanStep (sending_conn c) w eo false s m e f =
      absurd (omega (arith, f.1 refl, ap (stage Conn Fault) e))
  selecting-CanStep closing_conns w eo co s m e f = inl (_, closes_conns e)
  selecting-CanStep closing_errs w eo co s m e f = inl (_, closes_errs e)
  selecting-CanStep leaving w eo co s m e f = inl (_, leaves e)
  selecting-CanStep gone w true co s m e f =
      inl (_, ends_errs w co m (ap (errs_closed Conn Fault) e))
  selecting-CanStep gone w false true s m e f =
      inl (_, ends_conns w false m (ap (conns_closed Conn Fault) e))
  selecting-CanStep gone w false false s m e f = inl (_, exits w m)

  main-CanStep :
      (p : Main Conn Fault) (s : Server Conn Fault)
      → s.main ≡ p
      → Fits Conn Fault p s
      → CanStep s ⊎ Waits s
  main-CanStep (selecting w eo co) s m f = selecting-CanStep s.acceptor w eo co s m refl f
  main-CanStep (cancelling r) s m f = inl (_, cancels_all r m)
  main-CanStep (closing r) s m f = inl (_, returns r m)
  main-CanStep (returned r) s m f = inr (back r m)
  main-CanStep (waiting r) s m f = elim (accept-CanStep s.acceptor s refl f) [
    | inr c ↦ inl c
    | inl g ↦ elim (List-cases s.running) [
      | inl e ↦ inl (_, joins r m g e)
      | inr (c, l, e) ↦ inr (for_handler c l e)
    ]
  ]

  -- In every state that `Serve` reaches there is a next step of its own, or it has returned, or it
  -- waits for the listener or for a handler.
  pub Steps-progress :
      {n : ℕ} {s : Server Conn Fault}
      → Steps Conn Fault n (start Conn Fault) s
      → CanStep s ⊎ Waits s
  Steps-progress {s = s} p = main-CanStep s.main s refl (Steps-Reached Conn Fault p).fits

  closed-Step :
      (s : Server Conn Fault)
      → CanStep s ⊎ Waits s
      → ((t : Server Conn Fault) × Step Conn Fault s t)
        ⊎ ((r : Option Fault) × (s.main ≡ returned r))
  closed-Step s (inl (t, o)) = inl (t, own o)
  closed-Step s (inr (back r m)) = inr (r, m)
  closed-Step s (inr (for_listener n e)) = inl (_, outside (ends n e))
  closed-Step s (inr (for_handler c l e)) = inl (_, outside (handles c [] l e))

  steps_left-le : (s : Server Conn Fault) → steps_left s ≤ 18 + length s.running
  steps_left-le s = ground arith

  -- Once the listener is closed, `Serve` makes with the handlers and the listener at most 18 more
  -- steps and one for each connection that is served, whatever their order; and while it has not
  -- returned there is a next one.
  pub Steps-shutdown :
      {n m : ℕ} {s t : Server Conn Fault}
      → Steps Conn Fault n (start Conn Fault) s
      → s.closed ≡ true
      → Steps Conn Fault m s t
      → (m ≤ 18 + length s.running)
        × (((u : Server Conn Fault) × Step Conn Fault t u)
            ⊎ ((r : Option Fault) × (t.main ≡ returned r)))
  Steps-shutdown {s} {t} p c q = (
    omega (arith, (Steps-closed q c).1, steps_left-le s),
    closed-Step t (main-CanStep t.main t refl (Steps-Reached Conn Fault ((Steps-join p q).1)).fits),
  )
