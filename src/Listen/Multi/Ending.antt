-- ===== src/Listen/Multi/Ending.antt =====
-- `Close` of `multiListener` ends: no run of it goes on for ever, and none is stuck (listen.go).
use mathlib.Core.Path.{subst}
use netx.Base.{
  ℕ, ◌+◌, ◌*◌, ◌≤◌, ◌<◌, ◌≡◌, refl, ap, ◌⊎◌, inl, inr, Bool, true, false, List, [], ◌∷◌, ◌++◌,
  length, arith,
}
use netx.Listen.Multi.Closing.{Counted, Reached-start, Steps-Reached}
use netx.Listen.Multi.{
  Pump, accepting, sending_conn, sending_err, exiting, Phase, opened, draining, finished, Multi,
  multi_listener, after_err, is_open, Step, gives, stumbles, breaks, delivers, delivers_err, closes,
  drops, drops_err, counts, finishes, Steps, here, later,
}

module _ (Conn : Type 0) where
  -- What a goroutine has still to do once its listener is closed, and `Close` with it.
  abbrev pump_left : Pump Conn → ℕ
  pump_left (sending_conn c) = 4
  pump_left (sending_err true) = 4
  pump_left accepting = 3
  pump_left (sending_err false) = 2
  pump_left exiting = 1

  abbrev pumps_left : List (Pump Conn) → ℕ
  pumps_left [] = 0
  pumps_left (p ∷ ps) = pump_left p + pumps_left ps

  abbrev phase_left : Phase Conn → ℕ
  phase_left opened = 2
  phase_left (draining i) = 1
  phase_left finished = 0

  pumps_left-append :
      (xs ys : List (Pump Conn)) → pumps_left (xs ++ ys) ≡ pumps_left xs + pumps_left ys
  pumps_left-append [] ys = omega arith
  pumps_left-append (x ∷ xs) ys = omega (arith, pumps_left-append xs ys)

  abbrev steps_left : Multi Conn → ℕ
  steps_left s = phase_left s.phase + pumps_left s.pumps

  change-steps_left :
      (p q : Pump Conn) (xs ys ps : List (Pump Conn))
      → ps ≡ xs ++ (p ∷ ys)
      → pump_left q < pump_left p
      → pumps_left (xs ++ (q ∷ ys)) < pumps_left ps
  change-steps_left p q xs ys ps e h =
      omega
        (arith, ap pumps_left e, pumps_left-append xs (p ∷ ys), pumps_left-append xs (q ∷ ys), h)

  after_err_left : (t : Bool) → pump_left (after_err Conn t) < pump_left (sending_err t)
  after_err_left true = omega arith
  after_err_left false = omega arith

  Step-steps_left :
      {s t : Multi Conn}
      → Step Conn s t
      → is_open Conn s.phase ≡ false
      → (is_open Conn t.phase ≡ false) × (steps_left t < steps_left s)
  Step-steps_left (gives c xs ys e o) h = cc (o, h)
  Step-steps_left (stumbles xs ys e o) h = cc (o, h)
  Step-steps_left (breaks xs ys e) h =
      (h, omega (arith, change-steps_left accepting (sending_err false) xs ys _ e (omega arith)))
  Step-steps_left (delivers c xs ys e) h =
      (h, omega (arith, change-steps_left (sending_conn c) accepting xs ys _ e (omega arith)))
  Step-steps_left (delivers_err t xs ys e) h =
      (h, omega (arith, change-steps_left (sending_err t) _ xs ys _ e (after_err_left t)))
  Step-steps_left (closes e) h = cc (e, h)
  Step-steps_left (drops c i xs ys d e) h =
      (h, omega (arith, change-steps_left (sending_conn c) accepting xs ys _ e (omega arith)))
  Step-steps_left (drops_err t i xs ys d e) h =
      (h, omega (arith, change-steps_left (sending_err t) _ xs ys _ e (after_err_left t)))
  Step-steps_left (counts i xs ys d e) h = (
    refl,
    omega (
      arith,
      ap pumps_left e,
      ap phase_left d,
      pumps_left-append xs (exiting ∷ ys),
      pumps_left-append xs ys,
    ),
  )
  Step-steps_left (finishes d) h = (refl, omega (arith, ap phase_left d))

  pump_left-le : (p : Pump Conn) → pump_left p ≤ 4
  pump_left-le p = ground arith

  pumps_left-le : (ps : List (Pump Conn)) → pumps_left ps ≤ 4 * length ps
  pumps_left-le [] = omega arith
  pumps_left-le (p ∷ ps) = omega (arith, pumps_left-le ps, pump_left-le p)

  Steps-steps_left :
      {m : ℕ} {s t : Multi Conn}
      → Steps Conn m s t
      → is_open Conn s.phase ≡ false
      → (is_open Conn t.phase ≡ false) × (steps_left t + m ≤ steps_left s)
  Steps-steps_left here h = (h, omega arith)
  Steps-steps_left (later r o) h =
      let (c, p) = Steps-steps_left r h in
      let (d, q) = Step-steps_left o c in (d, omega (arith, p, q))

  CanStep : Multi Conn → Type 0
  CanStep s = (t : Multi Conn) × Step Conn s t

  draining-CanStep :
      (ps : List (Pump Conn)) (i : ℕ) (s : Multi Conn)
      → s.phase ≡ draining i
      → s.pumps ≡ ps
      → i + length ps ≡ s.total
      → CanStep s
  unfolding CanStep
  draining-CanStep [] i s d e h =
      let same : i ≡ s.total = omega (arith, h) in
      (_, finishes (subst (λ n. s.phase ≡ draining n) same d))
  draining-CanStep (accepting ∷ ps) i s d e h = (_, breaks [] ps e)
  draining-CanStep (sending_conn c ∷ ps) i s d e h = (_, drops c i [] ps d e)
  draining-CanStep (sending_err t ∷ ps) i s d e h = (_, drops_err t i [] ps d e)
  draining-CanStep (exiting ∷ ps) i s d e h = (_, counts i [] ps d e)

  phase-CanStep :
      (f : Phase Conn) (s : Multi Conn)
      → s.phase ≡ f
      → is_open Conn f ≡ false
      → Counted Conn f (length s.pumps) s.total
      → CanStep s ⊎ (s.phase ≡ finished)
  phase-CanStep opened s e o h = cc o
  phase-CanStep (draining i) s e o h = inl (draining-CanStep s.pumps i s e refl h)
  phase-CanStep finished s e o h = inr e

  -- Once `Close` was called, there are at most four more steps for each goroutine that is not gone,
  -- and one, whatever their order and also if `Accept` is called meanwhile; and while `Close` has not
  -- received from all the goroutines there is a next one.
  pub Steps-ending :
      {k n m i : ℕ} {s t : Multi Conn}
      → Steps Conn k (multi_listener Conn n) s
      → s.phase ≡ draining i
      → Steps Conn m s t
      → (m ≤ 4 * length s.pumps + 1) × (((u : Multi Conn) × Step Conn t u) ⊎ (t.phase ≡ finished))
  unfolding CanStep
  Steps-ending {n = n} {s = s} {t = t} r d q =
      let (o, p) = Steps-steps_left q (ap (is_open Conn) d) in
      let h = Steps-Reached Conn q (Steps-Reached Conn r (Reached-start Conn n)) in
      (
        omega (arith, p, ap phase_left d, pumps_left-le s.pumps),
        phase-CanStep t.phase t refl o h.counted,
      )
