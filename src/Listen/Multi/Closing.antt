-- ===== src/Listen/Multi/Closing.antt =====
-- What `Close` of `multiListener` guarantees (listen.go).
use mathlib.Core.List.{Perm, perm_middle}
use mathlib.Core.List.Perm
use mathlib.Core.Path.{subst}
use netx.Base.{
  ℕ, zero, suc, ◌+◌, ◌≡◌, refl, sym, ap, ◌∙◌, Bool, true, false, List, [], ◌∷◌, ◌++◌, length,
  length-append, arith,
}
use netx.Listen.Multi.{
  Pump, accepting, sending_conn, sending_err, exiting, Phase, opened, draining, finished, Multi,
  all_accepting, multi_listener, after_err, Step, gives, stumbles, breaks, delivers, delivers_err,
  closes, drops, drops_err, counts, finishes, Steps, here, later,
}

moved :
    {A : Type 0} (c : A) (xs ys zs : List A)
    → Perm ((xs ++ (c ∷ ys)) ++ zs) ((xs ++ ys) ++ (c ∷ zs))
moved c xs ys zs =
    Perm.trans (Perm.append_right zs (perm_middle xs ys)) (Perm.symm (perm_middle (xs ++ ys) zs))

module _ (Conn : Type 0) where
  -- The connections that the goroutines have at hand.
  abbrev pub hands : List (Pump Conn) → List Conn
  hands [] = []
  hands (accepting ∷ ps) = hands ps
  hands (sending_conn c ∷ ps) = c ∷ hands ps
  hands (sending_err t ∷ ps) = hands ps
  hands (exiting ∷ ps) = hands ps

  hands-append : (xs ys : List (Pump Conn)) → hands (xs ++ ys) ≡ hands xs ++ hands ys
  hands-append [] ys = refl
  hands-append (accepting ∷ xs) ys = hands-append xs ys
  hands-append (sending_conn c ∷ xs) ys = ap (λ l. c ∷ l) (hands-append xs ys)
  hands-append (sending_err t ∷ xs) ys = hands-append xs ys
  hands-append (exiting ∷ xs) ys = hands-append xs ys

  hands-after_err :
      (t : Bool) (xs ys : List (Pump Conn))
      → hands (xs ++ (after_err Conn t ∷ ys)) ≡ hands xs ++ hands ys
  hands-after_err true xs ys = hands-append xs (accepting ∷ ys)
  hands-after_err false xs ys = hands-append xs (exiting ∷ ys)

  -- Each connection that the listeners gave is at hand, was returned, or was closed.
  abbrev pub Tally : List (Pump Conn) → Multi Conn → Type 0
  Tally ps s = Perm s.accepted (hands ps ++ (s.delivered ++ s.dropped))

  Tally-same :
      (ps qs : List (Pump Conn)) (s : Multi Conn)
      → s.pumps ≡ ps
      → hands ps ≡ hands qs
      → Tally s.pumps s
      → Tally qs s
  Tally-same ps qs s e same h =
      subst (λ l. Perm s.accepted (l ++ (s.delivered ++ s.dropped))) (ap hands e ∙ same) h

  -- The connection at hand of one goroutine, in front of the others.
  Tally-out :
      (c : Conn) (xs ys : List (Pump Conn)) (s : Multi Conn)
      → s.pumps ≡ xs ++ (sending_conn c ∷ ys)
      → Tally s.pumps s
      → Perm s.accepted (hands (xs ++ (accepting ∷ ys)) ++ (c ∷ (s.delivered ++ s.dropped)))
  Tally-out c xs ys s e h =
      subst (λ l. Perm s.accepted (l ++ (c ∷ (s.delivered ++ s.dropped))))
        (sym (hands-append xs (accepting ∷ ys)))
        (Perm.trans
          (subst (λ l. Perm s.accepted (l ++ (s.delivered ++ s.dropped)))
            (ap hands e ∙ hands-append xs (sending_conn c ∷ ys)) h)
          (moved c (hands xs) (hands ys) (s.delivered ++ s.dropped)))

  Step-Tally : {s t : Multi Conn} → Step Conn s t → Tally s.pumps s → Tally t.pumps t
  Step-Tally {s} (gives c xs ys e o) h =
      let before : Perm s.accepted ((hands xs ++ hands ys) ++ (s.delivered ++ s.dropped)) =
        subst (λ l. Perm s.accepted (l ++ (s.delivered ++ s.dropped)))
          (ap hands e ∙ hands-append xs (accepting ∷ ys)) h in
      subst (λ l. Perm (c ∷ s.accepted) (l ++ (s.delivered ++ s.dropped)))
        (sym (hands-append xs (sending_conn c ∷ ys)))
        (Perm.trans (Perm.cons c before) (
          Perm.symm
            (Perm.append_right (s.delivered ++ s.dropped) (perm_middle (hands xs) (hands ys)))))
  Step-Tally {s} (stumbles xs ys e o) h =
      Tally-same _ (xs ++ (sending_err true ∷ ys)) s e (hands-append xs _ ∙ sym (hands-append xs _))
        h
  Step-Tally {s} (breaks xs ys e) h =
      Tally-same _ (xs ++ (sending_err false ∷ ys)) s e
        (hands-append xs _ ∙ sym (hands-append xs _)) h
  Step-Tally {s} (delivers c xs ys e) h = Tally-out c xs ys s e h
  Step-Tally {s} (delivers_err t xs ys e) h =
      Tally-same _ (xs ++ (after_err Conn t ∷ ys)) s e
        (hands-append xs _ ∙ sym (hands-after_err t xs ys)) h
  Step-Tally (closes e) h = h
  Step-Tally {s} (drops c i xs ys d e) h = Perm.trans (Tally-out c xs ys s e h) (
      Perm.append_left (hands (xs ++ (accepting ∷ ys)))
        (Perm.symm (perm_middle s.delivered s.dropped)))
  Step-Tally {s} (drops_err t i xs ys d e) h =
      Tally-same _ (xs ++ (after_err Conn t ∷ ys)) s e
        (hands-append xs _ ∙ sym (hands-after_err t xs ys)) h
  Step-Tally {s} (counts i xs ys d e) h =
      Tally-same _ (xs ++ ys) s e (hands-append xs _ ∙ sym (hands-append xs ys)) h
  Step-Tally (finishes e) h = h

  -- The goroutines that are not gone.
  abbrev pub Counted : Phase Conn → ℕ → ℕ → Type 0
  Counted opened k n = k ≡ n
  Counted (draining i) k n = i + k ≡ n
  Counted finished k n = k ≡ 0

  length-out :
      (p : Pump Conn) (xs ys : List (Pump Conn)) → length (xs ++ (p ∷ ys)) ≡ suc (length (xs ++ ys))
  length-out p xs ys = omega (arith, length-append xs (p ∷ ys), length-append xs ys)

  Counted-same :
      (f : Phase Conn) (p q : Pump Conn) (xs ys ps : List (Pump Conn)) (n : ℕ)
      → ps ≡ xs ++ (p ∷ ys)
      → Counted f (length ps) n
      → Counted f (length (xs ++ (q ∷ ys))) n
  Counted-same f p q xs ys ps n e h =
      subst (λ k. Counted f k n) (ap length e ∙ length-out p xs ys ∙ sym (length-out q xs ys)) h

  Step-Counted :
      {s t : Multi Conn}
      → Step Conn s t
      → Counted s.phase (length s.pumps) s.total
      → Counted t.phase (length t.pumps) t.total
  Step-Counted {s} (gives c xs ys e o) h = Counted-same s.phase _ _ xs ys s.pumps s.total e h
  Step-Counted {s} (stumbles xs ys e o) h = Counted-same s.phase _ _ xs ys s.pumps s.total e h
  Step-Counted {s} (breaks xs ys e) h = Counted-same s.phase _ _ xs ys s.pumps s.total e h
  Step-Counted {s} (delivers c xs ys e) h = Counted-same s.phase _ _ xs ys s.pumps s.total e h
  Step-Counted {s} (delivers_err t xs ys e) h = Counted-same s.phase _ _ xs ys s.pumps s.total e h
  Step-Counted {s} (closes e) h = omega (arith, subst (λ f. Counted f (length s.pumps) s.total) e h)
  Step-Counted {s} (drops c i xs ys d e) h = Counted-same s.phase _ _ xs ys s.pumps s.total e h
  Step-Counted {s} (drops_err t i xs ys d e) h = Counted-same s.phase _ _ xs ys s.pumps s.total e h
  Step-Counted {s} (counts i xs ys d e) h = omega (
    arith,
    subst (λ f. Counted f (length s.pumps) s.total) d h,
    ap length e,
    length-out exiting xs ys,
  )
  Step-Counted {s} (finishes d) h =
      omega (arith, subst (λ f. Counted f (length s.pumps) s.total) d h)

  pub record Reached (s : Multi Conn) : Type 0 where
    pub counted : Counted s.phase (length s.pumps) s.total
    pub tally : Tally s.pumps s

  length-all_accepting : (n : ℕ) → length (all_accepting Conn n) ≡ n
  length-all_accepting zero = refl
  length-all_accepting (suc n) = omega (arith, length-all_accepting n)

  hands-all_accepting : (n : ℕ) → hands (all_accepting Conn n) ≡ []
  hands-all_accepting zero = refl
  hands-all_accepting (suc n) = hands-all_accepting n

  pub Reached-start : (n : ℕ) → Reached (multi_listener Conn n)
  Reached-start n = record {
    counted = length-all_accepting n;
    tally = subst (λ l. Perm [] (l ++ [])) (sym (hands-all_accepting n)) Perm.nil;
  }

  pub Steps-Reached : {k : ℕ} {s t : Multi Conn} → Steps Conn k s t → Reached s → Reached t
  Steps-Reached here h = h
  Steps-Reached (later r o) h =
      let h' = Steps-Reached r h in
      record { counted = Step-Counted o h'.counted; tally = Step-Tally o h'.tally }

  no_pumps : (ps : List (Pump Conn)) → length ps ≡ 0 → ps ≡ []
  no_pumps [] h = refl
  no_pumps (p ∷ ps) h = absurd (omega (arith, h))

  -- When `Close` has received from all the goroutines, none is left, and each connection that a
  -- listener gave was returned by `Accept` or closed, once for each time that it was given.
  pub Steps-finished :
      {k n : ℕ} {s : Multi Conn}
      → Steps Conn k (multi_listener Conn n) s
      → s.phase ≡ finished
      → (s.pumps ≡ []) × Perm s.accepted (s.delivered ++ s.dropped)
  Steps-finished {n = n} {s = s} r e =
      let h = Steps-Reached r (Reached-start n) in
      let g = no_pumps s.pumps (subst (λ f. Counted f (length s.pumps) s.total) e h.counted) in
      (g, subst (λ ps. Tally ps s) g h.tally)
