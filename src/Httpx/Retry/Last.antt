-- ===== src/Httpx/Retry/Last.antt =====
-- The attempts of `RetryHandler` against its last attempt alone (httpx/retry.go).
use mathlib.Core.Path.{subst}
use netx.Base.{
  ℕ, zero, suc, ◌+◌, ◌<◌, ◌≤◌, ◌≡◌, ◌⊎◌, inl, inr, refl, sym, ap, ◌∙◌, Bool, true, false, ◌||◌, not,
  dec_lt, ltb, leb, ◌==◌, if◌then◌else◌, Bytes, Bool-cases, if_true, if_false, arith,
}
use netx.Httpx.Proto.{is_idempotent, is_retriable}
use netx.Httpx.Retry.{
  Responder, Program, RetryWriter, call, start_attempt, respond, gives_up, attempts, max_of,
  serve_retry,
}
use netx.Httpx.Retry.Attempt.{HasStatuses, call-Untouched}

one_true : (a b c : Bool) → (a || b || c) ≡ true → (a ≡ true) ⊎ ((b ≡ true) ⊎ (c ≡ true))
one_true true b c h = inl refl
one_true false true c h = inr (inl refl)
one_true false false true h = inr (inr refl)
one_true false false false h = cc h

all_false : (a b c : Bool) → (a || b || c) ≡ false → (a ≡ false) × (b ≡ false) × (c ≡ false)
all_false true b c h = cc h
all_false false true c h = cc h
all_false false false true h = cc h
all_false false false false h = (refl, refl, refl)

module _ {Fault : Type 0} (R : Responder Fault) where
  open R use {State}

  -- What one attempt leaves on the retrying writer.
  abbrev pub attempt_of : Program Fault → State → RetryWriter R
  attempt_of p w = call R p (start_attempt R 0 w)

  -- The original writer after one attempt whose response is sent whatever its status.
  abbrev pub alone : Program Fault → State → State
  alone p w = let res = attempt_of p w in if ltb res.status 500 then res.w else respond R res

  -- An attempt fails, no byte of the body was read, and the status and the method allow another.
  abbrev pub Retriable : Bytes → Program Fault → State → Type 0
  Retriable method p w =
      (ltb (attempt_of p w).status 500 ≡ false) × (gives_up R method (attempt_of p w) ≡ false)

  module _ (max : ℕ) (handler : ℕ → Program Fault) (sleep : ℕ → Bool) (method : Bytes)
      (w : State) where
    -- The attempt `last` is the first that may not be followed by another, and the original writer
    -- has its response only.
    pub record Served (last : ℕ) (w' : State) : Type 0 where
      pub in_bounds : last < max
      pub response : w' ≡ alone (handler last) w
      pub before : (j : ℕ) → j < last → Retriable method (handler j) w × (sleep (j + 1) ≡ false)
      pub ended :
          (Retriable method (handler last) w → ⊥) ⊎ ((suc last ≡ max) ⊎ (sleep (last + 1) ≡ true))

    untouched :
        (p : Program Fault)
        → HasStatuses p
        → ltb (attempt_of p w).status 500 ≡ false
        → (attempt_of p w).w ≡ w
    untouched p s bad =
        call-Untouched R p w (start_attempt R 0 w) s (λ _. refl) (inr (ground (arith, bad)))

    attempts-Served :
        (fuel attempt : ℕ)
        → ((j : ℕ) → HasStatuses (handler j))
        → attempt < max
        → max ≤ attempt + fuel
        → ((j : ℕ) → j < attempt → Retriable method (handler j) w × (sleep (j + 1) ≡ false))
        → let (last, w') = attempts R fuel max handler sleep method attempt 0 w in Served last w'
    unfolding attempts
    attempts-Served zero attempt s p q b = absurd (omega (arith, p, q))
    attempts-Served (suc fuel) attempt s p q b =
        let res = attempt_of (handler attempt) w in
        let next = attempts R fuel max handler sleep method (attempt + 1) res.n res.w in
        let stops = gives_up R method res || leb max (attempt + 1) || sleep (attempt + 1) in
        let failed : ℕ × State = if stops then (attempt, respond R res) else next in
        let served : ℕ × State → Type 0 = λ r. Served r.0 r.1 in
        elim (Bool-cases (ltb res.status 500)) [
          | inl ok ↦ subst served (sym (if_true (attempt, res.w) failed _ ok)) (record {
            in_bounds = p;
            response = sym (if_true _ _ _ ok);
            before = b;
            ended = inl (λ r. cc (r.0, ok));
          })
          | inr bad ↦
              subst served (sym (if_false (attempt, res.w) failed _ bad)) (elim (Bool-cases stops) [
                | inl stop ↦
                    subst served (sym (if_true (attempt, respond R res) next _ stop)) (record {
                      in_bounds = p;
                      response = sym (if_false _ _ _ bad);
                      before = b;
                      ended = elim (one_true (gives_up R method res) _ (sleep (attempt + 1)) stop) [
                        | inl g ↦ inl (λ r. cc (r.1, g))
                        | inr (inl m) ↦ inr (inl (ground (arith, m, p)))
                        | inr (inr z) ↦ inr (inr z)
                      ];
                    })
                | inr again ↦ subst served (sym (if_false (attempt, respond R res) next _ again)) (
                    let (g, m, z) =
                      all_false (gives_up R method res) _ (sleep (attempt + 1)) again in
                    let en : res.n ≡ 0 = ground (
                      arith,
                      (all_false (not (res.n == 0)) (not (is_retriable res.status))
                          (not (is_idempotent method)) g).0,
                    ) in
                    let ew : res.w ≡ w = untouched (handler attempt) (s attempt) bad in
                    let same : next ≡ attempts R fuel max handler sleep method (attempt + 1) 0 w =
                      ap (λ x. attempts R fuel max handler sleep method (attempt + 1) x res.w) en
                      ∙ ap (attempts R fuel max handler sleep method (attempt + 1) 0) ew in
                    subst served (sym same) (
                      attempts-Served fuel (attempt + 1) s (ground (arith, m)) (omega (arith, q))
                        (λ j h. elim (dec_lt j attempt) [
                          | yes l ↦ b j l
                          | no l ↦
                              let e : attempt ≡ j = omega (arith, h, l) in
                              subst (λ x. Retriable method (handler x) w × (sleep (x + 1) ≡ false))
                                e ((bad, g), z)
                        ])))
              ])
        ]

  max_of-positive : (n : ℕ) → 0 < max_of n
  max_of-positive n = ground arith

  -- When the sub-handler gives no status 0, `ServeHTTP` makes at most as many attempts as it may
  -- (10 for the setting 0); each attempt but the last failed with a status that may be retried, for
  -- an idempotent method, with no byte of the body read and the pause after it not cut short; the
  -- last one is the first for which this does not hold, or the last that may be made; and the
  -- original writer has what the last attempt alone would have left on it.
  pub serve_retry-Served :
      (max_attempts : ℕ) (handler : ℕ → Program Fault) (sleep : ℕ → Bool) (method : Bytes)
      (w : State)
      → ((j : ℕ) → HasStatuses (handler j))
      → let (last, w') = serve_retry R max_attempts handler sleep method w in
        Served (max_of max_attempts) handler sleep method w last w'
  unfolding serve_retry
  serve_retry-Served max_attempts handler sleep method w s =
      attempts-Served (max_of max_attempts) handler sleep method w (max_of max_attempts) 0 s
        (max_of-positive max_attempts) (omega arith) (λ j h. absurd (omega (arith, h)))
