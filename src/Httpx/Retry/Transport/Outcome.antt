-- ===== src/Httpx/Retry/Transport/Outcome.antt =====
-- How the attempts of `RetryTransport` end (httpx/retry.go).
use mathlib.Core.Path.{subst}
use netx.Base.{
  ℕ, zero, suc, ◌+◌, ◌<◌, ◌≤◌, ◌≡◌, refl, Bool, true, false, not, Option, none, some, leb, ◌==◌,
  if◌then◌else◌, Bytes, dec_lt, arith,
}
use netx.Httpx.Proto.{is_idempotent, is_retriable}
use netx.Httpx.Retry.{max_of}
use netx.Httpx.Retry.Transport.{
  RetryError, partly_sent, not_idempotent, failed, cancelled, answered, Reply, response, error,
  bytes_read, succeeds, trips, round_trip,
}

negated : (b : Bool) → not b ≡ true → b ≡ false
negated true h = cc h
negated false h = refl

negated_false : (b : Bool) → not b ≡ false → b ≡ true
negated_false true h = refl
negated_false false h = cc h

module _ {Response Fault : Type 0} (status : Response → ℕ) where
  module _ (max : ℕ) (transport : ℕ → Reply Response Fault) (sleep : ℕ → Bool)
      (method : Bytes) where
    -- A failed attempt is followed by another.
    pub record Repeats (j : ℕ) : Type 0 where
      pub fails : succeeds status (transport j) ≡ false
      pub unread : bytes_read (transport j) ≡ 0
      pub idempotent : is_idempotent method ≡ true
      pub left : suc j < max
      pub slept : sleep (j + 1) ≡ false

    -- Why an attempt is the last, with what the request ends with.
    pub data Ends (j : ℕ) : Option Response → Option (RetryError Fault) → Type 0 where
      success : succeeds status (transport j) ≡ true → Ends j (response (transport j)) none
      sent :
          succeeds status (transport j) ≡ false
          → 0 < bytes_read (transport j)
          → Ends j (response (transport j)) (some (partly_sent (bytes_read (transport j))))
      unsafe :
          succeeds status (transport j) ≡ false
          → bytes_read (transport j) ≡ 0
          → is_idempotent method ≡ false
          → Ends j (response (transport j)) (some not_idempotent)
      exhausted :
          succeeds status (transport j) ≡ false
          → bytes_read (transport j) ≡ 0
          → is_idempotent method ≡ true
          → suc j ≡ max
          → Ends j (response (transport j)) (some (failed max (error (transport j))))
      stopped :
          succeeds status (transport j) ≡ false
          → bytes_read (transport j) ≡ 0
          → is_idempotent method ≡ true
          → suc j < max
          → sleep (j + 1) ≡ true
          → Ends j (response (transport j)) (some cancelled)

    -- What `RoundTrip` returns after its attempts.
    pub record Returns (last : ℕ) (res : Option Response) (err : Option (RetryError Fault))
        : Type 0 where
      pub in_bounds : last < max
      pub before : (j : ℕ) → j < last → Repeats j
      pub ends : Ends last res err

    abbrev Returned : ℕ × (Option Response × Option (RetryError Fault)) → Type 0
    Returned (last, (res, err)) = Returns last res err

    -- One test of the loop.
    tested :
        (b : Bool) (x y : ℕ × (Option Response × Option (RetryError Fault)))
        → (b ≡ true → Returned x)
        → (b ≡ false → Returned y)
        → Returned (if b then x else y)
    tested true x y f g = f refl
    tested false x y f g = g refl

    before-suc :
        (attempt : ℕ)
        → ((j : ℕ) → j < attempt → Repeats j)
        → Repeats attempt
        → (j : ℕ) → j < attempt + 1
        → Repeats j
    before-suc attempt b r j h = elim (dec_lt j attempt) [
      | yes l ↦ b j l
      | no l ↦ let e : attempt ≡ j = omega (arith, h, l) in subst Repeats e r
    ]

    trips-Returns :
        (fuel attempt n : ℕ)
        → n ≡ 0
        → attempt < max
        → max ≤ attempt + fuel
        → ((j : ℕ) → j < attempt → Repeats j)
        → Returned (trips status fuel max transport sleep method attempt n)
    unfolding trips
    trips-Returns zero attempt n z p q b = absurd (omega (arith, p, q))
    trips-Returns (suc fuel) attempt n z p q b =
        let r = transport attempt in
        let k = bytes_read r in
        let next = trips status fuel max transport sleep method (attempt + 1) (n + k) in
        let gives : RetryError Fault → ℕ × (Option Response × Option (RetryError Fault)) =
          λ e. (attempt, (response r, some e)) in
        let awake = if sleep (attempt + 1) then gives cancelled else next in
        let more =
          if leb max (attempt + 1) then gives (failed (attempt + 1) (error r)) else awake in
        let safe = if not (is_idempotent method) then gives not_idempotent else more in
        let retried = if not (n + k == 0) then gives (partly_sent (n + k)) else safe in
        let unread : not (n + k == 0) ≡ false → k ≡ 0 = λ e0. ground (arith, e0) in
        tested (succeeds status r) (attempt, (response r, none)) retried
          (λ e. record { in_bounds = p; before = b; ends = success e })
          (λ bad.
            tested (not (n + k == 0)) (gives (partly_sent (n + k))) safe
              (λ e.
                let same : k ≡ n + k = omega (arith, z) in
                subst (λ x. Returned (gives (partly_sent x))) same
                  (record { in_bounds = p; before = b; ends = sent bad (ground (arith, z, e)) }))
              (λ e0.
                tested (not (is_idempotent method)) (gives not_idempotent) more
                  (λ e. record {
                    in_bounds = p;
                    before = b;
                    ends = unsafe bad (unread e0) (negated _ e);
                  })
                  (λ e1.
                    tested (leb max (attempt + 1)) (gives (failed (attempt + 1) (error r))) awake
                      (λ e.
                        let last : suc attempt ≡ max = ground (arith, p, e) in
                        let same : max ≡ attempt + 1 = omega (arith, last) in
                        subst (λ x. Returned (gives (failed x (error r)))) same
                          (record {
                            in_bounds = p;
                            before = b;
                            ends = exhausted bad (unread e0) (negated_false _ e1) last;
                          }))
                      (λ e2.
                        tested (sleep (attempt + 1)) (gives cancelled) next
                          (λ e. record {
                            in_bounds = p;
                            before = b;
                            ends =
                                stopped bad (unread e0) (negated_false _ e1) (ground (arith, e2)) e;
                          })
                          (λ e3.
                            trips-Returns fuel (attempt + 1) (n + k) (ground (arith, e0))
                              (ground (arith, e2)) (omega (arith, q))
                              (before-suc attempt b (record {
                                fails = bad;
                                unread = unread e0;
                                idempotent = negated_false _ e1;
                                left = ground (arith, e2);
                                slept = e3;
                              })))))))

  -- `RoundTrip` makes at most as many attempts as it may (10 for the setting 0); each but the last
  -- failed, with no byte of the body read, for an idempotent method and with the pause after it not
  -- cut short. It returns the response of the last, without an error if the last succeeds; else with
  -- an error that tells the first of these that holds: bytes of the body were read, the method is
  -- not idempotent, the attempts are used up, the pause was cut short.
  pub round_trip-Returns :
      (max_attempts : ℕ) (transport : ℕ → Reply Response Fault) (sleep : ℕ → Bool) (method : Bytes)
      → let (last, (res, err)) = round_trip status max_attempts transport sleep method in
        Returns (max_of max_attempts) transport sleep method last res err
  unfolding round_trip
  round_trip-Returns max_attempts transport sleep method =
      let max = max_of max_attempts in
      trips-Returns max transport sleep method max 0 0 refl (ground arith) (omega arith)
        (λ j h. absurd (omega (arith, h)))

  Ends-exhausted :
      (max : ℕ) (transport : ℕ → Reply Response Fault) (sleep : ℕ → Bool) (method : Bytes) (j : ℕ)
      {res : Option Response} {err : Option (RetryError Fault)}
      → succeeds status (transport j) ≡ false
      → bytes_read (transport j) ≡ 0
      → is_idempotent method ≡ true
      → sleep (j + 1) ≡ false
      → Ends max transport sleep method j res err
      → (res ≡ response (transport j)) × (err ≡ some (failed max (error (transport j))))
  Ends-exhausted max transport sleep method j f r i s (success e) = cc (f, e)
  Ends-exhausted max transport sleep method j f r i s (sent e n) = absurd (omega (arith, r, n))
  Ends-exhausted max transport sleep method j f r i s (unsafe e n m) = cc (i, m)
  Ends-exhausted max transport sleep method j f r i s (exhausted e n m l) = (refl, refl)
  Ends-exhausted max transport sleep method j f r i s (stopped e n m l z) = cc (s, z)

  -- For an idempotent method, when each attempt is answered with a status that is retried and
  -- without a byte of the body read, and no pause is cut short, `RoundTrip` returns the last
  -- attempt's response and an error as well.
  pub round_trip-both :
      (max_attempts : ℕ) (answer : ℕ → Response) (method : Bytes)
      → is_idempotent method ≡ true
      → ((j : ℕ) → (500 ≤ status (answer j)) × (is_retriable (status (answer j)) ≡ true))
      → let (last, (res, err)) =
          round_trip {Fault = Fault} status max_attempts
            (λ j. answered (answer j) 0)
            (λ j. false)
            method in
        (res ≡ some (answer last)) × (err ≡ some (failed (max_of max_attempts) none))
  round_trip-both max_attempts answer method i f =
      let (last, (res, err)) =
        round_trip {Fault = Fault} status max_attempts (λ j. answered (answer j) 0) (λ j. false)
          method in
      let h = round_trip-Returns max_attempts (λ j. answered (answer j) 0) (λ j. false) method in
      let fails : succeeds {Fault = Fault} status (answered (answer last) 0) ≡ false =
        ground (arith, f last) in
      Ends-exhausted (max_of max_attempts) (λ j. answered (answer j) 0) (λ j. false) method last
        fails refl i refl h.ends
