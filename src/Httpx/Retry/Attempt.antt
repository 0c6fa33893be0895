-- ===== src/Httpx/Retry/Attempt.antt =====
-- What a failed attempt of `RetryHandler` leaves on the original writer (httpx/retry.go).
use mathlib.Core.Path.{subst}
use netx.Base.{
  ℕ, ◌+◌, ◌≤◌, ◌≡◌, ◌≢◌, ◌⊎◌, inl, inr, sym, ap, ◌∙◌, ◌++◌, length, none, true, false, Option, ltb,
  leb, ◌==◌, Bytes, Bool-cases, if_true, if_false, arith,
}
use netx.Httpx.Retry.{
  send_header, Responder, Program, stop, edit_header, put_header, put_bytes, read_body, RetryWriter,
  retry_header, retry_bytes, retry_write, call,
}

module _ {Fault : Type 0} where
  -- `WriteHeader` is not called with the status 0.
  abbrev pub HasStatuses : Program Fault → Type 0
  HasStatuses stop = Unit
  HasStatuses (edit_header f p) = HasStatuses p
  HasStatuses (put_header status p) = (status ≢ 0) × HasStatuses p
  HasStatuses (put_bytes b p) = (k : ℕ) (e : Option Fault) → HasStatuses (p k e)
  HasStatuses (read_body k p) = HasStatuses p

failed-ok : (status : ℕ) → status ≢ 0 → ltb status 500 ≡ true → ((status ≡ 0) ⊎ (500 ≤ status)) → ⊥
failed-ok status z p (inl q) = z q
failed-ok status z p (inr q) = ground (arith, p, q)

not-failed :
    (status : ℕ) → status ≢ 0 → leb 500 status ≡ false → ((status ≡ 0) ⊎ (500 ≤ status)) → ⊥
not-failed status z p (inl q) = z q
not-failed status z p (inr q) = ground (arith, p, q)

module _ {Fault : Type 0} (R : Responder Fault) where
  open R use {State}

  -- Without a status, or with one of a failure, the original writer is as it was.
  abbrev pub Untouched : State → RetryWriter R → Type 0
  Untouched w res = (res.status ≡ 0) ⊎ (500 ≤ res.status) → res.w ≡ w

  abbrev moved : ℕ → RetryWriter R → RetryWriter R
  moved status res = record res {
    w = R.write_header status (send_header R res.fields res.w);
    status = status;
  }

  retry_header-Untouched :
      (status : ℕ) (w : State) (res : RetryWriter R)
      → status ≢ 0
      → Untouched w res
      → Untouched w (retry_header R status res)
  unfolding retry_header
  retry_header-Untouched status w res z h =
      let kept : RetryWriter R = record res { status = status } in
      elim (Bool-cases (res.status == 0)) [
        | inr s ↦ subst (Untouched w) (sym (if_false _ _ _ s)) h
        | inl s ↦ elim (Bool-cases (ltb status 500)) [
          | inl p ↦
              subst (Untouched w) (sym (if_true _ _ _ s ∙ if_true (moved status res) kept _ p))
                (λ q. absurd (failed-ok status z p q))
          | inr p ↦
              subst (Untouched w) (sym (if_true _ _ _ s ∙ if_false (moved status res) kept _ p))
                (λ q. h (inl (ground (arith, s))))
        ]
      ]

  retry_bytes-Untouched :
      (b : Bytes) (w : State) (res : RetryWriter R)
      → res.status ≢ 0
      → Untouched w res
      → Untouched w ((retry_bytes R b res).1.1)
  unfolding retry_bytes
  retry_bytes-Untouched b w res z h =
      let buffered : ℕ × (Option Fault × RetryWriter R) =
        (length b, (none, record res { buffer = res.buffer ++ b })) in
      let (k, (e, w')) = R.write b res.w in
      let passed : ℕ × (Option Fault × RetryWriter R) = (k, (e, record res { w = w' })) in
      let writer : ℕ × (Option Fault × RetryWriter R) → RetryWriter R = λ r. r.1.1 in
      elim (Bool-cases (leb 500 res.status)) [
        | inl p ↦
            subst (Untouched w) (sym (ap writer (if_true buffered passed _ p)))
              (λ q. h (inr (ground (arith, p))))
        | inr p ↦
            subst (Untouched w) (sym (ap writer (if_false buffered passed _ p)))
              (λ q. absurd (not-failed res.status z p q))
      ]

  retry_header-status : (res : RetryWriter R) → (retry_header R 200 res).status ≢ 0
  unfolding retry_header
  retry_header-status res = elim (Bool-cases (res.status == 0)) [
    | inl s ↦ λ z. omega (arith, sym (ap (λ r. r.status) (if_true (moved 200 res) res _ s)) ∙ z)
    | inr s ↦ λ z.
        let same : retry_header R 200 res ≡ res = if_false (moved 200 res) res _ s in
        ground (arith, s, sym (ap (λ r. r.status) same) ∙ z)
  ]

  -- A call of a handler keeps the original writer until a status below 500 is written.
  pub call-Untouched :
      (p : Program Fault) (w : State) (res : RetryWriter R)
      → HasStatuses p
      → Untouched w res
      → Untouched w (call R p res)
  unfolding call retry_write
  call-Untouched stop w res s h = h
  call-Untouched (edit_header f p) w res s h =
      call-Untouched p w (record res { fields = f res.fields }) s h
  call-Untouched (put_header status p) w res s h =
      call-Untouched p w (retry_header R status res) s.1 (retry_header-Untouched status w res s.0 h)
  call-Untouched (put_bytes b p) w res s h =
      let (k, (e, res')) = retry_write R b res in
      call-Untouched (p k e) w res' (s k e) (
        retry_bytes-Untouched b w (retry_header R 200 res) (retry_header-status res)
          (retry_header-Untouched 200 w res (λ z. omega (arith, z)) h))
  call-Untouched (read_body k p) w res s h = call-Untouched p w (record res { n = res.n + k }) s h
