-- ===== src/Httpx/Server/Response/Length.antt =====
-- A response with a declared length: what its writes put on the connection
-- (`Write` of `responseWriter`, httpx/server.go).
use mathlib.Core.Path.{subst}
use netx.Base.{
  ℕ, zero, suc, ◌≤◌, ◌≡◌, refl, sym, ap, ◌∙◌, inl, inr, [], ◌∷◌, ◌++◌, append-nil, append_assoc,
  none, some, arith, ltb, ◌==◌, Bytes, length, take, drop, Bool-cases, Option-cases, take-drop,
  if_true, if_false, some-none, drop-all, take-all, length-drop,
}
use netx.Httpx.Server.Response.{
  ResponseWriter, ResponseError, io, Texts, write_header, write_known, write_body, write_response,
}
use netx.Httpx.Server.Response.Chunked.{write_header-started}
use netx.Httpx.Server.Writer.{Writer}
use netx.Httpx.Server.Response.Round.{
  Declared, offered, taken, after, write_known-content_length, write_known-fault, write_known-again,
  after-Declared, Declared-err, write_known-over, write_known-last, length-offered_remain,
  length-offered_all,
}

module _ {Fault : Type 0} (W : Writer Fault) (T : Texts) where
  open W use {State, sent, count, fault, next, count_le, count_full, sent_next}

  write_response-err :
      (f : ResponseError Fault) (b : Bytes) (res : ResponseWriter W)
      → res.err ≡ some f
      → write_response W T b res ≡ (0, some f, res)
  unfolding write_response
  write_response-err f b res e =
      ap
        (λ f. elim f [
          | some g ↦ (0, some g, res)
          | none ↦ write_body W T b (write_header W T 0 res)
        ])
        e

  -- The bytes of a write that are on the connection, and those that are not.
  pub record Split (declared : ℕ) (before written b : Bytes) (res : ResponseWriter W) : Type 0 where
    pub gone : Bytes
    pub left : Bytes
    pub parts : gone ++ left ≡ b
    pub kept : Declared W T declared before (written ++ gone) res

  Split-none :
      (declared : ℕ) (before written b : Bytes) (res : ResponseWriter W)
      → Declared W T declared before written res
      → Split declared before written b res
  Split-none declared before written b res h = record {
    gone = [];
    left = b;
    parts = refl;
    kept = subst (λ x. Declared W T declared before x res) (sym (append-nil written)) h;
  }

  Split-round :
      (declared k : ℕ) (before written b : Bytes) (res : ResponseWriter W)
      → Split declared before (written ++ take k b) (drop k b) res
      → Split declared before written b res
  Split-round declared k before written b res h = record {
    gone = take k b ++ h.gone;
    left = h.left;
    parts = append_assoc (take k b) h.gone h.left ∙ ap (λ x. take k b ++ x) h.parts ∙ take-drop k b;
    kept =
        subst (λ x. Declared W T declared before x res) (append_assoc written (take k b) h.gone)
          h.kept;
  }

  write_known-Split :
      (declared fuel : ℕ) (before written b : Bytes) (n : ℕ) (res : ResponseWriter W)
      → Declared W T declared before written res
      → Split declared before written b ((write_known W T fuel b n res).2)
  unfolding write_known
  write_known-Split declared fuel before written [] n res h =
      Split-none declared before written [] (record res { err = none })
        (Declared-err W T declared before written none res h)
  write_known-Split declared zero before written (c ∷ b) n res h =
      Split-none declared before written (c ∷ b) res h
  write_known-Split declared (suc fuel) before written (c ∷ b) n res h =
      let k = taken W T (c ∷ b) res in
      let rest = drop k (c ∷ b) in
      let kept = after-Declared W T declared before written (c ∷ b) res h in
      elim (Bool-cases (res.remain == 0)) [
        | inl z ↦
            subst (Split declared before written (c ∷ b))
              (sym (ap (λ r. r.2) (write_known-content_length W T fuel c b n res z)))
              (Split-none declared before written (c ∷ b) res h)
        | inr z ↦ elim (Option-cases (fault (offered W T (c ∷ b) res) res.w)) [
          | inr (f, e) ↦
              subst (Split declared before written (c ∷ b))
                (sym (ap (λ r. r.2) (write_known-fault W T fuel c b n res f z e)))
                (Split-round declared k before written (c ∷ b) _ (
                  Split-none declared before (written ++ take k (c ∷ b)) rest _ (
                    Declared-err W T declared before (written ++ take k (c ∷ b)) (some (io f)) _
                      kept)))
          | inl e ↦
              subst (Split declared before written (c ∷ b))
                (sym (ap (λ r. r.2) (write_known-again W T fuel c b n res z e)))
                (Split-round declared k before written (c ∷ b) _ (
                  write_known-Split declared fuel before (written ++ take k (c ∷ b)) rest k
                    (after W T (c ∷ b) res) kept))
        ]
      ]

  write_response-write_known :
      (declared : ℕ) (before written b : Bytes) (res : ResponseWriter W)
      → Declared W T declared before written res
      → res.err ≡ none
      → write_response W T b res ≡ write_known W T 2 b 0 res
  unfolding write_body
  write_response-write_known declared before written b res h e =
      let opened : write_response W T b res ≡ write_body W T b (write_header W T 0 res) =
        unfold write_response in
        ap
          (λ f. elim f [
            | some g ↦ (0, some g, res)
            | none ↦ write_body W T b (write_header W T 0 res)
          ])
          e in
      opened
      ∙ ap (write_body W T b) (write_header-started W T 0 res h.started)
      ∙ if_true _ _ _ h.body
      ∙ if_false _ _ _ h.mode

  -- When a header with a declared length is written, a `Write`, with an error or not, adds the first
  -- bytes of its argument to the connection and no others, never more than the declared length
  -- leaves, and what remains is lowered by their number.
  pub write_response-Declared :
      (declared : ℕ) (before written b : Bytes) (res : ResponseWriter W)
      → Declared W T declared before written res
      → Split declared before written b ((write_response W T b res).2)
  write_response-Declared declared before written b res h = elim (Option-cases res.err) [
    | inl e ↦
        subst (Split declared before written b)
          (sym (ap (λ r. r.2) (write_response-write_known declared before written b res h e)))
          (write_known-Split declared 2 before written b 0 res h)
    | inr (f, e) ↦
        subst (Split declared before written b) (sym (ap (λ r. r.2) (write_response-err f b res e)))
          (Split-none declared before written b res h)
  ]

  -- Two rounds without an error send all the bytes.
  write_known-all :
      (declared : ℕ) (before written b : Bytes) (n : ℕ) (res res' : ResponseWriter W)
      → Declared W T declared before written res
      → write_known W T 2 b 0 res ≡ (n, none, res')
      → (n ≡ length b) × Declared W T declared before (written ++ b) res'
  unfolding write_known
  write_known-all declared before written [] n res res' h e =
      let (m, r) = write_known-last W T 2 [] 0 n res res' refl e in
      (
        m,
        subst (Declared W T declared before (written ++ [])) r (
            Declared-err W T declared before (written ++ []) none res
              (subst (λ x. Declared W T declared before x res) (sym (append-nil written)) h)),
      )
  write_known-all declared before written (c ∷ b) n res res' h e =
      let sends = offered W T (c ∷ b) res in
      let k = taken W T (c ∷ b) res in
      let rest = drop k (c ∷ b) in
      elim (Bool-cases (res.remain == 0)) [
        | inl z ↦
            absurd
              (some-none (ap (λ r. r.1) (sym (write_known-content_length W T 1 c b 0 res z) ∙ e)))
        | inr z ↦ elim (Option-cases (fault sends res.w)) [
          | inr (f, g) ↦
              absurd (some-none (ap (λ r. r.1) (sym (write_known-fault W T 1 c b 0 res f z g) ∙ e)))
          | inl g ↦
              let again = sym (write_known-again W T 1 c b 0 res z g) ∙ e in
              let full = count_full sends res.w g in
              let kept = after-Declared W T declared before written (c ∷ b) res h in
              elim (Bool-cases (ltb res.remain (length (c ∷ b)))) [
                | inl p ↦
                    let l = full ∙ length-offered_remain W T (c ∷ b) res p in
                    absurd (
                      write_known-over W T 0 rest k n (after W T (c ∷ b) res) res'
                        (rw (length-drop k (c ∷ b)) (ground (arith, l, p))) (omega (arith, l))
                        again)
                | inr p ↦
                    let l : length (c ∷ b) ≤ k =
                      ground (arith, full, length-offered_all W T (c ∷ b) res p) in
                    let u : k ≤ length (c ∷ b) =
                      ground (arith, full, length-offered_all W T (c ∷ b) res p) in
                    let (m, r) =
                      write_known-last W T 1 rest k n (after W T (c ∷ b) res) res'
                        (drop-all k (c ∷ b) l) again in
                    (
                      omega (arith, m, l, u),
                      subst (Declared W T declared before (written ++ (c ∷ b))) r (
                          Declared-err W T declared before (written ++ (c ∷ b)) none
                            (after W T (c ∷ b) res)
                            (subst
                              (λ x.
                                Declared W T declared before (written ++ x) (after W T (c ∷ b) res))
                              (take-all k (c ∷ b) l) kept)),
                    )
              ]
        ]
      ]

  -- When a header with a declared length is written, a `Write` that returns no error has added all
  -- the bytes of its argument to the connection and returns their number.
  pub write_response-all :
      (declared : ℕ) (before written b : Bytes) (n : ℕ) (res res' : ResponseWriter W)
      → Declared W T declared before written res
      → write_response W T b res ≡ (n, none, res')
      → (n ≡ length b) × Declared W T declared before (written ++ b) res'
  write_response-all declared before written b n res res' h e = elim (Option-cases res.err) [
    | inl f ↦
        write_known-all declared before written b n res res' h
          (sym (write_response-write_known declared before written b res h f) ∙ e)
    | inr (g, f) ↦ absurd (some-none (ap (λ r. r.1) (sym (write_response-err g b res f) ∙ e)))
  ]
