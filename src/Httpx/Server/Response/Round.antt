-- ===== src/Httpx/Server/Response/Round.antt =====
-- The rounds of the loop of `Write` for a body of a declared length
-- (`responseWriter`, httpx/server.go).
use mathlib.Core.Path.{subst}
use netx.Base.{
  ℕ, suc, ◌+◌, ◌-◌, ◌≤◌, ◌<◌, ◌≡◌, refl, sym, ap, ◌∙◌, true, false, [], ◌∷◌, ◌++◌, append_assoc,
  Option, none, some, arith, ltb, ◌==◌, if◌then◌else◌, Bytes, length, take, drop, length-take,
  length-take_eq, length-append, if_true, if_false, some-none, take-take,
}
use netx.Httpx.Server.Response.{
  ResponseWriter, ResponseError, io, content_length, Texts, write_known,
}
use netx.Httpx.Server.Writer.{Writer}

module _ {Fault : Type 0} (W : Writer Fault) (T : Texts) where
  open W use {State, sent, count, fault, next, count_le, count_full, sent_next}

  -- The header is written and declared a length, of which `remain` bytes are not yet written.
  pub record Declared (declared : ℕ) (before written : Bytes) (res : ResponseWriter W)
      : Type 0 where
    pub started : (res.status == 0) ≡ false
    pub body : res.has_body ≡ true
    pub mode : res.chunked ≡ false
    pub on_wire : sent res.w ≡ before ++ written
    pub counted : length written + res.remain ≡ declared

  -- The bytes of a round, and the state after it.
  abbrev pub offered : Bytes → ResponseWriter W → Bytes
  offered b res = take (if ltb res.remain (length b) then res.remain else length b) b

  abbrev pub taken : Bytes → ResponseWriter W → ℕ
  taken b res = count (offered b res) res.w

  abbrev pub after : Bytes → ResponseWriter W → ResponseWriter W
  after b res = record res { w = next (offered b res) res.w; remain = res.remain - taken b res }

  pub write_known-content_length :
      (fuel c : ℕ) (b : Bytes) (n : ℕ) (res : ResponseWriter W)
      → (res.remain == 0) ≡ true
      → write_known W T (suc fuel) (c ∷ b) n res ≡ (n, some content_length, res)
  unfolding write_known
  write_known-content_length fuel c b n res h = if_true _ _ _ h

  pub write_known-fault :
      (fuel c : ℕ) (b : Bytes) (n : ℕ) (res : ResponseWriter W) (f : Fault)
      → (res.remain == 0) ≡ false
      → fault (offered (c ∷ b) res) res.w ≡ some f
      → write_known W T (suc fuel) (c ∷ b) n res
        ≡ (taken (c ∷ b) res, some (io f), record (after (c ∷ b) res) { err = some (io f) })
  unfolding write_known
  write_known-fault fuel c b n res f h e = if_false _ _ _ h ∙ rw (e) refl

  pub write_known-again :
      (fuel c : ℕ) (b : Bytes) (n : ℕ) (res : ResponseWriter W)
      → (res.remain == 0) ≡ false
      → fault (offered (c ∷ b) res) res.w ≡ none
      → write_known W T (suc fuel) (c ∷ b) n res
        ≡ write_known W T fuel
            (drop (taken (c ∷ b) res) (c ∷ b))
            (taken (c ∷ b) res)
            (after (c ∷ b) res)
  unfolding write_known
  write_known-again fuel c b n res h e = if_false _ _ _ h ∙ rw (e) refl

  -- A round puts on the connection the first of the bytes, no more than remain.
  pub after-Declared :
      (declared : ℕ) (before written b : Bytes) (res : ResponseWriter W)
      → Declared declared before written res
      → Declared declared before (written ++ take (taken b res) b) (after b res)
  after-Declared declared before written b res h =
      let n1 = if ltb res.remain (length b) then res.remain else length b in
      let k = taken b res in
      let p : k ≤ length (offered b res) = count_le (offered b res) res.w in
      let q : length (offered b res) ≤ n1 = length-take n1 b in
      let l : length (take k b) ≡ k = length-take_eq k b (ground (arith, p, q)) in
      record {
        started = h.started;
        body = h.body;
        mode = h.mode;
        on_wire =
            sent_next (offered b res) res.w
            ∙ ap (λ x. x ++ take k (offered b res)) h.on_wire
            ∙ append_assoc before written (take k (offered b res))
            ∙ ap (λ x. before ++ (written ++ x)) (take-take k n1 b (omega (arith, p, q)));
        counted =
            rw (length-append written (take k b), l) (let c = h.counted in ground (arith, c, p, q));
      }

  pub Declared-err :
      (declared : ℕ) (before written : Bytes) (e : Option (ResponseError Fault))
      (res : ResponseWriter W)
      → Declared declared before written res
      → Declared declared before written (record res { err = e })
  Declared-err declared before written e res h = record {
    started = h.started;
    body = h.body;
    mode = h.mode;
    on_wire = h.on_wire;
    counted = h.counted;
  }

  -- With bytes left over and none that remain, the next round fails.
  pub write_known-over :
      (fuel : ℕ) (b : Bytes) (n m : ℕ) (res res' : ResponseWriter W)
      → 0 < length b
      → res.remain ≡ 0
      → write_known W T (suc fuel) b n res ≡ (m, none, res')
      → ⊥
  write_known-over fuel [] n m res res' p z e = omega (arith, p)
  write_known-over fuel (c ∷ b) n m res res' p z e =
      some-none
        (ap (λ r. r.1) (sym (write_known-content_length fuel c b n res (ground (arith, z))) ∙ e))

  pub write_known-last :
      (fuel : ℕ) (b : Bytes) (n m : ℕ) (res res' : ResponseWriter W)
      → b ≡ []
      → write_known W T fuel b n res ≡ (m, none, res')
      → (m ≡ n) × (record res { err = none } ≡ res')
  unfolding write_known
  write_known-last fuel b n m res res' z e =
      let done : (n, none, record res { err = none }) ≡ (m, none, res') =
        subst (λ x. write_known W T fuel x n res ≡ (m, none, res')) z e in
      (sym (ap (λ r. r.0) done), ap (λ r. r.2) done)

  pub length-offered_remain :
      (b : Bytes) (res : ResponseWriter W)
      → ltb res.remain (length b) ≡ true
      → length (offered b res) ≡ res.remain
  length-offered_remain b res p =
      ap (λ x. length (take x b)) (if_true _ _ _ p)
      ∙ length-take_eq res.remain b (ground (arith, p))

  pub length-offered_all :
      (b : Bytes) (res : ResponseWriter W)
      → ltb res.remain (length b) ≡ false
      → length (offered b res) ≡ length b
  length-offered_all b res p =
      ap (λ x. length (take x b)) (if_false _ _ _ p) ∙ length-take_eq (length b) b (omega arith)
