-- ===== src/Httpx/Proxy/Choice.antt =====
-- Which requests the proxy answers itself, and that it asks for the upgrade that it was asked for
-- (httpx/proxy.go).
use mathlib.Core.Path.{subst}
use netx.Base.{
  zero, suc, ◌≡◌, ◌==◌, refl, sym, ap, ◌∙◌, inl, inr, ◌⊎◌, ◌||◌, bytes_eq, Bool, true, false, [],
  ◌∷◌, Option, none, some, if◌then◌else◌, Bytes, codes, is_empty, Bool-cases, if_true, if_false,
  arith,
}
use netx.Httpx.Forwarded.{max_forwards}
use netx.Httpx.Header.{Header, values, set}
use netx.Httpx.Lex.{header_values_contains_token}
use netx.Httpx.Proto.{connection_upgrade}
use netx.Httpx.Proxy.{
  Request, Plan, refuses, connects, traces, options, upgrades, forwards, out_host, decrement,
  is_zero, set_upgrade, set_max, pass_on, answer, limit_forwards, out_header, out_request, plan,
}
use netx.Httpx.Proxy.Passes.{both}
use netx.Net.Ip.{IpText}
use netx.Strconv.{ℤ, pos, negsuc}

-- The proxy answers the request itself, as a TRACE or an OPTIONS.
abbrev pub is_answered : Plan → Bool
is_answered (traces out) = true
is_answered (options out) = true
is_answered _ = false

-- Max-Forwards is 1, or no number.
abbrev pub is_last : Option ℤ → Bool
is_last none = true
is_last (some (pos n)) = n == 1
is_last (some (negsuc n)) = false

is_zero-decrement : (m : ℤ) → is_zero (decrement m) ≡ is_last (some m)
unfolding decrement
is_zero-decrement (pos zero) = refl
is_zero-decrement (pos (suc n)) = ground arith
is_zero-decrement (negsuc n) = ground arith

is_answered-answer : (out : Request) → is_answered (answer out) ≡ true
is_answered-answer out = ground arith

is_answered-pass_on : (req out : Request) → is_answered (pass_on req out) ≡ false
unfolding pass_on
is_answered-pass_on req out = ground arith

is_answered-limit_forwards :
    (req out : Request) (m : Option ℤ) → is_answered (limit_forwards req out m) ≡ is_last m
unfolding limit_forwards
is_answered-limit_forwards req out none = is_answered-answer out
is_answered-limit_forwards req out (some m) =
    let passed = pass_on req (record out { header = set_max out.header (decrement m) }) in
    elim (Bool-cases (is_zero (decrement m))) [
      | inl t ↦
          ap is_answered (if_true (answer out) passed _ t)
          ∙ is_answered-answer out
          ∙ sym (sym (is_zero-decrement m) ∙ t)
      | inr t ↦
          ap is_answered (if_false (answer out) passed _ t)
          ∙ is_answered-pass_on req _
          ∙ sym (sym (is_zero-decrement m) ∙ t)
    ]

-- A TRACE or an OPTIONS.
abbrev pub HasLimit : Bytes → Type 0
HasLimit method = (method ≡ codes "TRACE") ⊎ (method ≡ codes "OPTIONS")

HasLimit-tests :
    (method : Bytes)
    → HasLimit method
    → (bytes_eq method (codes "CONNECT") ≡ false)
      × ((bytes_eq method (codes "TRACE") || bytes_eq method (codes "OPTIONS")) ≡ true)
unfolding bytes_eq
HasLimit-tests method (inl e) = (
  ap (λ m. bytes_eq m (codes "CONNECT")) e,
  ap (λ m. bytes_eq m (codes "TRACE") || bytes_eq m (codes "OPTIONS")) e,
)
HasLimit-tests method (inr e) = (
  ap (λ m. bytes_eq m (codes "CONNECT")) e,
  ap (λ m. bytes_eq m (codes "TRACE") || bytes_eq m (codes "OPTIONS")) e,
)

connection_upgrade-set_upgrade : (h : Header) (v : Bytes) → connection_upgrade (set_upgrade h v) ≡ v
unfolding connection_upgrade set_upgrade set values bytes_eq header_values_contains_token
connection_upgrade-set_upgrade h v = refl

-- A plan to upgrade asks for what the request asks, and one to forward has no upgrade to ask for.
abbrev pub Asks : Request → Plan → Type 0
Asks req (upgrades out) = connection_upgrade out.header ≡ connection_upgrade req.header
Asks req (forwards out) = connection_upgrade req.header ≡ []
Asks req _ = Unit

is_empty-nil : (s : Bytes) → is_empty s ≡ true → s ≡ []
is_empty-nil [] e = refl
is_empty-nil (c ∷ s) e = cc e

pass_on-Asks : (req out : Request) → Asks req (pass_on req out)
unfolding pass_on
pass_on-Asks req out =
    let upgrade = connection_upgrade req.header in
    let up = upgrades (record out { header = set_upgrade out.header upgrade }) in
    elim (Bool-cases (is_empty upgrade)) [
      | inl t ↦ subst (Asks req) (sym (if_true (forwards out) up _ t)) (is_empty-nil upgrade t)
      | inr t ↦
          subst (Asks req) (sym (if_false (forwards out) up _ t))
            (connection_upgrade-set_upgrade out.header upgrade)
    ]

answer-Asks : (req out : Request) → Asks req (answer out)
answer-Asks req out = both (Asks req) _ (traces out) (options out) tt tt

limit_forwards-Asks : (req out : Request) (m : Option ℤ) → Asks req (limit_forwards req out m)
unfolding limit_forwards
limit_forwards-Asks req out none = answer-Asks req out
limit_forwards-Asks req out (some m) =
    let out' = record out { header = set_max out.header (decrement m) } in
    both (Asks req) (is_zero (decrement m)) (answer out) (pass_on req out') (answer-Asks req out)
      (pass_on-Asks req out')

module _ (T : IpText) (split_hp : Bytes → Option (Bytes × Bytes))
    (join_hp : Bytes → Bytes → Bytes) where
  -- A TRACE or an OPTIONS with a host is answered by the proxy exactly when the Max-Forwards of the
  -- rewritten header is 1 or no number; it is passed on for any other, 0 and none among them.
  pub plan-is_answered :
      (req : Request)
      → is_empty (out_host req) ≡ false
      → HasLimit req.method
      → is_answered (plan T split_hp join_hp req)
        ≡ is_last (max_forwards (out_header T split_hp join_hp req))
  unfolding plan out_request
  plan-is_answered req e l =
      let out = out_request T split_hp join_hp req in
      let (c, t) = HasLimit-tests req.method l in
      ap is_answered (if_false _ _ _ e ∙ if_false _ _ _ c ∙ if_true _ _ _ t)
      ∙ is_answered-limit_forwards req out (max_forwards out.header)

  -- When the proxy makes an upgrade, the request that it sends asks for the protocol that the request
  -- which it got asks for; when it forwards a request to its transport, that one asks for none.
  pub plan-Asks : (req : Request) → Asks req (plan T split_hp join_hp req)
  unfolding plan
  plan-Asks req =
      let out = out_request T split_hp join_hp req in
      let limited = limit_forwards req out (max_forwards out.header) in
      let either =
        if bytes_eq req.method (codes "TRACE") || bytes_eq req.method (codes "OPTIONS")
        then limited
        else pass_on req out in
      both (Asks req) (is_empty (out_host req)) refuses
        (if bytes_eq req.method (codes "CONNECT") then connects out else either) tt
        (both (Asks req) (bytes_eq req.method (codes "CONNECT")) (connects out) either tt (
          both (Asks req)
            (bytes_eq req.method (codes "TRACE") || bytes_eq req.method (codes "OPTIONS")) limited
            (pass_on req out) (limit_forwards-Asks req out (max_forwards out.header))
            (pass_on-Asks req out)))
