-- ===== src/Httpx/Proxy/Switch.antt =====
-- Which plan the proxy makes for a request: for which it may open a tunnel, and which it forwards
-- (httpx/proxy.go).
use mathlib.Core.Path.{ap₂}
use netx.Base.{
  ◌≡◌, ◌≢◌, refl, sym, ap, ◌∙◌, ◌⊎◌, inl, inr, ◌||◌, bytes_eq, bytes_eq_iff, Bool, true, false, [],
  ◌∷◌, Option, none, some, if◌then◌else◌, Bytes, codes, is_empty, Bool-cases, if_true, if_false,
}
use netx.Httpx.Forwarded.{max_forwards}
use netx.Httpx.Header.{Header, canonical, values, get, set}
use netx.Httpx.Lex.{header_values_contains_token}
use netx.Httpx.Proto.{connection_upgrade}
use netx.Httpx.Proxy.Passes.{both}
use netx.Httpx.Proxy.{
  Request, Plan, refuses, connects, traces, options, upgrades, forwards, out_host, decrement,
  is_zero, set_upgrade, set_max, pass_on, answer, limit_forwards, out_request, plan,
}
use netx.Net.Ip.{IpText}
use netx.Strconv.{ℤ}

-- The Connection field of the header has the token "Upgrade", and its Upgrade field is not empty.
abbrev pub AsksUpgrade : Header → Type 0
AsksUpgrade h =
    (header_values_contains_token (values h (codes "Connection")) (codes "Upgrade") ≡ true)
    × (get h (codes "Upgrade") ≢ [])

-- What a plan says of the request that it is made for.
abbrev pub Fits : Request → Plan → Type 0
Fits req (connects out) = (req.method ≡ codes "CONNECT") × (out.url_host ≡ out_host req)
Fits req (upgrades out) =
    (req.method ≢ codes "CONNECT")
    × AsksUpgrade req.header
    × (get out.header (codes "Upgrade") ≡ get req.header (codes "Upgrade"))
    × (out.url_host ≡ out_host req)
Fits req _ = Unit

-- What holds of each plan in its case holds of the one that is chosen.
chosen :
    (P : Plan → Type 0) (b : Bool) (p q : Plan)
    → (b ≡ true → P p)
    → (b ≡ false → P q)
    → P (if b then p else q)
chosen P true p q x y = x refl
chosen P false p q x y = y refl

nonempty : (s : Bytes) → is_empty s ≡ false → s ≢ []
nonempty [] e = cc e
nonempty (c ∷ s) e = λ z. cc z

connection_upgrade-AsksUpgrade :
    (h : Header)
    → is_empty (connection_upgrade h) ≡ false
    → AsksUpgrade h × (connection_upgrade h ≡ get h (codes "Upgrade"))
unfolding connection_upgrade
connection_upgrade-AsksUpgrade h e =
    let upgrade = get h (codes "Upgrade") in
    elim (Bool-cases
      (header_values_contains_token (values h (codes "Connection")) (codes "Upgrade"))) [
        | inl t ↦
            let same = if_true upgrade [] _ t in
            ((t, nonempty upgrade (sym (ap is_empty same) ∙ e)), same)
        | inr f ↦ cc (sym (ap is_empty (if_false upgrade [] _ f)) ∙ e)
      ]

get-set_upgrade : (h : Header) (v : Bytes) → get (set_upgrade h v) (codes "Upgrade") ≡ v
unfolding set_upgrade get set values canonical bytes_eq
get-set_upgrade h v = refl

pass_on-Fits :
    (req out : Request)
    → req.method ≢ codes "CONNECT"
    → out.url_host ≡ out_host req
    → Fits req (pass_on req out)
unfolding pass_on
pass_on-Fits req out n h =
    let upgrade = connection_upgrade req.header in
    chosen (Fits req) (is_empty upgrade) (forwards out)
      (upgrades (record out { header = set_upgrade out.header upgrade })) (λ t. tt)
      (λ f.
        let (asks, same) = connection_upgrade-AsksUpgrade req.header f in
        (n, asks, get-set_upgrade out.header upgrade ∙ same, h))

answer-Fits : (req out : Request) → Fits req (answer out)
answer-Fits req out =
    both (Fits req) (bytes_eq out.method (codes "TRACE")) (traces out) (options out) tt tt

limit_forwards-Fits :
    (req out : Request) (m : Option ℤ)
    → req.method ≢ codes "CONNECT"
    → out.url_host ≡ out_host req
    → Fits req (limit_forwards req out m)
unfolding limit_forwards
limit_forwards-Fits req out none n h = answer-Fits req out
limit_forwards-Fits req out (some m) n h =
    let out' = record out { header = set_max out.header (decrement m) } in
    both (Fits req) (is_zero (decrement m)) (answer out) (pass_on req out') (answer-Fits req out)
      (pass_on-Fits req out' n h)

pub plan-Fits :
    (T : IpText) (split_hp : Bytes → Option (Bytes × Bytes)) (join_hp : Bytes → Bytes → Bytes)
    (req : Request)
    → Fits req (plan T split_hp join_hp req)
unfolding plan out_request
plan-Fits T split_hp join_hp req =
    let out = out_request T split_hp join_hp req in
    let host : out.url_host ≡ out_host req = refl in
    let limited = limit_forwards req out (max_forwards out.header) in
    let has_limit = bytes_eq req.method (codes "TRACE") || bytes_eq req.method (codes "OPTIONS") in
    let either = if has_limit then limited else pass_on req out in
    let other : req.method ≢ codes "CONNECT" → Fits req either = λ n.
      both (Fits req) has_limit limited (pass_on req out)
        (limit_forwards-Fits req out (max_forwards out.header) n host)
        (pass_on-Fits req out n host) in
    chosen (Fits req) (is_empty (out_host req)) refuses
      (if bytes_eq req.method (codes "CONNECT") then connects out else either) (λ t. tt)
      (λ f.
        chosen (Fits req) (bytes_eq req.method (codes "CONNECT")) (connects out) either
          (λ t. ((bytes_eq_iff req.method (codes "CONNECT")).0 t, host))
          (λ g. other (λ e. cc (g, (bytes_eq_iff req.method (codes "CONNECT")).1 e))))

not_empty : (s : Bytes) → s ≢ [] → is_empty s ≡ false
not_empty [] n = absurd (n refl)
not_empty (c ∷ s) n = refl

-- The proxy serves these requests itself, by their method.
abbrev pub IsOwnMethod : Bytes → Type 0
IsOwnMethod m = (m ≡ codes "CONNECT") ⊎ ((m ≡ codes "TRACE") ⊎ (m ≡ codes "OPTIONS"))

different : (s t : Bytes) → s ≢ t → bytes_eq s t ≡ false
different s t n = elim (Bool-cases (bytes_eq s t)) [
  | inl e ↦ absurd (n ((bytes_eq_iff s t).0 e))
  | inr f ↦ f
]

pub plan-forwards :
    (T : IpText) (split_hp : Bytes → Option (Bytes × Bytes)) (join_hp : Bytes → Bytes → Bytes)
    (req : Request)
    → out_host req ≢ []
    → ¬ IsOwnMethod req.method
    → ¬ AsksUpgrade req.header
    → plan T split_hp join_hp req ≡ forwards (out_request T split_hp join_hp req)
unfolding plan pass_on
plan-forwards T split_hp join_hp req h m u =
    let c = different req.method (codes "CONNECT") (λ e. m (inl e)) in
    let t = different req.method (codes "TRACE") (λ e. m (inr (inl e))) in
    let o = different req.method (codes "OPTIONS") (λ e. m (inr (inr e))) in
    let upgrade = connection_upgrade req.header in
    let none_asked : is_empty upgrade ≡ true = elim (Bool-cases (is_empty upgrade)) [
      | inl e ↦ e
      | inr f ↦ absurd (u (connection_upgrade-AsksUpgrade req.header f).0)
    ] in
    if_false _ _ _ (not_empty (out_host req) h)
    ∙ if_false _ _ _ c
    ∙ if_false _ _ _ (ap₂ (λ a b. a || b) t o)
    ∙ if_true _ _ _ none_asked
