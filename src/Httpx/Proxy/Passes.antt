-- ===== src/Httpx/Proxy/Passes.antt =====
-- Which fields of a request the proxy passes on (httpx/proxy.go).
use mathlib.Core.Path.{subst, fun_ext}
use netx.Base.{
  ◌≡◌, refl, sym, ◌∙◌, inl, inr, ◌⊎◌, ◌||◌, bytes_eq, Bool, true, false, List, [], ◌∷◌, Option,
  none, some, if◌then◌else◌, Bytes, codes, is_empty,
}
use netx.Httpx.Forwarded.{
  proto_version, max_forwards, make_forwarded, add_forwarded, translate_x_forwarded, x_fields,
  x_forwarded, set_forwarded,
}
use netx.Httpx.Header.{Header, canonical, set}
use netx.Httpx.Proto.Add.{set-other, add_header_value-get}
use netx.Httpx.Proto.Hop.{Any, Deletes, IsHopField, delete_all-Deletes, delete_hop_fields-Deletes}
use netx.Httpx.Proto.{
  copy_header, delete_all, delete_hop_fields, make_via, add_via, connection_upgrade,
}
use netx.Httpx.Proxy.{
  Request, Plan, refuses, connects, traces, options, upgrades, forwards, no_header, out_host,
  decrement, is_zero, set_upgrade, set_max, pass_on, answer, limit_forwards, with_forwarded,
  out_scheme, out_header, out_request, plan,
}
use netx.Net.Ip.{IpText}
use netx.Strconv.{ℤ}

-- The fields that the proxy itself sets or deletes in a request.
abbrev pub proxy_fields : List Bytes
proxy_fields =
    codes "Forwarded"
    ∷ codes "Via"
    ∷ codes "Max-Forward"
    ∷ codes "Connection"
    ∷ codes "Upgrade"
    ∷ x_fields

abbrev pub IsNamed : Bytes → List Bytes → Type 0
IsNamed key names = Any (λ name. key ≡ canonical name) names

-- What holds of the request that is passed on, if there is one.
abbrev pub OnRequest : (Request → Type 0) → Plan → Type 0
OnRequest P refuses = Unit
OnRequest P (connects out) = P out
OnRequest P (traces out) = P out
OnRequest P (options out) = P out
OnRequest P (upgrades out) = P out
OnRequest P (forwards out) = P out

-- What holds of both plans holds of the one that is chosen.
pub both : (P : Plan → Type 0) (b : Bool) (p q : Plan) → P p → P q → P (if b then p else q)
both P true p q x y = x
both P false p q x y = y

set_max-other :
    (h : Header) (max : ℤ) (key : Bytes) → ¬ IsNamed key proxy_fields → set_max h max key ≡ h key
unfolding set_max
set_max-other h max key n = set-other h (codes "Max-Forward") _ key (λ e. n (inr (inr (inl e))))

set_upgrade-other :
    (h : Header) (v key : Bytes) → ¬ IsNamed key proxy_fields → set_upgrade h v key ≡ h key
unfolding set_upgrade
set_upgrade-other h v key n =
    set-other (set h (codes "Connection") (codes "Upgrade")) (codes "Upgrade") v key
      (λ e. n (inr (inr (inr (inr (inl e))))))
    ∙ set-other h (codes "Connection") (codes "Upgrade") key (λ e. n (inr (inr (inr (inl e)))))

set_forwarded-other :
    (T : IpText) (h : Header) (v key : Bytes)
    → ¬ IsNamed key proxy_fields
    → set_forwarded T h v key ≡ h key
set_forwarded-other T h [] key n = refl
set_forwarded-other T h (c ∷ v) key n = set-other h (codes "Forwarded") (c ∷ v) key (λ e. n (inl e))

-- What was not deleted is as before.
pub not_gone :
    {G : Type 0} (h h' : Header) (key : Bytes) → ¬ G → Deletes G h h' key → h' key ≡ h key
not_gone h h' key n (inl (g, e)) = absurd (n g)
not_gone h h' key n (inr (m, e)) = e

translate_x_forwarded-other :
    (T : IpText) (join_hp : Bytes → Bytes → Bytes) (h : Header) (key : Bytes)
    → ¬ IsNamed key proxy_fields
    → translate_x_forwarded T join_hp h key ≡ h key
translate_x_forwarded-other T join_hp h key n =
    let h' = set_forwarded T h (x_forwarded T join_hp h) in
    let kept =
      not_gone h' (delete_all x_fields h') key (λ g. n (inr (inr (inr (inr (inr g))))))
        (delete_all-Deletes x_fields h' key) in
    unfold translate_x_forwarded in kept ∙ set_forwarded-other T h (x_forwarded T join_hp h) key n

pub copy_header-no_header : (h : Header) (key : Bytes) → copy_header no_header h key ≡ h key
unfolding copy_header
copy_header-no_header h key = elim (h key) as (λ o. elim o [ none ↦ none | some l ↦ some l ] ≡ o) [
  | none ↦ refl
  | some l ↦ refl
]

with_forwarded-other :
    (T : IpText) (split_hp : Bytes → Option (Bytes × Bytes)) (join_hp : Bytes → Bytes → Bytes)
    (h : Header) (key : Bytes)
    → ¬ IsNamed key proxy_fields
    → with_forwarded T split_hp join_hp h key ≡ h key
with_forwarded-other T split_hp join_hp h key n =
    let pick : Option (List Bytes) → Header =
      λ o. elim o [ none ↦ translate_x_forwarded T join_hp h | some l ↦ h ] in
    elim (h (codes "Forwarded")) as (λ o. pick o key ≡ h key) [
      | none ↦ translate_x_forwarded-other T join_hp h key n
      | some l ↦ refl
    ]

out_header-other :
    (T : IpText) (split_hp : Bytes → Option (Bytes × Bytes)) (join_hp : Bytes → Bytes → Bytes)
    (req : Request) (key : Bytes)
    → ¬ IsNamed key proxy_fields
    → out_header T split_hp join_hp req key
      ≡ delete_hop_fields (copy_header no_header req.header) key
unfolding out_header add_via add_forwarded
out_header-other T split_hp join_hp req key n =
    let h = delete_hop_fields (copy_header no_header req.header) in
    let h1 = with_forwarded T split_hp join_hp h in
    let v = make_forwarded T (out_scheme T split_hp join_hp req) req.remote_addr req.local_addr in
    let h2 =
      add_forwarded T h1 (out_scheme T split_hp join_hp req) req.remote_addr req.local_addr in
    (add_header_value-get h2 (codes "Via") (make_via (proto_version req.proto) req.local_addr)).1
      key (λ e. n (inr (inl e)))
    ∙ (add_header_value-get h1 (codes "Forwarded") v).1 key (λ e. n (inl e))
    ∙ with_forwarded-other T split_hp join_hp h key n

pass_on-other :
    (req out : Request) (key : Bytes) (v : Option (List Bytes))
    → ¬ IsNamed key proxy_fields
    → out.header key ≡ v
    → OnRequest (λ r. r.header key ≡ v) (pass_on req out)
unfolding pass_on
pass_on-other req out key v n e =
    let upgrade = connection_upgrade req.header in
    both (OnRequest (λ r. r.header key ≡ v)) (is_empty upgrade) (forwards out)
      (upgrades (record out { header = set_upgrade out.header upgrade })) e
      (set_upgrade-other out.header upgrade key n ∙ e)

answer-other :
    (out : Request) (key : Bytes) (v : Option (List Bytes))
    → out.header key ≡ v
    → OnRequest (λ r. r.header key ≡ v) (answer out)
answer-other out key v e =
    both (OnRequest (λ r. r.header key ≡ v)) (bytes_eq out.method (codes "TRACE")) (traces out)
      (options out) e e

limit_forwards-other :
    (req out : Request) (m : Option ℤ) (key : Bytes) (v : Option (List Bytes))
    → ¬ IsNamed key proxy_fields
    → out.header key ≡ v
    → OnRequest (λ r. r.header key ≡ v) (limit_forwards req out m)
unfolding limit_forwards
limit_forwards-other req out none key v n e = answer-other out key v e
limit_forwards-other req out (some m) key v n e =
    let h = set_max out.header (decrement m) in
    both (OnRequest (λ r. r.header key ≡ v)) (is_zero (decrement m)) (answer out)
      (pass_on req (record out { header = h })) (answer-other out key v e)
      (pass_on-other req (record out { header = h }) key v n
        (set_max-other out.header (decrement m) key n ∙ e))

OnRequest-map :
    {P Q : Request → Type 0} (p : Plan)
    → ((r : Request) → P r → Q r)
    → OnRequest P p
    → OnRequest Q p
OnRequest-map refuses f h = tt
OnRequest-map (connects r) f h = f r h
OnRequest-map (traces r) f h = f r h
OnRequest-map (options r) f h = f r h
OnRequest-map (upgrades r) f h = f r h
OnRequest-map (forwards r) f h = f r h

module _ (T : IpText) (split_hp : Bytes → Option (Bytes × Bytes))
    (join_hp : Bytes → Bytes → Bytes) where
  plan-other :
      (req : Request) (key : Bytes)
      → ¬ IsNamed key proxy_fields
      → OnRequest
          (λ r. r.header key ≡ delete_hop_fields (copy_header no_header req.header) key)
          (plan T split_hp join_hp req)
  unfolding plan out_request
  plan-other req key n =
      let out = out_request T split_hp join_hp req in
      let v = delete_hop_fields (copy_header no_header req.header) key in
      let P = OnRequest (λ r. r.header key ≡ v) in
      let e : out.header key ≡ v = out_header-other T split_hp join_hp req key n in
      let limited = limit_forwards req out (max_forwards out.header) in
      let either =
        if bytes_eq req.method (codes "TRACE") || bytes_eq req.method (codes "OPTIONS")
        then limited
        else pass_on req out in
      both P (is_empty (out_host req)) refuses
        (if bytes_eq req.method (codes "CONNECT") then connects out else either) tt
        (both P (bytes_eq req.method (codes "CONNECT")) (connects out) either e (
          both P (bytes_eq req.method (codes "TRACE") || bytes_eq req.method (codes "OPTIONS"))
            limited (pass_on req out)
            (limit_forwards-other req out (max_forwards out.header) key v n e)
            (pass_on-other req out key v n e)))

  -- A field that the proxy does not set or delete itself is passed on in every request, however it
  -- is served: it is gone if it is a hop-by-hop field, and has the same values if it is none.
  pub plan-Deletes :
      (req : Request) (key : Bytes)
      → ¬ IsNamed key proxy_fields
      → OnRequest
          (λ out. Deletes (IsHopField req.header key) req.header out.header key)
          (plan T split_hp join_hp req)
  plan-Deletes req key n =
      let same : copy_header no_header req.header ≡ req.header =
        fun_ext (copy_header-no_header req.header) in
      let d : Deletes (IsHopField req.header key) req.header
          (delete_hop_fields (copy_header no_header req.header)) key =
        rw same (delete_hop_fields-Deletes req.header key) in
      OnRequest-map (plan T split_hp join_hp req)
        (λ out e.
          subst
            (λ v.
              (IsHopField req.header key × (v ≡ none))
              ⊎ ((¬ IsHopField req.header key) × (v ≡ req.header key)))
            (sym e) d)
        (plan-other req key n)
