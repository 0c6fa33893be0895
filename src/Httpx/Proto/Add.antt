-- ===== src/Httpx/Proto/Add.antt =====
-- What `addHeaderValue` of httpx/proto.go does to the header it is given.
use netx.Base.{
  ◌≡◌, ◌≢◌, refl, ap, [], ◌∷◌, ◌++◌, Bytes, codes, is_empty, if◌then◌else◌, bytes_eq, bytes_eq_iff,
  Bool-cases, inl, inr, none, some,
}
use netx.Httpx.Header.{Header, canonical, values, first, get, set}
use netx.Httpx.Proto.{add_header_value}

pub set-same : (h : Header) (name v : Bytes) → set h name v (canonical name) ≡ some (v ∷ [])
unfolding set
set-same h name v = rw ((bytes_eq_iff (canonical name) (canonical name)).1 refl, set) refl

pub get-set : (h : Header) (name v : Bytes) → get (set h name v) name ≡ v
get-set h name v =
    unfold get in
    unfold values in ap (λ o. first (elim o [ none ↦ [] | some l ↦ l ])) (set-same h name v)

pub set-other : (h : Header) (name v key : Bytes) → key ≢ canonical name → set h name v key ≡ h key
unfolding set
set-other h name v key n = elim (Bool-cases (bytes_eq key (canonical name))) [
  | inl t ↦ absurd (n ((bytes_eq_iff key (canonical name)).0 t))
  | inr f ↦ rw (f, set) refl
]

-- Adding a value to a field leaves the old text, a comma and a space before it, or the value alone
-- if there was no text; the other fields are as before.
pub add_header_value-get :
    (h : Header) (name v : Bytes)
    → let h' = add_header_value h name v in
      (get h' name ≡ (if is_empty (get h name) then v else get h name ++ (codes ", " ++ v)))
      × ((key : Bytes) → key ≢ canonical name → h' key ≡ h key)
add_header_value-get h name v =
    let prev = get h name in
    let value = if is_empty prev then v else prev ++ (codes ", " ++ v) in
    (
      unfold add_header_value in get-set h name value,
      λ key n. unfold add_header_value in set-other h name value key n,
    )
