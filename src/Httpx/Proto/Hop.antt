-- ===== src/Httpx/Proto/Hop.antt =====
-- Which fields `deleteHopFields` of httpx/proto.go deletes, and that it keeps the others.
use netx.Base.{
  ◌≡◌, ◌≢◌, refl, sym, ap, ◌∙◌, ◌⊎◌, inl, inr, List, [], ◌∷◌, ◌++◌, none, Bytes, codes, length,
  bytes_eq, bytes_eq_iff, Bool-cases,
}
use netx.Httpx.Header.{Header, canonical, values, del}
use netx.Httpx.Proto.{
  read_header_values, call_each, for_each_header_values, hop_fields, delete_all, delete_named,
  delete_hop_fields,
}

-- The values of all the texts, in order.
abbrev pub all_values : List Bytes → List Bytes
all_values [] = []
all_values (a ∷ l) = read_header_values (length a) a ++ all_values l

call_each-append :
    (f : Bytes → Header → Header) (vs ws : List Bytes) (h : Header)
    → call_each f (vs ++ ws) h ≡ call_each f ws (call_each f vs h)
unfolding call_each
call_each-append f [] ws h = refl
call_each-append f (v ∷ vs) ws h = call_each-append f vs ws (f v h)

for_each_header_values-all_values :
    (f : Bytes → Header → Header) (l : List Bytes) (h : Header)
    → for_each_header_values l f h ≡ call_each f (all_values l) h
unfolding for_each_header_values
for_each_header_values-all_values f [] h = unfold call_each in refl
for_each_header_values-all_values f (a ∷ l) h =
    for_each_header_values-all_values f l (call_each f (read_header_values (length a) a) h)
    ∙ sym (call_each-append f (read_header_values (length a) a) (all_values l) h)

-- One of the list at least has the property.
abbrev pub Any : (Bytes → Type 0) → List Bytes → Type 0
Any P [] = ⊥
Any P (v ∷ l) = P v ⊎ Any P l

-- After a change of a header the field is gone, or it is not to go and has its values.
abbrev pub Deletes : Type 0 → Header → Header → Bytes → Type 0
Deletes Gone h h' key = (Gone × (h' key ≡ none)) ⊎ ((¬ Gone) × (h' key ≡ h key))

del-cases : (h : Header) (name key : Bytes) → Deletes (key ≡ canonical name) h (del h name) key
unfolding del
del-cases h name key = elim (Bool-cases (bytes_eq key (canonical name))) [
  | inl t ↦ inl ((bytes_eq_iff key (canonical name)).0 t, rw (t, del) refl)
  | inr f ↦ inr (λ e. cc (f, (bytes_eq_iff key (canonical name)).1 e), rw (f, del) refl)
]

Deletes-both :
    {G H : Type 0} (h h1 h2 : Header) (key : Bytes)
    → Deletes G h h1 key
    → Deletes H h1 h2 key
    → Deletes (G ⊎ H) h h2 key
Deletes-both h h1 h2 key d (inl (g, e)) = inl (inr g, e)
Deletes-both h h1 h2 key (inl (g, e)) (inr (n, e2)) = inl (inl g, e2 ∙ e)
Deletes-both h h1 h2 key (inr (m, e)) (inr (n, e2)) =
    inr (λ x. elim x [ inl g ↦ m g | inr g ↦ n g ], e2 ∙ e)

pub delete_all-Deletes :
    (names : List Bytes) (h : Header) (key : Bytes)
    → Deletes (Any (λ name. key ≡ canonical name) names) h (delete_all names h) key
unfolding delete_all
delete_all-Deletes [] h key = inr (λ x. x, refl)
delete_all-Deletes (name ∷ names) h key =
    Deletes-both h (del h name) (delete_all names (del h name)) key (del-cases h name key)
      (delete_all-Deletes names (del h name) key)

-- The value of `Connection` names the field, and is not "close".
abbrev pub NamedBy : Bytes → Bytes → Type 0
NamedBy key v = (v ≢ codes "close") × (key ≡ canonical v)

delete_named-cases :
    (v : Bytes) (h : Header) (key : Bytes) → Deletes (NamedBy key v) h (delete_named v h) key
delete_named-cases v h key = elim (Bool-cases (bytes_eq v (codes "close"))) [
  | inl t ↦ inr (λ x. x.0 ((bytes_eq_iff v (codes "close")).0 t), unfold delete_named in rw t refl)
  | inr f ↦
      let n : v ≢ codes "close" = λ e. cc (f, (bytes_eq_iff v (codes "close")).1 e) in
      let same : delete_named v h ≡ del h v = unfold delete_named in rw f refl in
      elim (del-cases h v key) [
        | inl (e, d) ↦ inl ((n, e), ap (λ x. x key) same ∙ d)
        | inr (m, d) ↦ inr (λ x. m x.1, ap (λ x. x key) same ∙ d)
      ]
]

call_each-Deletes :
    (vs : List Bytes) (h : Header) (key : Bytes)
    → Deletes (Any (NamedBy key) vs) h (call_each delete_named vs h) key
unfolding call_each
call_each-Deletes [] h key = inr (λ x. x, refl)
call_each-Deletes (v ∷ vs) h key =
    Deletes-both h (delete_named v h) (call_each delete_named vs (delete_named v h)) key
      (delete_named-cases v h key) (call_each-Deletes vs (delete_named v h) key)

-- A field that a proxy must not pass on: named by `Connection`, or one of the fixed list.
abbrev pub IsHopField : Header → Bytes → Type 0
IsHopField h key =
    Any (NamedBy key) (all_values (values h (codes "Connection")))
    ⊎ Any (λ name. key ≡ canonical name) hop_fields

-- Every field is either a hop-by-hop field, and is gone after `deleteHopFields`, or it is none and
-- has the same values as before. Hop-by-hop are the fields of the fixed list and those that a
-- value of `Connection` other than "close" names.
pub delete_hop_fields-Deletes :
    (h : Header) (key : Bytes) → Deletes (IsHopField h key) h (delete_hop_fields h) key
delete_hop_fields-Deletes h key =
    let l = values h (codes "Connection") in
    let h1 = call_each delete_named (all_values l) h in
    let same : delete_hop_fields h ≡ delete_all hop_fields h1 =
      unfold delete_hop_fields in
      ap (delete_all hop_fields) (for_each_header_values-all_values delete_named l h) in
    rw same (
      Deletes-both h h1 (delete_all hop_fields h1) key (call_each-Deletes (all_values l) h key)
        (delete_all-Deletes hop_fields h1 key))
