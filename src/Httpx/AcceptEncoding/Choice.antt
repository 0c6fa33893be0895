-- ===== src/Httpx/AcceptEncoding/Choice.antt =====
-- The order of the codings, and which coding the negotiation returns.
use mathlib.Core.HLevel.{⊥_prop}
use mathlib.Core.List.Perm
use mathlib.Core.List.{Mem, mem-cons, mem-cons_self, mem-cons_of_mem, not-mem-nil}
use mathlib.Core.Logic.Or
use netx.Base.{
  ◌≡◌, refl, sym, ap, ◌∙◌, ◌⊎◌, inl, inr, true, false, List, [], ◌∷◌, none, some, arith, Bytes, All,
  length, bytes_eq, bytes_eq_iff, Bool-cases,
}
use netx.Httpx.AcceptEncoding.{
  AcceptEncodingItem, first_coding, encoding_less, negotiate_codings, negotiate_encoding,
  sort_encodings, parse_encoding_items,
}
use netx.Httpx.Float.{Float32}
use netx.Httpx.Media.Order.{media_type_less_asym, media_type_less_splits, media_type_less_irrefl}
use netx.Httpx.Sort.First.{First, here, there, First-Mem, First-best}
use netx.Httpx.Sort.{Sort, IsStrictWeak}

first_coding-cases :
    (wanted : Bytes) (codings : List Bytes)
    → ((first_coding wanted codings ≡ some wanted) × Mem wanted codings)
      ⊎ ((first_coding wanted codings ≡ none) × (¬ (Mem wanted codings)))
unfolding first_coding
first_coding-cases wanted [] = inr (refl, λ m. not-mem-nil m)
first_coding-cases wanted (c ∷ codings) = elim (Bool-cases (bytes_eq c wanted)) [
  | inl t ↦
      let e = (bytes_eq_iff c wanted).0 t in
      inl (rw (t, first_coding) (ap some e), rw e (mem-cons_self))
  | inr n ↦ elim (first_coding-cases wanted codings) [
    | inl (e, m) ↦ inl (rw (n, first_coding) e, mem-cons_of_mem c m)
    | inr (e, m) ↦ inr (
      rw (n, first_coding) e,
      λ m'. Or.elim ⊥_prop (mem-cons.0 m') (λ p. cc (n, (bytes_eq_iff c wanted).1 (sym p))) m,
    )
  ]
]

module _ (F : Float32) where
  open F use {less, equal, is_nan, less_asym, less_split, equal_lem}

  -- The quality of the coding is a number.
  abbrev pub HasNumber : AcceptEncodingItem F → Type 0
  HasNumber item = is_nan item.q ≡ false

  encoding_less_asym :
      (a b : AcceptEncodingItem F)
      → HasNumber a
      → HasNumber b
      → encoding_less F a b ≡ true
      → encoding_less F b a ≡ false
  unfolding encoding_less
  encoding_less_asym a b na nb h = ground (
    arith,
    less_asym a.q b.q,
    less_asym b.q a.q,
    equal_lem a.q b.q na nb,
    equal_lem b.q a.q nb na,
    media_type_less_asym a.coding b.coding,
  )

  encoding_less_splits :
      (a b c : AcceptEncodingItem F)
      → HasNumber a
      → HasNumber b
      → HasNumber c
      → encoding_less F a c ≡ true
      → (encoding_less F a b ≡ true) ⊎ (encoding_less F b c ≡ true)
  unfolding encoding_less
  encoding_less_splits a b c na nb nc h = ground (
    arith,
    equal_lem a.q b.q na nb,
    equal_lem b.q c.q nb nc,
    equal_lem a.q c.q na nc,
    less_split c.q b.q a.q nb,
    less_split a.q c.q b.q nc,
    less_split b.q a.q c.q na,
    media_type_less_splits a.coding b.coding c.coding,
  )

  -- Over items with a number for their quality, `Less` is a strict weak order.
  pub encoding_less-IsStrictWeak : IsStrictWeak (AcceptEncodingItem F) HasNumber (encoding_less F)
  encoding_less-IsStrictWeak = record { asym = encoding_less_asym; splits = encoding_less_splits }

  encoding_less_irrefl : (a : AcceptEncodingItem F) → encoding_less F a a ≡ false
  unfolding encoding_less
  encoding_less_irrefl a = ground (arith, less_asym a.q a.q, media_type_less_irrefl a.coding)

  -- What the negotiation may return: a coding that an item asks for and that is offered, with no
  -- other such item before it in `Less`; or the empty text if no item asks for an offered coding.
  pub data CodingOutcome (items : List (AcceptEncodingItem F)) (codings : List Bytes)
      : Bytes → Type 0 where
    agreed :
        {acc : AcceptEncodingItem F} {coding : Bytes}
        → coding ≡ acc.coding
        → Mem acc items
        → Mem coding codings
        → ((b : AcceptEncodingItem F)
            → Mem b items
            → Mem b.coding codings
            → encoding_less F b acc ≡ false)
        → CodingOutcome items codings coding
    refused :
        ((b : AcceptEncodingItem F) → Mem b items → ¬ (Mem b.coding codings))
        → CodingOutcome items codings []

  abbrev Offered : List Bytes → AcceptEncodingItem F → Type 0
  Offered codings acc = Mem acc.coding codings

  negotiate_codings-step :
      (a : AcceptEncodingItem F) (accept : List (AcceptEncodingItem F)) (codings : List Bytes)
      → ((negotiate_codings F (a ∷ accept) codings ≡ a.coding) × Mem a.coding codings)
        ⊎ ((negotiate_codings F (a ∷ accept) codings ≡ negotiate_codings F accept codings)
            × (¬ (Mem a.coding codings)))
  unfolding negotiate_codings
  negotiate_codings-step a accept codings = elim (first_coding-cases a.coding codings) [
    | inl (e, m) ↦ inl (rw (e, negotiate_codings), m)
    | inr (e, m) ↦ inr (rw (e, negotiate_codings), m)
  ]

  negotiate_encoding-ok :
      (S : Sort (AcceptEncodingItem F)) (s : Bytes) (codings : List Bytes)
      {items : List (AcceptEncodingItem F)}
      → parse_encoding_items F (length s) [] s ≡ (items, none)
      → negotiate_encoding F S s codings
        ≡ negotiate_codings F (S.sort (encoding_less F) items) codings
  unfolding negotiate_encoding
  negotiate_encoding-ok S s codings e =
      ap (λ x. negotiate_codings F (sort_encodings F S x).0 codings) e

  negotiate_codings-First :
      (accept : List (AcceptEncodingItem F)) (codings : List Bytes)
      → ((acc : AcceptEncodingItem F) × (negotiate_codings F accept codings ≡ acc.coding)
          × First (Offered codings) acc accept
          × Offered codings acc)
        ⊎ ((negotiate_codings F accept codings ≡ [])
            × ((acc : AcceptEncodingItem F) → Mem acc accept → ¬ (Offered codings acc)))
  negotiate_codings-First [] codings =
      inr (unfold negotiate_codings in refl, λ acc m. absurd (not-mem-nil m))
  negotiate_codings-First (a ∷ accept) codings = elim (negotiate_codings-step a accept codings) [
    | inl (e, m) ↦ inl (a, e, here m, m)
    | inr (e, n) ↦ elim (negotiate_codings-First accept codings) [
      | inl (acc, f, g, m) ↦ inl (acc, e ∙ f, there n g, m)
      | inr (f, g) ↦
          inr (
            e ∙ f,
            λ acc m x. Or.elim ⊥_prop (mem-cons.0 m) (λ p. n (rw p at x)) (λ m'. g acc m' x),
          )
    ]
  ]

  -- Negotiating over a header that parses, with a number for every quality.
  pub negotiate_encoding-CodingOutcome :
      (S : Sort (AcceptEncodingItem F)) (s : Bytes) (codings : List Bytes)
      (items : List (AcceptEncodingItem F))
      → parse_encoding_items F (length s) [] s ≡ (items, none)
      → All HasNumber items
      → CodingOutcome items codings (negotiate_encoding F S s codings)
  negotiate_encoding-CodingOutcome S s codings items e h =
      let accept = S.sort (encoding_less F) items in
      let p = S.sort_perm (encoding_less F) items in
      let sorted = S.sort_sorted HasNumber (encoding_less F) items encoding_less-IsStrictWeak h in
      rw (negotiate_encoding-ok S s codings e) (elim (negotiate_codings-First accept codings) [
        | inl (acc, f, g, m) ↦ agreed f ((Perm.mem_iff p).0 (First-Mem g)) (rw f m) (λ b mb x.
            First-best (encoding_less F) encoding_less_irrefl g sorted ((Perm.mem_iff p).1 mb) x)
        | inr (f, g) ↦ rw f (refused (λ b mb. g b ((Perm.mem_iff p).1 mb)))
      ])
