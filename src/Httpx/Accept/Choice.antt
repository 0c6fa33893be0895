-- ===== src/Httpx/Accept/Choice.antt =====
-- Which type the negotiation returns.
use mathlib.Core.List.{Mem, Perm, mem-cons, not-mem-nil}
use mathlib.Core.Logic.Or
use mathlib.Core.List.Perm
use mathlib.Core.HLevel.{⊥_prop}
use netx.Base.{
  ◌≡◌, refl, ap, ◌∙◌, ◌⊎◌, inl, inr, true, false, List, [], ◌∷◌, none, some, arith, Bytes, All,
  length, Bool-cases,
}
use netx.Httpx.Accept.Order.{IsNumber, accept_less_asym, accept_less-IsStrictWeak}
use netx.Httpx.Accept.{
  AcceptItem, first_match, choose, negotiate_accept, accept_less, media_type, parse_items,
  sort_items, parse_accept, negotiate,
}
use netx.Httpx.Float.{Float32}
use netx.Httpx.Media.{MediaType, contains, parse_media_type}
use netx.Httpx.Result.{ok, Result-cases}
use netx.Httpx.Sort.First.{First, here, there, First-skip, First-ne-nil, First-Mem, First-best}
use netx.Httpx.Sort.{Sort, IsSorted}

-- The offered type parses, and the range contains it.
abbrev pub Accepts : MediaType → Bytes → Type 0
Accepts t1 typ = (t2 : MediaType) × (parse_media_type typ ≡ ok t2) × (contains t1 t2 ≡ true)

first_match-cases :
    (t1 : MediaType) (typ : Bytes) (types : List Bytes)
    → (Accepts t1 typ × (first_match t1 (typ ∷ types) ≡ some typ))
      ⊎ ((¬ (Accepts t1 typ)) × (first_match t1 (typ ∷ types) ≡ first_match t1 types))
unfolding first_match
first_match-cases t1 typ types = elim (Result-cases (parse_media_type typ)) [
  | inl (t2, e) ↦ elim (Bool-cases (contains t1 t2)) [
    | inl c ↦ inl ((t2, e, c), rw (e, first_match, c))
    | inr n ↦ inr ((λ a. cc (a.1, e, a.2, n)), rw (e, first_match, n))
  ]
  | inr (x, e) ↦ inr ((λ a. cc (a.1, e)), rw (e, first_match))
]

abbrev pub NoneAccepted : MediaType → List Bytes → Type 0
NoneAccepted t1 types = (typ : Bytes) → ¬ (First (Accepts t1) typ types)

first_match-First :
    (t1 : MediaType) (types : List Bytes)
    → ((typ : Bytes) × (first_match t1 types ≡ some typ) × First (Accepts t1) typ types)
      ⊎ ((first_match t1 types ≡ none) × NoneAccepted t1 types)
first_match-First t1 [] = inr (unfold first_match in refl, λ typ f. First-ne-nil f)
first_match-First t1 (t ∷ types) = elim (first_match-cases t1 t types) [
  | inl (a, e) ↦ inl (t, e, here a)
  | inr (n, e) ↦ elim (first_match-First t1 types) [
    | inl (typ, f, g) ↦ inl (typ, e ∙ f, there n g)
    | inr (f, g) ↦ inr (e ∙ f, λ typ x. g typ (First-skip n x))
  ]
]

module _ (F : Float32) where
  -- The item accepts one of the offered types.
  abbrev pub AcceptsSome : List Bytes → AcceptItem F → Type 0
  AcceptsSome types acc = (typ : Bytes) × First (Accepts (media_type F acc)) typ types

  choose-First :
      (accept : List (AcceptItem F)) (types : List Bytes)
      → ((acc : AcceptItem F) × (typ : Bytes) × (choose F accept types ≡ some typ)
          × First (AcceptsSome types) acc accept
          × First (Accepts (media_type F acc)) typ types)
        ⊎ ((choose F accept types ≡ none)
            × ((acc : AcceptItem F) → Mem acc accept → ¬ (AcceptsSome types acc)))
  unfolding choose
  choose-First [] types = inr (refl, λ acc m. absurd (not-mem-nil m))
  choose-First (a ∷ accept) types = elim (first_match-First (media_type F a) types) [
    | inl (typ, e, f) ↦ inl (a, typ, rw (e, choose), here (typ, f), f)
    | inr (e, n) ↦ elim (choose-First accept types) [
      | inl (acc, typ, e', f, g) ↦ inl (acc, typ, rw (e, choose) e', there (λ x. n x.0 x.1) f, g)
      | inr (e', none_of) ↦ inr (
        rw (e, choose) e',
        λ acc m x.
            Or.elim ⊥_prop (mem-cons.0 m) (λ p. n x.0 (rw p at (x.1))) (λ m'. none_of acc m' x),
      )
    ]
  ]

  -- What the negotiation may return for these items: a type that the chosen item accepts, the
  -- first such in the offer, and the chosen item has no acceptable rival before it in `Less`;
  -- the first type of the offer if no item accepts any; or nothing for an empty offer.
  pub data Outcome (items : List (AcceptItem F)) (types : List Bytes) : Bytes → Type 0 where
    chosen :
        {acc : AcceptItem F} {typ : Bytes}
        → Mem acc items
        → First (Accepts (media_type F acc)) typ types
        → ((b : AcceptItem F) → Mem b items → AcceptsSome types b → accept_less F b acc ≡ false)
        → Outcome items types typ
    fallback :
        {t : Bytes} {rest : List Bytes}
        → types ≡ t ∷ rest
        → ((b : AcceptItem F) → Mem b items → ¬ (AcceptsSome types b))
        → Outcome items types t
    nothing : types ≡ [] → Outcome items types []

  accept_less_irrefl : (a : AcceptItem F) → accept_less F a a ≡ false
  accept_less_irrefl a = ground (arith, accept_less_asym F a a)

  -- The outcome depends on the items, not on their order.
  negotiate_accept-Outcome :
      (items accept : List (AcceptItem F)) (types : List Bytes)
      → Perm accept items
      → IsSorted (accept_less F) accept
      → Outcome items types (negotiate_accept F accept types)
  unfolding negotiate_accept
  negotiate_accept-Outcome items accept [] p s = nothing refl
  negotiate_accept-Outcome items accept (t ∷ types) p s = elim (choose-First accept (t ∷ types)) [
    | inl (acc, typ, e, f, g) ↦
        rw (e, negotiate_accept)
          (chosen ((Perm.mem_iff p).0 (First-Mem f)) g
            (λ b m x. First-best (accept_less F) (accept_less_irrefl) f s ((Perm.mem_iff p).1 m) x))
    | inr (e, none_of) ↦
        rw (e, negotiate_accept) (fallback refl (λ b m. none_of b ((Perm.mem_iff p).1 m)))
  ]

  parse_accept-ok :
      (S : Sort (AcceptItem F)) (s : Bytes) {items : List (AcceptItem F)}
      → parse_items F (length s) [] s ≡ (items, none)
      → parse_accept F S s ≡ (S.sort (accept_less F) items, none)
  parse_accept-ok S s e = unfold parse_accept in ap (sort_items F S) e

  -- Negotiating over a header that parses, with a number for every quality.
  pub negotiate-Outcome :
      (S : Sort (AcceptItem F)) (s : Bytes) (types : List Bytes) (items : List (AcceptItem F))
      → parse_items F (length s) [] s ≡ (items, none)
      → All (IsNumber F) items
      → Outcome items types (negotiate F S s types)
  unfolding negotiate
  negotiate-Outcome S s types items e h = rw (parse_accept-ok S s e) (
      negotiate_accept-Outcome items (S.sort (accept_less F) items) types
        (S.sort_perm (accept_less F) items)
        (S.sort_sorted (IsNumber F) (accept_less F) items (accept_less-IsStrictWeak F) h))
