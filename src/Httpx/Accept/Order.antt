-- ===== src/Httpx/Accept/Order.antt =====
-- `Accept.Less` is the strict weak order that `sort.Sort` asks for, as long as no quality is NaN.
use netx.Base.{◌≡◌, ◌⊎◌, true, false, arith, bytes_eq_iff}
use netx.Httpx.Float.{Float32}
use netx.Httpx.Media.Order.{media_type_less_asym, media_type_less_splits, media_type_less_total}
use netx.Httpx.Accept.{AcceptItem, name_less, accept_less}
use netx.Httpx.Sort.{IsStrictWeak}

module _ (F : Float32) where
  open F use {less, is_nan, less_asym, less_split, less_nan}

  -- The quality of the item is a number.
  abbrev pub IsNumber : AcceptItem F → Type 0
  IsNumber item = is_nan item.q ≡ false

  name_less_asym : (a b : AcceptItem F) → name_less F a b ≡ true → name_less F b a ≡ false
  unfolding name_less
  name_less_asym a b h = ground (
    arith,
    bytes_eq_iff a.typ b.typ,
    bytes_eq_iff b.typ a.typ,
    bytes_eq_iff a.sub b.sub,
    bytes_eq_iff b.sub a.sub,
    media_type_less_asym a.typ b.typ,
    media_type_less_asym a.sub b.sub,
  )

  name_less_splits :
      (a b c : AcceptItem F)
      → name_less F a c ≡ true
      → (name_less F a b ≡ true) ⊎ (name_less F b c ≡ true)
  unfolding name_less
  name_less_splits a b c h = ground (
    arith,
    bytes_eq_iff a.typ b.typ,
    bytes_eq_iff b.typ c.typ,
    bytes_eq_iff a.typ c.typ,
    bytes_eq_iff a.sub b.sub,
    bytes_eq_iff b.sub c.sub,
    bytes_eq_iff a.sub c.sub,
    media_type_less_splits a.typ b.typ c.typ,
    media_type_less_splits a.sub b.sub c.sub,
    media_type_less_total a.typ b.typ,
    media_type_less_total a.sub b.sub,
  )

  pub accept_less_asym : (a b : AcceptItem F) → accept_less F a b ≡ true → accept_less F b a ≡ false
  unfolding accept_less
  accept_less_asym a b h = ground (arith, name_less_asym a b, less_asym a.q b.q, less_asym b.q a.q)

  accept_less_splits :
      (a b c : AcceptItem F)
      → IsNumber a
      → IsNumber b
      → IsNumber c
      → accept_less F a c ≡ true
      → (accept_less F a b ≡ true) ⊎ (accept_less F b c ≡ true)
  unfolding accept_less
  accept_less_splits a b c na nb nc h = ground (
    arith,
    name_less_splits a b c,
    less_asym a.q b.q,
    less_asym b.q c.q,
    less_asym a.q c.q,
    less_split c.q b.q a.q nb,
    less_split a.q c.q b.q nc,
    less_split b.q a.q c.q na,
  )

  -- Over items with a number for their quality, `Less` is a strict weak order.
  pub accept_less-IsStrictWeak : IsStrictWeak (AcceptItem F) IsNumber (accept_less F)
  accept_less-IsStrictWeak = record {
    asym = λ a b _ _. accept_less_asym a b;
    splits = accept_less_splits;
  }

  -- A NaN is ordered by the names alone, and so three items may each be less than the next: no
  -- order of them is sorted.
  pub accept_less_cycle :
      (a b n : AcceptItem F)
      → is_nan n.q ≡ true
      → less b.q a.q ≡ true
      → name_less F b n ≡ true
      → name_less F n a ≡ true
      → (accept_less F a b ≡ true) × (accept_less F b n ≡ true) × (accept_less F n a ≡ true)
  unfolding accept_less
  accept_less_cycle a b n nan lt bn na = ground (arith, less_nan a.q n.q nan, less_nan b.q n.q nan)
