-- ===== src/Httpx/Media/Order.antt =====
-- The order of media types: `mediaTypeLess` is a strict total order with the wildcard at its end.
use netx.Base.{◌≡◌, refl, ◌⊎◌, inl, inr, true, false, [], ◌∷◌, arith, Bytes, bytes_lt, bytes_eq_iff}
use netx.Httpx.Media.{star, media_type_less}

pub bytes_lt_irrefl : (a : Bytes) → bytes_lt a a ≡ false
unfolding bytes_lt
bytes_lt_irrefl [] = refl
bytes_lt_irrefl (x ∷ a) = ground (arith, bytes_lt_irrefl a)

pub bytes_lt_trans :
    (a b c : Bytes) → bytes_lt a b ≡ true → bytes_lt b c ≡ true → bytes_lt a c ≡ true
unfolding bytes_lt
bytes_lt_trans a [] c h k = cc
bytes_lt_trans a (y ∷ b) [] h k = cc
bytes_lt_trans [] (y ∷ b) (z ∷ c) h k = refl
bytes_lt_trans (x ∷ a) (y ∷ b) (z ∷ c) h k = ground (arith, bytes_lt_trans a b c)

pub bytes_lt_total : (a b : Bytes) → (bytes_lt a b ≡ true) ⊎ (a ≡ b) ⊎ (bytes_lt b a ≡ true)
unfolding bytes_lt
bytes_lt_total [] [] = inr (inl refl)
bytes_lt_total [] (y ∷ b) = inl refl
bytes_lt_total (x ∷ a) [] = inr (inr refl)
bytes_lt_total (x ∷ a) (y ∷ b) = ground (arith, bytes_lt_total a b)

-- Nothing is before itself.
pub media_type_less_irrefl : (a : Bytes) → media_type_less a a ≡ false
unfolding media_type_less
media_type_less_irrefl a = ground (arith, bytes_eq_iff a a)

pub media_type_less_trans :
    (a b c : Bytes)
    → media_type_less a b ≡ true
    → media_type_less b c ≡ true
    → media_type_less a c ≡ true
unfolding media_type_less
media_type_less_trans a b c h k = ground (
  arith,
  bytes_eq_iff a b,
  bytes_eq_iff b c,
  bytes_eq_iff a c,
  bytes_eq_iff a star,
  bytes_eq_iff b star,
  bytes_eq_iff c star,
  bytes_lt_trans a b c,
  bytes_lt_irrefl a,
  bytes_lt_trans a b a,
)

pub media_type_less_total :
    (a b : Bytes) → (media_type_less a b ≡ true) ⊎ (a ≡ b) ⊎ (media_type_less b a ≡ true)
unfolding media_type_less
media_type_less_total a b = ground (
  arith,
  bytes_eq_iff a b,
  bytes_eq_iff b a,
  bytes_eq_iff a star,
  bytes_eq_iff b star,
  bytes_lt_total a b,
)

pub media_type_less_asym : (a b : Bytes) → media_type_less a b ≡ true → media_type_less b a ≡ false
media_type_less_asym a b h = ground (arith, media_type_less_trans a b a h, media_type_less_irrefl a)

-- Whatever lies between comes after the first or before the second.
pub media_type_less_splits :
    (a b c : Bytes)
    → media_type_less a c ≡ true
    → (media_type_less a b ≡ true) ⊎ (media_type_less b c ≡ true)
media_type_less_splits a b c h =
    ground (arith, media_type_less_total a b, media_type_less_trans b a c)
