-- ===== src/Httpx/Result.antt =====
-- The errors of the header parsers, and results that carry them.
use netx.Base.{◌≡◌, refl, ◌⊎◌, inl, inr, Bytes, Bool, true, false}

-- One constructor for each `errorInvalid…` function, with the text it quotes.
pub data Error : Type 0 where
  invalid_quoted_string invalid_media_range invalid_media_param : Bytes → Error
  invalid_media_type invalid_accept invalid_accept_encoding : Bytes → Error

-- A value with a nil error, or an error.
pub data Result {ℓ} (A : Type ℓ) : Type ℓ where
  err : Error → Result A
  ok : A → Result A

pub Result-cases {ℓ} :
    {A : Type ℓ} (r : Result A) → ((a : A) × (r ≡ ok a)) ⊎ ((e : Error) × (r ≡ err e))
Result-cases (ok a) = inl (a, refl)
Result-cases (err e) = inr (e, refl)

-- `if x, err = f(); err != nil { err = errorInvalid…; return }`
abbrev pub or_error {ℓ} : {A : Type ℓ} → Result A → Error → Result A
or_error (ok a) e = ok a
or_error (err _) e = err e

-- `if !test { goto error }`
abbrev pub guard : Bool → Error → Result (Unit {0})
guard false invalid = err invalid
guard true invalid = ok tt

module _ {ℓ κ} {Value : Type ℓ} {Next : Type κ} where
  infixl 5 ◌>>=◌
  abbrev pub ◌>>=◌ : Result Value → (Value → Result Next) → Result Next
  err invalid >>= then = err invalid
  ok value >>= then = then value

module _ {κ} {Next : Type κ} where
  infixl 5 ◌>>◌
  abbrev pub ◌>>◌ : Result (Unit {0}) → Result Next → Result Next
  test >> then = test >>= λ _. then
