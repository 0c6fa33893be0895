-- ===== src/Httpx/Sort.antt =====
-- The package sort, as the Accept headers use it.
pub mod First
use mathlib.Core.List.{Perm}
use netx.Base.{◌≡◌, ◌⊎◌, Bool, true, false, List, [], ◌∷◌, All}

-- What `sort.Sort` asks of `Less`, over the values of which `P` holds.
pub record IsStrictWeak (A : Type 0) (P : A → Type 0) (less : A → A → Bool) : Type 0 where
  pub asym : (a b : A) → P a → P b → less a b ≡ true → less b a ≡ false
  pub splits :
      (a b c : A) → P a → P b → P c → less a c ≡ true → (less a b ≡ true) ⊎ (less b c ≡ true)

-- No element is less than one before it.
abbrev pub IsSorted : {A : Type 0} → (A → A → Bool) → List A → Type 0
IsSorted less [] = Unit
IsSorted less (x ∷ xs) = All (λ y. less y x ≡ false) xs × IsSorted less xs

-- `sort.Sort`: it permutes, and it sorts if `Less` is a strict weak order of the elements. It
-- need not be stable.
pub record Sort (A : Type 0) : Type 1 where
  pub sort : (A → A → Bool) → List A → List A
  pub sort_perm : (less : A → A → Bool) (l : List A) → Perm (sort less l) l
  pub sort_sorted :
      (P : A → Type 0) (less : A → A → Bool) (l : List A)
      → IsStrictWeak A P less
      → All P l
      → IsSorted less (sort less l)
