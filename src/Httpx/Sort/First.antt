-- ===== src/Httpx/Sort/First.antt =====
-- The first element of a sorted list that has a property.
use mathlib.Core.Bool.{Bool-set}
use mathlib.Core.List.{Mem, mem-cons, mem-cons_self, mem-cons_of_mem, not-mem-nil}
use mathlib.Core.Logic.Or
use netx.Base.{◌≡◌, Bool, false, List, [], ◌∷◌, All}
use netx.Httpx.Sort.{IsSorted}

-- The first element with a property, after others without it.
pub data First {A : Type 0} (P : A → Type 0) : A → List A → Type 0 where
  here : {a : A} {l : List A} → P a → First P a (a ∷ l)
  there : {a b : A} {l : List A} → ¬ (P b) → First P a l → First P a (b ∷ l)

pub First-skip :
    {A : Type 0} {P : A → Type 0} {a b : A} {l : List A} → ¬ (P b) → First P a (b ∷ l) → First P a l
First-skip n (here h) = absurd (n h)
First-skip n (there m f) = f

pub First-ne-nil : {A : Type 0} {P : A → Type 0} {a : A} → ¬ (First P a [])
First-ne-nil f = elim f [ ]

pub First-Mem : {A : Type 0} {P : A → Type 0} {a : A} {l : List A} → First P a l → Mem a l
First-Mem (here h) = mem-cons_self
First-Mem (there {b = b} n f) = mem-cons_of_mem b (First-Mem f)

module _ {A : Type 0} (less : A → A → Bool) where
  All-Mem : (a b : A) (l : List A) → All (λ y. less y a ≡ false) l → Mem b l → less b a ≡ false
  All-Mem a b [] h m = absurd (not-mem-nil m)
  All-Mem a b (x ∷ l) h m =
      Or.elim (Bool-set _ _) (mem-cons.0 m) (λ e. rw e (h.0)) (λ m'. All-Mem a b l h.1 m')

  -- In a sorted list the first element with a property has no rival before it in the order.
  pub First-best :
      {P : A → Type 0} {a b : A} {l : List A}
      → ((x : A) → less x x ≡ false)
      → First P a l
      → IsSorted less l
      → Mem b l
      → P b
      → less b a ≡ false
  First-best irrefl (here h) s m pb =
      Or.elim (Bool-set _ _) (mem-cons.0 m) (λ e. rw e (irrefl _)) (All-Mem _ _ _ s.0)
  First-best irrefl (there n f) s m pb =
      Or.elim (Bool-set _ _) (mem-cons.0 m) (λ e. absurd (n (rw e at pb)))
        (λ m'. First-best irrefl f s.1 m' pb)
