-- ===== src/Tests/Sorting.antt =====
-- A sort that meets the contract of `sort.Sort`.
use mathlib.Core.List.Perm
use mathlib.Core.List.{Perm}
use netx.Base.{◌≡◌, inl, inr, Bool, false, List, [], ◌∷◌, if◌then◌else◌, All, Bool-cases, arith}
use netx.Httpx.Sort.{Sort, IsSorted, IsStrictWeak}

module _ {A : Type 0} (less : A → A → Bool) where
  unfoldable pub insert_by : A → List A → List A
  insert_by x [] = x ∷ []
  insert_by x (y ∷ l) = let rest = insert_by x l in if less y x then y ∷ rest else x ∷ (y ∷ l)

  unfoldable pub insertion_sort : List A → List A
  insertion_sort [] = []
  insertion_sort (x ∷ l) = insert_by x (insertion_sort l)

  insert_by-perm : (x : A) (l : List A) → Perm (insert_by x l) (x ∷ l)
  unfolding insert_by
  insert_by-perm x [] = Perm.refl (x ∷ [])
  insert_by-perm x (y ∷ l) = elim (Bool-cases (less y x)) [
    | inl t ↦ rw t (Perm.trans (Perm.cons y (insert_by-perm x l)) (Perm.swap x y l))
    | inr f ↦ rw f (Perm.refl (x ∷ y ∷ l))
  ]

  pub insertion_sort-perm : (l : List A) → Perm (insertion_sort l) l
  unfolding insertion_sort
  insertion_sort-perm [] = Perm.refl []
  insertion_sort-perm (x ∷ l) =
      Perm.trans (insert_by-perm x (insertion_sort l)) (Perm.cons x (insertion_sort-perm l))

  module _ {P : A → Type 0} (w : IsStrictWeak A P less) where
    All-insert_by : (Q : A → Type 0) (x : A) (l : List A) → Q x → All Q l → All Q (insert_by x l)
    unfolding insert_by
    All-insert_by Q x [] q h = (q, tt)
    All-insert_by Q x (y ∷ l) q h = elim (Bool-cases (less y x)) [
      | inl t ↦ rw t (h.0, All-insert_by Q x l q h.1)
      | inr f ↦ rw f (q, h)
    ]

    All-insertion_sort : (Q : A → Type 0) (l : List A) → All Q l → All Q (insertion_sort l)
    unfolding insertion_sort
    All-insertion_sort Q [] h = tt
    All-insertion_sort Q (x ∷ l) h =
        All-insert_by Q x (insertion_sort l) h.0 (All-insertion_sort Q l h.1)

    -- What does not come before `y` does not come before an `x` that `y` does not come before.
    All-after :
        (x y : A) (l : List A)
        → P x
        → P y
        → All P l
        → less y x ≡ false
        → All (λ z. less z y ≡ false) l
        → All (λ z. less z x ≡ false) l
    All-after x y [] px py pl f h = tt
    All-after x y (z ∷ l) px py pl f h =
        (ground (arith, w.splits z y x pl.0 py px), All-after x y l px py pl.1 f h.1)

    insert_by-IsSorted :
        (x : A) (l : List A) → P x → All P l → IsSorted less l → IsSorted less (insert_by x l)
    unfolding insert_by
    insert_by-IsSorted x [] px pl s = (tt, tt)
    insert_by-IsSorted x (y ∷ l) px pl s = elim (Bool-cases (less y x)) [
      | inl t ↦ rw t (
        All-insert_by (λ z. less z y ≡ false) x l (w.asym y x pl.0 px t) s.0,
        insert_by-IsSorted x l px pl.1 s.1,
      )
      | inr f ↦ rw f ((f, All-after x y l px pl.0 pl.1 f s.0), s)
    ]

    pub insertion_sort-IsSorted : (l : List A) → All P l → IsSorted less (insertion_sort l)
    unfolding insertion_sort
    insertion_sort-IsSorted [] h = tt
    insertion_sort-IsSorted (x ∷ l) h =
        insert_by-IsSorted x (insertion_sort l) h.0 (All-insertion_sort P l h.1)
          (insertion_sort-IsSorted l h.1)

abbrev pub by_insertion : (A : Type 0) → Sort A
by_insertion A = record {
  sort = λ less. insertion_sort less;
  sort_perm = λ less. insertion_sort-perm less;
  sort_sorted = λ P less l w. insertion_sort-IsSorted less w l;
}
