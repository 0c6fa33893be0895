-- ===== src/Base/Strings.antt =====
-- A Go string is its list of bytes. What the code uses of the package `strings`.
use Prim.Native.Char.{code}
use Prim.Native.Nat.{ℕ, zero, suc}
use Prim.Native.String.{String}
use mathlib.Core.Bool.{Bool, true, false, ◌&&◌}
use mathlib.Core.List.{List, [], ◌∷◌, ◌++◌}
use mathlib.Core.Logic.{◌↔◌, ◌≢◌}
use mathlib.Core.Option.{Option, none, some}
use mathlib.Core.Path.{◌≡◌, refl}
use native.Mathlib.Omega.{arith}
use netx.Base.Lists.{All, length, take, drop}
use netx.Base.Tests.{◌==◌, ltb, if◌then◌else◌}

abbrev pub Bytes : Type 0
Bytes = List ℕ

-- The bytes of an ASCII literal.
abbrev pub codes : String → Bytes
codes String.[] = []
codes (String.◌∷◌ c s) = code c ∷ codes s

-- `a == b` on strings.
unfoldable pub bytes_eq : Bytes → Bytes → Bool
bytes_eq [] [] = true
bytes_eq (x ∷ a) (y ∷ b) = x == y && bytes_eq a b
bytes_eq _ _ = false

pub bytes_eq_iff : (a b : Bytes) → (bytes_eq a b ≡ true) ↔ (a ≡ b)
unfolding bytes_eq
bytes_eq_iff (x ∷ a) (y ∷ b) = ground (arith, bytes_eq_iff a b)
bytes_eq_iff _ _ = ground arith

abbrev pub is_empty {ℓ} : {A : Type ℓ} → List A → Bool
is_empty [] = true
is_empty (x ∷ xs) = false

-- `a < b` on strings, the lexical order of the bytes.
unfoldable pub bytes_lt : Bytes → Bytes → Bool
bytes_lt a [] = false
bytes_lt [] (y ∷ b) = true
bytes_lt (x ∷ a) (y ∷ b) = if x == y then bytes_lt a b else ltb x y

abbrev pub Lacks : ℕ → Bytes → Type 0
Lacks b = All (λ c. c ≢ b)

-- `strings.IndexByte`; none for -1.
unfoldable pub index_byte : Bytes → ℕ → Option ℕ
index_byte [] b = none
index_byte (c ∷ s) b =
    if c == b then some 0 else elim (index_byte s b) [ none ↦ none | some i ↦ some (suc i) ]

-- `strings.HasPrefix`.
unfoldable pub has_prefix : Bytes → Bytes → Bool
has_prefix s [] = true
has_prefix [] (p ∷ ps) = false
has_prefix (c ∷ s) (p ∷ ps) = c == p && has_prefix s ps

-- `strings.Join`.
unfoldable pub join : List Bytes → Bytes → Bytes
join [] sep = []
join (a ∷ []) sep = a
join (a ∷ b ∷ l) sep = a ++ (sep ++ join (b ∷ l) sep)

pub index_byte-Lacks : (s : Bytes) (b : ℕ) → Lacks b s → index_byte s b ≡ none
unfolding index_byte
index_byte-Lacks [] b h = refl
index_byte-Lacks (c ∷ s) b h = ground (arith, index_byte-Lacks s b h.1)

pub index_byte-append :
    (s : Bytes) (b : ℕ) (t : Bytes) → Lacks b s → index_byte (s ++ (b ∷ t)) b ≡ some (length s)
unfolding index_byte
index_byte-append [] b t h = ground arith
index_byte-append (c ∷ s) b t h = ground (arith, index_byte-append s b t h.1)

-- What an index found says of the text: it is cut there, and no earlier byte is the one sought.
pub index_byte-some :
    (s : Bytes) (b i : ℕ)
    → index_byte s b ≡ some i
    → (s ≡ take i s ++ (b ∷ drop (suc i) s)) × Lacks b (take i s)
unfolding index_byte
index_byte-some [] b i h = cc
index_byte-some (c ∷ s) b zero h = ground arith
index_byte-some (c ∷ s) b (suc i) h = ground (arith, index_byte-some s b i)
