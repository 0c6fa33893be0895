-- ===== src/Httpx/Quote/Split.antt =====
-- `split` cuts a text at the first separator that stands outside of quotes.
use netx.Base.{
  ℕ, zero, suc, ◌+◌, ◌-◌, ◌≤◌, ◌<◌, ◌≡◌, ◌≢◌, refl, sym, ap, ◌∙◌, Bool, true, false, [], ◌∷◌, ◌++◌,
  Option, none, some, ◌⊎◌, inl, inr, arith, if◌then◌else◌, Bytes, length, take, drop, append_assoc,
  append-nil, Option-cases, take-length-append, dec_lt, drop-suc-length-append, dec_lt,
  length-append, dec_lt,
}
use netx.Utf8.{decode_rune, Conts, decode_rune-Conts, decode_rune-ascii}
use netx.Httpx.Quote.{split, split_index, split_step, split_here, quote, escape}
use netx.Httpx.Quote.RoundTrip.{
  escape_rune-some, escape_rune-none, escape-none, escaped, quote-escaped,
}

abbrev next : Option ℕ → Option ℕ
next o = elim o [ none ↦ none | some i ↦ some (suc i) ]

-- The loop of `split` byte by byte, with no regard to runes.
pub byte_index : Bool → Bool → ℕ → Bytes → Option ℕ
byte_index e q b [] = none
byte_index e q b (c ∷ s) =
    let f = split_step e q c in
    let rest = byte_index f.0 f.1 b s in if split_here q b c then some 0 else next rest

byte_index_lem :
    (e q : Bool) (b c : ℕ) (s : Bytes)
    → (if split_here q b c
        then some 0
        else next (byte_index (split_step e q c).0 (split_step e q c).1 b s))
      ≡ byte_index e q b (c ∷ s)
unfolding byte_index
byte_index_lem e q b c s = refl

byte_index-cont :
    (q : Bool) (b c : ℕ) (s : Bytes)
    → b < 0x80
    → 0x80 ≤ c
    → byte_index false q b (c ∷ s) ≡ next (byte_index false q b s)
unfolding byte_index split_step split_here
byte_index-cont q b c s h k = ground arith

split_step-high : (e q : Bool) (c : ℕ) → 0x80 ≤ c → (split_step e q c).0 ≡ (if q then false else e)
unfolding split_step
split_step-high e q c h = ground arith

-- The flag `e` is only ever set inside quotes.
abbrev Passes : ℕ → Bool → Bool → Type 0
Passes k e q = (e ≡ false) ⊎ ((k ≡ 0) × (q ≡ true))

Passes-step :
    (e q : Bool) (c : ℕ) (s : Bytes)
    → Passes 0 e q
    → Passes ((decode_rune c s).1 - 1) (split_step e q c).0 (split_step e q c).1
unfolding split_step
Passes-step e q c s h = elim (dec_lt c 0x80) [
  | yes l ↦ rw (decode_rune-ascii c s l) (ground arith)
  | no n ↦ let high : 0x80 ≤ c = omega arith in ground arith
]

split_index-skip :
    (k : ℕ) (e q : Bool) (b : ℕ) (s : Bytes)
    → b < 0x80
    → Passes k e q
    → Conts k s
    → split_index k e q b s ≡ byte_index e q b s
unfolding split_index
split_index-skip zero e q b [] l p h = unfold byte_index in refl
split_index-skip (suc k) e q b [] l p h = unfold byte_index in refl
split_index-skip (suc k) e q b (c ∷ s) l p h =
    ground (arith, split_index-skip k e q b s l, byte_index-cont q b c s l h.0)
split_index-skip zero e q b (c ∷ s) l p h =
    let f = split_step e q c in
    rw
      (split_index-skip ((decode_rune c s).1 - 1) f.0 f.1 b s l (Passes-step e q c s p)
        (decode_rune-Conts c s))
      (byte_index_lem e q b c s)

-- The loop over runes finds the byte that a loop over bytes finds, in any text.
pub split_index-byte_index :
    (b : ℕ) (s : Bytes) → b < 0x80 → split_index 0 false false b s ≡ byte_index false false b s
split_index-byte_index b s l = split_index-skip 0 false false b s l (inl refl) tt

split-none : (s : Bytes) (b : ℕ) → split_index 0 false false b s ≡ none → split s b ≡ (s, [])
split-none s b e = unfold split in rw (e, split)

split-some :
    (s : Bytes) (b i : ℕ)
    → split_index 0 false false b s ≡ some i
    → split s b ≡ (take i s, drop (suc i) s)
split-some s b i e = unfold split in ground arith

next-some : (o : Option ℕ) (i : ℕ) → next o ≡ some i → (j : ℕ) × (o ≡ some j) × (i ≡ suc j)
next-some none i h = cc
next-some (some j) i h = (j, refl, ground arith)

split_index_cut :
    (skip : ℕ) (e q : Bool) (b : ℕ) (s : Bytes) (i : ℕ)
    → split_index skip e q b s ≡ some i
    → s ≡ take i s ++ (b ∷ drop (suc i) s)
unfolding split_index
split_index_cut zero e q b [] i h = cc
split_index_cut (suc skip) e q b [] i h = cc
split_index_cut (suc skip) e q b (c ∷ s) zero h = ground arith
split_index_cut (suc skip) e q b (c ∷ s) (suc i) h = ground (arith, split_index_cut skip e q b s i)
split_index_cut zero e q b (c ∷ s) zero h = unfold split_here in ground arith
split_index_cut zero e q b (c ∷ s) (suc i) h =
    let f = split_step e q c in
    ground (arith, split_index_cut ((decode_rune c s).1 - 1) f.0 f.1 b s i)

-- A cut gives the text back: head, separator and tail, or else the whole text with no tail.
pub split_cut :
    (s : Bytes) (b : ℕ) → (split s b ≡ (s, [])) ⊎ (s ≡ (split s b).0 ++ (b ∷ (split s b).1))
split_cut s b = elim (Option-cases (split_index 0 false false b s)) [
  | inl e ↦ inl (split-none s b e)
  | inr (i, e) ↦ inr (rw (split-some s b i e) (split_index_cut 0 false false b s i e))
]

abbrev shift : ℕ → Option ℕ → Option ℕ
shift n none = none
shift n (some i) = some (n + i)

next-shift : (n : ℕ) (o : Option ℕ) → next (shift n o) ≡ shift (suc n) o
next-shift n none = refl
next-shift n (some i) = ground arith

next_one : (o : Option ℕ) → next o ≡ shift 1 o
next_one none = refl
next_one (some i) = ap some (omega arith)

shift-shift : (m n : ℕ) (o : Option ℕ) → shift m (shift n o) ≡ shift (m + n) o
shift-shift m n none = refl
shift-shift m n (some i) = ap some (omega arith)

shift-zero : (o : Option ℕ) → shift 0 o ≡ o
shift-zero none = refl
shift-zero (some i) = ground arith

-- A text with no separator `b` outside of quotes.
pub data Unsplit (b : ℕ) : Bytes → Type 0 where
  nil : Unsplit b []
  plain : {c : ℕ} {s : Bytes} → c ≢ b → c ≢ b'"' → Unsplit b s → Unsplit b (c ∷ s)
  quoted : {s : Bytes} (v : Bytes) → Unsplit b s → Unsplit b (quote v ++ s)

byte_index-close :
    (b : ℕ) (s : Bytes) → byte_index false true b (b'"' ∷ s) ≡ next (byte_index false false b s)
unfolding byte_index split_step split_here
byte_index-close b s = refl

byte_index-inside :
    (b c : ℕ) (s : Bytes)
    → c ≢ b'\\'
    → c ≢ b'"'
    → byte_index false true b (c ∷ s) ≡ next (byte_index false true b s)
unfolding byte_index split_step split_here
byte_index-inside b c s h k = ground arith

byte_index-escape :
    (b d : ℕ) (s : Bytes)
    → byte_index false true b (b'\\' ∷ d ∷ s) ≡ next (next (byte_index false true b s))
unfolding byte_index split_step split_here
byte_index-escape b d s = ground arith

byte_index-open :
    (b : ℕ) (s : Bytes) → byte_index false false b (b'"' ∷ s) ≡ next (byte_index false true b s)
unfolding byte_index split_step split_here
byte_index-open b s = refl

byte_index-outside :
    (b c : ℕ) (s : Bytes)
    → c ≢ b
    → c ≢ b'"'
    → byte_index false false b (c ∷ s) ≡ next (byte_index false false b s)
unfolding byte_index split_step split_here
byte_index-outside b c s h k = ground arith

byte_index-found : (b : ℕ) (s : Bytes) → b ≢ b'"' → byte_index false false b (b ∷ s) ≡ some 0
unfolding byte_index split_step split_here
byte_index-found b s h = ground arith

byte_index-escaped :
    (v : Bytes) (b : ℕ) (s : Bytes)
    → byte_index false true b (escaped v ++ (b'"' ∷ s))
      ≡ shift (suc (length (escaped v))) (byte_index false false b s)
unfolding escaped
byte_index-escaped [] b s = byte_index-close b s ∙ next_one (byte_index false false b s)
byte_index-escaped (c ∷ v) b s = elim (Option-cases (escape c)) [
  | inl e ↦
      let h = escape-none c e in
      rw
        (
          escape_rune-none c e,
          byte_index-inside b c (escaped v ++ (b'"' ∷ s)) h.0 h.1,
          byte_index-escaped v b s,
        )
        (next-shift _ _)
  | inr (d, e) ↦
      rw
        (
          escape_rune-some c d e,
          byte_index-escape b d (escaped v ++ (b'"' ∷ s)),
          byte_index-escaped v b s,
          next-shift,
        )
        (next-shift _ _)
]

quote-append : (v s : Bytes) → quote v ++ s ≡ b'"' ∷ (escaped v ++ (b'"' ∷ s))
quote-append v s = rw quote-escaped (ap (◌∷◌ b'"') (append_assoc (escaped v) (b'"' ∷ []) s))

byte_index-Unsplit :
    {b : ℕ} {x : Bytes} (t : Bytes)
    → Unsplit b x
    → byte_index false false b (x ++ t) ≡ shift (length x) (byte_index false false b t)
byte_index-Unsplit t nil = sym (shift-zero _)
byte_index-Unsplit {b} t (plain {c} {s} h k u) =
    byte_index-outside b c (s ++ t) h k ∙ rw (byte_index-Unsplit t u) (next-shift _ _)
byte_index-Unsplit {b} t (quoted {s} v u) =
    rw
      (
        append_assoc (quote v) s t,
        quote-append v (s ++ t),
        byte_index-open,
        byte_index-escaped,
        byte_index-Unsplit t u,
      )
      (next-shift _ _
        ∙ shift-shift _ _ _
        ∙ ap (λ n. shift n (byte_index false false b t))
            (omega (arith, ap length (quote-append v s), length-append (escaped v) (b'"' ∷ s))))

pub split-Unsplit :
    {b : ℕ} (x t : Bytes) → b < 0x80 → b ≢ b'"' → Unsplit b x → split (x ++ (b ∷ t)) b ≡ (x, t)
split-Unsplit {b} x t l n u =
    split-some (x ++ (b ∷ t)) b (length x) (
      split_index-byte_index b _ l
      ∙ byte_index-Unsplit (b ∷ t) u
      ∙ rw (byte_index-found b t n) (ap some (omega arith)))
    ∙ rw (take-length-append x (b ∷ t), drop-suc-length-append x b t)

pub split-Unsplit_end : {b : ℕ} (x : Bytes) → b < 0x80 → Unsplit b x → split x b ≡ (x, [])
split-Unsplit_end {b} x l u = split-none x b (split_index-byte_index b x l ∙ end)
  where
    end : byte_index false false b x ≡ none
    end = unfold byte_index in rw (append-nil x) at (byte_index-Unsplit [] u)
