-- ===== src/Httpx/Lex/Laws.antt =====
-- What the lexical functions accept and return.
use netx.Base.{
  ℕ, ◌≤◌, ◌<◌, ◌≡◌, ◌≢◌, ◌↔◌, ◌⊎◌, inl, inr, refl, ap, ◌∙◌, true, false, ◌&&◌, [], ◌∷◌, ◌++◌, map,
  append-nil, arith, Bytes, is_empty, length, length-append, All, Bool-cases,
}
use netx.Utf8.{decode_rune-ascii}
use netx.Httpx.Lex.{
  is_token_byte, all_token, is_token, is_ows, trim_left, trim_right, trim_ows, lower_ascii,
  equal_fold, token_equal,
}

abbrev pub IsTokenByte : ℕ → Type 0
IsTokenByte c = is_token_byte c ≡ true

abbrev pub IsOws : ℕ → Type 0
IsOws c = (c ≡ b' ') ⊎ (c ≡ b'\t')

pub token_byte-lt : (c : ℕ) → is_token_byte c ≡ true → c < 127
unfolding is_token_byte
token_byte-lt c h = ground arith

all_token_sound : (s : Bytes) → all_token 0 s ≡ true → All IsTokenByte s
unfolding all_token
all_token_sound [] h = tt
all_token_sound (c ∷ s) h =
    ground (arith, token_byte-lt c, decode_rune-ascii c s, all_token_sound s)

all_token_complete : (s : Bytes) → All IsTokenByte s → all_token 0 s ≡ true
unfolding all_token
all_token_complete [] h = refl
all_token_complete (c ∷ s) h =
    ground (arith, token_byte-lt c, decode_rune-ascii c s, all_token_complete s h.1)

-- A token is one or more token bytes, although the loop goes over runes.
pub is_token_iff : (s : Bytes) → (is_token s ≡ true) ↔ ((s ≢ []) × All IsTokenByte s)
unfolding is_token
is_token_iff [] = (λ h. cc, λ h. absurd (h.0 refl))
is_token_iff (c ∷ s) =
    (λ h. (λ e. cc, all_token_sound (c ∷ s) h), λ h. all_token_complete (c ∷ s) h.1)

-- Text between white space: neither its first nor its last byte is white space.
abbrev pub StartsTrimmed : Bytes → Type 0
StartsTrimmed [] = Unit
StartsTrimmed (c ∷ s) = is_ows c ≡ false

abbrev pub EndsTrimmed : Bytes → Type 0
EndsTrimmed [] = Unit
EndsTrimmed (c ∷ []) = is_ows c ≡ false
EndsTrimmed (c ∷ d ∷ s) = EndsTrimmed (d ∷ s)

pub record Trims (x y : Bytes) : Type 0 where
  pub before : Bytes
  pub after : Bytes
  pub splits : x ≡ before ++ (y ++ after)
  pub before_blank : All IsOws before
  pub after_blank : All IsOws after
  pub starts : StartsTrimmed y
  pub ends : EndsTrimmed y

trim_left-StartsTrimmed : (x : Bytes) → StartsTrimmed (trim_left x)
unfolding trim_left
trim_left-StartsTrimmed [] = tt
trim_left-StartsTrimmed (c ∷ x) = ground (arith, trim_left-StartsTrimmed x)

trim_left_cut : (x : Bytes) → (before : Bytes) × (x ≡ before ++ trim_left x) × All IsOws before
unfolding trim_left
trim_left_cut [] = ([], refl, tt)
trim_left_cut (c ∷ x) =
    let (b, e, h) = trim_left_cut x in
    elim (Bool-cases (is_ows c)) [
      | inl w ↦ (c ∷ b, ground arith, (ground arith, h))
      | inr n ↦ ([], ground arith, tt)
    ]

trim_right_cut : (x : Bytes) → (after : Bytes) × (x ≡ trim_right x ++ after) × All IsOws after
unfolding trim_right
trim_right_cut [] = ([], refl, tt)
trim_right_cut (c ∷ x) =
    let (a, e, h) = trim_right_cut x in
    elim (Bool-cases (is_empty (trim_right x) && is_ows c)) [
      | inl w ↦ (c ∷ a, ground arith, (ground arith, h))
      | inr n ↦ (a, ground arith, h)
    ]

EndsTrimmed-cons : (c : ℕ) (y : Bytes) → y ≢ [] → EndsTrimmed y → EndsTrimmed (c ∷ y)
EndsTrimmed-cons c [] n h = absurd (n refl)
EndsTrimmed-cons c (d ∷ y) n h = h

trim_right-EndsTrimmed : (x : Bytes) → EndsTrimmed (trim_right x)
trim_right-EndsTrimmed [] = unfold trim_right in tt
trim_right-EndsTrimmed (c ∷ x) = go (trim_right x) refl (trim_right-EndsTrimmed x)
  where
    go : (y : Bytes) → trim_right x ≡ y → EndsTrimmed y → EndsTrimmed (trim_right (c ∷ x))
    go [] e h = unfold trim_right in ground arith
    go (d ∷ y) e h = unfold trim_right in ground arith

trim_right-StartsTrimmed : (x : Bytes) → StartsTrimmed x → StartsTrimmed (trim_right x)
unfolding trim_right
trim_right-StartsTrimmed [] h = tt
trim_right-StartsTrimmed (c ∷ x) h = ground arith

-- `trimOWS` takes off white space at both ends and nothing else.
pub trim_ows-Trims : (x : Bytes) → Trims x (trim_ows x)
unfolding trim_ows
trim_ows-Trims x =
    let (b, e, hb) = trim_left_cut x in
    let (a, f, ha) = trim_right_cut (trim_left x) in
    record {
      before = b;
      after = a;
      splits = e ∙ ap (◌++◌ b) f;
      before_blank = hb;
      after_blank = ha;
      starts = trim_right-StartsTrimmed (trim_left x) (trim_left-StartsTrimmed x);
      ends = trim_right-EndsTrimmed (trim_left x);
    }

trim_left-blank : (b x : Bytes) → All IsOws b → trim_left (b ++ x) ≡ trim_left x
unfolding trim_left
trim_left-blank [] x h = refl
trim_left-blank (c ∷ b) x h = ground (arith, trim_left-blank b x)

trim_left-fixed : (x : Bytes) → StartsTrimmed x → trim_left x ≡ x
unfolding trim_left
trim_left-fixed [] h = refl
trim_left-fixed (c ∷ x) h = ground arith

trim_right-blank : (a : Bytes) → All IsOws a → trim_right a ≡ []
unfolding trim_right
trim_right-blank [] h = refl
trim_right-blank (c ∷ a) h = ground (arith, trim_right-blank a)

trim_right-fixed : (y a : Bytes) → EndsTrimmed y → All IsOws a → trim_right (y ++ a) ≡ y
unfolding trim_right
trim_right-fixed [] a h ha = trim_right-blank a ha
trim_right-fixed (c ∷ []) a h ha = ground (arith, trim_right-blank a)
trim_right-fixed (c ∷ d ∷ y) a h ha = ground (arith, trim_right-fixed (d ∷ y) a h ha)

pub StartsTrimmed-append : (y a : Bytes) → y ≢ [] → StartsTrimmed y → StartsTrimmed (y ++ a)
StartsTrimmed-append [] a n h = absurd (n refl)
StartsTrimmed-append (c ∷ y) a n h = h

trim_left-All : (x : Bytes) → All IsOws x → All IsOws (trim_left x)
unfolding trim_left
trim_left-All [] h = tt
trim_left-All (c ∷ x) h = ground (arith, trim_left-All x)

pub trim_ows-around :
    (b y a : Bytes)
    → All IsOws b
    → All IsOws a
    → StartsTrimmed y
    → EndsTrimmed y
    → trim_ows (b ++ (y ++ a)) ≡ y
unfolding trim_ows
trim_ows-around b [] a hb ha st en =
    rw (trim_left-blank b a hb) (trim_right-blank (trim_left a) (trim_left-All a ha))
trim_ows-around b (c ∷ y) a hb ha st en =
    rw (trim_left-blank b (c ∷ y ++ a) hb, trim_left-fixed (c ∷ y ++ a) st)
      (trim_right-fixed (c ∷ y) a en ha)

-- What lies between the white space is determined: `trimOWS` returns it, however it was cut.
pub Trims-unique : {x y : Bytes} → Trims x y → trim_ows x ≡ y
Trims-unique {x} {y} t =
    rw (t.splits) (trim_ows-around t.before y t.after t.before_blank t.after_blank t.starts t.ends)

pub trim_ows-fixed : (y : Bytes) → StartsTrimmed y → EndsTrimmed y → trim_ows y ≡ y
trim_ows-fixed y st en = rw (append-nil y) at (trim_ows-around [] y [] tt tt st en)

equal_fold_sound :
    (a b : Bytes)
    → length a ≡ length b
    → equal_fold a b ≡ true
    → All (λ c. c < 0x80) a × (map lower_ascii a ≡ map lower_ascii b)
unfolding equal_fold
equal_fold_sound [] [] e h = (tt, refl)
equal_fold_sound [] (d ∷ b) e h = absurd (omega arith)
equal_fold_sound (c ∷ a) [] e h = absurd (omega arith)
equal_fold_sound (c ∷ a) (d ∷ b) e h = ground (arith, equal_fold_sound a b)

equal_fold_complete :
    (a b : Bytes)
    → All (λ c. c < 0x80) a
    → map lower_ascii a ≡ map lower_ascii b
    → (length a ≡ length b) × (equal_fold a b ≡ true)
unfolding equal_fold
equal_fold_complete [] [] h e = (refl, refl)
equal_fold_complete [] (d ∷ b) h e = cc
equal_fold_complete (c ∷ a) [] h e = cc
equal_fold_complete (c ∷ a) (d ∷ b) h e = ground (arith, equal_fold_complete a b)

-- Two tokens are equal just if the first is ASCII and both have the same lower case.
pub token_equal_iff :
    (a b : Bytes)
    → (token_equal a b ≡ true) ↔ (All (λ c. c < 0x80) a × (map lower_ascii a ≡ map lower_ascii b))
unfolding token_equal
token_equal_iff a b = (
  λ h. ground (arith, equal_fold_sound a b),
  λ h. ground (arith, equal_fold_complete a b h.0 h.1),
)

pub EndsTrimmed-append : (a b : Bytes) → b ≢ [] → EndsTrimmed b → EndsTrimmed (a ++ b)
EndsTrimmed-append [] b n h = h
EndsTrimmed-append (c ∷ []) [] n h = absurd (n refl)
EndsTrimmed-append (c ∷ []) (d ∷ b) n h = h
EndsTrimmed-append (c ∷ e ∷ a) b n h = EndsTrimmed-append (e ∷ a) b n h

-- Trimming never adds a byte.
pub length-trim_ows : (x : Bytes) → length (trim_ows x) ≤ length x
length-trim_ows x =
    let t = trim_ows-Trims x in
    omega (
      arith,
      ap length t.splits,
      length-append t.before (trim_ows x ++ t.after),
      length-append (trim_ows x) t.after,
    )
