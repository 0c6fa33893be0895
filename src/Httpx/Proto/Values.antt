-- ===== src/Httpx/Proto/Values.antt =====
-- Comma-separated values of a header: joining and reading them (httpx/proto.go).
use netx.Base.{
  ℕ, zero, suc, ◌+◌, ◌≤◌, ◌<◌, ◌≡◌, ◌≢◌, refl, sym, ap, ◌∙◌, inl, List, [], ◌∷◌, ◌++◌, arith,
  append-nil, append_assoc, Bytes, codes, length, length-append, take-length-append, drop-add_one,
  All, All-append, Lacks, index_byte-Lacks, index_byte-append, join, is_empty, if◌then◌else◌,
}
use netx.Httpx.Lex.{trim_ows}
use netx.Httpx.Lex.Laws.{IsOws, StartsTrimmed, EndsTrimmed, trim_ows-around}
use netx.Httpx.Proto.{
  read_header_value, read_header_values, keep_values, header_values_remove_tokens,
}

-- A value as the reader gives it: not empty, no comma, no white space at an end.
pub record IsValue (v : Bytes) : Type 0 where
  pub nonempty : v ≢ []
  pub no_comma : Lacks b',' v
  pub starts : StartsTrimmed v
  pub ends : EndsTrimmed v

-- What a comma leaves before the next value.
abbrev IsPad : Bytes → Type 0
IsPad pad = All IsOws pad × Lacks b',' pad

trim-pad : (pad v : Bytes) → IsPad pad → IsValue v → trim_ows (pad ++ v) ≡ v
trim-pad pad v p h = rw (append-nil v) at (trim_ows-around pad v [] p.0 tt h.starts h.ends)

read_header_value-last :
    (pad v : Bytes) → IsPad pad → IsValue v → read_header_value (pad ++ v) ≡ (v, [])
read_header_value-last pad v p h =
    let n = index_byte-Lacks (pad ++ v) b',' (All-append _ pad v p.1 h.no_comma) in
    unfold read_header_value in rw (n, read_header_value) (ap (λ x. (x, [])) (trim-pad pad v p h))

read_header_value-comma :
    (pad v t : Bytes)
    → IsPad pad
    → IsValue v
    → read_header_value ((pad ++ v) ++ (b',' ∷ t)) ≡ (v, t)
read_header_value-comma pad v t p h =
    let x = pad ++ v in
    let n = index_byte-append x b',' t (All-append _ pad v p.1 h.no_comma) in
    unfold read_header_value in
    rw (n, read_header_value, take-length-append x (b',' ∷ t), drop-add_one x b',' t)
      (ap (λ x. (x, t)) (trim-pad pad v p h))

length_positive : (v : Bytes) → v ≢ [] → 0 < length v
length_positive [] n = absurd (n refl)
length_positive (c ∷ v) n = omega arith

read_header_values_end : (f : ℕ) → read_header_values f [] ≡ []
unfolding read_header_values
read_header_values_end f = refl

read_header_values-cons :
    (f : ℕ) (s v t : Bytes)
    → 0 < length s
    → read_header_value s ≡ (v, t)
    → read_header_values (suc f) s ≡ v ∷ read_header_values f t
unfolding read_header_values
read_header_values-cons f [] v t n e = absurd (omega (arith, n))
read_header_values-cons f (c ∷ s) v t n e = ap (λ r. r.0 ∷ read_header_values f r.1) e

padded-join :
    (f : ℕ) (pad v : Bytes) (l : List Bytes)
    → IsPad pad
    → All IsValue (v ∷ l)
    → length (pad ++ join (v ∷ l) (codes ", ")) ≤ f
    → read_header_values f (pad ++ join (v ∷ l) (codes ", ")) ≡ v ∷ l
unfolding join
padded-join zero pad v [] p h n =
    absurd (omega (arith, n, length-append pad v, length_positive v h.0.nonempty))
padded-join zero pad v (w ∷ l) p h n =
    let t = codes ", " ++ join (w ∷ l) (codes ", ") in
    absurd (omega (arith, n, length-append pad (v ++ t), length-append v t))
padded-join (suc f) pad v [] p h n =
    let more : 0 < length (pad ++ v) =
      omega (arith, length-append pad v, length_positive v h.0.nonempty) in
    read_header_values-cons f (pad ++ v) v [] more (read_header_value-last pad v p h.0)
    ∙ ap (λ x. v ∷ x) (read_header_values_end f)
padded-join (suc f) pad v (w ∷ l) p h n =
    let t = b' ' ∷ join (w ∷ l) (codes ", ") in
    let s = pad ++ (v ++ (b',' ∷ t)) in
    let size : length s ≡ length pad + (length v + suc (length t)) =
      omega (arith, length-append pad (v ++ (b',' ∷ t)), length-append v (b',' ∷ t)) in
    let first =
      ap read_header_value (sym (append_assoc pad v (b',' ∷ t)))
      ∙ read_header_value-comma pad v t p h.0 in
    read_header_values-cons f s v t (omega (arith, size)) first
    ∙ ap (λ x. v ∷ x)
        (padded-join f (b' ' ∷ []) w l ((inl refl, tt), (omega arith, tt)) h.1
          (omega (arith, n, size)))

-- Values joined by a comma and a space are read back, with the length of the text as fuel.
pub read_header_values-join :
    (l : List Bytes)
    → All IsValue l
    → let a = join l (codes ", ") in read_header_values (length a) a ≡ l
unfolding join
read_header_values-join [] h = read_header_values_end 0
read_header_values-join (v ∷ l) h = padded-join _ [] v l (tt, tt) h (omega arith)

-- Every list of values as one text.
abbrev pub texts : List (List Bytes) → List Bytes
texts [] = []
texts (l ∷ ls) = join l (codes ", ") ∷ texts ls

-- The values of the first text are read as they are.
pub remove_tokens-cons :
    (l : List Bytes) (rest tokens : List Bytes)
    → All IsValue l
    → let item = keep_values tokens l in
      let result = header_values_remove_tokens rest tokens in
      header_values_remove_tokens (join l (codes ", ") ∷ rest) tokens
      ≡ (if is_empty item then result else join item (codes ", ") ∷ result)
remove_tokens-cons l rest tokens h =
    let result = header_values_remove_tokens rest tokens in
    unfold header_values_remove_tokens in
    ap
      (λ x.
        let item = keep_values tokens x in
        if is_empty item then result else join item (codes ", ") ∷ result)
      (read_header_values-join l h)
