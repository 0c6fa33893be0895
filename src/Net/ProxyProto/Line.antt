-- ===== src/Net/ProxyProto/Line.antt =====
-- Finding the end of a line and cutting it into words (proxy.go).
use netx.Base.{
  ◌∙◌, ℕ, zero, suc, ◌+◌, ◌≤◌, ◌≡◌, refl, ap, [], ◌∷◌, ◌++◌, some, arith, ◌==◌, true, false, Bytes,
  has_prefix, length, drop, Lacks,
}
use netx.Net.ProxyProto.Encode.{zeros}
use netx.Net.ProxyProto.Parse.{parse_word, index_crlf}

pub parse_word-space : (w t : Bytes) → Lacks b' ' w → parse_word (w ++ (b' ' ∷ t)) ≡ (w, t)
unfolding parse_word
parse_word-space [] t h = refl
parse_word-space (c ∷ w) t h =
    let f : (c == b' ') ≡ false = ground (arith, h.0) in rw (f, parse_word-space w t h.1) refl

pub parse_word-last : (w : Bytes) → Lacks b' ' w → parse_word w ≡ (w, [])
unfolding parse_word
parse_word-last [] h = refl
parse_word-last (c ∷ w) h =
    let f : (c == b' ') ≡ false = ground (arith, h.0) in rw (f, parse_word-last w h.1) refl

-- The line end is found where it is.
pub index_crlf-line :
    (line t : Bytes) → Lacks 0x0D line → index_crlf (line ++ (0x0D ∷ 0x0A ∷ t)) ≡ some (length line)
unfolding index_crlf has_prefix
index_crlf-line [] t h = refl
index_crlf-line (c ∷ line) t h =
    let f : (c == 0x0D) ≡ false = ground (arith, h.0) in rw (f, index_crlf-line line t h.1) refl

-- A text that begins as a longer one does begins with all that fits.
pub prefix : (a b c d : Bytes) → a ++ b ≡ c ++ d → length c ≤ length a → (e : Bytes) × (a ≡ c ++ e)
prefix a b [] d p h = (a, refl)
prefix [] b (x ∷ c) d p h = absurd (omega (arith, h))
prefix (y ∷ a) b (x ∷ c) d p h =
    let (e, q) = prefix a b c d (ap (drop 1) p) (omega (arith, h)) in
    let same : y ≡ x = cc p in (e, ap (λ t. y ∷ t) q ∙ ap (λ z. z ∷ (c ++ e)) same)

-- A line end that was found stays where it is when more bytes follow.
pub index_crlf-append :
    (b t : Bytes) (i : ℕ)
    → index_crlf b ≡ some i
    → (index_crlf (b ++ t) ≡ some i) × (i + 2 ≤ length b)
unfolding index_crlf has_prefix
index_crlf-append [] t i h = cc
index_crlf-append (c ∷ []) t i h = ground arith
index_crlf-append (c ∷ d ∷ b) t zero h = ground (arith, index_crlf-append (d ∷ b) t zero)
index_crlf-append (c ∷ d ∷ b) t (suc i) h = ground (arith, index_crlf-append (d ∷ b) t i)

-- Zeros behind a text have no line end.
pub index_crlf-zeros : (b : Bytes) (n : ℕ) → index_crlf (b ++ zeros n) ≡ index_crlf b
unfolding index_crlf has_prefix
index_crlf-zeros [] zero = refl
index_crlf-zeros [] (suc n) = rw (index_crlf-zeros [] n)
index_crlf-zeros (c ∷ []) zero = refl
index_crlf-zeros (c ∷ []) (suc n) = ground (arith, index_crlf-zeros [] (suc n))
index_crlf-zeros (c ∷ d ∷ b) n = ground (arith, index_crlf-zeros (d ∷ b) n)

pub length-zeros : (n : ℕ) → length (zeros n) ≡ n
length-zeros zero = refl
length-zeros (suc n) = omega (arith, length-zeros n)

pub has_prefix-append : (p b : Bytes) → has_prefix (p ++ b) p ≡ true
unfolding has_prefix
has_prefix-append [] [] = refl
has_prefix-append [] (c ∷ b) = refl
has_prefix-append (c ∷ p) b = ground (arith, has_prefix-append p b)
