-- ===== src/Net/ProxyProto/Words.antt =====
-- The words of a header of version 1, as appendProxyProtoV1 writes and parseProxyProtoV1 reads them.
use netx.Base.{
  ℕ, ◌+◌, ◌%◌, ◌^◌, ◌≤◌, ◌<◌, ◌≡◌, ◌≢◌, refl, ◌⊎◌, inl, inr, [], ◌∷◌, ◌++◌, Option, none, some,
  arith, Bytes, bytes_eq, append_assoc, length, length-append, All, All-append, Lacks,
}
use netx.Net.Ip.{tcp, IpText, to4, to16}
use netx.Net.ProxyProto.Encode.{append_v1, family_word}
use netx.Net.ProxyProto.Line.{parse_word-space, parse_word-last}
use netx.Net.ProxyProto.Parse.{ends, check_v1, parse_v1}
use netx.Net.ProxyProto.{proxy_word, tcp4, tcp6, crlf_bytes}
use netx.Strconv.Decimal.{IsDigit, atoi-decimal}
use netx.Strconv.{pos, wrap, decimal}

-- The five words of a header.
abbrev pub line_of : Bytes → Bytes → Bytes → Bytes → Bytes → Bytes
line_of family src dst p q =
    proxy_word
    ++ (b' ' ∷ (family ++ (b' ' ∷ (src ++ (b' ' ∷ (dst ++ (b' ' ∷ (p ++ (b' ' ∷ q)))))))))

pub parse_v1-line :
    (text : IpText) (family src dst p q : Bytes)
    → Lacks b' ' family
    → Lacks b' ' src
    → Lacks b' ' dst
    → Lacks b' ' p
    → Lacks b' ' q
    → parse_v1 text (line_of family src dst p q) ≡ check_v1 text family src dst p q []
parse_v1-line text family src dst p q hf hs hd hp hq =
    let t3 = p ++ (b' ' ∷ q) in
    let t2 = dst ++ (b' ' ∷ t3) in
    let t1 = src ++ (b' ' ∷ t2) in
    unfold parse_v1 in
    rw
      (
        parse_word-space family t1 hf,
        parse_word-space src t2 hs,
        parse_word-space dst t3 hd,
        parse_word-space p q hp,
        parse_word-last q hq,
      )
      refl

-- A family word of the writer.
abbrev pub IsFamily : Bytes → Type 0
IsFamily family = (family ≡ tcp4) ⊎ (family ≡ tcp6)

pub check_v1-ends :
    (text : IpText) (family src dst src16 dst16 : Bytes) (p q : ℕ)
    → IsFamily family
    → to16 src ≡ some src16
    → to16 dst ≡ some dst16
    → p < 65536
    → q < 65536
    → check_v1 text family (text.show src) (text.show dst) (decimal p) (decimal q) []
      ≡ ends (tcp src16 (pos p)) (tcp dst16 (pos q))
unfolding check_v1 bytes_eq
check_v1-ends text family src dst src16 dst16 p q (inl f) hs hd hp hq =
    rw
      (
        f,
        text.parse_show src src16 hs,
        text.parse_show dst dst16 hd,
        atoi-decimal p (omega arith),
        atoi-decimal q (omega arith),
      )
      refl
check_v1-ends text family src dst src16 dst16 p q (inr f) hs hd hp hq =
    rw
      (
        f,
        text.parse_show src src16 hs,
        text.parse_show dst dst16 hd,
        atoi-decimal p (omega arith),
        atoi-decimal q (omega arith),
      )
      refl

-- A byte that is no space and no line end.
abbrev pub Visible : ℕ → Type 0
Visible c = 33 ≤ c

pub Visible-Lacks : (b : ℕ) (s : Bytes) → b < 33 → All Visible s → Lacks b s
Visible-Lacks b [] h v = tt
Visible-Lacks b (c ∷ s) h v = (omega (arith, v.0), Visible-Lacks b s h v.1)

pub IsDigit-Visible : (s : Bytes) → All IsDigit s → All Visible s
IsDigit-Visible [] h = tt
IsDigit-Visible (c ∷ s) h = (omega (arith, h.0.0), IsDigit-Visible s h.1)

-- The four words behind the family.
abbrev pub words : Bytes → Bytes → Bytes → Bytes → Bytes → Bytes
words family src dst p q = family ++ (b' ' ∷ (src ++ (b' ' ∷ (dst ++ (b' ' ∷ (p ++ (b' ' ∷ q)))))))

pub Lacks-words :
    (family src dst p q : Bytes)
    → All Visible family
    → All Visible src
    → All Visible dst
    → All Visible p
    → All Visible q
    → Lacks 0x0D (words family src dst p q)
Lacks-words family src dst p q hf hs hd hp hq =
    let L = λ (s : Bytes) (v : All Visible s). Visible-Lacks 0x0D s (omega arith) v in
    let A = All-append (λ c. c ≢ 0x0D) in
    A family _ (L family hf) (
      omega arith,
      A src _ (L src hs)
          (omega arith, A dst _ (L dst hd) (omega arith, A p _ (L p hp) (omega arith, L q hq))),
    )

pub length-words :
    (family src dst p q : Bytes)
    → length (words family src dst p q)
      ≡ length family + length src + length dst + length p + length q + 4
length-words family src dst p q =
    let t3 = p ++ (b' ' ∷ q) in
    let t2 = dst ++ (b' ' ∷ t3) in
    let t1 = src ++ (b' ' ∷ t2) in
    omega (
      arith,
      length-append family (b' ' ∷ t1),
      length-append src (b' ' ∷ t2),
      length-append dst (b' ' ∷ t3),
      length-append p (b' ' ∷ q),
    )

pub IsFamily-Visible : (family : Bytes) → IsFamily family → All Visible family × (length family ≡ 4)
IsFamily-Visible family (inl e) = rw e (omega arith)
IsFamily-Visible family (inr e) = rw e (omega arith)

pub family_word-IsFamily : (o : Option Bytes) → IsFamily (family_word o)
family_word-IsFamily none = inr refl
family_word-IsFamily (some ip) = inl refl

-- The header that the writer makes is the line and its end.
pub append_v1-line :
    (text : IpText) (src dst : Bytes) (p q : ℕ)
    → p < 65536
    → q < 65536
    → append_v1 text [] (tcp src (pos p)) (tcp dst (pos q))
      ≡ some (
          line_of (family_word (to4 src)) (text.show src) (text.show dst) (decimal p) (decimal q)
          ++ crlf_bytes)
append_v1-line text src dst p q hp hq =
    let ep : p % 2 ^ 64 ≡ p = omega arith in
    let eq : q % 2 ^ 64 ≡ q = omega arith in
    unfold append_v1 in unfold wrap in rw (ep, eq) (simp append_assoc)
