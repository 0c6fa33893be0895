-- ===== src/Net/ProxyProto/V1.antt =====
-- Version 1 of the header: what appendProxyProtoV1 writes, parseProxyProto reads back.
use netx.Base.{
  ℕ, ◌+◌, ◌≤◌, ◌<◌, ◌≡◌, sym, ap, ◌∙◌, List, [], ◌∷◌, ◌++◌, some, arith, false, Bytes, append_assoc,
  length, length-append, All,
}
use netx.Net.Ip.{tcp, IpText, to4, to16}
use netx.Net.ProxyProto.Encode.{append_v1, family_word}
use netx.Net.ProxyProto.Parse.{parsed, end_v1, parse_proxy_proto}
use netx.Net.ProxyProto.{crlf_bytes}
use netx.Net.Stream.Laws.{HasBytes}
use netx.Net.Stream.{IoError, concat}
use netx.Strconv.Decimal.{decimal-All, length-decimal}
use netx.Strconv.{pos, decimal}
use netx.Net.ProxyProto.Words.{
  line_of, parse_v1-line, check_v1-ends, Visible, Visible-Lacks, IsDigit-Visible, words,
  Lacks-words, length-words, IsFamily-Visible, family_word-IsFamily, append_v1-line,
}
use netx.Net.ProxyProto.ReadLine.{parse-Finds}

-- A TCP address that the writer puts in a header.
pub record IsTcp (ip ip16 : Bytes) (port : ℕ) : Type 0 where
  pub address : to16 ip ≡ some ip16
  pub small : port < 65536

-- The header of version 1 fits in the 107 bytes that the reader looks at.
pub append_v1_bounds :
    (text : IpText) (src dst src16 dst16 : Bytes) (p q : ℕ) (header : Bytes)
    → IsTcp src src16 p
    → IsTcp dst dst16 q
    → append_v1 text [] (tcp src (pos p)) (tcp dst (pos q)) ≡ some header
    → length header ≤ 104
append_v1_bounds text src dst src16 dst16 p q header s d e =
    let family = family_word (to4 src) in
    let made : some header
        ≡ some
            (line_of family (text.show src) (text.show dst) (decimal p) (decimal q) ++ crlf_bytes) =
      sym e ∙ append_v1-line text src dst p q s.small d.small in
    let same : header
        ≡ line_of family (text.show src) (text.show dst) (decimal p) (decimal q) ++ crlf_bytes =
      cc made in
    let w = words family (text.show src) (text.show dst) (decimal p) (decimal q) in
    omega (
      arith,
      ap (length {A = ℕ}) same,
      length-append (line_of family (text.show src) (text.show dst) (decimal p) (decimal q))
          crlf_bytes,
      length-words family (text.show src) (text.show dst) (decimal p) (decimal q),
      (IsFamily-Visible family (family_word-IsFamily (to4 src))).1,
      text.show_size src src16 s.address,
      text.show_size dst dst16 d.address,
      length-decimal 4 p (omega (arith, s.small)),
      length-decimal 4 q (omega (arith, d.small)),
    )

-- A header of version 1 is read back, from any segments that the bytes come in: the addresses with
-- their IP in its form of 16 bytes, the same ports, and no byte behind the header is lost.
pub parse_proxy_proto-append_v1 :
    (text : IpText) (src dst src16 dst16 : Bytes) (p q : ℕ) (header rest : Bytes) (ss : List Bytes)
    (last : IoError)
    → IsTcp src src16 p
    → IsTcp dst dst16 q
    → append_v1 text [] (tcp src (pos p)) (tcp dst (pos q)) ≡ some header
    → All HasBytes ss
    → concat ss ≡ header ++ rest
    → (buf : Bytes) × (left : List Bytes) × (parse_proxy_proto text
          (record { segments = ss; last = last })
        ≡ parsed (record {
          src = some (tcp src16 (pos p));
          dst = some (tcp dst16 (pos q));
          buf = buf;
          local = false;
          rest = left;
        }))
      × (buf ++ concat left ≡ rest)
parse_proxy_proto-append_v1 text src dst src16 dst16 p q header rest ss last s d e h bytes =
    let family = family_word (to4 src) in
    let is_family = family_word-IsFamily (to4 src) in
    let a = text.show src in
    let b = text.show dst in
    let line = line_of family a b (decimal p) (decimal q) in
    let w = words family a b (decimal p) (decimal q) in
    let made : some header ≡ some (line ++ crlf_bytes) =
      sym e ∙ append_v1-line text src dst p q s.small d.small in
    let same : header ≡ line ++ crlf_bytes = cc made in
    let bytes' : concat ss ≡ line ++ (0x0D ∷ 0x0A ∷ rest) =
      bytes ∙ ap (λ x. x ++ rest) same ∙ append_assoc line crlf_bytes rest in
    let vf = (IsFamily-Visible family is_family).0 in
    let va = text.show_visible src src16 s.address in
    let vb = text.show_visible dst dst16 d.address in
    let vp = IsDigit-Visible (decimal p) (decimal-All p) in
    let vq = IsDigit-Visible (decimal q) (decimal-All q) in
    let no_cr = Lacks-words family a b (decimal p) (decimal q) vf va vb vp vq in
    let size = append_v1_bounds text src dst src16 dst16 p q header s d e in
    let long : length header ≡ length line + 2 =
      omega (arith, ap (length {A = ℕ}) same, length-append line crlf_bytes) in
    let wide : length line ≡ 6 + length w = omega arith in
    let (buf, left, r, k) =
      parse-Finds text (b' ' ∷ w) rest ss last (omega arith, no_cr) h bytes'
        (omega (
          arith,
          wide,
          length-words family a b (decimal p) (decimal q),
          (IsFamily-Visible family is_family).1,
        ))
        (omega (arith, long, size)) in
    let S = λ (t : Bytes) (v : All Visible t). Visible-Lacks b' ' t (omega arith) v in
    let words_read =
      parse_v1-line text family a b (decimal p) (decimal q) (S family vf) (S a va) (S b vb)
        (S (decimal p) vp) (S (decimal q) vq) in
    let checked =
      check_v1-ends text family src dst src16 dst16 p q is_family s.address d.address s.small
        d.small in
    (buf, left, r ∙ ap (λ x. end_v1 x buf left) (words_read ∙ checked), k)
