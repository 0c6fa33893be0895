-- ===== src/Net/ProxyProto/ReadLine.antt =====
-- Reading a line from any segments, the loop of parseProxyProto (proxy.go).
use mathlib.Core.Path.{subst}
use netx.Base.{
  ℕ, suc, ◌+◌, ◌-◌, ◌≤◌, ◌<◌, ◌≡◌, ◌≢◌, refl, sym, ap, ◌∙◌, inl, inr, List, [], ◌∷◌, ◌++◌, none,
  some, arith, leb, true, false, Bytes, dec_lt, is_empty, has_prefix, append-nil, append_assoc,
  length, take, drop, take-drop, length-append, length-take_eq, take-length-append, All, All-append,
  Lacks, Bool-cases, Option-cases,
}
use netx.Net.Ip.{IpText}
use netx.Net.ProxyProto.Encode.{zeros}
use netx.Net.ProxyProto.Line.{
  index_crlf-line, index_crlf-append, index_crlf-zeros, length-zeros, has_prefix-append, prefix,
}
use netx.Net.ProxyProto.Parse.{
  Parsed, parse_v1, index_crlf, found_v1, end_v1, read_line, serve_v1, choose_version,
  parse_proxy_proto,
}
use netx.Net.ProxyProto.{proxy_word}
use netx.Net.Stream.Laws.{HasBytes, read_at_least-Reads, split-concat, regroup}
use netx.Net.Stream.{IoError, concat, read_at_least}

-- The result of reading a line, up to how much was read behind it.
abbrev pub Finds : IpText → Bytes → Bytes → Parsed → Type 0
Finds text line rest r =
    (buf : Bytes) × (ss : List Bytes) × (r ≡ end_v1 (parse_v1 text line) buf ss)
    × (buf ++ concat ss ≡ rest)

pub Finds-of :
    (text : IpText) (line rest : Bytes) {r r' : Parsed}
    → r ≡ r'
    → Finds text line rest r'
    → Finds text line rest r
Finds-of text line rest e f = subst (λ x. Finds text line rest x) (sym e) f

pub drop-line : (line buf : Bytes) → drop (length line + 2) (line ++ (0x0D ∷ 0x0A ∷ buf)) ≡ buf
drop-line line buf =
    let e : length line + 2 ≡ suc (suc (length line)) = omega arith in rw e (go line)
  where
    go : (l : Bytes) → drop (suc (suc (length l))) (l ++ (0x0D ∷ 0x0A ∷ buf)) ≡ buf
    go [] = refl
    go (c ∷ l) = go l

pub cut : (line a b : Bytes) → line ++ (0x0D ∷ 0x0A ∷ a) ≡ line ++ (0x0D ∷ 0x0A ∷ b) → a ≡ b
cut line a b e = sym (drop-line line a) ∙ ap (drop (length line + 2)) e ∙ drop-line line b

pub found_v1-line :
    (text : IpText) (line buf : Bytes) (ss : List Bytes)
    → found_v1 text (line ++ (0x0D ∷ 0x0A ∷ buf)) (length line) ss
      ≡ end_v1 (parse_v1 text line) buf ss
unfolding found_v1
found_v1-line text line buf ss =
    rw (take-length-append line (0x0D ∷ 0x0A ∷ buf), drop-line line buf) refl

pub found_v1-Finds :
    (text : IpText) (line rest b : Bytes) (ss : List Bytes)
    → b ++ concat ss ≡ line ++ (0x0D ∷ 0x0A ∷ rest)
    → length line + 2 ≤ length b
    → Finds text line rest (found_v1 text b (length line) ss)
found_v1-Finds text line rest b ss e h =
    let two : Bytes = 0x0D ∷ 0x0A ∷ [] in
    let e' : b ++ concat ss ≡ (line ++ two) ++ rest = e ∙ sym (append_assoc line two rest) in
    let (buf, q) =
      prefix b (concat ss) (line ++ two) rest e' (omega (arith, length-append line two)) in
    let q' : b ≡ line ++ (0x0D ∷ 0x0A ∷ buf) = q ∙ append_assoc line two buf in
    (
      buf,
      ss,
      ap (λ x. found_v1 text x (length line) ss) q' ∙ found_v1-line text line buf ss,
      cut line (buf ++ concat ss) rest (
          sym (append_assoc line (0x0D ∷ 0x0A ∷ buf) (concat ss))
          ∙ ap (λ x. x ++ concat ss) (sym q')
          ∙ e),
    )

pub index_crlf-prefix :
    (line rest b t : Bytes)
    → Lacks 0x0D line
    → b ++ t ≡ line ++ (0x0D ∷ 0x0A ∷ rest)
    → length line + 2 ≤ length b
    → index_crlf b ≡ some (length line)
index_crlf-prefix line rest b t l e h =
    let two : Bytes = 0x0D ∷ 0x0A ∷ [] in
    let e' : b ++ t ≡ (line ++ two) ++ rest = e ∙ sym (append_assoc line two rest) in
    let (buf, q) = prefix b t (line ++ two) rest e' (omega (arith, length-append line two)) in
    ap index_crlf (q ∙ append_assoc line two buf) ∙ index_crlf-line line buf l

pub index_crlf-short :
    (line rest b t : Bytes)
    → Lacks 0x0D line
    → b ++ t ≡ line ++ (0x0D ∷ 0x0A ∷ rest)
    → length b < length line + 2
    → index_crlf b ≡ none
index_crlf-short line rest b t l e h = elim (Option-cases (index_crlf b)) [
  | inl n ↦ n
  | inr (i, s) ↦
      let (whole, size) = index_crlf-append b t i s in
      let same : some i ≡ some (length line) =
        sym whole ∙ ap index_crlf e ∙ index_crlf-line line rest l in
      let i_line : i ≡ length line = cc same in absurd (omega (arith, size, i_line))
]

pub is_empty-HasBytes : (s : Bytes) → HasBytes s → is_empty s ≡ false
is_empty-HasBytes [] h = absurd (omega (arith, h))
is_empty-HasBytes (c ∷ s) h = refl

-- Reading a line that fits, from any segments with bytes: the loop ends with the line found.
pub read_line-Finds :
    (text : IpText) (line rest b : Bytes) (ss : List Bytes) (last : IoError)
    → Lacks 0x0D line
    → All HasBytes ss
    → b ++ concat ss ≡ line ++ (0x0D ∷ 0x0A ∷ rest)
    → length line + 2 ≤ 107
    → Finds text line rest (read_line text b ss last)
unfolding read_line
read_line-Finds text line rest b [] last l h e n = elim (dec_lt (length b) (length line + 2)) [
  | no long ↦
      let i = index_crlf-prefix line rest b [] l e (omega (arith, long)) in
      Finds-of text line rest (rw (i, read_line) refl)
        (found_v1-Finds text line rest b [] e (omega (arith, long)))
  | yes p ↦
      let size = ap (length {A = ℕ}) (sym (append-nil b) ∙ e) in
      absurd (omega (arith, size, p, length-append line (0x0D ∷ 0x0A ∷ rest)))
]
read_line-Finds text line rest b (s ∷ ss) last l h e n =
    elim (dec_lt (length b) (length line + 2)) [
      | no long ↦
          let i = index_crlf-prefix line rest b (s ++ concat ss) l e (omega (arith, long)) in
          Finds-of text line rest (rw (i, read_line) refl)
            (found_v1-Finds text line rest b (s ∷ ss) e (omega (arith, long)))
      | yes p ↦
          let room = 107 - length b in
          let i = index_crlf-short line rest b (s ++ concat ss) l e p in
          let below : leb 107 (length b) ≡ false = ground arith in
          let bytes = is_empty-HasBytes s h.0 in
          elim (Bool-cases (leb (length s) room)) [
            | inl fits ↦
                let e' = append_assoc b s (concat ss) ∙ e in
                Finds-of text line rest (rw (i, read_line, below, bytes, fits) refl)
                  (read_line-Finds text line rest (b ++ s) ss last l h.1 e' n)
            | inr over ↦
                let full = b ++ take room s in
                let size : length (take room s) ≡ room = length-take_eq room s (ground arith) in
                let long : length line + 2 ≤ length full =
                  omega (arith, length-append b (take room s), size, n) in
                let e' : full ++ concat (drop room s ∷ ss) ≡ line ++ (0x0D ∷ 0x0A ∷ rest) =
                  regroup b (take room s) (drop room s ++ concat ss) (s ++ concat ss)
                    (split-concat room s ss)
                  ∙ e in
                let j = index_crlf-prefix line rest full (drop room s ++ concat ss) l e' long in
                Finds-of text line rest (rw (i, read_line, below, bytes, over, j) refl)
                  (found_v1-Finds text line rest full (drop room s ∷ ss) e' long)
          ]
    ]

-- Looking for the line end in the first 107 bytes of the array, and reading on if it is not there.
pub serve_v1-Finds :
    (text : IpText) (line rest b : Bytes) (ss : List Bytes) (last : IoError)
    → Lacks 0x0D line
    → All HasBytes ss
    → b ++ concat ss ≡ line ++ (0x0D ∷ 0x0A ∷ rest)
    → length line + 2 ≤ 107
    → Finds text line rest (serve_v1 text b ss last)
unfolding serve_v1
serve_v1-Finds text line rest b ss last l h e n =
    let padded = b ++ zeros 107 in
    let window = take 107 padded in
    let whole : window ++ drop 107 padded ≡ padded = take-drop 107 padded in
    elim (dec_lt (length b) (length line + 2)) [
      | no f ↦
          let long : length line + 2 ≤ length b = omega (arith, f) in
          let two : Bytes = 0x0D ∷ 0x0A ∷ [] in
          let e' = e ∙ sym (append_assoc line two rest) in
          let (x, q) =
            prefix b (concat ss) (line ++ two) rest e' (omega (arith, length-append line two)) in
          let starts : window ++ drop 107 padded ≡ line ++ (0x0D ∷ 0x0A ∷ (x ++ zeros 107)) =
            whole
            ∙ ap (λ y. y ++ zeros 107) (q ∙ append_assoc line two x)
            ∙ append_assoc line (0x0D ∷ 0x0A ∷ x) (zeros 107) in
          let size : length window ≡ 107 =
            length-take_eq 107 padded
              (omega (arith, length-append b (zeros 107), length-zeros 107)) in
          let i =
            index_crlf-prefix line (x ++ zeros 107) window (drop 107 padded) l starts
              (omega (arith, size, n)) in
          Finds-of text line rest (rw (i, serve_v1) refl)
            (found_v1-Finds text line rest b ss e long)
      | yes p ↦
          let i = window-none b (index_crlf-short line rest b (concat ss) l e p) in
          let below : leb 107 (length b) ≡ false = ground arith in
          Finds-of text line rest (rw (i, serve_v1, below) refl)
            (read_line-Finds text line rest b ss last l h e n)
    ]
  where
    window-none : (b : Bytes) → index_crlf b ≡ none → index_crlf (take 107 (b ++ zeros 107)) ≡ none
    window-none b e = elim (Option-cases (index_crlf (take 107 (b ++ zeros 107)))) [
      | inl n ↦ n
      | inr (i, s) ↦
          let (w, size) =
            index_crlf-append (take 107 (b ++ zeros 107)) (drop 107 (b ++ zeros 107)) i s in
          let same : some i ≡ none =
            sym w ∙ ap index_crlf (take-drop 107 (b ++ zeros 107)) ∙ index_crlf-zeros b 107 ∙ e in
          absurd (cc same)
    ]

-- Any stream whose bytes begin with a line that fits: parseProxyProto finds the line.
pub parse-Finds :
    (text : IpText) (word rest : Bytes) (ss : List Bytes) (last : IoError)
    → let line = proxy_word ++ word in
      Lacks 0x0D word
      → All HasBytes ss
      → concat ss ≡ line ++ (0x0D ∷ 0x0A ∷ rest)
      → 12 ≤ length line
      → length line + 2 ≤ 107
      → Finds text line rest (parse_proxy_proto text (record { segments = ss; last = last }))
unfolding parse_proxy_proto
parse-Finds text word rest ss last l h e m n =
    let line = proxy_word ++ word in
    let size : 14 ≤ length (concat ss) =
      omega (arith, ap (length {A = ℕ}) e, length-append line (0x0D ∷ 0x0A ∷ rest), m) in
    let r = read_at_least-Reads 14 256 [] ss last h size (omega arith) in
    let (b, err, ss') = read_at_least 14 256 [] ss last in
    let e1 : b ++ concat ss' ≡ line ++ (0x0D ∷ 0x0A ∷ rest) = r.kept ∙ e in
    let e2 = e1 ∙ append_assoc proxy_word word (0x0D ∷ 0x0A ∷ rest) in
    let (x, q) =
      prefix b (concat ss') proxy_word (word ++ (0x0D ∷ 0x0A ∷ rest)) e2
        (omega (arith, r.enough)) in
    let starts : has_prefix b proxy_word ≡ true =
      ap (λ y. has_prefix y proxy_word) q ∙ has_prefix-append proxy_word x in
    let no_cr : Lacks 0x0D line = All-append (λ c. c ≢ 0x0D) proxy_word word (omega arith) l in
    let triple : read_at_least 14 256 [] ss last ≡ (b, none, ss') =
      ap (λ x. (b, x, ss')) r.no_error in
    Finds-of text line rest (ap (choose_version text last) triple ∙ rw starts refl)
      (serve_v1-Finds text line rest b ss' last no_cr r.segments e1 n)
