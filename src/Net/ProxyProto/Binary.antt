-- ===== src/Net/ProxyProto/Binary.antt =====
-- Version 2 of the header, for any family with addresses: reading its parts (proxy.go).
use mathlib.Core.Path.{subst}
use netx.Base.{
  ℕ, ◌+◌, ◌-◌, ◌*◌, ◌/◌, ◌%◌, ◌≤◌, ◌≡◌, refl, sym, ap, ◌∙◌, inl, inr, List, [], ◌∷◌, ◌++◌, none,
  arith, ltb, leb, ◌==◌, if◌then◌else◌, true, false, Bool, Bytes, append_assoc, length, take, drop,
  length-append, take-length-append, drop-length-append, All, Bool-cases,
}
use netx.Net.Ip.{IpText}
use netx.Net.ProxyProto.Line.{prefix}
use netx.Net.ProxyProto.Parse.{
  Parsed, Socket, stream, dgram, make_addr, addr_len, port_len, both, addresses_v2, serve_v2,
  filled, choose_version, parse_proxy_proto,
}
use netx.Net.ProxyProto.{signature}
use netx.Net.Stream.Laws.{HasBytes, read_at_least-Reads}
use netx.Net.Stream.{IoError, concat, read_at_least}

abbrev pub socket_number : Socket → ℕ
socket_number stream = 1
socket_number dgram = 2

-- The bytes behind the first 14, by the lengths of the family.
pub record Parts (family : ℕ) (a d p q : Bytes) : Type 0 where
  pub known : family ≤ 3
  pub size_a : length a ≡ addr_len family
  pub size_d : length d ≡ addr_len family
  pub size_p : length p ≡ port_len family
  pub size_q : length q ≡ port_len family

take-append : (n : ℕ) (a b : Bytes) → length a ≡ n → take n (a ++ b) ≡ a
take-append n a b e = ap (λ k. take k (a ++ b)) (sym e) ∙ take-length-append a b

drop-append : (n : ℕ) (a b : Bytes) → length a ≡ n → drop n (a ++ b) ≡ b
drop-append n a b e = ap (λ k. drop k (a ++ b)) (sym e) ∙ drop-length-append a b

addresses_v2-made :
    (family : ℕ) (socket : Socket) (local : Bool) (b : Bytes) (ss : List Bytes)
    → let n = addr_len family in
      let k = port_len family in
      addresses_v2 family (socket_number socket) local b ss
      ≡ both
          (make_addr family socket (take n b) (take k (drop (2 * n) b)))
          (make_addr family socket (take n (drop n b)) (drop (2 * n + k) b))
          (drop (2 * n + 2 * k) b)
          local
          ss
unfolding addresses_v2
addresses_v2-made family stream local b ss = refl
addresses_v2-made family dgram local b ss = refl

addresses_v2-Parts :
    (family : ℕ) (socket : Socket) (local : Bool) (a d p q buf : Bytes) (ss : List Bytes)
    → Parts family a d p q
    → addresses_v2 family (socket_number socket) local (a ++ (d ++ (p ++ (q ++ buf)))) ss
      ≡ both (make_addr family socket a p) (make_addr family socket d (q ++ buf)) buf local ss
addresses_v2-Parts family socket local a d p q buf ss parts =
    let n = addr_len family in
    let k = port_len family in
    let t0 = d ++ (p ++ (q ++ buf)) in
    let b = a ++ t0 in
    let e1 : take n b ≡ a = take-append n a t0 parts.size_a in
    let e2 : drop n b ≡ t0 = drop-append n a t0 parts.size_a in
    let e3 : take n t0 ≡ d = take-append n d (p ++ (q ++ buf)) parts.size_d in
    let e4 : drop (2 * n) b ≡ p ++ (q ++ buf) =
      ap (drop (2 * n)) (sym (append_assoc a d (p ++ (q ++ buf))))
      ∙ drop-append (2 * n) (a ++ d) (p ++ (q ++ buf))
          (omega (arith, length-append a d, parts.size_a, parts.size_d)) in
    let e5 : drop (2 * n + k) b ≡ q ++ buf =
      ap (drop (2 * n + k))
        (sym (append_assoc a d (p ++ (q ++ buf))) ∙ sym (append_assoc (a ++ d) p (q ++ buf)))
      ∙ drop-append (2 * n + k) ((a ++ d) ++ p) (q ++ buf) (
          omega (
            arith,
            length-append a d,
            length-append (a ++ d) p,
            parts.size_a,
            parts.size_d,
            parts.size_p,
          )) in
    let e6 : drop (2 * n + 2 * k) b ≡ buf =
      ap (drop (2 * n + 2 * k)) (
        sym (append_assoc a d (p ++ (q ++ buf)))
        ∙ sym (append_assoc (a ++ d) p (q ++ buf))
        ∙ sym (append_assoc ((a ++ d) ++ p) q buf))
      ∙ drop-append (2 * n + 2 * k) (((a ++ d) ++ p) ++ q) buf (
          omega (
            arith,
            length-append a d,
            length-append (a ++ d) p,
            length-append ((a ++ d) ++ p) q,
            parts.size_a,
            parts.size_d,
            parts.size_p,
            parts.size_q,
          )) in
    let e7 : take k (p ++ (q ++ buf)) ≡ p = take-append k p (q ++ buf) parts.size_p in
    addresses_v2-made family socket local b ss ∙ rw (e1, e2, e3, e4, e5, e6, e7) refl

length_body :
    (family : ℕ) (a d p q : Bytes)
    → Parts family a d p q
    → length (a ++ (d ++ (p ++ q))) ≡ 2 * addr_len family + 2 * port_len family
length_body family a d p q parts = omega (
  arith,
  length-append a (d ++ (p ++ q)),
  length-append d (p ++ q),
  length-append p q,
  parts.size_a,
  parts.size_d,
  parts.size_p,
  parts.size_q,
)

-- What the parser makes of the parts, up to how much was read behind them.
abbrev pub Makes : ℕ → Socket → Bool → Bytes → Bytes → Bytes → Bytes → Bytes → Parsed → Type 0
Makes family socket local a d p q rest r =
    (buf : Bytes) × (ss : List Bytes) × (r
      ≡ both (make_addr family socket a p) (make_addr family socket d (q ++ buf)) buf local ss)
    × (buf ++ concat ss ≡ rest)

Makes-of :
    (family : ℕ) (socket : Socket) (local : Bool) (a d p q rest : Bytes) {r r' : Parsed}
    → r ≡ r'
    → Makes family socket local a d p q rest r'
    → Makes family socket local a d p q rest r
Makes-of family socket local a d p q rest e m =
    subst (λ x. Makes family socket local a d p q rest x) (sym e) m

-- Enough bytes, of which the first are the parts.
addresses_v2-Makes :
    (family : ℕ) (socket : Socket) (local : Bool) (a d p q rest b : Bytes) (ss : List Bytes)
    → Parts family a d p q
    → b ++ concat ss ≡ (a ++ (d ++ (p ++ q))) ++ rest
    → 2 * addr_len family + 2 * port_len family ≤ length b
    → Makes family socket local a d p q rest (addresses_v2 family (socket_number socket) local b ss)
addresses_v2-Makes family socket local a d p q rest b ss parts e h =
    let whole = a ++ (d ++ (p ++ q)) in
    let (buf, x) =
      prefix b (concat ss) whole rest e (omega (arith, length_body family a d p q parts, h)) in
    let regrouped : b ≡ a ++ (d ++ (p ++ (q ++ buf))) = x ∙ simp append_assoc in
    let left : whole ++ (buf ++ concat ss) ≡ whole ++ rest =
      sym (append_assoc whole buf (concat ss)) ∙ ap (λ y. y ++ concat ss) (sym x) ∙ e in
    let same : buf ++ concat ss ≡ rest =
      sym (drop-length-append whole (buf ++ concat ss))
      ∙ ap (drop (length whole)) left
      ∙ drop-length-append whole rest in
    (
      buf,
      ss,
      ap (λ y. addresses_v2 family (socket_number socket) local y ss) regrouped
          ∙ addresses_v2-Parts family socket local a d p q buf ss parts,
      same,
    )

-- The byte with the version and the command.
abbrev pub command : Bool → ℕ
command local = if local then 0x20 else 0x21

command-parts :
    (local : Bool)
    → (command local / 16 ≡ 2)
      × (leb (command local % 16) 1 ≡ true)
      × ((command local % 16 == 0) ≡ local)
command-parts true = (refl, refl, refl)
command-parts false = (refl, refl, refl)

socket_number-le : (socket : Socket) → socket_number socket ≤ 2
socket_number-le stream = omega arith
socket_number-le dgram = omega arith

serve_v2-known :
    (family : ℕ) (socket : Socket) (local : Bool) (b : Bytes) (ss : List Bytes) (last : IoError)
    → family ≤ 3
    → let n1 = 2 * addr_len family + 2 * port_len family in
      let room = n1 - length b in
      serve_v2 (command local) (family * 16 + socket_number socket) b ss last ≡ (
        if ltb (length b) n1
        then filled family (socket_number socket) local b (read_at_least room room [] ss last)
        else addresses_v2 family (socket_number socket) local b ss)
unfolding serve_v2
serve_v2-known family socket local b ss last h =
    let n = socket_number socket in
    let small = socket_number-le socket in
    let (version, cmd, is_local) = command-parts local in
    let f : (family * 16 + n) / 16 ≡ family = omega (arith, small) in
    let t : (family * 16 + n) % 16 ≡ n = omega (arith, small) in
    let f_known : leb family 3 ≡ true = ground arith in
    let t_known : leb n 2 ≡ true = ground (arith, small) in
    rw (version, is_local, cmd, f, t, f_known, t_known) refl

serve_v2-Makes :
    (family : ℕ) (socket : Socket) (local : Bool) (a d p q rest b : Bytes) (ss : List Bytes)
    (last : IoError)
    → Parts family a d p q
    → All HasBytes ss
    → b ++ concat ss ≡ (a ++ (d ++ (p ++ q))) ++ rest
    → Makes family socket local a d p q rest
        (serve_v2 (command local) (family * 16 + socket_number socket) b ss last)
serve_v2-Makes family socket local a d p q rest b ss last parts h e =
    let n1 = 2 * addr_len family + 2 * port_len family in
    let room = n1 - length b in
    let whole = a ++ (d ++ (p ++ q)) in
    let known = serve_v2-known family socket local b ss last parts.known in
    elim (Bool-cases (ltb (length b) n1)) [
      | inr f ↦
          Makes-of family socket local a d p q rest (known ∙ rw f refl)
            (addresses_v2-Makes family socket local a d p q rest b ss parts e (ground arith))
      | inl t ↦
          let size : room ≤ length (concat ss) = omega (
            arith,
            ap (length {A = ℕ}) e,
            length-append b (concat ss),
            length-append whole rest,
            length_body family a d p q parts,
          ) in
          let r = read_at_least-Reads room room [] ss last h size (omega arith) in
          let (more, err, ss') = read_at_least room room [] ss last in
          let triple : read_at_least room room [] ss last ≡ (more, none, ss') =
            ap (λ x. (more, x, ss')) r.no_error in
          let e' : (b ++ more) ++ concat ss' ≡ whole ++ rest =
            append_assoc b more (concat ss') ∙ ap (λ x. b ++ x) r.kept ∙ e in
          Makes-of family socket local a d p q rest
            (known ∙ rw t (ap (filled family (socket_number socket) local b) triple))
            (addresses_v2-Makes family socket local a d p q rest (b ++ more) ss' parts e'
              (omega (arith, length-append b more, r.enough)))
    ]

-- A stream that begins with the signature and the parts, in any segments with bytes.
pub parse_proxy_proto-Makes :
    (text : IpText) (family : ℕ) (socket : Socket) (local : Bool) (a d p q rest : Bytes)
    (ss : List Bytes) (last : IoError)
    → Parts family a d p q
    → All HasBytes ss
    → concat ss
      ≡ (signature
          ++ (command local ∷ (family * 16 + socket_number socket) ∷ (a ++ (d ++ (p ++ q)))))
        ++ rest
    → Makes family socket local a d p q rest
        (parse_proxy_proto text (record { segments = ss; last = last }))
unfolding parse_proxy_proto
parse_proxy_proto-Makes text family socket local a d p q rest ss last parts h e =
    let whole = a ++ (d ++ (p ++ q)) in
    let head : Bytes = command local ∷ (family * 16 + socket_number socket) ∷ [] in
    let size : 14 ≤ length (concat ss) =
      omega (arith, ap (length {A = ℕ}) e, length-append (signature ++ (head ++ whole)) rest) in
    let r = read_at_least-Reads 14 256 [] ss last h size (omega arith) in
    let (b, err, ss') = read_at_least 14 256 [] ss last in
    let triple : read_at_least 14 256 [] ss last ≡ (b, none, ss') =
      ap (λ x. (b, x, ss')) r.no_error in
    let e1 : b ++ concat ss' ≡ (signature ++ head) ++ (whole ++ rest) = r.kept ∙ e in
    let (x, y) =
      prefix b (concat ss') (signature ++ head) (whole ++ rest) e1 (omega (arith, r.enough)) in
    let e2 : x ++ concat ss' ≡ whole ++ rest =
      ap (drop 14) (ap (λ z. z ++ concat ss') (sym y) ∙ e1) in
    Makes-of family socket local a d p q rest
      (ap (choose_version text last) triple ∙ ap (λ z. choose_version text last (z, none, ss')) y)
      (serve_v2-Makes family socket local a d p q rest x ss' last parts r.segments e2)
