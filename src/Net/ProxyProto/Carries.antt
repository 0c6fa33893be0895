-- ===== src/Net/ProxyProto/Carries.antt =====
-- The addresses that version 2 of the header carries, and the parts of the header (proxy.go).
use netx.Base.{
  ℕ, zero, suc, ◌+◌, ◌-◌, ◌*◌, ◌/◌, ◌%◌, ◌≤◌, ◌<◌, ◌≡◌, refl, sym, ap, ◌∙◌, [], ◌∷◌, ◌++◌, none,
  some, arith, ◌==◌, false, Bool, Bytes, is_empty, append-nil, length, take, drop, length-append,
  length-take_eq, length-drop, Lacks,
}
use netx.Net.Ip.{Addr, tcp, udp, unix, to4, to16, v4_prefix}
use netx.Net.ProxyProto.Binary.{socket_number, Parts, command}
use netx.Net.ProxyProto.Encode.{
  append_v2, address_fields, fields, ip_fields, put_port, name_field, zeros,
}
use netx.Net.ProxyProto.Line.{length-zeros}
use netx.Net.ProxyProto.Parse.{Socket, make_addr, make_ip, until_zero, uint16, unix_net}
use netx.Net.ProxyProto.{signature}
use netx.Strconv.{pos, wrap}

-- The addresses that version 2 can carry, and what they are read back as: an IPv4 address in its
-- form of 16 bytes, all else as it was.
pub data Carries : Addr → Addr → Addr → Addr → Type 0 where
  tcp_inet :
      {s d s4 d4 : Bytes} {p q : ℕ}
      → to4 s ≡ some s4
      → to4 d ≡ some d4
      → p < 65536
      → q < 65536
      → Carries
          (tcp s (pos p))
          (tcp d (pos q))
          (tcp (v4_prefix ++ s4) (pos p))
          (tcp (v4_prefix ++ d4) (pos q))
  udp_inet :
      {s d s4 d4 : Bytes} {p q : ℕ}
      → to4 s ≡ some s4
      → to4 d ≡ some d4
      → p < 65536
      → q < 65536
      → Carries
          (udp s (pos p))
          (udp d (pos q))
          (udp (v4_prefix ++ s4) (pos p))
          (udp (v4_prefix ++ d4) (pos q))
  tcp_inet6 :
      {s d : Bytes} {p q : ℕ}
      → to4 s ≡ none
      → length s ≡ 16
      → length d ≡ 16
      → p < 65536
      → q < 65536
      → Carries (tcp s (pos p)) (tcp d (pos q)) (tcp s (pos p)) (tcp d (pos q))
  udp_inet6 :
      {s d : Bytes} {p q : ℕ}
      → to4 s ≡ none
      → length s ≡ 16
      → length d ≡ 16
      → p < 65536
      → q < 65536
      → Carries (udp s (pos p)) (udp d (pos q)) (udp s (pos p)) (udp d (pos q))
  domain :
      {s d : Bytes} (socket : Socket)
      → Lacks 0 s
      → Lacks 0 d
      → length s ≤ 108
      → length d ≤ 108
      → Carries
          (unix (unix_net socket) s)
          (unix (unix_net socket) d)
          (unix (unix_net socket) s)
          (unix (unix_net socket) d)

-- The header of two addresses in its parts, each of which is read back.
pub record Encoded (src dst src' dst' : Addr) : Type 0 where
  pub family : ℕ
  pub socket : Socket
  pub a : Bytes
  pub d : Bytes
  pub p : Bytes
  pub q : Bytes
  pub parts : Parts family a d p q
  pub written :
      (local : Bool)
      → append_v2 [] src dst local
        ≡ some (
            signature
            ++ (command local ∷ (family * 16 + socket_number socket) ∷ (a ++ (d ++ (p ++ q)))))
  pub src_read : make_addr family socket a p ≡ some src'
  pub dst_read : (buf : Bytes) → make_addr family socket d (q ++ buf) ≡ some dst'

pub uint16-put_port :
    (n : ℕ) (buf : Bytes) → n < 65536 → uint16 (put_port (pos n) ++ buf) ≡ some (pos n)
unfolding put_port wrap
uint16-put_port n buf h =
    let e : n % 65536 / 256 * 256 + n % 65536 % 256 ≡ n = omega arith in
    ap (λ (k : ℕ). some (pos k)) e

pub length-put_port : (n : ℕ) → length (put_port (pos n)) ≡ 2
unfolding put_port
length-put_port n = refl

is_empty-length : (s : Bytes) → length s ≡ 16 → is_empty s ≡ false
is_empty-length [] h = absurd (omega (arith, h))
is_empty-length (c ∷ s) h = refl

to16-length : (s : Bytes) → length s ≡ 16 → to16 s ≡ some s
unfolding to16
to16-length s h = ground arith

pub to4-length : (ip ip4 : Bytes) → to4 ip ≡ some ip4 → (length ip4 ≡ 4) × (is_empty ip ≡ false)
unfolding to4
to4-length [] ip4 h = absurd (cc h)
to4-length (c ∷ ip) ip4 h =
    let size : length (drop 12 (c ∷ ip)) ≡ length (c ∷ ip) - 12 = length-drop 12 (c ∷ ip) in
    ground (arith, size)

-- The header for IPv4 addresses.
pub append_v2-inet :
    (src dst : Addr) (n : ℕ) (s d s4 d4 : Bytes) (p q : ℕ) (local : Bool)
    → fields src dst ≡ some (ip_fields n s d (pos p) (pos q))
    → to4 s ≡ some s4
    → to4 d ≡ some d4
    → append_v2 [] src dst local
      ≡ some (
          signature
          ++ (command local
              ∷ (1 * 16 + n)
              ∷ (s4 ++ (d4 ++ (put_port (pos p) ++ put_port (pos q))))))
unfolding append_v2 address_fields
append_v2-inet src dst n s d s4 d4 p q local f hs hd =
    rw (f, append_v2, (to4-length s s4 hs).1, hs, hd) refl

pub append_v2-inet6 :
    (src dst : Addr) (n : ℕ) (s d : Bytes) (p q : ℕ) (local : Bool)
    → fields src dst ≡ some (ip_fields n s d (pos p) (pos q))
    → to4 s ≡ none
    → length s ≡ 16
    → length d ≡ 16
    → append_v2 [] src dst local
      ≡ some (
          signature
          ++ (command local ∷ (2 * 16 + n) ∷ (s ++ (d ++ (put_port (pos p) ++ put_port (pos q))))))
unfolding append_v2 address_fields
append_v2-inet6 src dst n s d p q local f hs ls ld =
    rw (f, append_v2, is_empty-length s ls, hs, to16-length s ls, to16-length d ld) refl

pub make_ip-v4 : (ip : Bytes) → length ip ≡ 4 → make_ip ip ≡ v4_prefix ++ ip
unfolding make_ip
make_ip-v4 ip h = ground arith

pub make_ip-v6 : (ip : Bytes) → length ip ≡ 16 → make_ip ip ≡ ip
unfolding make_ip
make_ip-v6 ip h = ground arith

pub uint16-put_port_nil : (n : ℕ) → n < 65536 → uint16 (put_port (pos n)) ≡ some (pos n)
uint16-put_port_nil n h = ap uint16 (sym (append-nil (put_port (pos n)))) ∙ uint16-put_port n [] h

pub until_zero-zeros :
    (n m : ℕ) (s : Bytes) → Lacks 0 s → length s ≤ n → until_zero (take n (s ++ zeros m)) ≡ s
until_zero-zeros zero m [] l h = refl
until_zero-zeros (suc n) zero [] l h = refl
until_zero-zeros (suc n) (suc m) [] l h = refl
until_zero-zeros zero m (c ∷ s) l h = absurd (omega (arith, h))
until_zero-zeros (suc n) m (c ∷ s) l h =
    let f : (c == 0) ≡ false = ground (arith, l.0) in
    rw f (ap (λ t. c ∷ t) (until_zero-zeros n m s l.1 (omega (arith, h))))

pub length-name_field : (name : Bytes) → length (name_field name) ≡ 108
unfolding name_field
length-name_field name =
    length-take_eq 108 (name ++ zeros 108)
      (omega (arith, length-append name (zeros 108), length-zeros 108))
