-- ===== src/Tests/Addresses.antt =====
-- A text form of IP addresses: each of the 16 bytes as a visible character.
use netx.Base.{
  ◌+◌, ◌-◌, ◌≤◌, ◌≡◌, refl, ap, ◌∙◌, [], ◌∷◌, Option, none, some, arith, Bytes, length, All,
  length-append, ◌==◌, if◌then◌else◌, if_true,
}
use netx.Net.Ip.{IpText, to16, v4_prefix}

abbrev shift : Bytes → Bytes
shift [] = []
shift (c ∷ s) = (33 + c) ∷ shift s

abbrev unshift : Bytes → Bytes
unshift [] = []
unshift (c ∷ s) = (c - 33) ∷ unshift s

abbrev show_option : Option Bytes → Bytes
show_option none = []
show_option (some ip) = shift ip

unshift-shift : (s : Bytes) → unshift (shift s) ≡ s
unshift-shift [] = refl
unshift-shift (c ∷ s) =
    let e : 33 + c - 33 ≡ c = omega arith in
    ap (λ x. x ∷ unshift (shift s)) e ∙ ap (λ x. c ∷ x) (unshift-shift s)

length-shift : (s : Bytes) → length (shift s) ≡ length s
length-shift [] = refl
length-shift (c ∷ s) = omega (arith, length-shift s)

shift-All : (s : Bytes) → All (λ c. 33 ≤ c) (shift s)
shift-All [] = tt
shift-All (c ∷ s) = (omega arith, shift-All s)

to16-length : (ip ip16 : Bytes) → to16 ip ≡ some ip16 → length ip16 ≡ 16
unfolding to16
to16-length ip ip16 h = ground (arith, length-append v4_prefix ip)

pub parse_show :
    (ip ip16 : Bytes) → to16 ip ≡ some ip16 → some (unshift (show_option (to16 ip))) ≡ some ip16
parse_show ip ip16 h = rw h (ap some (unshift-shift ip16))

pub show_size : (ip ip16 : Bytes) → to16 ip ≡ some ip16 → length (show_option (to16 ip)) ≤ 39
show_size ip ip16 h = rw h (omega (arith, length-shift ip16, to16-length ip ip16 h))

pub show_visible :
    (ip ip16 : Bytes) → to16 ip ≡ some ip16 → All (λ c. 33 ≤ c) (show_option (to16 ip))
show_visible ip ip16 h = rw h (shift-All ip16)

abbrev pub shifted : IpText
shifted = record {
  show = λ ip. show_option (to16 ip);
  parse = λ s. some (unshift s);
  parse_show = parse_show;
  show_size = show_size;
  show_visible = show_visible;
}

-- The same, where only a text of 16 bytes is that of an address.
abbrev unshift_16 : Bytes → Option Bytes
unshift_16 s = if length s == 16 then some (unshift s) else none

pub unshift_16-show :
    (ip ip16 : Bytes) → to16 ip ≡ some ip16 → unshift_16 (show_option (to16 ip)) ≡ some ip16
unshift_16-show ip ip16 h = rw h (
    if_true _ none (length (shift ip16) == 16)
      (ground (arith, length-shift ip16, to16-length ip ip16 h))
    ∙ ap some (unshift-shift ip16))

abbrev pub sixteen : IpText
sixteen = record {
  show = λ ip. show_option (to16 ip);
  parse = unshift_16;
  parse_show = unshift_16-show;
  show_size = show_size;
  show_visible = show_visible;
}
