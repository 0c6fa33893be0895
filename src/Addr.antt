-- ===== src/Addr.antt =====
-- addr.go and ip.go: addresses as text.
use mathlib.Core.Path.{ap₂}
use netx.Base.{
  ℕ, suc, ◌+◌, ◌≡◌, refl, Bool, true, false, ◌&&◌, not, List, [], ◌∷◌, ◌++◌, Option, none, some,
  arith, if◌then◌else◌, Bytes, codes, length, take, drop, has_prefix, join, Lacks,
  take-length-append,
}
use netx.Net.Ip.{IpText, to4}
use netx.Strconv.{ℤ, negsuc, atoi}

-- `strings.Index`; none for -1. The text sought is not empty.
unfoldable pub index_text : Bytes → Bytes → Option ℕ
unfolding has_prefix
index_text [] sep = none
index_text (c ∷ s) sep =
    if has_prefix (c ∷ s) sep
    then some 0
    else elim (index_text s sep) [ none ↦ none | some i ↦ some (suc i) ]

pub record NetAddr : Type 0 where
  pub net : Bytes
  pub addr : Bytes

abbrev pub networks : List NetAddr → List Bytes
networks [] = []
networks (a ∷ l) = a.net ∷ networks l

abbrev pub texts : List NetAddr → List Bytes
texts [] = []
texts (a ∷ l) = a.addr ∷ texts l

-- `MultiAddr`, of addresses given by their network and text: `Network` and `String`
unfoldable pub multi_addr : List NetAddr → NetAddr
unfolding join
multi_addr l = record { net = join (networks l) (codes ","); addr = join (texts l) (codes ",") }

unfoldable pub split_net_addr : Bytes → Bytes × Bytes
unfolding index_text
split_net_addr s = elim (index_text s (codes "://")) [
  | none ↦ ([], s)
  | some i ↦ (take i s, drop (i + 3) s)
]

-- `SplitAddrPort`, with `net.SplitHostPort`, none for an error.
unfoldable pub split_addr_port : (Bytes → Option (Bytes × Bytes)) → Bytes → Bytes × ℤ
split_addr_port split_host_port s = elim (split_host_port s) [
  | none ↦ (s, negsuc 0)
  | some (h, p) ↦ elim (atoi p) [ none ↦ (h, negsuc 0) | some port ↦ (h, port) ]
]

module _ (T : IpText) where
  unfoldable pub is_ip : Bytes → Bool
  is_ip s = elim (T.parse s) [ none ↦ false | some ip ↦ true ]

  unfoldable pub is_ipv4 : Bytes → Bool
  unfolding to4
  is_ipv4 s = elim (T.parse s) [
    | none ↦ false
    | some ip ↦ elim (to4 ip) [ none ↦ false | some v4 ↦ true ]
  ]

  unfoldable pub is_ipv6 : Bytes → Bool
  unfolding to4
  is_ipv6 s = elim (T.parse s) [
    | none ↦ false
    | some ip ↦ elim (to4 ip) [ none ↦ true | some v4 ↦ false ]
  ]

  -- An IP address is of one version.
  pub is_ip-versions : (s : Bytes) → (is_ipv4 s ≡ is_ip s && not (is_ipv6 s))
  unfolding is_ip is_ipv4 is_ipv6
  is_ip-versions s = ground arith

index_text-append :
    (s t : Bytes)
    → Lacks b':' s
    → index_text (s ++ (codes "://" ++ t)) (codes "://") ≡ some (length s)
unfolding index_text
index_text-append [] t h = refl
index_text-append (c ∷ s) t h = ground (arith, index_text-append s t h.1)

drop-length-add : (xs ys : Bytes) (k : ℕ) → drop (length xs + k) (xs ++ ys) ≡ drop k ys
drop-length-add [] ys k = let e : 0 + k ≡ k = omega arith in rw e
drop-length-add (x ∷ xs) ys k =
    let e : suc (length xs) + k ≡ suc (length xs + k) = omega arith in
    rw e (drop-length-add xs ys k)

-- The network and the address are read back from their text, if the network has no colon.
pub split_net_addr-append :
    (network address : Bytes)
    → Lacks b':' network
    → split_net_addr (network ++ (codes "://" ++ address)) ≡ (network, address)
unfolding split_net_addr
split_net_addr-append network address h =
    rw (index_text-append network address h, split_net_addr)
      (ap₂ (λ a b. (a, b)) (take-length-append network (codes "://" ++ address))
        (drop-length-add network (codes "://" ++ address) 3))
