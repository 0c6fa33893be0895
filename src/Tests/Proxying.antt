-- ===== src/Tests/Proxying.antt =====
-- Runs of the functions of httpx/proto.go, and their theorems at inputs.
use netx.Base.{
  ◌≡◌, ◌≢◌, refl, true, false, List, [], ◌∷◌, none, some, arith, Bytes, codes, bytes_eq, join,
  if◌then◌else◌,
}
use netx.Httpx.Header.{Header, canonical, get}
use netx.Httpx.Lex.{is_ows}
use netx.Httpx.Proto.Add.{add_header_value-get}
use netx.Httpx.Proto.Hop.{Deletes, IsHopField, delete_hop_fields-Deletes}
use netx.Httpx.Proto.Values.{IsValue, read_header_values-join, texts}
use netx.Httpx.Proto.Tokens.{Removed, header_values_remove_tokens-Removed}
use netx.Httpx.Proto.{
  read_header_values, header_values_remove_tokens, delete_hop_fields, add_header_value,
  is_idempotent, is_retriable, connection_upgrade,
}

names :
    (canonical (codes "x-forwarded-FOR") ≡ codes "X-Forwarded-For")
    × (canonical (codes "a b") ≡ codes "a b")
unfolding canonical
names = (refl, refl)

reads : read_header_values 9 (codes " a,,b ,c ") ≡ (codes "a" ∷ [] ∷ codes "b" ∷ codes "c" ∷ [])
unfolding read_header_values
reads = refl

-- A request of a client that asks for an upgrade.
abbrev request : Header
request key =
    if bytes_eq key (codes "Connection")
    then some (codes "upgrade, x-trace" ∷ [])
    else if bytes_eq key (codes "Upgrade")
    then some (codes "websocket" ∷ [])
    else if bytes_eq key (codes "X-Trace")
    then some (codes "1" ∷ [])
    else if bytes_eq key (codes "Accept")
    then some (codes "*/*" ∷ [])
    else none

hops :
    (delete_hop_fields request (codes "X-Trace") ≡ none)
    × (delete_hop_fields request (codes "Upgrade") ≡ none)
    × (delete_hop_fields request (codes "Accept") ≡ some (codes "*/*" ∷ []))
unfolding delete_hop_fields
hops = (refl, refl, refl)

upgrades : connection_upgrade request ≡ codes "websocket"
unfolding connection_upgrade bytes_eq
upgrades = refl

retries :
    (is_idempotent (codes "PUT") ≡ true)
    × (is_idempotent (codes "POST") ≡ false)
    × (is_retriable 503 ≡ true)
    × (is_retriable 501 ≡ false)
unfolding is_idempotent is_retriable
retries = (refl, refl, refl, refl)

delete_hop_fields-Deletes_example :
    Deletes
      (IsHopField request (codes "X-Trace"))
      request
      (delete_hop_fields request)
      (codes "X-Trace")
delete_hop_fields-Deletes_example = delete_hop_fields-Deletes request (codes "X-Trace")

a-IsValue : IsValue (codes "a")
unfolding is_ows
a-IsValue = record { nonempty = λ e. cc; no_comma = (omega arith, tt); starts = refl; ends = refl }

bc-IsValue : IsValue (codes "bc")
unfolding is_ows
bc-IsValue = record {
  nonempty = λ e. cc;
  no_comma = (omega arith, (omega arith, tt));
  starts = refl;
  ends = refl;
}

read_header_values-join_instance :
    read_header_values 5 (codes "a, bc") ≡ (codes "a" ∷ codes "bc" ∷ [])
unfolding join
read_header_values-join_instance =
    read_header_values-join (codes "a" ∷ codes "bc" ∷ []) (a-IsValue, (bc-IsValue, tt))

header_values_remove_tokens-Removed_example :
    (ms : List (List Bytes)) × (header_values_remove_tokens
        (texts ((codes "a" ∷ codes "bc" ∷ []) ∷ []))
        (codes "A" ∷ [])
      ≡ texts ms)
    × Removed (codes "A" ∷ []) ((codes "a" ∷ codes "bc" ∷ []) ∷ []) ms
header_values_remove_tokens-Removed_example =
    header_values_remove_tokens-Removed ((codes "a" ∷ codes "bc" ∷ []) ∷ []) (codes "A" ∷ [])
      ((a-IsValue, (bc-IsValue, tt)), tt)

removes :
    header_values_remove_tokens (codes "a, bc, A" ∷ codes "a" ∷ []) (codes "A" ∷ [])
    ≡ (codes "bc" ∷ [])
unfolding header_values_remove_tokens
removes = refl

add_header_value-get_instance :
    (get (add_header_value request (codes "x-trace") (codes "2")) (codes "x-trace") ≡ codes "1, 2")
    × ((key : Bytes)
        → key ≢ codes "X-Trace"
        → add_header_value request (codes "x-trace") (codes "2") key ≡ request key)
unfolding get canonical bytes_eq
add_header_value-get_instance = add_header_value-get request (codes "x-trace") (codes "2")
