-- ===== src/Httpx/Proto.antt =====
-- httpx/proto.go: how a proxy rewrites the headers of a request, and which requests are retried.
pub mod Add
pub mod Hop
pub mod Tokens
pub mod Values
use netx.Base.{
  ℕ, zero, suc, ◌+◌, Bool, true, false, ◌||◌, List, [], ◌∷◌, ◌++◌, Option, none, some,
  if◌then◌else◌, ◌==◌, Bytes, codes, bytes_eq, is_empty, index_byte, has_prefix, join, length, take,
  drop,
}
use netx.Httpx.Header.{Header, values, get, set, del}
use netx.Httpx.Lex.{trim_ows, token_equal, header_values_contains_token}
use netx.Httpx.Quote.{quote, format_quoted}

-- `copyHeader`: the names of `src` are set in `dst`.
unfoldable pub copy_header : Header → Header → Header
copy_header dst src name = elim (src name) [ none ↦ dst name | some l ↦ some l ]

unfoldable pub read_header_value : Bytes → Bytes × Bytes
unfolding trim_ows index_byte
read_header_value s = elim (index_byte s b',') [
  | none ↦ (trim_ows s, [])
  | some off ↦ (trim_ows (take off s), drop (off + 1) s)
]

-- The inner loop of `forEachHeaderValues`, the values in order; the length of the text is enough
-- fuel.
unfoldable pub read_header_values : ℕ → Bytes → List Bytes
unfolding read_header_value
read_header_values fuel [] = []
read_header_values zero (c ∷ a) = []
read_header_values (suc fuel) (c ∷ a) =
    let (s, tail) = read_header_value (c ∷ a) in s ∷ read_header_values fuel tail

-- The callback on one value after another, with the state that it changes.
unfoldable pub call_each {ℓ} : {S : Type ℓ} → (Bytes → S → S) → List Bytes → S → S
call_each f [] s = s
call_each f (v ∷ vs) s = call_each f vs (f v s)

-- `forEachHeaderValues`
unfoldable pub for_each_header_values {ℓ} : {S : Type ℓ} → List Bytes → (Bytes → S → S) → S → S
unfolding read_header_values call_each
for_each_header_values [] f s = s
for_each_header_values (a ∷ l) f s =
    for_each_header_values l f (call_each f (read_header_values (length a) a) s)

-- The fields that are deleted whatever `Connection` says.
abbrev pub hop_fields : List Bytes
hop_fields =
    codes "Connection"
    ∷ codes "Keep-Alive"
    ∷ codes "Proxy-Authenticate"
    ∷ codes "Proxy-Authorization"
    ∷ codes "Proxy-Connection"
    ∷ codes "Te"
    ∷ codes "Trailer"
    ∷ codes "Transfer-Encoding"
    ∷ codes "Upgrade"
    ∷ []

-- `h.Del` for one name after another.
unfoldable pub delete_all : List Bytes → Header → Header
delete_all [] h = h
delete_all (name ∷ names) h = delete_all names (del h name)

-- The callback of `deleteHopFields`.
unfoldable pub delete_named : Bytes → Header → Header
delete_named v h = if bytes_eq v (codes "close") then h else del h v

unfoldable pub delete_hop_fields : Header → Header
unfolding for_each_header_values delete_named delete_all del values
delete_hop_fields h =
    delete_all hop_fields (for_each_header_values (values h (codes "Connection")) delete_named h)

unfoldable pub make_via : Bytes → Bytes → Bytes
make_via version host = version ++ (b' ' ∷ host)

unfoldable pub add_header_value : Header → Bytes → Bytes → Header
unfolding get set
add_header_value header name value =
    let prev = get header name in
    set header name (if is_empty prev then value else prev ++ (codes ", " ++ value))

unfoldable pub add_via : Header → Bytes → Bytes → Header
unfolding add_header_value make_via
add_via header version host = add_header_value header (codes "Via") (make_via version host)

unfoldable pub connection_upgrade : Header → Bytes
unfolding values get header_values_contains_token
connection_upgrade header =
    if header_values_contains_token (values header (codes "Connection")) (codes "Upgrade")
    then get header (codes "Upgrade")
    else []

abbrev pub any_equal : Bytes → List Bytes → Bool
any_equal s [] = false
any_equal s (t ∷ tokens) = token_equal t s || any_equal s tokens

-- The loop over the values of one text in `headerValuesRemoveTokens`: those that are no token.
unfoldable pub keep_values : List Bytes → List Bytes → List Bytes
unfolding token_equal
keep_values tokens [] = []
keep_values tokens (s ∷ vs) =
    let rest = keep_values tokens vs in if any_equal s tokens then rest else s ∷ rest

unfoldable pub header_values_remove_tokens : List Bytes → List Bytes → List Bytes
unfolding read_header_values keep_values join
header_values_remove_tokens [] tokens = []
header_values_remove_tokens (v ∷ l) tokens =
    let item = keep_values tokens (read_header_values (length v) v) in
    let result = header_values_remove_tokens l tokens in
    if is_empty item then result else join item (codes ", ") ∷ result

unfoldable pub is_idempotent : Bytes → Bool
unfolding bytes_eq
is_idempotent method =
    bytes_eq method (codes "HEAD")
    || bytes_eq method (codes "GET")
    || bytes_eq method (codes "PUT")
    || bytes_eq method (codes "DELETE")
    || bytes_eq method (codes "OPTIONS")

unfoldable pub is_retriable : ℕ → Bool
is_retriable status = status == 500 || status == 502 || status == 503 || status == 504
