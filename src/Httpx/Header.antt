-- ===== src/Httpx/Header.antt =====
-- The type `http.Header` as httpx/proto.go uses it: a map from names to lists of values.
use netx.Base.{
  ◌-◌, ◌+◌, Bool, true, List, [], ◌∷◌, Option, none, some, leb, ◌&&◌, ◌==◌, if◌then◌else◌, Bytes,
  bytes_eq,
}
use netx.Httpx.Lex.{is_token}

-- A map as the value of each name; none for a name that is not there.
abbrev pub Header : Type 0
Header = Bytes → Option (List Bytes)

-- Letters at the start and after a hyphen in upper case, the others in lower case.
unfoldable pub canonical_from : Bool → Bytes → Bytes
canonical_from upper [] = []
canonical_from upper (c ∷ s) =
    let up = if leb b'a' c && leb c b'z' then c - 32 else c in
    let low = if leb b'A' c && leb c b'Z' then c + 32 else c in
    (if upper then up else low) ∷ canonical_from (c == b'-') s

-- `http.CanonicalHeaderKey`: a name that is no token is left as it is.
unfoldable pub canonical : Bytes → Bytes
unfolding canonical_from is_token
canonical s = if is_token s then canonical_from true s else s

-- `h[name]`; no values for a name that is not there.
unfoldable pub values : Header → Bytes → List Bytes
values h name = elim (h name) [ none ↦ [] | some l ↦ l ]

abbrev pub first : List Bytes → Bytes
first [] = []
first (v ∷ l) = v

-- `h.Get(name)`
unfoldable pub get : Header → Bytes → Bytes
unfolding canonical values
get h name = first (values h (canonical name))

-- `h.Set(name, value)`
unfoldable pub set : Header → Bytes → Bytes → Header
unfolding canonical bytes_eq
set h name value key = if bytes_eq key (canonical name) then some (value ∷ []) else h key

-- `h.Del(name)`
unfoldable pub del : Header → Bytes → Header
unfolding canonical bytes_eq
del h name key = if bytes_eq key (canonical name) then none else h key
