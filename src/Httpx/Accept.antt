-- ===== src/Httpx/Accept.antt =====
-- httpx/accept.go, the Accept header: items, their order, the parser and the negotiation.
pub mod Order
pub mod Choice
pub mod Parse
use netx.Base.{
  ℕ, zero, suc, ◌+◌, ◌≡◌, refl, Bool, true, false, not, ◌&&◌, List, [], ◌∷◌, ◌++◌, Option, none,
  some, ◌==◌, ltb, if◌then◌else◌, Bytes, codes, length, is_empty, bytes_eq,
}
use netx.Httpx.Float.{Float32}
use netx.Httpx.Media.{
  MediaParam, MediaRange, MediaType, parse_media_range, parse_media_type, contains, media_type_less,
  format_params,
}
use netx.Httpx.Quote.{split_trim_ows}
use netx.Httpx.Result.{Result, ok, err, ◌>>=◌, or_error, Error, invalid_accept}
use netx.Httpx.Sort.{Sort}

pub record AcceptItem (F : Float32) : Type 0 where
  pub typ : Bytes
  pub sub : Bytes
  pub q : F.Value
  pub params : List MediaParam
  pub extens : List MediaParam

-- The loop of `ParseAcceptItem`: the parameters before the first `q`, its value, and those behind
-- it.
unfoldable pub find_q : List MediaParam → Option (List MediaParam × (Bytes × List MediaParam))
find_q [] = none
find_q (p ∷ ps) =
    if bytes_eq p.name (b'q' ∷ [])
    then some ([], (p.value, ps))
    else (elim (find_q ps) [ none ↦ none | some (before, rest) ↦ some (p ∷ before, rest) ])

-- The loop of `Accept.Negotiate` over the offered types, for one item: the first that the item
-- contains. A type that does not parse is passed over.
unfoldable pub first_match : MediaType → List Bytes → Option Bytes
first_match t1 [] = none
first_match t1 (typ ∷ types) =
    let rest = first_match t1 types in
    elim (parse_media_type typ) [ err _ ↦ rest | ok t2 ↦ if contains t1 t2 then some typ else rest ]

module _ (F : Float32) where
  open F use {Value, parse, one, print, less}

  abbrev pub media_type : AcceptItem F → MediaType
  media_type acc = record { typ = acc.typ; sub = acc.sub }

  unfoldable pub format_item : AcceptItem F → Bytes
  format_item item =
      item.typ
      ++ (b'/'
          ∷ (item.sub
              ++ (format_params item.params
                  ++ (codes ";q=" ++ (print item.q ++ format_params item.extens)))))

  unfoldable pub format_accept : List (AcceptItem F) → Bytes
  format_accept [] = []
  format_accept (a ∷ []) = format_item a
  format_accept (a ∷ b ∷ l) = format_item a ++ (codes ", " ++ format_accept (b ∷ l))

  unfoldable pub parse_accept_item : Bytes → Result (AcceptItem F)
  unfolding find_q parse_media_range bytes_eq
  parse_accept_item s = do
    r ← or_error (parse_media_range s) (invalid_accept s)
    elim (find_q r.params) [
      | none ↦ ok (record { typ = r.typ; sub = r.sub; q = one; params = r.params; extens = [] })
      | some (before, (value, after)) ↦
          ok (record { typ = r.typ; sub = r.sub; q = parse value; params = before; extens = after })
    ]

  -- The loop over the items of a header that is not empty.
  unfoldable pub choose : List (AcceptItem F) → List Bytes → Option Bytes
  choose [] types = none
  choose (acc ∷ accept) types =
      let rest = choose accept types in
      elim (first_match (media_type acc) types) [ none ↦ rest | some typ ↦ some typ ]

  unfoldable pub negotiate_accept : List (AcceptItem F) → List Bytes → Bytes
  unfolding choose first_match
  negotiate_accept accept [] = []
  negotiate_accept accept (t ∷ types) = elim (choose accept (t ∷ types)) [
    | none ↦ t
    | some typ ↦ typ
  ]

  -- The tests of `Accept.Less` behind those on the quality.
  unfoldable pub name_less : AcceptItem F → AcceptItem F → Bool
  name_less ai aj =
      if bytes_eq ai.typ aj.typ && bytes_eq ai.sub aj.sub
      then ltb (length aj.params + length aj.extens) (length ai.params + length ai.extens)
      else if not (bytes_eq ai.typ aj.typ)
      then media_type_less ai.typ aj.typ
      else media_type_less ai.sub aj.sub

  -- `Accept.Less`
  unfoldable pub accept_less : AcceptItem F → AcceptItem F → Bool
  accept_less ai aj =
      if less aj.q ai.q then true else if less ai.q aj.q then false else name_less ai aj

  -- The loop of `ParseAccept`: each round cuts off one item, so that the length of the text is
  -- enough fuel. On an error the items read so far are returned with it.
  unfoldable pub parse_items : ℕ → List (AcceptItem F) → Bytes → List (AcceptItem F) × Option Error
  parse_items fuel accept [] = (accept, none)
  parse_items zero accept (c ∷ s) = (accept, some (invalid_accept (c ∷ s)))
  parse_items (suc fuel) accept (c ∷ s) =
      let (head, tail) = split_trim_ows (c ∷ s) b',' in
      elim (parse_accept_item head) [
        | err e ↦ (accept, some e)
        | ok item ↦ parse_items fuel (accept ++ (item ∷ [])) tail
      ]

  module _ (S : Sort (AcceptItem F)) where
    -- The items are sorted only when there was no error.
    abbrev pub sort_items : List (AcceptItem F) × Option Error → List (AcceptItem F) × Option Error
    sort_items (accept, none) = (S.sort accept_less accept, none)
    sort_items (accept, some e) = (accept, some e)

    unfoldable pub parse_accept : Bytes → List (AcceptItem F) × Option Error
    unfolding parse_items parse_accept_item accept_less name_less
    parse_accept s = sort_items (parse_items (length s) [] s)

    -- The function `Negotiate`, which drops the error.
    unfoldable pub negotiate : Bytes → List Bytes → Bytes
    unfolding parse_accept negotiate_accept
    negotiate accept types = negotiate_accept (parse_accept accept).0 types
