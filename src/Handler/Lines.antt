-- ===== src/Handler/Lines.antt =====
-- A line that arrives in any pieces is read whole (handler.go).
use mathlib.Core.Path.{subst}
use netx.Base.{
  ℕ, zero, suc, ◌+◌, ◌≤◌, ◌<◌, ◌==◌, ◌≡◌, refl, sym, ap, ◌∙◌, Bool, List, [], ◌∷◌, ◌++◌, Option,
  none, some, if◌then◌else◌, Bytes, index_byte, length, take, drop, arith, Lacks, length-append,
  index_byte-Lacks, index_byte-append, append_assoc, length-drop,
}
use netx.Handler.{
  Event, segment, LineError, Reader, memory, push, fill, left_over, consume, Slice, found, is_full,
  State, settled, read_more, text_length, extend,
}

extend-cons :
    (c : ℕ) (m : Bytes) (n : ℕ) (l : Bytes)
    → extend m n ≡ some l
    → extend (c ∷ m) (suc n) ≡ some (c ∷ l)
unfolding extend
extend-cons c m n l h =
    let e : suc n + 1 ≡ suc (n + 1) = omega arith in
    let e' : suc n + 2 ≡ suc (n + 2) = omega arith in ground (arith, e, e')

-- The newline and a carriage return before it are taken back into the line.
pub extend-text_length :
    (q stale : Bytes)
    → extend ((q ++ (b'\n' ∷ [])) ++ stale) (text_length (q ++ (b'\n' ∷ [])))
      ≡ some (q ++ (b'\n' ∷ []))
unfolding extend text_length
extend-text_length [] stale = refl
extend-text_length (c ∷ []) stale = ground arith
extend-text_length (c ∷ d ∷ []) stale =
    extend-cons c (d ∷ b'\n' ∷ stale) (text_length (d ∷ b'\n' ∷ [])) (d ∷ b'\n' ∷ [])
      (extend-text_length (d ∷ []) stale)
extend-text_length (c ∷ d ∷ e ∷ q) stale =
    let l = d ∷ e ∷ (q ++ (b'\n' ∷ [])) in
    extend-cons c (l ++ stale) (text_length l) l (extend-text_length (d ∷ e ∷ q) stale)

-- The pieces in which a line arrives, before other events: none of them but the last has a newline.
pub data LineIn : Bytes → List Event → List Event → Type 0 where
  last :
      (q : Bytes) {events : List Event}
      → Lacks b'\n' q
      → LineIn (q ++ (b'\n' ∷ [])) (segment (q ++ (b'\n' ∷ [])) ∷ events) events
  more :
      (p : Bytes) {l : Bytes} {events rest : List Event}
      → Lacks b'\n' p
      → LineIn l events rest
      → LineIn (p ++ l) (segment p ∷ events) rest

pub take-all : (n : ℕ) (xs : Bytes) → length xs ≤ n → take n xs ≡ xs
take-all zero [] h = refl
take-all (suc n) [] h = refl
take-all zero (x ∷ xs) h = absurd (omega (arith, h))
take-all (suc n) (x ∷ xs) h = ap (λ l. x ∷ l) (take-all n xs (omega (arith, h)))

pub drop-all : (n : ℕ) (xs : Bytes) → length xs ≤ n → drop n xs ≡ []
drop-all zero [] h = refl
drop-all (suc n) [] h = refl
drop-all zero (x ∷ xs) h = absurd (omega (arith, h))
drop-all (suc n) (x ∷ xs) h = drop-all n xs (omega (arith, h))

-- A segment that fits is buffered whole.
pub fill-fits :
    (r : Reader) (s : Bytes)
    → length r.buffered + length s ≤ length (memory r)
    → ((fill r s).buffered ≡ r.buffered ++ s)
      × (left_over r s ≡ [])
      × (length (memory (fill r s)) ≡ length (memory r))
unfolding fill
fill-fits r s h =
    let tail = drop (length r.buffered) (memory r) in
    let n = length-drop (length r.buffered) (memory r) in
    let fits : length s ≤ length tail = omega (arith, h, n) in
    let whole = take-all (length tail) s fits in
    (
      ap (λ x. r.buffered ++ x) whole,
      drop-all (length tail) s fits,
      omega (
        arith,
        h,
        n,
        length-append (r.buffered ++ take (length tail) s) (drop (length s) tail),
        length-append r.buffered (take (length tail) s),
        ap length whole,
        length-drop (length s) tail,
      ),
    )

pub settled-none :
    (r : Reader) → Lacks b'\n' r.buffered → length r.buffered < length (memory r) → settled r ≡ none
unfolding settled
settled-none r k h =
    let pick : Option ℕ → Option (Slice × Reader) = λ o. elim o [
      | some i ↦ some (found (take (i + 1) r.buffered), consume (i + 1) r)
      | none ↦
          if length r.buffered == length (memory r)
          then some (is_full, consume (length r.buffered) r)
          else none
    ] in
    ap pick (index_byte-Lacks r.buffered b'\n' k) ∙ ground arith

-- The reader when all that was buffered is read.
abbrev emptied : Reader → Reader
emptied r = consume (length r.buffered) r

settled-found :
    (r : Reader) (x : Bytes)
    → Lacks b'\n' x
    → r.buffered ≡ x ++ (b'\n' ∷ [])
    → settled r ≡ some (found (x ++ (b'\n' ∷ [])), emptied r)
unfolding settled
settled-found r x k e =
    let i = ap (λ b. index_byte b b'\n') e ∙ index_byte-append x b'\n' [] k in
    let n : length x + 1 ≡ length r.buffered =
      omega (arith, ap length e, length-append x (b'\n' ∷ [])) in
    let pick : Option ℕ → Option (Slice × Reader) = λ o. elim o [
      | some i ↦ some (found (take (i + 1) r.buffered), consume (i + 1) r)
      | none ↦
          if length r.buffered == length (memory r)
          then some (is_full, consume (length r.buffered) r)
          else none
    ] in
    let result : ℕ → Option (Slice × Reader) = λ m. some (found (take m r.buffered), consume m r) in
    let given : Bytes → Option (Slice × Reader) = λ l. some (found l, emptied r) in
    ap pick i ∙ ap result n ∙ ap given (take-all (length r.buffered) r.buffered (omega arith) ∙ e)

emptied-empty :
    (r : Reader) → ((emptied r).buffered ≡ []) × (length (memory (emptied r)) ≡ length (memory r))
unfolding consume
emptied-empty r =
    let b = r.buffered in
    let k = length b in
    (
      drop-all k b (omega arith),
      omega (
        arith,
        length-append (r.front ++ take k b) (drop k b ++ r.stale),
        length-append r.front (take k b),
        length-append (drop k b) r.stale,
        length-append r.front (b ++ r.stale),
        length-append b r.stale,
        ap length (take-all k b (omega arith)),
        ap length (drop-all k b (omega arith)),
      ),
    )

Lacks-append : (p q : Bytes) → Lacks b'\n' p → Lacks b'\n' q → Lacks b'\n' (p ++ q)
Lacks-append [] q h k = k
Lacks-append (c ∷ p) q h k = (h.0, Lacks-append p q h.1 k)

module _ (end : LineError) where
  -- When the first segment fits, the line is that of what is buffered with the segment, or more is
  -- read.
  read_more-found :
      (r : Reader) (s x : Bytes) (events : List Event) (done : Bool)
      → length r.buffered + length s ≤ length (memory r)
      → Lacks b'\n' x
      → r.buffered ++ s ≡ x ++ (b'\n' ∷ [])
      → read_more end r (segment s ∷ events) done ≡ (
        found (x ++ (b'\n' ∷ [])),
        record { reader = emptied (fill r s); events = events; done = done },
      )
  unfolding read_more
  read_more-found r s x events done h k e =
      let (b, l, m) = fill-fits r s h in
      let more = read_more end (fill r s) events done in
      let pick : Option (Slice × Reader) → Slice × State = λ o. elim o [
        | some (slice, r'') ↦
            (slice, record { reader = r''; events = push (left_over r s) events; done = done })
        | none ↦ more
      ] in
      let given : Bytes → Slice × State = λ t. (
        found (x ++ (b'\n' ∷ [])),
        record { reader = emptied (fill r s); events = push t events; done = done },
      ) in
      ap pick (settled-found (fill r s) x k (b ∙ e)) ∙ ap given l

  read_more-more :
      (r : Reader) (s : Bytes) (events : List Event) (done : Bool)
      → length r.buffered + length s < length (memory r)
      → Lacks b'\n' r.buffered
      → Lacks b'\n' s
      → read_more end r (segment s ∷ events) done ≡ read_more end (fill r s) events done
  unfolding read_more
  read_more-more r s events done h k k' =
      let (b, l, m) = fill-fits r s (omega (arith, h)) in
      let more = read_more end (fill r s) events done in
      let pick : Option (Slice × Reader) → Slice × State = λ o. elim o [
        | some (slice, r'') ↦
            (slice, record { reader = r''; events = push (left_over r s) events; done = done })
        | none ↦ more
      ] in
      ap pick (
        settled-none (fill r s) (subst (Lacks b'\n') (sym b) (Lacks-append r.buffered s k k'))
          (omega (arith, h, m, ap length b, length-append r.buffered s)))

  pub LineIn-length : {l : Bytes} {events rest : List Event} → LineIn l events rest → 1 ≤ length l
  LineIn-length (last q k) = omega (arith, length-append q (b'\n' ∷ []))
  LineIn-length (more p {l = l} k i) = omega (arith, length-append p l, LineIn-length i)

  -- What is read from the pieces of a line: the bytes that were buffered and the line.
  abbrev pub Reads : Reader → Bytes → List Event → Bool → Slice × State → Type 0
  Reads r l rest done o =
      (r' : Reader) × (o ≡ (found l, record { reader = r'; events = rest; done = done }))
      × (r'.buffered ≡ [])
      × (length (memory r') ≡ length (memory r))

  pub read_more-LineIn :
      (r : Reader) {l : Bytes} {events rest : List Event} (done : Bool)
      → LineIn l events rest
      → Lacks b'\n' r.buffered
      → length r.buffered + length l ≤ length (memory r)
      → Reads r (r.buffered ++ l) rest done (read_more end r events done)
  read_more-LineIn r {rest = rest} done (last q k') k h =
      let s = q ++ (b'\n' ∷ []) in
      let fits : length r.buffered + length s ≤ length (memory r) = omega (arith, h) in
      let e = sym (append_assoc r.buffered q (b'\n' ∷ [])) in
      let (_, _, m) = fill-fits r s fits in
      let (z, n) = emptied-empty (fill r s) in
      let given : Bytes → Slice × State =
        λ l. (found l, record { reader = emptied (fill r s); events = rest; done = done }) in
      (
        emptied (fill r s),
        read_more-found r s (r.buffered ++ q) rest done fits (Lacks-append r.buffered q k k') e
            ∙ ap given (sym e),
        z,
        n ∙ m,
      )
  read_more-LineIn r {rest = rest} done (more p {l = l} {events = events} k' i) k h =
      let fits : length r.buffered + length p < length (memory r) =
        omega (arith, h, length-append p l, LineIn-length i) in
      let (b, _, m) = fill-fits r p (omega (arith, fits)) in
      let k'' = subst (Lacks b'\n') (sym b) (Lacks-append r.buffered p k k') in
      let (r', o, z, n) =
        read_more-LineIn (fill r p) done i k''
          (omega (arith, h, m, ap length b, length-append r.buffered p, length-append p l)) in
      let given : Bytes → Slice × State =
        λ l. (found l, record { reader = r'; events = rest; done = done }) in
      (
        r',
        read_more-more r p events done fits k k'
            ∙ o
            ∙ ap given (ap (λ x. x ++ l) b ∙ append_assoc r.buffered p l),
        z,
        n ∙ m,
      )
