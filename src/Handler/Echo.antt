-- ===== src/Handler/Echo.antt =====
-- `EchoLine` writes back each line that a client sends (handler.go).
use mathlib.Core.Path.{subst}
use netx.Base.{
  ℕ, ◌+◌, ◌≤◌, ◌≡◌, refl, sym, ap, ◌∙◌, Bool, false, List, [], ◌∷◌, ◌++◌, Option, none, some,
  if_true, Bytes, is_empty, length, arith, Lacks, append_assoc, length-append,
}
use netx.Handler.Lines.{
  LineIn, last, more, fill-fits, read_more-LineIn, settled-none, extend-text_length,
}
use netx.Handler.{
  Event, segment, timeout, LineError, Reader, consume, failed, memory, push, fill, left_over, Slice,
  found, State, settled, read_more, read_slice, Outcome, line, error, or_panic, line_of, outcome,
  wait, read_line,
}

-- A line ends with its only newline.
LineIn-ends :
    {l : Bytes} {events rest : List Event}
    → LineIn l events rest
    → (q : Bytes) × (l ≡ q ++ (b'\n' ∷ []))
LineIn-ends (last q k) = (q, refl)
LineIn-ends (more p {l = l} k i) =
    let (q, e) = LineIn-ends i in (p ++ q, ap (λ x. p ++ x) e ∙ sym (append_assoc p q (b'\n' ∷ [])))

line_of-line :
    (q : Bytes) (r : Reader)
    → r.buffered ≡ []
    → line_of (q ++ (b'\n' ∷ [])) r ≡ line (q ++ (b'\n' ∷ []))
unfolding line_of
line_of-line q r e = if_true _ _ _ (ap is_empty e) ∙ ap or_panic (extend-text_length q r.stale)

-- A line arrives behind any number of pauses.
pub data Arrives (l : Bytes) : List Event → List Event → Type 0 where
  now : {events rest : List Event} → LineIn l events rest → Arrives l events rest
  pause : {events rest : List Event} → Arrives l events rest → Arrives l (timeout ∷ events) rest

-- Lines arrive one behind another, in any pieces, none longer than the number, and then nothing.
pub data Sends (n : ℕ) : List Bytes → List Event → Type 0 where
  nothing_more : Sends n [] []
  next :
      {l : Bytes} {lines : List Bytes} {events rest : List Event}
      → Arrives l events rest
      → length l ≤ n
      → Sends n lines rest
      → Sends n (l ∷ lines) events

module _ (end : LineError) where
  read_slice-fill :
      (r : Reader) (s : Bytes) (events : List Event) (done : Bool)
      → left_over r s ≡ []
      → read_slice end (fill r s) (push (left_over r s) events) done
        ≡ read_more end r (segment s ∷ events) done
  unfolding read_slice read_more
  read_slice-fill r s events done e =
      let r' = fill r s in
      let es = push (left_over r s) events in
      let first : Option (Slice × Reader) → Slice × State = λ o. elim o [
        | some (slice, r'') ↦ (slice, record { reader = r''; events = es; done = done })
        | none ↦ read_more end r' es done
      ] in
      let second : Option (Slice × Reader) → Slice × State = λ o. elim o [
        | some (slice, r'') ↦ (slice, record { reader = r''; events = es; done = done })
        | none ↦ read_more end r' events done
      ] in
      elim (settled r') as (λ o. first o ≡ second o) [
        | some x ↦ refl
        | none ↦ ap (λ t. read_more end r' (push t events) done) e
      ]

  -- The line is read, and the reader holds nothing else.
  abbrev Lined : Reader → Bytes → List Event → Bool → Outcome × State → Type 0
  Lined r l rest done o =
      (r' : Reader) × (o ≡ (line l, record { reader = r'; events = rest; done = done }))
      × (r'.buffered ≡ [])
      × (length (memory r') ≡ length (memory r))

  wait-segment :
      (r : Reader) (s : Bytes) (events : List Event) (done : Bool)
      → length r.buffered + length s ≤ length (memory r)
      → wait end r (segment s ∷ events) done ≡ outcome (read_more end r (segment s ∷ events) done)
  unfolding wait
  wait-segment r s events done h =
      let (_, l, _) = fill-fits r s h in ap outcome (read_slice-fill r s events done l)

  wait-LineIn :
      (r : Reader) {l : Bytes} {events rest : List Event} (done : Bool)
      → LineIn l events rest
      → r.buffered ≡ []
      → length l ≤ length (memory r)
      → wait end r events done ≡ outcome (read_more end r events done)
  wait-LineIn r {rest = rest} done (last q k) z h =
      wait-segment r (q ++ (b'\n' ∷ [])) rest done (omega (arith, h, ap length z))
  wait-LineIn r done (more p {l = l} {events = events} k i) z h =
      wait-segment r p events done (omega (arith, h, ap length z, length-append p l))

  outcome-found :
      (q : Bytes) (s : State)
      → s.reader.buffered ≡ []
      → outcome (found (q ++ (b'\n' ∷ [])), s) ≡ (line (q ++ (b'\n' ∷ [])), s)
  unfolding outcome
  outcome-found q s e = ap (λ o. (o, s)) (line_of-line q s.reader e)

  wait-line :
      (r : Reader) {l : Bytes} {events rest : List Event} (done : Bool)
      → LineIn l events rest
      → r.buffered ≡ []
      → length l ≤ length (memory r)
      → Lined r l rest done (wait end r events done)
  wait-line r {l = l} {rest = rest} done i z h =
      let empty : Lacks b'\n' r.buffered = subst (Lacks b'\n') (sym z) tt in
      let (r', o, z', n) = read_more-LineIn end r done i empty (omega (arith, h, ap length z)) in
      let (q, e) = LineIn-ends i in
      let s : State = record { reader = r'; events = rest; done = done } in
      let whole : r.buffered ++ l ≡ q ++ (b'\n' ∷ []) = ap (λ b. b ++ l) z ∙ e in
      let slice : Bytes → Slice × State = λ x. (found x, s) in
      let got : Bytes → Outcome × State = λ x. (line x, s) in
      (
        r',
        wait-LineIn r done i z h
            ∙ ap outcome (o ∙ ap slice whole)
            ∙ outcome-found q s z'
            ∙ ap got (sym e),
        z',
        n,
      )

  wait-Arrives :
      (r : Reader) {l : Bytes} {events rest : List Event}
      → Arrives l events rest
      → r.buffered ≡ []
      → length l ≤ length (memory r)
      → Lined r l rest false (wait end r events false)
  unfolding wait
  wait-Arrives r (now i) z h = wait-line r false i z h
  wait-Arrives r (pause a) z h = wait-Arrives r a z h

  -- A state with nothing buffered, before the context is done.
  abbrev pub waiting : Reader → List Event → State
  waiting r events = record { reader = r; events = events; done = false }

  read_line-waiting :
      (r : Reader) (events : List Event)
      → r.buffered ≡ []
      → read_line end (waiting r events) ≡ wait end r events false
  unfolding read_line
  read_line-waiting r events z = if_true _ _ _ (ap is_empty z)

  -- The next line that is sent is read.
  pub read_line-Sends :
      (r : Reader) {l : Bytes} {events rest : List Event}
      → Arrives l events rest
      → r.buffered ≡ []
      → length l ≤ length (memory r)
      → (r' : Reader) × (read_line end (waiting r events) ≡ (line l, waiting r' rest))
        × (r'.buffered ≡ [])
        × (length (memory r') ≡ length (memory r))
  read_line-Sends r {events = events} a z h =
      let (r', o, z', m) = wait-Arrives r a z h in (r', read_line-waiting r events z ∙ o, z', m)

  pub read_line-nothing :
      (r : Reader)
      → r.buffered ≡ []
      → 1 ≤ length (memory r)
      → (read_line end (waiting r [])).0 ≡ error end
  unfolding wait read_slice read_more outcome
  read_line-nothing r z h =
      let pick : Option (Slice × Reader) → Slice × State = λ o. elim o [
        | some (slice, r') ↦ (slice, record { reader = r'; events = []; done = false })
        | none ↦ read_more end r [] false
      ] in
      let empty : Lacks b'\n' r.buffered = subst (Lacks b'\n') (sym z) tt in
      let nothing = settled-none r empty (omega (arith, h, ap length z)) in
      let s : State = record {
        reader = consume (length r.buffered) r;
        events = [];
        done = false;
      } in
      ap (λ x. x.0) (read_line-waiting r [] z)
      ∙ ap (λ o. (outcome (pick o)).0) nothing
      ∙ ap (λ b. (outcome (failed b end, s)).0) z
