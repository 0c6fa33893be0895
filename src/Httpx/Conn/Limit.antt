-- ===== src/Httpx/Conn/Limit.antt =====
-- The limit of `connReader` (httpx/conn.go).
use mathlib.Core.Path.{subst}
use netx.Base.{
  ℕ, zero, suc, ◌+◌, ◌-◌, ◌≤◌, ◌≡◌, refl, sym, Bool, true, false, List, [], ◌∷◌, ◌++◌, Option, none,
  some, if◌then◌else◌, Bytes, length, length-append, arith,
}
use netx.Httpx.Conn.{
  Reader, below, ConnReader, Outcome, gave, crashed, asked, cancel, ended, read_conn_limited,
  read_calls,
}
use netx.Strconv.{pos}

module _ {Fault : Type 0} (R : Reader Fault) where
  -- A state with a limit after bytes were read, of which there were no more than the limit.
  abbrev pub Within : ℕ → Bytes → ConnReader R → Type 0
  Within l b c = (l' : ℕ) × (c.limit ≡ pos l') × (length b + l' ≡ l)

  abbrev pub Limited : ℕ → Outcome R → Type 0
  Limited l crashed = Unit
  Limited l (gave b e c) = Within l b c

  if-Limited :
      (l : ℕ) (t : Bool) (x y : Outcome R)
      → Limited l x
      → Limited l y
      → Limited l (if t then x else y)
  if-Limited l true x y h k = h
  if-Limited l false x y h k = k

  ended-Limited :
      (l : ℕ) (b : Bytes) (e : Option Fault) (c : ConnReader R)
      → Within l b c
      → Limited l (ended R b e c)
  ended-Limited l b none c h = h
  ended-Limited l b (some e) c h =
      let stopped : ConnReader R = record c { cancelled = true } in
      if-Limited l (R.temporary e) (gave b (some (below e)) c) (cancel R b e c) h
        (if-Limited l c.cancels (gave b (some (below e)) stopped) crashed h tt)

  asked-limit : (n l : ℕ) → asked R n (pos (suc l)) ≤ suc l
  asked-limit n l = ground arith

  read_conn_limited-pos :
      (n l : ℕ) (c : ConnReader R) → Limited l (read_conn_limited R n (record c { limit = pos l }))
  unfolding read_conn_limited
  read_conn_limited-pos n zero c = (zero, refl, refl)
  read_conn_limited-pos n (suc l) c =
      let (b, (e, s)) = R.read (asked R n (pos (suc l))) c.conn in
      let p : length b ≤ suc l =
        omega (arith, R.length_read (asked R n (pos (suc l))) c.conn, asked-limit n l) in
      ended-Limited (suc l) b e (record c { conn = s; limit = pos (suc l - length b) })
        (suc l - length b, refl, omega (arith, p))

  read_conn_limited-Limited :
      (n l : ℕ) (c : ConnReader R) → c.limit ≡ pos l → Limited l (read_conn_limited R n c)
  read_conn_limited-Limited n l c h =
      subst (λ x. Limited l (read_conn_limited R n (record c { limit = x }))) (sym h)
        (read_conn_limited-pos n l c)

  -- With a limit, calls of `Read` give at most so many bytes together, and the limit that is left is
  -- lower by their number.
  pub read_calls-Within :
      (ns : List ℕ) (l : ℕ) (c : ConnReader R)
      → c.limit ≡ pos l
      → let (b, last) = read_calls R ns c in Within l b last
  unfolding read_calls
  read_calls-Within [] l c h = (l, h, omega arith)
  read_calls-Within (n ∷ ns) l c h =
      let pick : Outcome R → Bytes × ConnReader R = λ o. elim o [
        | crashed ↦ ([], c)
        | gave b e c' ↦ let (more, last) = read_calls R ns c' in (b ++ more, last)
      ] in
      let all : (o : Outcome R) → Limited l o → Within l (pick o).0 (pick o).1 = λ o.
        elim o as (λ o. Limited l o → Within l (pick o).0 (pick o).1) [
          | crashed ↦ λ _. (l, h, omega arith)
          | gave b e c' ↦ λ (l1, h1, p1).
              let (more, last) = read_calls R ns c' in
              let (l2, h2, p2) = read_calls-Within ns l1 c' h1 in
              (l2, h2, omega (arith, p1, p2, length-append b more))
        ] in
      all (read_conn_limited R n c) (read_conn_limited-Limited n l c h)
