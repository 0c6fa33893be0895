-- ===== src/Httpx/Accept/Parse.antt =====
-- The loop of `ParseAccept`: it ends, and it reads the items of a comma-separated header.
use netx.Base.{
  ℕ, zero, suc, ◌≤◌, ◌<◌, ◌≡◌, ◌≢◌, refl, ap, ◌∙◌, ◌⊎◌, inl, inr, List, join, [], ◌∷◌, ◌++◌, none,
  arith, Bytes, codes, length, length-append, append_assoc, append-nil,
}
use netx.Httpx.Accept.{AcceptItem, parse_accept_item, parse_items}
use netx.Httpx.Float.{Float32}
use netx.Httpx.Lex.{trim_ows}
use netx.Httpx.Lex.Laws.{
  length-trim_ows, trim_ows-fixed, trim_ows-around, StartsTrimmed, StartsTrimmed-append,
  EndsTrimmed, EndsTrimmed-append,
}
use netx.Httpx.Quote.{split, split_trim_ows}
use netx.Httpx.Quote.Split.{split_cut, Unsplit, split-Unsplit, split-Unsplit_end}
use netx.Httpx.Result.{ok, Result-cases}

trim_ows_nil : trim_ows [] ≡ []
unfolding trim_ows
trim_ows_nil = refl

-- Each cut makes the text shorter.
pub split_trim_ows-lt :
    (c : ℕ) (s : Bytes) (b : ℕ) → length (split_trim_ows (c ∷ s) b).1 < length (c ∷ s)
split_trim_ows-lt c s b = go (split_cut (c ∷ s) b)
  where
    go :
        (split (c ∷ s) b ≡ (c ∷ s, [])) ⊎ (c ∷ s ≡ (split (c ∷ s) b).0 ++ (b ∷ (split (c ∷ s) b).1))
        → length (split_trim_ows (c ∷ s) b).1 < length (c ∷ s)
    go (inl e) = unfold split_trim_ows in rw e (omega arith)
    go (inr e) =
        unfold split_trim_ows in
        omega (
          arith,
          length-trim_ows (split (c ∷ s) b).1,
          ap length e,
          length-append (split (c ∷ s) b).0 (b ∷ (split (c ∷ s) b).1),
        )

trim_blank : (t : Bytes) → StartsTrimmed t → EndsTrimmed t → trim_ows (b' ' ∷ t) ≡ t
trim_blank t st en = rw (append-nil t) at (trim_ows-around (b' ' ∷ []) t [] (inl refl, tt) tt st en)

length-zero : (s : Bytes) → length s ≡ 0 → s ≡ []
length-zero [] h = refl
length-zero (c ∷ s) h = absurd (omega arith)

module _ (F : Float32) where
  -- More fuel than the text is long changes nothing.
  pub parse_items_fuel :
      (f g : ℕ) (accept : List (AcceptItem F)) (s : Bytes)
      → length s ≤ f
      → length s ≤ g
      → parse_items F f accept s ≡ parse_items F g accept s
  unfolding parse_items
  parse_items_fuel zero zero accept [] h k = refl
  parse_items_fuel zero (suc g) accept [] h k = refl
  parse_items_fuel (suc f) zero accept [] h k = refl
  parse_items_fuel (suc f) (suc g) accept [] h k = refl
  parse_items_fuel zero g accept (c ∷ s) h k = absurd (omega arith)
  parse_items_fuel (suc f) zero accept (c ∷ s) h k = absurd (omega arith)
  parse_items_fuel (suc f) (suc g) accept (c ∷ s) h k =
      let (head, tail) = split_trim_ows (c ∷ s) b',' in
      elim (Result-cases (parse_accept_item F head)) [
        | inr (e, x) ↦ rw (x, parse_items)
        | inl (item, x) ↦
            rw (x, parse_items)
              (parse_items_fuel f g (accept ++ (item ∷ [])) tail
                (omega (arith, split_trim_ows-lt c s b','))
                (omega (arith, split_trim_ows-lt c s b',')))
      ]

  -- The texts of the items of a header, and what they are read as: none has a comma outside of
  -- quotes or white space at an end.
  pub data Reads : List Bytes → List (AcceptItem F) → Type 0 where
    nil : Reads [] []
    cons :
        {x : Bytes} {item : AcceptItem F} {xs : List Bytes} {items : List (AcceptItem F)}
        → x ≢ []
        → Unsplit b',' x
        → StartsTrimmed x
        → EndsTrimmed x
        → parse_accept_item F x ≡ ok item
        → Reads xs items
        → Reads (x ∷ xs) (item ∷ items)

  join-ne-nil :
      {x : Bytes} {xs : List Bytes} {items : List (AcceptItem F)}
      → Reads (x ∷ xs) items
      → join (x ∷ xs) (codes ", ") ≢ []
  unfolding join
  join-ne-nil (cons n u st en p nil) = n
  join-ne-nil {x = []} (cons n u st en p (cons n' u' st' en' p' r)) = absurd (n refl)
  join-ne-nil {x = c ∷ x} (cons n u st en p (cons n' u' st' en' p' r)) = λ e. cc

  header-ends :
      {xs : List Bytes} {items : List (AcceptItem F)}
      → Reads xs items
      → StartsTrimmed (join xs (codes ", ")) × EndsTrimmed (join xs (codes ", "))
  unfolding join
  header-ends nil = (tt, tt)
  header-ends (cons n u st en p nil) = (st, en)
  header-ends (cons {x = x} n u st en p (cons {x = y} {xs = ys} n' u' st' en' p' r)) =
      let rest = join (y ∷ ys) (codes ", ") in
      let ne = join-ne-nil (cons n' u' st' en' p' r) in
      let ends = (header-ends (cons n' u' st' en' p' r)).1 in
      (
        StartsTrimmed-append x (codes ", " ++ rest) n st,
        EndsTrimmed-append x (codes ", " ++ rest) (λ e. cc)
            (EndsTrimmed-append (codes ", ") rest ne ends),
      )

  parse_items-cons :
      (f : ℕ) (accept : List (AcceptItem F)) (x h t : Bytes) {item : AcceptItem F}
      → x ≢ []
      → split_trim_ows x b',' ≡ (h, t)
      → parse_accept_item F h ≡ ok item
      → parse_items F (suc f) accept x ≡ parse_items F f (accept ++ (item ∷ [])) t
  unfolding parse_items
  parse_items-cons f accept [] h t {item = item} n e p = absurd (n refl)
  parse_items-cons f accept (c ∷ s) h t {item = item} n e p =
      let p' : parse_accept_item F (split_trim_ows (c ∷ s) b',').0 ≡ ok item = rw e p in
      rw (p', parse_items) (rw e)

  parse_items_end :
      (f : ℕ) (accept : List (AcceptItem F)) → parse_items F f accept [] ≡ (accept ++ [], none)
  unfolding parse_items
  parse_items_end zero accept = rw append-nil
  parse_items_end (suc f) accept = rw append-nil

  split_last :
      (x : Bytes)
      → Unsplit b',' x
      → StartsTrimmed x
      → EndsTrimmed x
      → split_trim_ows x b',' ≡ (x, [])
  split_last x u st en =
      unfold split_trim_ows in
      rw (split-Unsplit_end x (omega arith) u, split_trim_ows, trim_ows-fixed x st en, trim_ows_nil)

  split_first :
      (x t : Bytes)
      → Unsplit b',' x
      → StartsTrimmed x
      → EndsTrimmed x
      → StartsTrimmed t
      → EndsTrimmed t
      → split_trim_ows (x ++ (b',' ∷ b' ' ∷ t)) b',' ≡ (x, t)
  split_first x t u st en st' en' =
      let e : trim_ows (b' ' ∷ t) ≡ t = trim_blank t st' en' in
      unfold split_trim_ows in
      rw (
        split-Unsplit x (b' ' ∷ t) (omega arith) (omega arith) u,
        split_trim_ows,
        trim_ows-fixed x st en,
        e,
      )

  -- A header made of item texts joined by commas is read item by item, in order and to its end.
  pub parse_items-join :
      (f : ℕ) (accept : List (AcceptItem F)) {xs : List Bytes} {items : List (AcceptItem F)}
      → Reads xs items
      → length (join xs (codes ", ")) ≤ f
      → parse_items F f accept (join xs (codes ", ")) ≡ (accept ++ items, none)
  unfolding join
  parse_items-join f accept nil h = parse_items_end f accept
  parse_items-join zero accept (cons n u st en p r) h =
      absurd (join-ne-nil (cons n u st en p r) (length-zero _ (omega arith)))
  parse_items-join (suc f) accept (cons {x = x} n u st en p nil) h =
      parse_items-cons f accept x x [] n (split_last x u st en) p
      ∙ parse_items_end f _
      ∙ rw append_assoc
  parse_items-join (suc f) accept
        (cons {x = x} {item = i} n u st en p (cons {x = y} {xs = ys} n' u' st' en' p' r)) h =
      let rest = cons n' u' st' en' p' r in
      let t = join (y ∷ ys) (codes ", ") in
      let ends = header-ends rest in
      parse_items-cons f accept (x ++ (b',' ∷ b' ' ∷ t)) x t (join-ne-nil (cons n u st en p rest))
        (split_first x t u st en ends.0 ends.1) p
      ∙ parse_items-join f (accept ++ (i ∷ [])) rest
          (omega (arith, length-append x (b',' ∷ b' ' ∷ t)))
      ∙ rw append_assoc
