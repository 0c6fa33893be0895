-- ===== src/Net/Stream/Laws.antt =====
-- What reading leaves: the bytes read and those still to come are those that were there.
use netx.Base.{
  ℕ, ◌+◌, ◌-◌, ◌≤◌, ◌<◌, ◌≡◌, refl, sym, ap, ◌∙◌, inl, inr, List, [], ◌∷◌, ◌++◌, Option, none,
  arith, leb, Bytes, append-nil, append_assoc, length, take, drop, true, length-take_eq, take-drop,
  length-drop, length-append, All, Bool-cases,
}
use netx.Net.Stream.{IoError, concat, read_at_least}

-- Every segment has bytes.
abbrev pub HasBytes : Bytes → Type 0
HasBytes s = 0 < length s

-- The result of a read that had `got` bytes: no error, the bytes it asked for, nothing lost.
pub record Reads (least : ℕ) (all : Bytes) (r : Bytes × Option IoError × List Bytes) : Type 0 where
  pub no_error : r.1 ≡ none
  pub enough : least ≤ length r.0
  pub kept : r.0 ++ concat r.2 ≡ all
  pub segments : All HasBytes r.2

pub regroup : (got s t more : Bytes) → s ++ t ≡ more → (got ++ s) ++ t ≡ got ++ more
regroup got s t more e = append_assoc got s t ∙ ap (λ x. got ++ x) e

pub split-concat :
    (room : ℕ) (s : Bytes) (ss : List Bytes)
    → take room s ++ (drop room s ++ concat ss) ≡ s ++ concat ss
split-concat room s ss =
    sym (append_assoc (take room s) (drop room s) (concat ss))
    ∙ ap (λ x. x ++ concat ss) (take-drop room s)

-- `io.ReadAtLeast` succeeds whatever the segments are, if there are bytes enough and room for them.
pub read_at_least-Reads :
    (least room : ℕ) (got : Bytes) (ss : List Bytes) (last : IoError)
    → All HasBytes ss
    → least ≤ length (got ++ concat ss)
    → least ≤ length got + room
    → Reads least (got ++ concat ss) (read_at_least least room got ss last)
unfolding read_at_least
read_at_least-Reads least room got [] last h e r =
    let enough : least ≤ length got = rw (append-nil got) at e in
    let t : leb least (length got) ≡ true = ground arith in
    rw t (record { no_error = refl; enough = enough; kept = refl; segments = tt })
read_at_least-Reads least room got (s ∷ ss) last h e r =
    elim (Bool-cases (leb least (length got))) [
      | inl t ↦ rw t (record { no_error = refl; enough = ground arith; kept = refl; segments = h })
      | inr f ↦ elim (Bool-cases (leb (length s) room)) [
        | inl fits ↦
            let e' : least ≤ length ((got ++ s) ++ concat ss) =
              rw (append_assoc got s (concat ss)) e in
            let r' : least ≤ length (got ++ s) + (room - length s) =
              ground (arith, length-append got s) in
            let ih = read_at_least-Reads least (room - length s) (got ++ s) ss last h.1 e' r' in
            rw (f, fits)
              (record {
                no_error = ih.no_error;
                enough = ih.enough;
                kept = ih.kept ∙ append_assoc got s (concat ss);
                segments = ih.segments;
              })
        | inr over ↦
            let long : room < length s = ground arith in
            let size : length (take room s) ≡ room = length-take_eq room s (omega arith) in
            rw (f, over)
              (record {
                no_error = refl;
                enough = omega (arith, length-append got (take room s), size, r);
                kept =
                    regroup got (take room s) (drop room s ++ concat ss) (s ++ concat ss)
                      (split-concat room s ss);
                segments = (omega (arith, length-drop room s), h.1);
              })
      ]
    ]
