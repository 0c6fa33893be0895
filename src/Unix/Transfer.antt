-- ===== src/Unix/Transfer.antt =====
-- Where the descriptors of a connection are before and after it is passed on (unix.go).
use mathlib.Core.Path.{ap₂, subst}
use netx.Base.{
  ℕ, ◌||◌, ◌≡◌, refl, sym, ap, ◌∙◌, ◌⊎◌, inl, inr, Bool, true, false, List, [], ◌∷◌, ◌++◌, Option,
  none, some, if◌then◌else◌, append-nil, if_true, if_false, Bool-cases, arith,
}
use netx.Unix.{
  Process, close_fd, closed_fd, close_file, send_unix_file, send_unix_conn, messages, close_all,
  recv_unix_file, recv_unix_conn, Fault, fine, temporary, lasting, Use, closes, reads, writes,
  Wrapped, use_conn, use_all, serve_conn,
}

close_fd-same : (c : ℕ) (l : List ℕ) → close_fd c (c ∷ l) ≡ l
unfolding close_fd
close_fd-same c l = ground arith

-- A process that holds one more descriptor of a connection.
abbrev pub holding : ℕ → List ℕ → List ℕ → Process
holding c fds sent = record { open_fds = c ∷ fds; sent = sent }

closed_fd-holding :
    (c : ℕ) (fds sent : List ℕ)
    → closed_fd c (holding c fds sent) ≡ record { open_fds = fds; sent = sent }
unfolding closed_fd
closed_fd-holding c fds sent =
    let given : List ℕ → Process = λ l. record { open_fds = l; sent = sent } in
    ap given (close_fd-same c fds)

-- The connection was sent and is closed, or there is an error and it is still held.
abbrev pub Sent : ℕ → List ℕ → List ℕ → Bool × Process → Type 0
Sent c fds sent r =
    (r ≡ (false, record { open_fds = fds; sent = c ∷ sent })) ⊎ (r ≡ (true, holding c fds sent))

send_unix_conn-Sent :
    (can_dup can_send : Bool) (c : ℕ) (fds sent : List ℕ)
    → Sent c fds sent (send_unix_conn can_dup can_send c (holding c fds sent))
unfolding send_unix_conn send_unix_file close_file
send_unix_conn-Sent false can_send c fds sent = inr refl
send_unix_conn-Sent true false c fds sent =
    let given : Process → Bool × Process = λ p. (true, p) in
    inr (ap given (closed_fd-holding c (c ∷ fds) sent))
send_unix_conn-Sent true true c fds sent =
    let given : Process → Bool × Process = λ p. (false, closed_fd c p) in
    let back : Process → Bool × Process = λ p. (false, p) in
    inl (
      ap given (closed_fd-holding c (c ∷ fds) (c ∷ sent))
      ∙ ap back (closed_fd-holding c fds (c ∷ sent)))

abbrev is_lasting : Fault → Bool
is_lasting lasting = true
is_lasting _ = false

-- The handler closes the connection, or has an error on it that is not temporary.
abbrev pub spoils : List Use → Bool
spoils [] = false
spoils (closes ∷ uses) = true
spoils (reads e ∷ uses) = is_lasting e || spoils uses
spoils (writes e ∷ uses) = is_lasting e || spoils uses

-- The handler closes the connection.
abbrev pub shuts : List Use → Bool
shuts [] = false
shuts (closes ∷ uses) = true
shuts (reads e ∷ uses) = shuts uses
shuts (writes e ∷ uses) = shuts uses

-- A process that holds the connection unless it was shut, with the flags of its wrapper.
abbrev used : ℕ → List ℕ → List ℕ → Bool → Bool → Wrapped × Process
used c fds sent flag shut = (
  record { flag = flag; shut = shut },
  record { open_fds = if shut then fds else c ∷ fds; sent = sent },
)

use_conn-closes :
    (c : ℕ) (fds sent : List ℕ) (flag shut : Bool)
    → use_conn c closes (used c fds sent flag shut) ≡ used c fds sent true true
use_conn-closes c fds sent flag true = refl
use_conn-closes c fds sent flag false =
    let given : Process → Wrapped × Process = λ p. (record { flag = true; shut = true }, p) in
    ap given (closed_fd-holding c fds sent)

or_true : (b : Bool) → (b || true) ≡ true
or_true true = refl
or_true false = refl

or_false : (b : Bool) → (b || false) ≡ b
or_false true = refl
or_false false = refl

use_all-used :
    (c : ℕ) (fds sent : List ℕ) (flag shut : Bool) (uses : List Use)
    → use_all c uses (used c fds sent flag shut)
      ≡ used c fds sent (flag || spoils uses) (shut || shuts uses)
unfolding use_all
use_all-used c fds sent flag shut [] = sym (ap₂ (used c fds sent) (or_false flag) (or_false shut))
use_all-used c fds sent flag shut (closes ∷ uses) =
    ap (use_all c uses) (use_conn-closes c fds sent flag shut)
    ∙ use_all-used c fds sent true true uses
    ∙ sym (ap₂ (used c fds sent) (or_true flag) (or_true shut))
use_all-used c fds sent flag shut (reads fine ∷ uses) = use_all-used c fds sent flag shut uses
use_all-used c fds sent flag shut (reads temporary ∷ uses) = use_all-used c fds sent flag shut uses
use_all-used c fds sent flag shut (reads lasting ∷ uses) =
    use_all-used c fds sent true shut uses
    ∙ ap (λ b. used c fds sent b (shut || shuts uses)) (sym (or_true flag))
use_all-used c fds sent flag shut (writes fine ∷ uses) = use_all-used c fds sent flag shut uses
use_all-used c fds sent flag shut (writes temporary ∷ uses) = use_all-used c fds sent flag shut uses
use_all-used c fds sent flag shut (writes lasting ∷ uses) =
    use_all-used c fds sent true shut uses
    ∙ ap (λ b. used c fds sent b (shut || shuts uses)) (sym (or_true flag))

spoils-shuts : (uses : List Use) → spoils uses ≡ false → shuts uses ≡ false
spoils-shuts [] e = refl
spoils-shuts (closes ∷ uses) e = cc e
spoils-shuts (reads lasting ∷ uses) e = cc e
spoils-shuts (reads fine ∷ uses) e = spoils-shuts uses e
spoils-shuts (reads temporary ∷ uses) e = spoils-shuts uses e
spoils-shuts (writes lasting ∷ uses) e = cc e
spoils-shuts (writes fine ∷ uses) e = spoils-shuts uses e
spoils-shuts (writes temporary ∷ uses) e = spoils-shuts uses e

-- When a handler behind `SendUnixHandler` has closed the connection, or had an error on it that is
-- not temporary, nothing is sent, and the connection is held if it was not closed; otherwise it is
-- sent once and no descriptor of it is left open, or `ServeConn` panics and it is held as before.
pub serve_conn-Sent :
    (can_dup can_send : Bool) (c : ℕ) (fds sent : List ℕ) (uses : List Use)
    → ((spoils uses ≡ true)
        × (serve_conn can_dup can_send c uses (holding c fds sent)
            ≡ (false, record { open_fds = if shuts uses then fds else c ∷ fds; sent = sent })))
      ⊎ ((spoils uses ≡ false)
          × Sent c fds sent (serve_conn can_dup can_send c uses (holding c fds sent)))
unfolding serve_conn
serve_conn-Sent can_dup can_send c fds sent uses =
    let step : Wrapped × Process → Bool × Process =
      λ s. let (w, p) = s in if w.flag then (false, p) else send_unix_conn can_dup can_send c p in
    let e = ap step (use_all-used c fds sent false false uses) in
    elim (Bool-cases (spoils uses)) [
      | inl t ↦ inl (t, e ∙ if_true _ _ _ t)
      | inr f ↦
          let send : Bool → Bool × Process = λ b.
            send_unix_conn can_dup can_send c
              (record { open_fds = if b then fds else c ∷ fds; sent = sent }) in
          let same = e ∙ if_false _ _ _ f ∙ ap send (spoils-shuts uses f) in
          inr (
            f,
            subst (Sent c fds sent) (sym same) (send_unix_conn-Sent can_dup can_send c fds sent),
          )
    ]

close_all-append :
    (l fds sent : List ℕ)
    → close_all l (record { open_fds = l ++ fds; sent = sent })
      ≡ record { open_fds = fds; sent = sent }
unfolding close_all
close_all-append [] fds sent = refl
close_all-append (c ∷ l) fds sent =
    ap (close_all l) (closed_fd-holding c (l ++ fds) sent) ∙ close_all-append l fds sent

-- `RecvUnixConn` on one message with descriptors: the connection of the one descriptor that it has,
-- which is then held once, or an error, and none of the descriptors is left open.
pub recv_unix_conn-cases :
    (can_dup : Bool) (got fds sent : List ℕ)
    → let r =
        recv_unix_conn can_dup
          (messages (some got ∷ []))
          (record { open_fds = fds; sent = sent }) in
      ((c : ℕ) × (got ≡ c ∷ []) × (r ≡ (some c, holding c fds sent)))
      ⊎ (r ≡ (none, record { open_fds = fds; sent = sent }))
unfolding recv_unix_conn recv_unix_file close_file
recv_unix_conn-cases can_dup [] fds sent = inr refl
recv_unix_conn-cases true (c ∷ []) fds sent =
    let given : Process → Option ℕ × Process = λ p. (some c, p) in
    inl (c, refl, ap given (closed_fd-holding c (c ∷ fds) sent))
recv_unix_conn-cases false (c ∷ []) fds sent =
    let given : Process → Option ℕ × Process = λ p. (none, p) in
    inr (ap given (closed_fd-holding c fds sent))
recv_unix_conn-cases can_dup (c ∷ d ∷ l) fds sent =
    let got = c ∷ d ∷ l in
    let given : List ℕ → Option ℕ × Process =
      λ x. (none, close_all got (record { open_fds = x ++ fds; sent = sent })) in
    let back : Process → Option ℕ × Process = λ p. (none, p) in
    inr (ap given (append-nil got) ∙ ap back (close_all-append got fds sent))
