-- ===== src/Tests/Accepting.antt =====
-- Runs of a server's accept loop, with numbers for the connections.
use mathlib.Core.List.{Perm}
use netx.Base.{ℕ, suc, ◌+◌, ◌≤◌, ◌≡◌, ◌⊎◌, refl, true, false, [], ◌∷◌, Option, none, length}
use netx.Server.Quiet.{Steps-no_error}
use netx.Server.Shutdown.{Steps-shutdown}
use netx.Server.Start.{Steps-returned}
use netx.Server.{
  backoff, Server, start, arrives, ends, handles, cancels, selecting, returned, gone, closes_conns,
  closes_errs, leaves, stops, takes_conn, ends_conns, ends_errs, exits, cancels_all, joins, returns,
  Step, own, outside, Steps, here, later,
}

backoff_runs : (backoff 0 ≡ 0) × (backoff 3 ≡ 90) × (backoff 11 ≡ 1000)
unfolding backoff
backoff_runs = (refl, refl, refl)

-- A connection is accepted and served, and the context is done.
abbrev serving : Server ℕ Unit
serving = record (start ℕ Unit) { accepted = 7 ∷ []; running = 7 ∷ []; cancelled = true }

serving-Steps : Steps ℕ Unit 3 (start ℕ Unit) serving
serving-Steps =
    later
      (later (later here (outside (arrives 7 0 refl refl)))
        (own (takes_conn true true 7 refl refl)))
      (outside (cancels refl))

-- Then the listener is closed.
abbrev stopping : Server ℕ Unit
stopping = record serving { main = selecting false true true; closed = true }

serving-stopping : Steps ℕ Unit 1 serving stopping
serving-stopping = later here (own (stops true true refl refl))

stopping-Steps : Steps ℕ Unit 4 (start ℕ Unit) stopping
stopping-Steps = later serving-Steps (own (stops true true refl refl))

-- `Serve` has returned.
abbrev stopped : Server ℕ Unit
stopped = record (start ℕ Unit) {
  main = returned none;
  acceptor = gone;
  cancelled = true;
  closed = true;
  accepted = 7 ∷ [];
  served = 7 ∷ [];
}

left-Steps :
    {n : ℕ} {s : Server ℕ Unit}
    → Steps ℕ Unit n s stopping
    → Steps ℕ Unit (suc (suc (suc (suc (suc (suc (suc (suc (suc (suc (suc n))))))))))) s stopped
left-Steps r =
    later
      (later
        (later
          (later
            (later
              (later
                (later
                  (later
                    (later (later (later r (outside (ends 0 refl))) (own (closes_conns refl)))
                      (own (ends_conns false true refl refl)))
                    (own (closes_errs refl)))
                  (own (ends_errs false false refl refl)))
                (own (leaves refl)))
              (own (exits false refl)))
            (own (cancels_all none refl)))
          (outside (handles 7 [] [] refl)))
        (own (joins none refl refl refl)))
      (own (returns none refl))

Steps-returned_example :
    Perm {A = ℕ} (7 ∷ []) (7 ∷ [])
    × (stopped.running ≡ [])
    × (stopped.acceptor ≡ gone)
    × (stopped.closed ≡ true)
Steps-returned_example = Steps-returned ℕ Unit (left-Steps stopping-Steps) refl

Steps-shutdown_example :
    (11 ≤ 18 + length stopping.running)
    × (((u : Server ℕ Unit) × Step ℕ Unit stopped u)
        ⊎ ((r : Option Unit) × (stopped.main ≡ returned r)))
Steps-shutdown_example = Steps-shutdown ℕ Unit stopping-Steps refl (left-Steps here)

abbrev no_error : Option (Unit {0})
no_error = none

Steps-no_error_example : no_error ≡ none
Steps-no_error_example = Steps-no_error ℕ Unit refl tt refl (left-Steps serving-stopping) refl
