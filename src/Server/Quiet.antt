-- ===== src/Server/Quiet.antt =====
-- What `Serve` returns when its context is done (server.go).
use mathlib.Core.Path.{subst}
use netx.Base.{ℕ, sym, ◌≡◌, true, Option, none, refl, Bool}
use netx.Server.{
  Acceptor, sending_err, Main, selecting, cancelling, waiting, closing, returned, Server, Outside,
  arrives, stumbles, breaks, ends, handles, cancels, Own, retries, gives_up, drops, reports,
  closes_conns, closes_errs, leaves, stops, takes_conn, takes_err, ends_conns, ends_errs, exits,
  cancels_all, joins, returns, own, outside, Steps, here, later,
}

module _ (Conn Fault : Type 0) where
  -- The result that `Serve` has settled on, if it left its loop, is no error.
  abbrev pub NoError : Main Conn Fault → Type 0
  NoError (selecting w eo co) = Unit
  NoError (cancelling r) = r ≡ none
  NoError (waiting r) = r ≡ none
  NoError (closing r) = r ≡ none
  NoError (returned r) = r ≡ none

  -- `accept` is not at the send of an error.
  abbrev pub Silent : Acceptor Conn Fault → Type 0
  Silent (sending_err e) = ⊥
  Silent _ = Unit

  pub record Quiet (s : Server Conn Fault) : Type 0 where
    pub done : s.cancelled ≡ true
    pub silent : Silent s.acceptor
    pub result : NoError s.main

  Own-Quiet : {s t : Server Conn Fault} → Own Conn Fault s t → Quiet s → Quiet t
  Own-Quiet (retries n w e) q = record { done = q.done; silent = tt; result = q.result }
  Own-Quiet (gives_up n w e c) q = record { done = q.done; silent = tt; result = q.result }
  Own-Quiet (drops x e c) q = record { done = q.done; silent = tt; result = q.result }
  Own-Quiet (reports x e c) q = cc (c, q.done)
  Own-Quiet (closes_conns e) q = record { done = q.done; silent = tt; result = q.result }
  Own-Quiet (closes_errs e) q = record { done = q.done; silent = tt; result = q.result }
  Own-Quiet (leaves e) q = record { done = q.done; silent = tt; result = q.result }
  Own-Quiet (stops x y m c) q = record { done = q.done; silent = q.silent; result = tt }
  Own-Quiet (takes_conn x y c m e) q = record { done = q.done; silent = tt; result = q.result }
  Own-Quiet (takes_err x y z m e) q = absurd (subst Silent e q.silent)
  Own-Quiet (ends_conns x y m e) q = record { done = q.done; silent = q.silent; result = tt }
  Own-Quiet (ends_errs x y m e) q = record { done = q.done; silent = q.silent; result = tt }
  Own-Quiet (exits x m) q = record { done = q.done; silent = q.silent; result = refl }
  Own-Quiet (cancels_all r m) q = record {
    done = refl;
    silent = q.silent;
    result = subst NoError m q.result;
  }
  Own-Quiet (joins r m e d) q = record {
    done = q.done;
    silent = q.silent;
    result = subst NoError m q.result;
  }
  Own-Quiet (returns r m) q = record {
    done = q.done;
    silent = q.silent;
    result = subst NoError m q.result;
  }

  Outside-Quiet : {s t : Server Conn Fault} → Outside Conn Fault s t → Quiet s → Quiet t
  Outside-Quiet (arrives c n e d) q = record { done = q.done; silent = tt; result = q.result }
  Outside-Quiet (stumbles n e d) q = record { done = q.done; silent = tt; result = q.result }
  Outside-Quiet (breaks x n e) q = record { done = q.done; silent = tt; result = q.result }
  Outside-Quiet (ends n e) q = record { done = q.done; silent = tt; result = q.result }
  Outside-Quiet (handles c xs ys e) q = record {
    done = q.done;
    silent = q.silent;
    result = q.result;
  }
  Outside-Quiet (cancels e) q = record { done = refl; silent = q.silent; result = q.result }

  Steps-Quiet : {n : ℕ} {s t : Server Conn Fault} → Steps Conn Fault n s t → Quiet s → Quiet t
  Steps-Quiet here q = q
  Steps-Quiet (later r (own o)) q = Own-Quiet o (Steps-Quiet r q)
  Steps-Quiet (later r (outside o)) q = Outside-Quiet o (Steps-Quiet r q)

  -- Once the context is done, while `accept` is not reporting an error and `Serve` is in its loop,
  -- whatever happens then, `Serve` returns no error if it returns.
  pub Steps-no_error :
      {n : ℕ} {s t : Server Conn Fault} {w eo co : Bool} {r : Option Fault}
      → s.cancelled ≡ true
      → Silent s.acceptor
      → s.main ≡ selecting w eo co
      → Steps Conn Fault n s t
      → t.main ≡ returned r
      → r ≡ none
  Steps-no_error c q m p e =
      subst NoError e
        (Steps-Quiet p (record { done = c; silent = q; result = subst NoError (sym m) tt })).result
