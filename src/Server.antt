-- ===== src/Server.antt =====
-- `Server` of server.go: the goroutine that accepts, the loop of `Serve`, and a goroutine for each
-- connection, as steps on their common state.
pub mod Start
pub mod Shutdown
pub mod Quiet
use netx.Base.{
  ℕ, zero, suc, ◌+◌, ◌*◌, ◌≡◌, Bool, true, false, List, [], ◌∷◌, ◌++◌, Option, none, some, ltb,
  if◌then◌else◌,
}

-- The pause in milliseconds after so many attempts.
unfoldable pub backoff : ℕ → ℕ
backoff attempt = let ms = attempt * attempt * 10 in if ltb 1000 ms then 1000 else ms

module _ (Conn Fault : Type 0) where
  -- Where `accept` is: in a call of `Accept`, in a pause, with an error, at a send on `errs` or
  -- `conns`, in its deferred calls, or at its end.
  pub data Acceptor : Type 0 where
    accepting : ℕ → Acceptor
    pausing : ℕ → ℕ → Acceptor
    failed : Fault → Acceptor
    sending_err : Fault → Acceptor
    sending_conn : Conn → Acceptor
    closing_conns closing_errs leaving gone : Acceptor

  -- Where `Serve` is: in its loop, with whether `done`, `errs` and `conns` are not nil, in its
  -- deferred calls with its result, or back.
  pub data Main : Type 0 where
    selecting : Bool → Bool → Bool → Main
    cancelling waiting closing returned : Option Fault → Main

  pub record Server : Type 0 where
    pub main : Main
    pub acceptor : Acceptor
    -- the context is done
    pub cancelled : Bool
    -- the listener is closed
    pub closed : Bool
    -- what `Accept` gave, what is served, and what was served and closed
    pub accepted : List Conn
    pub running : List Conn
    pub served : List Conn

  abbrev pub start : Server
  start = record {
    main = selecting true true true;
    acceptor = accepting 0;
    cancelled = false;
    closed = false;
    accepted = [];
    running = [];
    served = [];
  }

  -- `conns` and `errs` are closed.
  abbrev pub conns_closed : Acceptor → Bool
  conns_closed closing_errs = true
  conns_closed leaving = true
  conns_closed gone = true
  conns_closed _ = false

  abbrev pub errs_closed : Acceptor → Bool
  errs_closed leaving = true
  errs_closed gone = true
  errs_closed _ = false

  -- What the listener, the handlers and the owner of the context do. A listener that is closed gives
  -- errors only, none of them temporary.
  pub data Outside (s : Server) : Server → Type 0 where
    arrives :
        (c : Conn) (n : ℕ)
        → s.acceptor ≡ accepting n
        → s.closed ≡ false
        → Outside s (record s { acceptor = sending_conn c; accepted = c ∷ s.accepted })
    stumbles :
        (n : ℕ)
        → s.acceptor ≡ accepting n
        → s.closed ≡ false
        → Outside s (record s { acceptor = pausing n (backoff n) })
    breaks :
        (e : Fault) (n : ℕ)
        → s.acceptor ≡ accepting n
        → Outside s (record s { acceptor = failed e })
    -- the error is io.EOF in a net.OpError
    ends : (n : ℕ) → s.acceptor ≡ accepting n → Outside s (record s { acceptor = closing_conns })
    -- a handler returns or panics, and the connection is closed
    handles :
        (c : Conn) (xs ys : List Conn)
        → s.running ≡ xs ++ (c ∷ ys)
        → Outside s (record s { running = xs ++ ys; served = c ∷ s.served })
    cancels : s.cancelled ≡ false → Outside s (record s { cancelled = true })

  -- What `Serve` and `accept` do.
  pub data Own (s : Server) : Server → Type 0 where
    retries :
        (n wait : ℕ)
        → s.acceptor ≡ pausing n wait
        → Own s (record s { acceptor = accepting (n + 1) })
    gives_up :
        (n wait : ℕ)
        → s.acceptor ≡ pausing n wait
        → s.cancelled ≡ true
        → Own s (record s { acceptor = closing_conns })
    drops :
        (e : Fault)
        → s.acceptor ≡ failed e
        → s.cancelled ≡ true
        → Own s (record s { acceptor = closing_conns })
    reports :
        (e : Fault)
        → s.acceptor ≡ failed e
        → s.cancelled ≡ false
        → Own s (record s { acceptor = sending_err e })
    closes_conns : s.acceptor ≡ closing_conns → Own s (record s { acceptor = closing_errs })
    closes_errs : s.acceptor ≡ closing_errs → Own s (record s { acceptor = leaving })
    leaves : s.acceptor ≡ leaving → Own s (record s { acceptor = gone })
    stops :
        (eo co : Bool)
        → s.main ≡ selecting true eo co
        → s.cancelled ≡ true
        → Own s (record s { main = selecting false eo co; closed = true })
    takes_conn :
        (w eo : Bool) (c : Conn)
        → s.main ≡ selecting w eo true
        → s.acceptor ≡ sending_conn c
        → Own s (record s { acceptor = accepting 0; running = c ∷ s.running })
    takes_err :
        (w co : Bool) (e : Fault)
        → s.main ≡ selecting w true co
        → s.acceptor ≡ sending_err e
        → Own s (record s { main = cancelling (some e); acceptor = closing_conns })
    ends_conns :
        (w eo : Bool)
        → s.main ≡ selecting w eo true
        → conns_closed s.acceptor ≡ true
        → Own s (record s { main = selecting w eo false })
    ends_errs :
        (w co : Bool)
        → s.main ≡ selecting w true co
        → errs_closed s.acceptor ≡ true
        → Own s (record s { main = selecting w false co })
    exits :
        (w : Bool) → s.main ≡ selecting w false false → Own s (record s { main = cancelling none })
    cancels_all :
        (r : Option Fault)
        → s.main ≡ cancelling r
        → Own s (record s { main = waiting r; cancelled = true })
    joins :
        (r : Option Fault)
        → s.main ≡ waiting r
        → s.acceptor ≡ gone
        → s.running ≡ []
        → Own s (record s { main = closing r })
    returns :
        (r : Option Fault)
        → s.main ≡ closing r
        → Own s (record s { main = returned r; closed = true })

  pub data Step (s t : Server) : Type 0 where
    own : Own s t → Step s t
    outside : Outside s t → Step s t

  -- Runs of so many steps.
  pub data Steps : ℕ → Server → Server → Type 0 where
    here : {s : Server} → Steps zero s s
    later : {n : ℕ} {s t u : Server} → Steps n s t → Step t u → Steps (suc n) s u
