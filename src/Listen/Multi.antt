-- ===== src/Listen/Multi.antt =====
-- `multiListener` of listen.go: a goroutine for each listener, and `Accept` and `Close` that receive
-- from all of them, as steps on their common state.
pub mod Closing
pub mod Ending
use netx.Base.{ℕ, zero, suc, ◌+◌, ◌≡◌, Bool, true, false, List, [], ◌∷◌, ◌++◌, length}

module _ (Conn : Type 0) where
  -- Where a goroutine is: in a call of `Accept`, at the send of a connection or of an error, with
  -- whether that is temporary, or at the send on `d`. One that sent on `d` is gone.
  pub data Pump : Type 0 where
    accepting : Pump
    sending_conn : Conn → Pump
    sending_err : Bool → Pump
    exiting : Pump

  -- Whether `Close` was called: not yet, it receives, with the number of goroutines that are gone,
  -- or it closed `x`.
  pub data Phase : Type 0 where
    opened : Phase
    draining : ℕ → Phase
    finished : Phase

  -- The goroutines, those of `m.l` in all, and the connections that the listeners gave, that calls of
  -- `Accept` returned, and that `Close` closed.
  pub record Multi : Type 0 where
    pub pumps : List Pump
    pub total : ℕ
    pub phase : Phase
    pub accepted : List Conn
    pub delivered : List Conn
    pub dropped : List Conn

  abbrev pub all_accepting : ℕ → List Pump
  all_accepting zero = []
  all_accepting (suc n) = accepting ∷ all_accepting n

  -- `MultiListener`, for so many listeners.
  abbrev pub multi_listener : ℕ → Multi
  multi_listener n = record {
    pumps = all_accepting n;
    total = n;
    phase = opened;
    accepted = [];
    delivered = [];
    dropped = [];
  }

  -- Where a goroutine goes when its error is received.
  abbrev pub after_err : Bool → Pump
  after_err true = accepting
  after_err false = exiting

  -- `Close` was not called: the listeners are open. A listener that is closed gives errors only,
  -- none of them temporary.
  abbrev pub is_open : Phase → Bool
  is_open opened = true
  is_open (draining i) = false
  is_open finished = false

  pub data Step (s : Multi) : Multi → Type 0 where
    -- a listener gives a connection or an error to its goroutine
    gives :
        (c : Conn) (xs ys : List Pump)
        → s.pumps ≡ xs ++ (accepting ∷ ys)
        → is_open s.phase ≡ true
        → Step s (record s { pumps = xs ++ (sending_conn c ∷ ys); accepted = c ∷ s.accepted })
    stumbles :
        (xs ys : List Pump)
        → s.pumps ≡ xs ++ (accepting ∷ ys)
        → is_open s.phase ≡ true
        → Step s (record s { pumps = xs ++ (sending_err true ∷ ys) })
    breaks :
        (xs ys : List Pump)
        → s.pumps ≡ xs ++ (accepting ∷ ys)
        → Step s (record s { pumps = xs ++ (sending_err false ∷ ys) })
    -- a call of `Accept` receives
    delivers :
        (c : Conn) (xs ys : List Pump)
        → s.pumps ≡ xs ++ (sending_conn c ∷ ys)
        → Step s (record s { pumps = xs ++ (accepting ∷ ys); delivered = c ∷ s.delivered })
    delivers_err :
        (temporary : Bool) (xs ys : List Pump)
        → s.pumps ≡ xs ++ (sending_err temporary ∷ ys)
        → Step s (record s { pumps = xs ++ (after_err temporary ∷ ys) })
    -- `Close` closes the listeners, all in one step, receives, and closes `x`
    closes : s.phase ≡ opened → Step s (record s { phase = draining 0 })
    drops :
        (c : Conn) (i : ℕ) (xs ys : List Pump)
        → s.phase ≡ draining i
        → s.pumps ≡ xs ++ (sending_conn c ∷ ys)
        → Step s (record s { pumps = xs ++ (accepting ∷ ys); dropped = c ∷ s.dropped })
    drops_err :
        (temporary : Bool) (i : ℕ) (xs ys : List Pump)
        → s.phase ≡ draining i
        → s.pumps ≡ xs ++ (sending_err temporary ∷ ys)
        → Step s (record s { pumps = xs ++ (after_err temporary ∷ ys) })
    counts :
        (i : ℕ) (xs ys : List Pump)
        → s.phase ≡ draining i
        → s.pumps ≡ xs ++ (exiting ∷ ys)
        → Step s (record s { pumps = xs ++ ys; phase = draining (i + 1) })
    finishes : s.phase ≡ draining s.total → Step s (record s { phase = finished })

  pub data Steps : ℕ → Multi → Multi → Type 0 where
    here : {s : Multi} → Steps zero s s
    later : {n : ℕ} {s t u : Multi} → Steps n s t → Step t u → Steps (suc n) s u
