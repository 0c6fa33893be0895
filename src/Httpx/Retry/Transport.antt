-- ===== src/Httpx/Retry/Transport.antt =====
-- `RetryTransport` of httpx/retry.go: a request is sent again while it fails.
pub mod Outcome
use netx.Base.{
  ℕ, zero, suc, ◌+◌, Bool, true, false, not, ◌||◌, Option, none, some, leb, ltb, ◌==◌,
  if◌then◌else◌, Bytes,
}
use netx.Httpx.Proto.{is_idempotent, is_retriable}
use netx.Httpx.Retry.{max_of}

-- The errors that `RoundTrip` makes; `failed` has the number of attempts and the last error, or nil.
pub data RetryError (Fault : Type 0) : Type 0 where
  partly_sent : ℕ → RetryError Fault
  not_idempotent : RetryError Fault
  failed : ℕ → Option Fault → RetryError Fault
  cancelled : RetryError Fault

-- What one call of the sub-transport returns, and the bytes that it reads of the request's body: a
-- response without an error, or an error with a response or nil.
pub data Reply (Response Fault : Type 0) : Type 0 where
  answered : Response → ℕ → Reply Response Fault
  broken : Option Response → Fault → ℕ → Reply Response Fault

module _ {Response Fault : Type 0} where
  abbrev pub response : Reply Response Fault → Option Response
  response (answered res n) = some res
  response (broken res e n) = res

  abbrev pub error : Reply Response Fault → Option Fault
  error (answered res n) = none
  error (broken res e n) = some e

  abbrev pub bytes_read : Reply Response Fault → ℕ
  bytes_read (answered res n) = n
  bytes_read (broken res e n) = n

  module _ (status : Response → ℕ) where
    -- The loop ends with this reply.
    abbrev pub succeeds : Reply Response Fault → Bool
    succeeds (answered res n) = ltb (status res) 500 || not (is_retriable (status res))
    succeeds (broken res e n) = false

    -- The loop of `RoundTrip`, with what the sub-transport does in each attempt, whether the pause
    -- after an attempt fails, the method, and the bytes read of the body: the attempt that is the
    -- last, the response or nil, and the error or nil. As many rounds as attempts are left are
    -- enough fuel.
    unfoldable pub trips :
        ℕ
        → ℕ
        → (ℕ → Reply Response Fault)
        → (ℕ → Bool)
        → Bytes
        → ℕ
        → ℕ
        → ℕ × (Option Response × Option (RetryError Fault))
    trips zero max transport sleep method attempt n = (attempt, (none, none))
    trips (suc fuel) max transport sleep method attempt n =
        let r = transport attempt in
        let n' = n + bytes_read r in
        let next = trips fuel max transport sleep method (attempt + 1) n' in
        if succeeds r
        then (attempt, (response r, none))
        else if not (n' == 0)
        then (attempt, (response r, some (partly_sent n')))
        else if not (is_idempotent method)
        then (attempt, (response r, some not_idempotent))
        else if leb max (attempt + 1)
        then (attempt, (response r, some (failed (attempt + 1) (error r))))
        else if sleep (attempt + 1)
        then (attempt, (response r, some cancelled))
        else next

    -- `RoundTrip`
    unfoldable pub round_trip :
        ℕ
        → (ℕ → Reply Response Fault)
        → (ℕ → Bool)
        → Bytes
        → ℕ × (Option Response × Option (RetryError Fault))
    round_trip max_attempts transport sleep method =
        trips (max_of max_attempts) (max_of max_attempts) transport sleep method 0 0
