-- ===== src/Httpx/Retry.antt =====
-- `RetryHandler` of httpx/retry.go: a handler is called again while it fails.
pub mod Attempt
pub mod Last
pub mod Transport
use netx.Base.{
  ℕ, zero, suc, ◌+◌, Bool, true, false, not, ◌||◌, [], ◌++◌, Option, none, some, ltb, leb, ◌==◌,
  if◌then◌else◌, Bytes, is_empty, length,
}
use netx.Httpx.Header.{Header}
use netx.Httpx.Proto.{copy_header, is_idempotent, is_retriable}

-- The operations of the `http.ResponseWriter` that the handler was called with.
pub record Responder (Fault : Type 0) : Type 1 where
  pub State : Type 0
  pub header : State → Header
  pub set_header : Header → State → State
  pub write_header : ℕ → State → State
  pub write : Bytes → State → ℕ × (Option Fault × State)

-- What the sub-handler does in one call: it changes the header, calls `WriteHeader`, calls `Write`
-- and goes on with what that returns, or gets bytes of the request's body.
pub data Program (Fault : Type 0) : Type 0 where
  stop : Program Fault
  edit_header : (Header → Header) → Program Fault → Program Fault
  put_header : ℕ → Program Fault → Program Fault
  put_bytes : Bytes → (ℕ → Option Fault → Program Fault) → Program Fault
  read_body : ℕ → Program Fault → Program Fault

abbrev pub default_max_attempts : ℕ
default_max_attempts = 10

-- `MaxAttempts`, or its default.
abbrev pub max_of : ℕ → ℕ
max_of max_attempts = if max_attempts == 0 then default_max_attempts else max_attempts

module _ {Fault : Type 0} (R : Responder Fault) where
  open R use {State, header, set_header, write_header, write}

  -- `retryResponseWriter`, with `w` the state of the embedded response writer; `n` is the count of
  -- the bytes read in `retryRequestBody`, which the calls share.
  pub record RetryWriter : Type 0 where
    pub w : State
    pub status : ℕ
    pub fields : Header
    pub buffer : Bytes
    pub n : ℕ

  -- `copyHeader(w.ResponseWriter.Header(), h)`
  abbrev pub send_header : Header → State → State
  send_header h w = set_header (copy_header (header w) h) w

  -- `WriteHeader`
  unfoldable pub retry_header : ℕ → RetryWriter → RetryWriter
  retry_header status res =
      let kept : RetryWriter = record res { status = status } in
      if res.status == 0
      then (if ltb status 500
          then record kept { w = write_header status (send_header res.fields res.w) }
          else kept)
      else res

  -- `Write`, when the header is written; the buffer takes everything.
  unfoldable pub retry_bytes : Bytes → RetryWriter → ℕ × (Option Fault × RetryWriter)
  retry_bytes b res =
      let (k, (e, w')) = write b res.w in
      if leb 500 res.status
      then (length b, (none, record res { buffer = res.buffer ++ b }))
      else (k, (e, record res { w = w' }))

  -- `Write`
  unfoldable pub retry_write : Bytes → RetryWriter → ℕ × (Option Fault × RetryWriter)
  unfolding retry_header retry_bytes
  retry_write b res = retry_bytes b (retry_header 200 res)

  -- A call of the sub-handler.
  unfoldable pub call : Program Fault → RetryWriter → RetryWriter
  call stop res = res
  call (edit_header f p) res = call p (record res { fields = f res.fields })
  call (put_header status p) res = call p (retry_header status res)
  call (put_bytes b p) res = let (k, (e, res')) = retry_write b res in call (p k e) res'
  call (read_body k p) res = call p (record res { n = res.n + k })

  -- The writer at the start of an attempt.
  abbrev pub start_attempt : ℕ → State → RetryWriter
  start_attempt n w = record { w = w; status = 0; fields = λ name. none; buffer = []; n = n }

  -- The status, the header and the buffered body go to the original writer.
  unfoldable pub respond : RetryWriter → State
  respond res =
      let status = if res.status == 0 then 503 else res.status in
      let w' = write_header status (send_header res.fields res.w) in
      if is_empty res.buffer then w' else (write res.buffer w').1.1

  -- Whether a failed attempt is the last, before the attempts are counted.
  abbrev pub gives_up : Bytes → RetryWriter → Bool
  gives_up method res =
      not (res.n == 0) || not (is_retriable res.status) || not (is_idempotent method)

  -- The loop of `ServeHTTP`, with what the sub-handler does in each attempt, whether the pause
  -- after an attempt fails, the method and the bytes read of the body: the attempt that is the last,
  -- and the original writer. As many rounds as attempts are left are enough fuel.
  unfoldable pub attempts :
      ℕ → ℕ → (ℕ → Program Fault) → (ℕ → Bool) → Bytes → ℕ → ℕ → State → ℕ × State
  attempts zero max handler sleep method attempt n w = (attempt, w)
  attempts (suc fuel) max handler sleep method attempt n w =
      let res = call (handler attempt) (start_attempt n w) in
      let next = attempts fuel max handler sleep method (attempt + 1) res.n res.w in
      if ltb res.status 500
      then (attempt, res.w)
      else if gives_up method res || leb max (attempt + 1) || sleep (attempt + 1)
      then (attempt, respond res)
      else next

  -- `ServeHTTP`
  unfoldable pub serve_retry : ℕ → (ℕ → Program Fault) → (ℕ → Bool) → Bytes → State → ℕ × State
  serve_retry max_attempts handler sleep method w =
      attempts (max_of max_attempts) (max_of max_attempts) handler sleep method 0 0 w
