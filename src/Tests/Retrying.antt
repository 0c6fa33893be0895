-- ===== src/Tests/Retrying.antt =====
-- Runs of the retries over a writer that logs what it is given, and their theorems at inputs.
use netx.Base.{
  ℕ, zero, suc, ◌≡◌, refl, ◌++◌, [], ◌∷◌, true, false, none, some, Bytes, codes, length, arith,
}
use netx.Httpx.Header.{set}
use netx.Httpx.Proto.{is_idempotent, is_retriable}
use netx.Httpx.Retry.Attempt.{HasStatuses}
use netx.Httpx.Retry.Last.{Served, serve_retry-Served}
use netx.Httpx.Retry.Transport.Outcome.{Returns, round_trip-Returns, round_trip-both}
use netx.Httpx.Retry.Transport.{Reply, answered, broken, failed, trips, round_trip}
use netx.Httpx.Retry.{
  Responder, Program, stop, edit_header, put_header, put_bytes, retry_header, retry_bytes,
  retry_write, call, respond, attempts, serve_retry,
}

-- The state is what was written, with a status as a number; the header is not kept.
abbrev logger : Responder Unit
logger = record {
  State = Bytes;
  header = λ w name. none;
  set_header = λ h w. w;
  write_header = λ status w. w ++ (status ∷ []);
  write = λ b w. (length b, (none, w ++ b));
}

-- Two calls fail with 503 and a body, the third answers.
abbrev third : ℕ → Program Unit
third zero = put_header 503 (put_bytes (codes "no") (λ k e. stop))
third (suc zero) = put_header 503 (put_bytes (codes "no") (λ k e. stop))
third (suc (suc j)) = put_bytes (codes "yes") (λ k e. stop)

third_answers :
    serve_retry logger 0 third (λ j. false) (codes "GET") (codes "old ")
    ≡ (2, codes "old " ++ (200 ∷ codes "yes"))
unfolding serve_retry attempts call retry_header retry_write retry_bytes respond is_idempotent
    is_retriable
third_answers = refl

gives_up_at_two : serve_retry logger 2 third (λ j. false) (codes "GET") [] ≡ (1, 503 ∷ codes "no")
unfolding serve_retry attempts call retry_header retry_write retry_bytes respond is_idempotent
    is_retriable
gives_up_at_two = refl

post_once : serve_retry logger 0 third (λ j. false) (codes "POST") [] ≡ (0, 503 ∷ codes "no")
unfolding serve_retry attempts call retry_header retry_write retry_bytes respond is_idempotent
    is_retriable
post_once = refl

no_status :
    serve_retry logger 0
      (λ j. edit_header (λ h. set h (codes "Name") (codes "value")) stop)
      (λ j. false)
      (codes "GET")
      []
    ≡ (0, [])
unfolding serve_retry attempts call
no_status = refl

third-HasStatuses : (j : ℕ) → HasStatuses (third j)
third-HasStatuses zero = (λ e. omega (arith, e), λ k e. tt)
third-HasStatuses (suc zero) = (λ e. omega (arith, e), λ k e. tt)
third-HasStatuses (suc (suc j)) = λ k e. tt

serve_retry-Served_example :
    let (last, w') = serve_retry logger 0 third (λ j. false) (codes "GET") (codes "old ") in
    Served logger 10 third (λ j. false) (codes "GET") (codes "old ") last w'
serve_retry-Served_example =
    serve_retry-Served logger 0 third (λ j. false) (codes "GET") (codes "old ") third-HasStatuses

abbrev unavailable : ℕ → ℕ
unavailable j = 503

abbrev replies : ℕ → Reply ℕ Unit
replies zero = broken none tt 0
replies (suc zero) = answered 502 0
replies (suc (suc j)) = answered 200 4

third_reply : round_trip (λ s. s) 0 replies (λ j. false) (codes "PUT") ≡ (2, (some 200, none))
unfolding round_trip trips is_idempotent is_retriable
third_reply = refl

round_trip-Returns_example :
    let (last, (res, err)) = round_trip (λ s. s) 0 replies (λ j. false) (codes "PUT") in
    Returns (λ s. s) 10 replies (λ j. false) (codes "PUT") last res err
round_trip-Returns_example = round_trip-Returns (λ s. s) 0 replies (λ j. false) (codes "PUT")

tested : (is_idempotent (codes "GET") ≡ true) × (is_retriable 503 ≡ true)
unfolding is_idempotent is_retriable
tested = (refl, refl)

round_trip-both_example :
    let (last, (res, err)) =
      round_trip {Fault = Unit}
        (λ s. s)
        3
        (λ j. answered (unavailable j) 0)
        (λ j. false)
        (codes "GET") in
    (res ≡ some (unavailable last)) × (err ≡ some (failed 3 none))
round_trip-both_example =
    round_trip-both (λ s. s) 3 unavailable (codes "GET") tested.0 (λ j. (omega arith, tested.1))
