-- ===== src/Tests/Responses.antt =====
-- Runs of the response writer over a writer in memory, and its theorems at inputs.
use netx.Base.{
  ◌≡◌, refl, ◌++◌, true, false, if◌then◌else◌, [], ◌∷◌, none, some, Bytes, codes, length, bytes_eq,
}
use netx.Httpx.Header.{Header, set}
use netx.Httpx.Server.Chunk.Wire.{Chunks}
use netx.Httpx.Server.Chunk.{
  hex, hex_digits, hex_digit, unsent, write_chunk, flush, fill, write_loop, write, close,
}
use netx.Httpx.Server.Response.{
  ResponseWriter, Texts, Flusher, parse_uint, parse_digits, content_length, bad_content_length,
  body_mode, write_head, write_header, write_known, write_body, write_response, close_response,
  flush_body, flush_response, hijack,
}
use netx.Httpx.Server.Response.Head.{head, in_chunks}
use netx.Httpx.Server.Response.Length.{Split, write_response-Declared, write_response-all}
use netx.Httpx.Server.Response.Round.{Declared}
use netx.Httpx.Server.Response.Run.{Calls, done, wrote, flushed, close_response-Calls}
use netx.Strconv.{decimal, decimal_digits}
use netx.Tests.Serving.{memory}

abbrev pub texts : Texts
texts = record {
  header_text = λ h. codes "H\r\n";
  status_text = λ n. codes "OK";
  date = codes "today";
}

abbrev pub flusher : Flusher memory
flusher = record { flush_fault = λ w. none; flush_next = λ w. w; sent_flush = λ w. refl }

abbrev pub no_header : Header
no_header = λ name. none

abbrev fresh : Header → ResponseWriter memory
fresh h = record {
  status = 0;
  header = h;
  w = codes "old ";
  proto = codes "HTTP/1.1";
  err = none;
  remain = 0;
  has_body = false;
  chunked = false;
  b = [];
}

parses :
    (parse_uint (codes "12") ≡ (12, false))
    × (parse_uint (codes "1x") ≡ (0, true))
    × (parse_uint (codes "18446744073709551616x") ≡ (18446744073709551615, true))
    × (parse_uint [] ≡ (0, true))
unfolding parse_uint parse_digits
parses = (refl, refl, refl, refl)

abbrev headed : ResponseWriter memory
headed = write_header memory texts 0 (fresh no_header)

abbrev greeted : ResponseWriter memory
greeted = (write_response memory texts (codes "hello") headed).2

abbrev sent_on : ResponseWriter memory
sent_on = flush_response memory texts flusher greeted

abbrev ended : ResponseWriter memory
ended = close_response memory texts (write_response memory texts (codes "!") sent_on).2

ends : ended.w ≡ codes "old HTTP/1.1 200 OK\r\nH\r\n\r\n5\r\nhello\r\n1\r\n!\r\n0\r\n\r\n"
unfolding write_header write_response write_body write_head body_mode flush_response flush_body
    close_response close write write_loop fill flush write_chunk unsent hex hex_digits hex_digit
    decimal decimal_digits set bytes_eq
ends = refl

abbrev called : ResponseWriter memory
called = (write_response memory texts (codes "!") sent_on).2

calls : Calls memory texts flusher headed (codes "hello!") called
unfolding write_header write_response write_body write_head body_mode flush_response flush_body
    write write_loop fill flush write_chunk unsent hex hex_digits hex_digit decimal decimal_digits
    set bytes_eq
calls = wrote (codes "hello") 5 refl (flushed refl (wrote (codes "!") 1 refl done))

head_known : (headed.err ≡ none) × (ended.err ≡ none)
unfolding write_header write_response write_body write_head body_mode flush_response flush_body
    close_response close write write_loop fill flush write_chunk unsent hex hex_digits hex_digit
    decimal decimal_digits set bytes_eq
head_known = (refl, refl)

close_response-Calls_example :
    (wire : Bytes) × Chunks wire (codes "hello!")
    × (ended.w
        ≡ (codes "old " ++ head memory texts (in_chunks memory texts 0 (fresh no_header)))
          ++ (wire ++ codes "0\r\n\r\n"))
close_response-Calls_example =
    close_response-Calls memory texts flusher 0 (fresh no_header) called (codes "hello!") refl refl
      refl head_known.0 calls head_known.1

abbrev sized : ResponseWriter memory
sized = record (fresh no_header) { status = 200; has_body = true; remain = 3 }

sized-Declared : Declared memory texts 3 (codes "old ") [] sized
sized-Declared = record { started = refl; body = refl; mode = refl; on_wire = refl; counted = refl }

too_long :
    write_response memory texts (codes "hello") sized
    ≡ (3, some content_length, record sized { w = codes "old hel"; remain = 0 })
unfolding write_response write_body write_header write_known
too_long = refl

write_response-Declared_example :
    Split memory texts 3
      (codes "old ")
      []
      (codes "hello")
      (write_response memory texts (codes "hello") sized).2
write_response-Declared_example =
    write_response-Declared memory texts 3 (codes "old ") [] (codes "hello") sized sized-Declared

abbrev halved : ResponseWriter memory
halved = record sized { w = codes "old he"; remain = 1 }

fits : write_response memory texts (codes "he") sized ≡ (2, none, halved)
unfolding write_response write_body write_header write_known
fits = refl

write_response-all_example :
    (2 ≡ length (codes "he")) × Declared memory texts 3 (codes "old ") (codes "he") halved
write_response-all_example =
    write_response-all memory texts 3 (codes "old ") [] (codes "he") 2 sized halved sized-Declared
      fits

declares :
    (write_header memory texts 0 (
      fresh (λ name.
        if bytes_eq name (codes "Content-Length") then some (codes "3" ∷ []) else none))).remain
    ≡ 3
unfolding write_header body_mode parse_uint parse_digits bytes_eq write_head
declares = refl

refuses :
    (write_header memory texts 200 (
      fresh (λ name.
        if bytes_eq name (codes "Content-Length") then some (codes "3x" ∷ []) else none))).err
    ≡ some (bad_content_length (codes "3x"))
unfolding write_header body_mode parse_uint parse_digits bytes_eq
refuses = refl

taken_over : (hijack memory texts flusher greeted).1.status ≡ 101
unfolding write_header write_response write_body write_head body_mode hijack write write_loop fill
    flush write_chunk unsent hex hex_digits hex_digit decimal decimal_digits set bytes_eq
taken_over = refl
