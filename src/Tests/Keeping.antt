-- ===== src/Tests/Keeping.antt =====
-- Runs of a server's connection over a writer in memory, and its theorem at an input.
use netx.Base.{◌≡◌, refl, false, [], ◌∷◌, List, none, Bytes, codes, bytes_eq}
use netx.Httpx.Header.{canonical, canonical_from, values, get, set}
use netx.Httpx.Lex.{is_token, header_values_contains_token}
use netx.Httpx.Proto.{connection_upgrade, copy_header}
use netx.Httpx.Server.Chunk.{
  hex, hex_digits, hex_digit, unsent, write_chunk, flush, fill, write_loop, write, close,
}
use netx.Httpx.Server.Response.{
  body_mode, write_head, write_header, write_body, write_response, close_response, flush_body,
  flush_response, reset,
}
use netx.Httpx.Server.Serve.Handles.{heads, writes, done}
use netx.Httpx.Server.Serve.Spent.{serve_conn-first}
use netx.Httpx.Server.Serve.{
  Request, Handler, base_header, proto_equal, persist, select_handler, finish_response, serve_http,
  serve_requests, serve_conn,
}
use netx.Strconv.{decimal, decimal_digits}
use netx.Tests.Responses.{texts, flusher, no_header}
use netx.Tests.Serving.{memory}

abbrev plain : Request
plain = record { header = no_header; close = false; proto = codes "HTTP/1.1"; major = 1; minor = 1 }

-- It answers each request with the same text.
abbrev greeter : Handler memory texts flusher
greeter req res =
    (false, (write_response memory texts (codes "hi") (write_header memory texts 200 res)).2)

abbrev conn : List Request → Bytes
conn reqs = (serve_conn memory texts flusher greeter none (codes "netx") 0 reqs (codes "")).w

answer : conn (plain ∷ []) ≡ codes "HTTP/1.1 200 OK\r\nH\r\n\r\n2\r\nhi\r\n0\r\n\r\n"
unfolding serve_conn serve_requests serve_http select_handler finish_response persist proto_equal
    base_header values connection_upgrade write_header write_response write_body write_head
    body_mode flush_response flush_body close_response close write write_loop fill flush write_chunk
    unsent hex hex_digits hex_digit decimal decimal_digits set bytes_eq get
    header_values_contains_token copy_header reset
answer = refl

refused :
    ((serve_http memory texts flusher greeter none
        (record plain { header = set no_header (codes "Expect") (codes "100-continue") })
        (record {
          status = 0;
          header = no_header;
          w = [];
          proto = codes "HTTP/1.1";
          err = none;
          remain = 0;
          has_body = false;
          chunked = false;
          b = [];
        })).1.status
      ≡ 417)
unfolding serve_http select_handler finish_response values connection_upgrade write_header
    write_response write_body write_head body_mode flush_response flush_body close_response close
    flush write_chunk unsent hex hex_digits hex_digit decimal decimal_digits set bytes_eq canonical
    canonical_from is_token
refused = refl

serve_conn-first_example : conn (plain ∷ plain ∷ []) ≡ conn (plain ∷ [])
serve_conn-first_example =
    serve_conn-first memory texts flusher greeter none (codes "netx") 0 plain (plain ∷ [])
      (codes "") (λ req res. heads 200 (writes (codes "hi") done)) tt
