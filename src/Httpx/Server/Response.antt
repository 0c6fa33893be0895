-- ===== src/Httpx/Server/Response.antt =====
-- `responseWriter` of httpx/server.go, over the buffered writer of its connection.
pub mod Round
pub mod Length
pub mod Head
pub mod Chunked
pub mod Run
use netx.Base.{
  ℕ, zero, suc, ◌+◌, ◌-◌, ◌*◌, ◌^◌, ◌≡◌, Bool, true, false, not, ◌&&◌, List, [], ◌∷◌, ◌++◌, Option,
  none, some, ltb, leb, ◌==◌, if◌then◌else◌, Bytes, codes, is_empty, length, take, drop,
}
use netx.Httpx.Header.{Header, get, set, del}
use netx.Httpx.Proto.{copy_header}
use netx.Httpx.Server.Chunk.{ChunkWriter, Wrote, put, crlf, flush, write, close}
use netx.Httpx.Server.Writer.{Writer}
use netx.Strconv.{decimal}

-- The errors that `res.err` may hold; `crashed` is the panic of `s[0]` on an empty list of values.
pub data ResponseError (Fault : Type 0) : Type 0 where
  io : Fault → ResponseError Fault
  bad_content_length : Bytes → ResponseError Fault
  content_length body_not_allowed hijacked crashed : ResponseError Fault

-- What net/http and the clock give: the text of a header and of a status, and the date.
pub record Texts : Type 0 where
  pub header_text : Header → Bytes
  pub status_text : ℕ → Bytes
  pub date : Bytes

-- `Flush` of the buffered writer: an error or none, and the new state, with the same bytes written.
pub record Flusher {Fault : Type 0} (W : Writer Fault) : Type 0 where
  pub flush_fault : W.State → Option Fault
  pub flush_next : W.State → W.State
  pub sent_flush : (w : W.State) → W.sent (flush_next w) ≡ W.sent w

-- The loop of `strconv.ParseUint(s, 10, 64)` after the value `n`: the number it returns, and
-- whether it returns an error.
unfoldable pub parse_digits : ℕ → Bytes → ℕ × Bool
parse_digits n [] = (n, false)
parse_digits n (c ∷ s) =
    let m = n * 10 + (c - b'0') in
    let rest = parse_digits m s in
    if leb b'0' c && leb c b'9'
    then (if leb (2 ^ 64) m then (2 ^ 64 - 1, true) else rest)
    else (0, true)

-- `strconv.ParseUint(s, 10, 64)`
unfoldable pub parse_uint : Bytes → ℕ × Bool
unfolding parse_digits
parse_uint s = if is_empty s then (0, true) else parse_digits 0 s

abbrev pub io_error : {Fault : Type 0} → Option Fault → Option (ResponseError Fault)
io_error none = none
io_error (some e) = some (io e)

module _ {Fault : Type 0} (W : Writer Fault) where
  open W use {State}

  -- The connection's writer is `w`; `b` holds the buffered bytes of `res.cw`, whose writer is the
  -- connection. The timeout and the request's other fields are left out.
  pub record ResponseWriter : Type 0 where
    pub status : ℕ
    pub header : Header
    pub w : State
    pub proto : Bytes
    pub err : Option (ResponseError Fault)
    pub remain : ℕ
    pub has_body : Bool
    pub chunked : Bool
    pub b : Bytes

  -- Whether a status allows a body.
  abbrev pub allows_body : ℕ → Bool
  allows_body status = leb 200 status && not (status == 204) && not (status == 304)

  -- The number read from the length in the header; the response writer fails if it is no number.
  abbrev pub with_count : Bytes → ℕ × Bool → ResponseWriter → Bool × ResponseWriter
  with_count s (n, true) res = (true, record res { remain = n; err = some (bad_content_length s) })
  with_count s (n, false) res = (false, record res { remain = n; err = none })

  -- The header has the length of the body.
  abbrev pub with_length : List Bytes → ResponseWriter → Bool × ResponseWriter
  with_length [] res = (true, record res { err = some crashed })
  with_length (s ∷ l) res = with_count s (parse_uint s) res

  -- How the body will be sent; with true if `WriteHeader` returns here.
  unfoldable pub body_mode : ResponseWriter → Bool × ResponseWriter
  unfolding set del parse_uint
  body_mode res =
      let no_body = record res {
        header = del (del res.header (codes "Transfer-Encoding")) (codes "Content-Length");
      } in
      let in_chunks = record res {
        header = set res.header (codes "Transfer-Encoding") (codes "chunked");
        chunked = true;
        b = [];
      } in
      if res.has_body
      then elim (res.header (codes "Content-Length")) [
        | none ↦ (false, in_chunks)
        | some l ↦ with_length l res
      ]
      else (false, no_body)

  module _ (T : Texts) where
    abbrev pub with_date : Header → Header
    with_date h = elim (h (codes "Date")) [ none ↦ set h (codes "Date") T.date | some l ↦ h ]

    abbrev pub status_line : ResponseWriter → Bytes
    status_line res =
        res.proto ++ (b' ' ∷ (decimal res.status ++ (b' ' ∷ (T.status_text res.status ++ crlf))))

    -- The status line, the header and an empty line, until a write fails; the header's text is taken
    -- as one write.
    unfoldable pub write_head : ResponseWriter → ResponseWriter
    write_head res =
        let h = with_date res.header in
        let (_, (e1, w1)) = put W (status_line res) res.w in
        let (_, (e2, w2)) = put W (T.header_text h) w1 in
        let (_, (e3, w3)) = put W crlf w2 in
        elim e1 [
          | some e ↦ record res { header = h; w = w1; err = some (io e) }
          | none ↦ elim e2 [
            | some e ↦ record res { header = h; w = w2; err = some (io e) }
            | none ↦ elim e3 [
              | some e ↦ record res { header = h; w = w3; err = some (io e) }
              | none ↦ record res { header = h; w = w3 }
            ]
          ]
        ]

    abbrev pub finish_header : Bool × ResponseWriter → ResponseWriter
    finish_header (true, res) = res
    finish_header (false, res) = write_head res

    -- `WriteHeader`
    unfoldable pub write_header : ℕ → ResponseWriter → ResponseWriter
    write_header status res =
        let code = if status == 0 then 200 else status in
        let started = record res { status = code; has_body = allows_body code } in
        if res.status == 0 then finish_header (body_mode started) else res

    -- The loop of `Write` for a body of a known length, with the count of the last write: what it
    -- returns and the new state, whose error it does not set when it returns at the declared length.
    -- A write without an error takes all that it is given, so two rounds are enough fuel.
    unfoldable pub write_known :
        ℕ → Bytes → ℕ → ResponseWriter → ℕ × Option (ResponseError Fault) × ResponseWriter
    write_known fuel [] n res = (n, none, record res { err = none })
    write_known zero (c ∷ b) n res = (n, none, res)
    write_known (suc fuel) (c ∷ b) n res =
        let n1 = if ltb res.remain (length (c ∷ b)) then res.remain else length (c ∷ b) in
        let (k, (e, w')) = put W (take n1 (c ∷ b)) res.w in
        let after = record res { w = w'; remain = res.remain - k } in
        let again = write_known fuel (drop k (c ∷ b)) k after in
        if res.remain == 0
        then (n, some content_length, res)
        else elim e [ some f ↦ (k, some (io f), record after { err = some (io f) }) | none ↦ again ]

    abbrev pub chunk_writer : ResponseWriter → ChunkWriter W
    chunk_writer res = record { w = res.w; b = res.b }

    abbrev pub from_chunks :
        ResponseWriter → Wrote W (ChunkWriter W) → ℕ × Option (ResponseError Fault) × ResponseWriter
    from_chunks res (n, (e, cw)) =
        (n, io_error e, record res { w = cw.w; b = cw.b; err = io_error e })

    -- `Write`, when the header is written.
    unfoldable pub write_body :
        Bytes → ResponseWriter → ℕ × Option (ResponseError Fault) × ResponseWriter
    write_body b res =
        if res.has_body
        then (if res.chunked
            then from_chunks res (write W b (chunk_writer res))
            else write_known 2 b 0 res)
        else (0, some body_not_allowed, res)

    -- `Write`
    unfoldable pub write_response :
        Bytes → ResponseWriter → ℕ × Option (ResponseError Fault) × ResponseWriter
    write_response b res = elim res.err [
      | some e ↦ (0, some e, res)
      | none ↦ write_body b (write_header 0 res)
    ]

    -- `close`
    unfoldable pub close_response : ResponseWriter → ResponseWriter
    close_response res =
        let headed = write_header 0 res in
        let (e, cw) = close W (chunk_writer headed) in
        if res.chunked
        then elim headed.err [
          | some f ↦ headed
          | none ↦ record headed { w = cw.w; b = cw.b; err = io_error e }
        ]
        else res

    module _ (F : Flusher W) where
      open F use {flush_fault, flush_next}

      abbrev pub flush_conn : ResponseWriter → ResponseWriter
      flush_conn res = record res { w = flush_next res.w; err = io_error (flush_fault res.w) }

      -- `Flush`, when the header is written.
      unfoldable pub flush_body : ResponseWriter → ResponseWriter
      flush_body res =
          let (e, cw) = flush W (chunk_writer res) in
          let flushed = record res { w = cw.w; b = cw.b; err = io_error e } in
          if res.chunked
          then elim e [ some f ↦ flushed | none ↦ flush_conn flushed ]
          else flush_conn res

      -- `Flush`
      unfoldable pub flush_response : ResponseWriter → ResponseWriter
      flush_response res =
          let headed = write_header 0 res in
          elim res.err [
            | some f ↦ res
            | none ↦ elim headed.err [ some f ↦ headed | none ↦ flush_body headed ]
          ]

      -- `Hijack`: an error and the new state; the connection is the caller's if there is none.
      unfoldable pub hijack : ResponseWriter → Option (ResponseError Fault) × ResponseWriter
      hijack res =
          let (e, cw) = flush W (chunk_writer res) in
          let flushed = record res { w = cw.w; b = cw.b } in
          let taken = λ (r : ResponseWriter). record r { status = 101; err = some hijacked } in
          elim res.err [
            | some f ↦ (some f, res)
            | none ↦
                if res.chunked
                then elim e [
                  | some f ↦ (some (io f), record flushed { err = some (io f) })
                  | none ↦ (none, taken flushed)
                ]
                else (none, taken res)
          ]

    -- `reset`
    unfoldable pub reset : Header → ResponseWriter → ResponseWriter
    reset base res = record res {
      remain = 0;
      has_body = false;
      chunked = false;
      b = [];
      proto = [];
      header = copy_header (λ name. none) base;
    }
