-- ===== src/Tests/Echoing.antt =====
-- Lines that are echoed, through a buffer of eight bytes.
use netx.Base.{◌≡◌, refl, Bool, true, [], ◌∷◌, Bytes, List, codes, index_byte}
use netx.Handler.Echo.{waiting}
use netx.Handler.{
  Event, segment, timeout, cancelled, eof, no_pipeline, line_too_long, Reader, returned, fatal,
  echo_line,
}

abbrev eight : Reader
eight = record { front = []; buffered = []; stale = codes "........" }

abbrev always : List Bytes → Bool
always sent = true

-- `ab` with a carriage return in two pieces, a pause, and `c`.
abbrev two_lines : List Event
two_lines = segment (codes "a") ∷ segment (codes "b\r\n") ∷ timeout ∷ segment (codes "c\n") ∷ []

-- A line that takes longer than a second is echoed in parts, each with a byte that was not sent.
parted :
    echo_line eof always 3 []
      (waiting eof eight (segment (codes "ab") ∷ timeout ∷ segment (codes "c\n") ∷ []))
    ≡ (codes "ab." ∷ codes "c\n" ∷ [], returned)
unfolding echo_line index_byte
parted = refl

-- So is one without its end.
unended :
    echo_line eof always 3 [] (waiting eof eight (segment (codes "ab") ∷ []))
    ≡ (codes "ab." ∷ [], returned)
unfolding echo_line index_byte
unended = refl

-- Two lines at once, a line without an end in the buffer, and a context that is done.
refused :
    (echo_line eof always 3 [] (waiting eof eight (segment (codes "a\nb\n") ∷ []))
      ≡ ([], fatal no_pipeline))
    × (echo_line eof always 3 [] (waiting eof eight (segment (codes "123456789") ∷ []))
        ≡ ([], fatal line_too_long))
    × (echo_line eof always 3 []
          (waiting eof eight (cancelled ∷ timeout ∷ segment (codes "a\n") ∷ []))
        ≡ ([], returned))
unfolding echo_line index_byte
refused = (refl, refl, refl)
