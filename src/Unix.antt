-- ===== src/Unix.antt =====
-- unix.go: which process holds a descriptor of a connection that is passed over a unix socket.
pub mod Transfer
use netx.Base.{
  ℕ, ◌==◌, ◌≡◌, Bool, true, false, List, [], ◌∷◌, ◌++◌, Option, none, some, if◌then◌else◌,
}

-- The connection of each descriptor that is open, and those whose descriptors were sent.
pub record Process : Type 0 where
  pub open_fds : List ℕ
  pub sent : List ℕ

-- One descriptor of the connection is closed.
unfoldable pub close_fd : ℕ → List ℕ → List ℕ
close_fd c [] = []
close_fd c (x ∷ l) = let rest = close_fd c l in if x == c then l else x ∷ rest

abbrev pub opened_fd : ℕ → Process → Process
opened_fd c p = record p { open_fds = c ∷ p.open_fds }

unfoldable pub closed_fd : ℕ → Process → Process
unfolding close_fd
closed_fd c p = record p { open_fds = close_fd c p.open_fds }

-- An `os.File`: its connection, and whether it was closed, when closing it again does nothing.
pub record File : Type 0 where
  pub conn : ℕ
  pub closed : Bool

unfoldable pub close_file : File → Process → File × Process
unfolding closed_fd
close_file f p = if f.closed then (f, p) else (record f { closed = true }, closed_fd f.conn p)

-- `SendUnixFile`, with whether `WriteMsgUnix` succeeds; true for an error.
unfoldable pub send_unix_file : Bool → File → Process → Bool × (File × Process)
unfolding close_file
send_unix_file can_send f p =
    if can_send then (false, close_file f (record p { sent = f.conn ∷ p.sent })) else (true, (f, p))

-- `sendUnixFileConn` of a connection, with whether `File` gives a duplicate, which is closed at last.
unfoldable pub send_unix_conn : Bool → Bool → ℕ → Process → Bool × Process
unfolding send_unix_file close_file closed_fd
send_unix_conn can_dup can_send c p =
    if can_dup
    then (let (err, (f, p')) =
          send_unix_file can_send (record { conn = c; closed = false }) (opened_fd c p) in
        let p'' = if err then p' else closed_fd c p' in (err, (close_file f p'').1))
    else (true, p)

-- What is read from a socket: an error, no control data, data that cannot be parsed, or messages, each
-- with the descriptors it has, none if they cannot be parsed.
pub data Received : Type 0 where
  failed empty unparsed : Received
  messages : List (Option (List ℕ)) → Received

-- The descriptors that the kernel opens.
abbrev pub installed : List (Option (List ℕ)) → List ℕ
installed [] = []
installed (none ∷ l) = installed l
installed (some fds ∷ l) = fds ++ installed l

abbrev pub received : Received → List ℕ
received (messages l) = installed l
received _ = []

unfoldable pub close_all : List ℕ → Process → Process
unfolding closed_fd
close_all [] p = p
close_all (c ∷ l) p = close_all l (closed_fd c p)

abbrev pub one_fd : List ℕ → Process → Option File × Process
one_fd (c ∷ []) p = (some (record { conn = c; closed = false }), p)
one_fd fds p = (none, close_all fds p)

abbrev pub one_message : List (Option (List ℕ)) → Process → Option File × Process
one_message (some fds ∷ []) p = one_fd fds p
one_message l p = (none, p)

abbrev pub of_received : Received → Process → Option File × Process
of_received (messages l) p = one_message l p
of_received _ p = (none, p)

-- `RecvUnixFile`; none for an error.
unfoldable pub recv_unix_file : Received → Process → Option File × Process
unfolding close_all
recv_unix_file r p = of_received r (record p { open_fds = received r ++ p.open_fds })

-- `RecvUnixConn`, with whether `net.FileConn` makes a connection of a duplicate.
unfoldable pub recv_unix_conn : Bool → Received → Process → Option ℕ × Process
unfolding recv_unix_file close_file
recv_unix_conn can_dup r p =
    let (o, p') = recv_unix_file r p in
    elim o [
      | none ↦ (none, p')
      | some f ↦
          if can_dup
          then (some f.conn, (close_file f (opened_fd f.conn p')).1)
          else (none, (close_file f p').1)
    ]

-- What a handler does with a connection: it closes it, or reads or writes, with an error that is
-- temporary, with one that is not, or without.
pub data Fault : Type 0 where
  fine temporary lasting : Fault

pub data Use : Type 0 where
  closes : Use
  reads writes : Fault → Use

-- `sendUnixConn`: the flag `closed`, and whether its connection is closed.
pub record Wrapped : Type 0 where
  pub flag : Bool
  pub shut : Bool

abbrev pub after_fault : Fault → Wrapped → Wrapped
after_fault lasting w = record w { flag = true }
after_fault _ w = w

abbrev pub use_conn : ℕ → Use → Wrapped × Process → Wrapped × Process
use_conn c closes (w, p) =
    (record { flag = true; shut = true }, if w.shut then p else closed_fd c p)
use_conn c (reads e) (w, p) = (after_fault e w, p)
use_conn c (writes e) (w, p) = (after_fault e w, p)

unfoldable pub use_all : ℕ → List Use → Wrapped × Process → Wrapped × Process
unfolding closed_fd
use_all c [] s = s
use_all c (u ∷ l) s = use_all c l (use_conn c u s)

-- `ServeConn` of `SendUnixHandler`, with true for a panic.
unfoldable pub serve_conn : Bool → Bool → ℕ → List Use → Process → Bool × Process
unfolding use_all send_unix_conn
serve_conn can_dup can_send c uses p =
    let (w, p') = use_all c uses (record { flag = false; shut = false }, p) in
    if w.flag then (false, p') else send_unix_conn can_dup can_send c p'
