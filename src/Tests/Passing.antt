-- ===== src/Tests/Passing.antt =====
-- A connection that a handler leaves open is sent back.
use netx.Base.{ℕ, ◌≡◌, ◌⊎◌, refl, true, false, if◌then◌else◌, List, [], ◌∷◌, none, some}
use netx.Unix.Transfer.{holding, Sent, spoils, shuts, serve_conn-Sent, recv_unix_conn-cases}
use netx.Unix.{
  Use, reads, writes, closes, fine, temporary, lasting, messages, recv_unix_conn, serve_conn,
  close_fd,
}

abbrev uses : List Use
uses = reads temporary ∷ writes fine ∷ []

serve_conn-Sent_example :
    ((spoils uses ≡ true)
      × (serve_conn true true 3 uses (holding 3 (4 ∷ []) [])
          ≡ (false, record { open_fds = if shuts uses then 4 ∷ [] else 3 ∷ 4 ∷ []; sent = [] })))
    ⊎ ((spoils uses ≡ false)
        × Sent 3 (4 ∷ []) [] (serve_conn true true 3 uses (holding 3 (4 ∷ []) [])))
serve_conn-Sent_example = serve_conn-Sent true true 3 (4 ∷ []) [] uses

passed :
    (serve_conn true true 3 uses (holding 3 (4 ∷ []) [])
      ≡ (false, record { open_fds = 4 ∷ []; sent = 3 ∷ [] }))
    × (serve_conn true false 3 uses (holding 3 (4 ∷ []) []) ≡ (true, holding 3 (4 ∷ []) []))
    × (serve_conn true true 3 (reads lasting ∷ closes ∷ []) (holding 3 (4 ∷ []) [])
        ≡ (false, record { open_fds = 4 ∷ []; sent = [] }))
unfolding serve_conn close_fd
passed = (refl, refl, refl)

recv_unix_conn-cases_instance :
    ((c : ℕ) × (5 ∷ [] ≡ c ∷ [])
      × (recv_unix_conn true
            (messages (some (5 ∷ []) ∷ []))
            (record { open_fds = 4 ∷ []; sent = [] })
          ≡ (some c, holding c (4 ∷ []) [])))
    ⊎ (recv_unix_conn true (messages (some (5 ∷ []) ∷ [])) (record { open_fds = 4 ∷ []; sent = [] })
        ≡ (none, record { open_fds = 4 ∷ []; sent = [] }))
recv_unix_conn-cases_instance = recv_unix_conn-cases true (5 ∷ []) (4 ∷ []) []
