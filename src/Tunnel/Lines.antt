-- ===== src/Tunnel/Lines.antt =====
-- A tunnel passes each line on and each reply back (tunnel.go).
