-- ===== src/Transport/Socket.antt =====
-- src/transport/socket.cpp. A system call returns what it gives, or fails with the text of `errno`; what it
-- returns is a parameter.
pub mod Ownership
use iso26430_6_asm_prototype.Base.{
  ℕ, String, ◌<>◌, List, [], ◌∷◌, Bool, true, false, Result, ok, err, ◌>>=◌,
}

abbrev pub or_throw : {A : Type 0} → String → Result A → Result A
or_throw action (ok a) = ok a
or_throw action (err reason) = err (action <> reason)

unfoldable pub make_tcp_socket : Result ℕ → Result ℕ
make_tcp_socket created = or_throw "socket failed: " created

unfoldable pub set_reuse_addr : Bool → Result (Unit {0})
set_reuse_addr true = ok tt
set_reuse_addr false = err "failed to set SO_REUSEADDR"

unfoldable pub bind_and_listen : Result (Unit {0}) → Result (Unit {0}) → Result (Unit {0})
bind_and_listen bound listening = do
  _ ← or_throw "bind failed: " bound
  or_throw "listen failed: " listening

unfoldable pub accept : Result ℕ → Result ℕ
accept client_fd = or_throw "accept failed: " client_fd

-- Whether `::connect` succeeds, for each address in turn.
connect_loop : String → List Bool → Result (Unit {0})
connect_loop reason [] = err ("connect failed: " <> reason)
connect_loop reason (true ∷ results) = ok tt
connect_loop reason (false ∷ results) = connect_loop reason results

-- The addresses that `getaddrinfo` finds, and the text of `errno` at the end.
unfoldable pub connect : Result (List Bool) → String → Result (Unit {0})
unfolding connect_loop
connect resolved reason = do
  results ← or_throw "getaddrinfo failed: " resolved
  connect_loop reason results
