-- ===== src/Transport/Writing.antt =====
-- `write_all` of src/transport/tls_server.cpp and tls_client.cpp over a TLS connection. OpenSSL is a
-- parameter: what each call of `SSL_write` returns, by its number and the size that it is given, with 0 for
-- every return that is not positive; and the error numbers after such a call.
pub mod Complete
use iso26430_6_asm_prototype.Base.{
  ℕ, zero, suc, ◌+◌, String, [], ◌∷◌, ◌++◌, length, take, drop, Result, ok, err, ◌==◌,
  if◌then◌else◌,
}
use iso26430_6_asm_prototype.Common.{ByteBuffer}
use iso26430_6_asm_prototype.Transport.Errors.{SslErrors, failure}

-- What calls of `SSL_write` return. A call that does not return, since the signal SIGPIPE ends the process, is
-- left out.
pub record Ssl : Type 0 where
  pub write : ℕ → ℕ → ℕ
  pub errors : ℕ → SslErrors

-- How often `SSL_write` was called, and the bytes that it took.
pub record Wire : Type 0 where
  pub calls : ℕ
  pub sent : ByteBuffer

module _ (ssl : Ssl) where
  -- The list is what stands from `offset` on. Each round takes a byte at least, so as many rounds as there
  -- are bytes are enough.
  write_loop : ℕ → ByteBuffer → Wire → Result (Unit {0}) × Wire
  write_loop rounds [] wire = (ok tt, wire)
  write_loop zero (b ∷ bytes) wire = (err "no rounds left", wire)
  write_loop (suc rounds) (b ∷ bytes) wire =
      let size = length (b ∷ bytes) in
      let rc = ssl.write wire.calls size in
      let after : Wire = record {
        calls = wire.calls + 1;
        sent = wire.sent ++ take rc (b ∷ bytes);
      } in
      let rest = write_loop rounds (drop rc (b ∷ bytes)) after in
      if rc == 0
      then (
        err (failure "SSL_write" (ssl.errors wire.calls)),
        record wire { calls = wire.calls + 1 },
      )
      else rest

  unfoldable pub write_all : ByteBuffer → Wire → Result (Unit {0}) × Wire
  unfolding write_loop
  write_all bytes wire = write_loop (length bytes) bytes wire
