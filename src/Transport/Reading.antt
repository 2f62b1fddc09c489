-- ===== src/Transport/Reading.antt =====
-- `read_one_message` of src/transport: one call of `SSL_read` for at most 4096 bytes. OpenSSL is a
-- parameter: how many of the bytes that are under way a call delivers, with 0 for a return that is not
-- positive, and the error numbers after such a call.
use iso26430_6_asm_prototype.Base.{ℕ, length, take, Result, ok, err, ◌==◌, if◌then◌else◌}
use iso26430_6_asm_prototype.Common.{ByteBuffer}
use iso26430_6_asm_prototype.Transport.Errors.{SslErrors, failure}

pub record SslInput : Type 0 where
  pub read : ℕ → ℕ → ℕ
  pub errors : SslErrors

abbrev pub buffer_size : ℕ
buffer_size = 4096

unfoldable pub read_one_message : SslInput → ByteBuffer → Result ByteBuffer
read_one_message input pending =
    let rc = input.read (length pending) buffer_size in
    if rc == 0 then err (failure "SSL_read" input.errors) else ok (take rc pending)
