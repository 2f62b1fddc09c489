-- ===== src/Transport/ClientCalls.antt =====
-- `ssl_expect_positive`, `write_all` and `read_one_message` of src/transport/tls_client.cpp, which repeats the text of
-- src/transport/tls_server.cpp.
use iso26430_6_asm_prototype.Base.{String, Result}
use iso26430_6_asm_prototype.Common.{ByteBuffer}
use iso26430_6_asm_prototype.Transport.Errors as Errors
use iso26430_6_asm_prototype.Transport.Errors.{Returned}
use iso26430_6_asm_prototype.Transport.Reading as Reading
use iso26430_6_asm_prototype.Transport.Reading.{SslInput}
use iso26430_6_asm_prototype.Transport.Writing as Writing
use iso26430_6_asm_prototype.Transport.Writing.{Ssl, Wire}

abbrev pub ssl_expect_positive : Returned → String → Result (Unit {0})
ssl_expect_positive returned action = Errors.ssl_expect_positive returned action

abbrev pub write_all : Ssl → ByteBuffer → Wire → Result (Unit {0}) × Wire
write_all ssl bytes wire = Writing.write_all ssl bytes wire

abbrev pub read_one_message : SslInput → ByteBuffer → Result ByteBuffer
read_one_message input pending = Reading.read_one_message input pending
