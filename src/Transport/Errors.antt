-- ===== src/Transport/Errors.antt =====
-- `ssl_expect_positive` of src/transport/tls_server.cpp and tls_client.cpp. What a call of OpenSSL returns is a
-- parameter: 0 stands for every return that is not positive, and then there are two error numbers.
use iso26430_6_asm_prototype.Base.{ℕ, String, ◌<>◌, Result, ok, err, ◌==◌, if◌then◌else◌}
use iso26430_6_asm_prototype.Streams.Jsonl.{to_string}

-- What `SSL_get_error` and `ERR_get_error` give.
pub record SslErrors : Type 0 where
  pub ssl_error : ℕ
  pub error : ℕ

pub record Returned : Type 0 where
  pub rc : ℕ
  pub errors : SslErrors

unfoldable pub failure : String → SslErrors → String
failure action errors =
    action
    <> (" failed: ssl_error="
        <> (to_string errors.ssl_error <> (", openssl_error=" <> to_string errors.error)))

unfoldable pub ssl_expect_positive : Returned → String → Result (Unit {0})
ssl_expect_positive returned action =
    if returned.rc == 0 then err (failure action returned.errors) else ok tt
