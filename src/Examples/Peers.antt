-- ===== src/Examples/Peers.antt =====
-- Certificates, contexts, the server's loop and the client.
use iso26430_6_asm_prototype.Base.{
  ℕ, ◌≡◌, ◌↔◌, ◌⊎◌, refl, List, [], ◌∷◌, ◌++◌, ◌+◌, length, some, none, true, false, ok, err, codes,
  String, if◌then◌else◌, ltb,
}
use iso26430_6_asm_prototype.Common.{ByteBuffer}
use iso26430_6_asm_prototype.EventLog
use iso26430_6_asm_prototype.EventLog.{EventLogStore, default_events}
use iso26430_6_asm_prototype.LeKey.Jsonl.Store.{JsonlLeKeyStore}
use iso26430_6_asm_prototype.LeKey.Store.{Keys}
use iso26430_6_asm_prototype.Klv.{encode, decode, encode_ber_length, decode_ber_length}
use iso26430_6_asm_prototype.BigEndian.{append_be_u32, decode_be_u32}
use iso26430_6_asm_prototype.LeKey.Jsonl.{bytes_to_hex}
use iso26430_6_asm_prototype.Streams.{hex_byte}
use iso26430_6_asm_prototype.Codec.{encode_request, decode_response, decode_response_code}
use iso26430_6_asm_prototype.Codec.UlMap.{ul_for, describe_ul}
use iso26430_6_asm_prototype.Security.Certificates.{
  OpenSsl, require, demand, name_to_string, read_peer_identity,
  validate_certificate_profile_from_file, validate_certificate_profile,
}
use iso26430_6_asm_prototype.Security.Certificates.Accepted.{
  IsProfile, validate_certificate_profile_iff,
}
use iso26430_6_asm_prototype.Security.Profile.{
  TlsConfig, tls_config, Returns, Call, empty, create_ctx, create_server, create_client, set_verify,
  set_cipher_list, set_min_tls1, set_max_tls1, set_security_level, set_no_compression,
  use_certificate_file, use_private_key_file, check_private_key, load_verify_locations, made, apply,
  expect, allow_tls10_only, use_credentials, verify_mode,
}
use iso26430_6_asm_prototype.Security.Profile.Made.{IsMade, create_ctx_iff}
use iso26430_6_asm_prototype.Service.KeyCommands.{in_memory_service}
use iso26430_6_asm_prototype.Transport.Client.{Route, send_request}
use iso26430_6_asm_prototype.Transport.Client.Peers.{IsAccepted, serve_client_checks}
use iso26430_6_asm_prototype.Transport.Errors.{SslErrors, ssl_expect_positive}
use iso26430_6_asm_prototype.Transport.Exchange as Exchange
use iso26430_6_asm_prototype.Transport.Reading.{SslInput, read_one_message}
use iso26430_6_asm_prototype.Transport.Server.{
  Connection, Turn, Server, failed, timeout, ready, loop, returned, serve_client,
}
use iso26430_6_asm_prototype.Transport.Server.Ending.{loop_stops}
use iso26430_6_asm_prototype.Transport.Server.Rounds.{clients, lifetimes}
use iso26430_6_asm_prototype.Transport.Server.Serving.{loop_serves}
use iso26430_6_asm_prototype.Transport.Socket.{connect, make_tcp_socket}
use iso26430_6_asm_prototype.Transport.Frames.{encoded_request, read_answer}
use iso26430_6_asm_prototype.Transport.Writing.{Ssl, write_all}
use iso26430_6_asm_prototype.Examples.Data.{
  two_keys, status_provider, query_request, query_message, query_response,
}
use iso26430_6_asm_prototype.Examples.Files.{empty_store}

abbrev log : EventLogStore
log = EventLog.in_memory default_events

-- An OpenSSL whose objects are numbers: certificate 0 has an RSA key of 2048 bits.
abbrev pub openssl : OpenSsl ℕ
openssl = record {
  x509_get_pubkey = λ certificate. some 1;
  evp_pkey_base_id = λ key. 6;
  evp_pkey_rsa = 6;
  evp_pkey_get0_rsa = λ key. some 2;
  rsa_get0_key = λ rsa. (some 3, some 4);
  bn_num_bits = λ n. 2048;
  bn_get_word = λ e. 65537;
  x509_digest = λ certificate. some (0xab ∷ 0x12 ∷ []);
  x509_get_subject_name = λ certificate. none;
  x509_get_issuer_name = λ certificate. none;
  bio_new = λ name. some 5;
  x509_name_print_ex = λ bio name. true;
  bio_get_mem_ptr = λ bio name. none;
  bio_new_file = λ path. if empty path then none else some 6;
  pem_read_bio_x509 = λ bio. some 0;
}

abbrev pub config : TlsConfig
config = tls_config (codes "cert.pem") (codes "key.pem") (codes "ca.pem")

-- Every call succeeds.
abbrev pub returns : Returns
returns = λ calls c. 1

-- The calls that set a server's context up: it demands a certificate of its peers.
abbrev server_calls : List Call
server_calls =
    set_cipher_list "AES128-SHA"
    ∷ set_min_tls1
    ∷ set_max_tls1
    ∷ set_security_level 0
    ∷ set_no_compression
    ∷ use_certificate_file (codes "cert.pem")
    ∷ use_private_key_file (codes "key.pem")
    ∷ check_private_key
    ∷ load_verify_locations (codes "ca.pem")
    ∷ set_verify true true
    ∷ []

validate_certificate_profile_iff_example :
    (validate_certificate_profile openssl (some 0) ≡ ok tt) ↔ IsProfile openssl 0
validate_certificate_profile_iff_example = validate_certificate_profile_iff openssl 0

create_ctx_iff_example :
    (create_ctx returns openssl true config true ≡ ok server_calls)
    ↔ ((true ≡ true) × IsMade returns openssl refl config true server_calls)
create_ctx_iff_example = create_ctx_iff returns openssl refl true config true server_calls

abbrev no_errors : SslErrors
no_errors = record { ssl_error = 0; error = 0 }

abbrev ssl : Ssl
ssl = record { write = λ call size. size; errors = λ call. no_errors }

abbrev pub input : SslInput
input = record {
  read = λ pending size. if ltb size pending then size else pending;
  errors = no_errors;
}

-- A client with a query, and one that fails in the handshake.
abbrev pub client : Connection ℕ
client = record {
  context = λ method. true;
  object = true;
  handshake = record { rc = 1; errors = no_errors };
  certificate = some 0;
  ssl = ssl;
  input = input;
  pending = query_message;
  now = 1776758400;
}

abbrev stranger : Connection ℕ
stranger = record client {
  handshake = record { rc = 0; errors = record { ssl_error = 1; error = 167772567 } };
  pending = [];
}

abbrev pub turns : List (Turn ℕ)
turns =
    record { stop = false; select = ready (ok 9) client }
    ∷ record { stop = false; select = timeout }
    ∷ record { stop = false; select = ready (ok 10) stranger }
    ∷ record { stop = false; select = failed true false }
    ∷ []

-- A client waits when the stop flag is seen.
abbrev last_turn : Turn ℕ
last_turn = record { stop = true; select = ready (ok 11) client }

abbrev pub server : Server Keys
server = record { store = two_keys; traces = []; written = []; sockets = [] }

abbrev pub file_server : Server JsonlLeKeyStore
file_server = record { store = empty_store; traces = []; written = []; sockets = [] }

loop_serves_example :
    let after =
      (loop (in_memory_service log status_provider) config returns openssl true turns server).1 in
    (after.sockets ≡ [] ++ lifetimes (clients turns))
    × (length after.traces ≡ 0 + length (clients turns))
loop_serves_example =
    loop_serves (in_memory_service log status_provider) config returns openssl turns server

loop_stops_example :
    loop
      (in_memory_service log status_provider)
      config
      returns
      openssl
      true
      (turns ++ last_turn ∷ turns)
      server
    ≡ (
      returned,
      (loop (in_memory_service log status_provider) config returns openssl true turns server).1,
    )
loop_stops_example =
    loop_stops (in_memory_service log status_provider) config returns openssl true turns last_turn
      turns server ((9, refl), (tt, ((10, refl), (refl, tt)))) refl

serve_client_checks_example :
    ((what : String) × (serve_client
          (in_memory_service log status_provider)
          config
          returns
          openssl
          true
          client
          server
        ≡ (err what, server)))
    ⊎ (((calls : List Call) × (create_server returns openssl client.context config ≡ ok calls))
        × (ssl_expect_positive client.handshake "SSL_accept" ≡ ok tt)
        × IsAccepted openssl (some 0))
serve_client_checks_example =
    serve_client_checks openssl (in_memory_service log status_provider) config returns true client
      server

-- The answer that the key is there.
abbrev answer_message : ByteBuffer
answer_message =
    0x06 ∷ 0x0e ∷ 0x2b ∷ 0x34 ∷ 0x02 ∷ 0x05 ∷ 0x01 ∷ 0x01 ∷ 0x02 ∷ 0x07 ∷ 0x01 ∷ 0x03 ∷ 0x23 ∷ 0x00
    ∷ 0x00 ∷ 0x00 ∷ 0x83 ∷ 0 ∷ 0 ∷ 6 ∷ 0 ∷ 0 ∷ 1 ∷ 2 ∷ 1 ∷ 0 ∷ []

abbrev pub route : Route ℕ
route = record {
  context = λ method. true;
  socket = ok 3;
  resolved = ok (false ∷ true ∷ []);
  reason = "Connection refused";
  object = true;
  handshake = record { rc = 1; errors = no_errors };
  certificate = some 0;
  ssl = ssl;
  input = input;
}

send_request_answered :
    send_request config returns openssl route (λ bytes. answer_message) query_request
    ≡ ok (record { response = query_response; peer_thumbprint = codes "ab12" })
unfolding send_request create_client create_ctx made apply expect allow_tls10_only use_credentials
    verify_mode validate_certificate_profile_from_file validate_certificate_profile require demand
    ssl_expect_positive make_tcp_socket connect read_peer_identity name_to_string
    Exchange.send_request encoded_request read_answer write_all read_one_message encode decode
    encode_request ul_for decode_response tls_config append_be_u32 encode_ber_length
    decode_ber_length describe_ul decode_response_code decode_be_u32 bytes_to_hex hex_byte
send_request_answered = refl
