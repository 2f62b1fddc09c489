-- ===== src/Examples/Sessions.antt =====
-- Connections, sessions, and a request that goes through both sides.
use iso26430_6_asm_prototype.Base.{
  codes, ◌≡◌, ◌≤◌, ◌<◌, refl, [], ◌∷◌, arith, length, ok, err, ltb, if◌then◌else◌, ◌==◌,
}
use iso26430_6_asm_prototype.Common.{ByteBuffer, StandardResponse}
use iso26430_6_asm_prototype.EventLog
use iso26430_6_asm_prototype.EventLog.{EventLogStore, default_events}
use iso26430_6_asm_prototype.LeKey.Store.{Keys}
use iso26430_6_asm_prototype.Service.KeyCommands.{in_memory_service}
use iso26430_6_asm_prototype.Transport.Session.{Session, fresh_trace, serve_message}
use iso26430_6_asm_prototype.Transport.Session.OneAnswer.{Answered, serve_message-Answered}
use iso26430_6_asm_prototype.Transport.Writing.{Ssl, Wire, write_all}
use iso26430_6_asm_prototype.Transport.Writing.Complete.{Written, write_all-Written}
use iso26430_6_asm_prototype.Transport.Reading.{SslInput, buffer_size}
use iso26430_6_asm_prototype.Transport.Frames.{encoded, encoded_request}
use iso26430_6_asm_prototype.Streams.Jsonl.{to_string}
use iso26430_6_asm_prototype.Transport.Errors.{failure}
use iso26430_6_asm_prototype.Transport.Exchange.{send_request, peer}
use iso26430_6_asm_prototype.Transport.Exchange.Dialog.{Delivers, Answers, send_request-answer}
use iso26430_6_asm_prototype.Examples.Data.{
  all_bytes-IsByte, two_keys, status_provider, query_request, query_message,
}

abbrev log : EventLogStore
log = EventLog.in_memory default_events

-- A connection that takes one byte a call.
abbrev slow_ssl : Ssl
slow_ssl = record { write = λ call size. 1; errors = λ call. record { ssl_error = 0; error = 0 } }

-- A connection whose second call fails.
abbrev broken_ssl : Ssl
broken_ssl = record {
  write = λ call size. if call == 1 then 0 else 2;
  errors = λ call. record { ssl_error = 5; error = 0 };
}

abbrev no_wire : Wire
no_wire = record { calls = 0; sent = [] }

abbrev session : Session Keys
session = record { store = two_keys; wire = no_wire; trace = fresh_trace (codes "ab12") }

write_breaks : write_all broken_ssl (1 ∷ 2 ∷ 3 ∷ []) no_wire ≡ (
  err "SSL_write failed: ssl_error=5, openssl_error=0",
  record { calls = 2; sent = 1 ∷ 2 ∷ [] },
)
unfolding write_all failure to_string
write_breaks = refl

write_all-Written_example :
    Written broken_ssl (1 ∷ 2 ∷ 3 ∷ []) no_wire (write_all broken_ssl (1 ∷ 2 ∷ 3 ∷ []) no_wire)
write_all-Written_example = write_all-Written broken_ssl (1 ∷ 2 ∷ 3 ∷ []) no_wire

serve_message-Answered_example : Answered query_message no_wire (
    serve_message (in_memory_service log status_provider) slow_ssl 1776758400 query_message session)
serve_message-Answered_example =
    serve_message-Answered (in_memory_service log status_provider) slow_ssl
      (λ call size some_bytes. cc) query_message 1776758400 session
      (all_bytes-IsByte query_message refl) (omega arith)

-- A connection that delivers what there is, up to the size that it is asked for.
abbrev input : SslInput
input = record {
  read = λ pending size. if ltb size pending then size else pending;
  errors = record { ssl_error = 0; error = 0 };
}

pub input-Delivers : Delivers input
input-Delivers = record {
  whole = λ pending size h. ground arith;
  full = λ pending size h. ground arith;
}

send_request-answer_example :
    (raw : ByteBuffer) × (response : StandardResponse) × (bytes : ByteBuffer) × (encoded_request
        query_request
      ≡ ok raw)
    × Answers query_request raw response
    × (encoded response ≡ ok bytes)
    × (length bytes ≤ buffer_size
        → send_request slow_ssl input
            (peer (in_memory_service log status_provider) slow_ssl input 1776758400 session)
            query_request
          ≡ ok response)
    × (buffer_size < length bytes
        → send_request slow_ssl input
            (peer (in_memory_service log status_provider) slow_ssl input 1776758400 session)
            query_request
          ≡ err "KLV value length mismatch")
send_request-answer_example =
    send_request-answer (in_memory_service log status_provider) slow_ssl slow_ssl input input
      (λ call size some_bytes. cc) (λ call size some_bytes. cc) input-Delivers input-Delivers
      1776758400 query_request session
      (record { request_only = λ e. cc; id_fits = omega arith; size_fits = omega arith })
      (omega arith)
