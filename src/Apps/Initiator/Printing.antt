-- ===== src/Apps/Initiator/Printing.antt =====
-- What asm_initiator prints of a response, and the program as a whole.
use iso26430_6_asm_prototype.Base.{
  ℕ, String, Option, none, some, List, [], ◌∷◌, ◌++◌, length, Bool, Result, ok, err, ◌>>=◌,
  if◌then◌else◌, Text, codes, ◌≡◌, refl, ◌∙◌, arith, Result-cases, inl, inr,
}
use iso26430_6_asm_prototype.Common.{
  ByteBuffer, StandardRequest, Command, bad_request, get_time, get_event_list, get_event_id,
  query_spb, le_key_load, le_key_query_id, le_key_query_all, le_key_purge_id, le_key_purge_all,
  command_to_string, response_to_string,
}
use iso26430_6_asm_prototype.Apps.Initiator.{Prepared, refused, uncaught, prepared, prepare}
use iso26430_6_asm_prototype.BigEndian.{decode_be_u64}
use iso26430_6_asm_prototype.EventLog.Payload as EventPayload
use iso26430_6_asm_prototype.LeKey.Jsonl.{bytes_to_hex}
use iso26430_6_asm_prototype.LeKey.Payload as KeyPayload
use iso26430_6_asm_prototype.QuerySpb
use iso26430_6_asm_prototype.Security.Certificates.{OpenSsl}
use iso26430_6_asm_prototype.Security.Profile.{Returns, TlsConfig}
use iso26430_6_asm_prototype.Streams.{decimal}
use iso26430_6_asm_prototype.Transport.Client.{Route, ClientExchangeResult, send_request}

abbrev pub bool_text : Bool → Text
bool_text b = if b then codes "true" else codes "false"

-- Ids with commas between them.
unfoldable pub with_commas : List ℕ → Text
with_commas [] = []
with_commas (id ∷ []) = decimal id
with_commas (id ∷ next ∷ ids) = decimal id ++ (b',' ∷ with_commas (next ∷ ids))

-- `to_hex`, which is written like `bytes_to_hex`.
abbrev pub to_hex : ByteBuffer → Text
to_hex bytes = bytes_to_hex bytes

unfoldable pub payload_text : Command → ByteBuffer → Result Text
payload_text get_time bytes = do
  epoch ← decode_be_u64 bytes 0
  ok (codes " epoch=" ++ decimal epoch)
payload_text query_spb bytes = do
  payload ← QuerySpb.decode_response bytes
  ok (
      codes " protocol_ver="
      ++ (decimal payload.protocol_version
          ++ (codes " status=" ++ codes (QuerySpb.status_to_string payload.status))))
payload_text get_event_list bytes = do
  payload ← EventPayload.decode_list_response bytes
  ok (
      codes " event_count="
      ++ (decimal (length payload.event_ids)
          ++ (codes " event_ids=" ++ with_commas payload.event_ids)))
payload_text get_event_id bytes = do
  payload ← EventPayload.decode_id_response bytes
  ok (codes " xml=" ++ payload.log_record_xml)
payload_text le_key_load bytes = do
  payload ← KeyPayload.decode_load_response bytes
  ok (codes " overflow=" ++ bool_text payload.overflow)
payload_text le_key_query_id bytes = do
  payload ← KeyPayload.decode_query_id_response bytes
  ok (codes " key_present=" ++ bool_text payload.key_present)
payload_text le_key_query_all bytes = do
  payload ← KeyPayload.decode_query_all_response bytes
  ok (
      codes " key_count="
      ++ (decimal (length payload.key_ids) ++ (codes " key_ids=" ++ with_commas payload.key_ids)))
payload_text le_key_purge_id bytes = do
  payload ← KeyPayload.decode_purge_id_response bytes
  ok (codes " no_key_id=" ++ bool_text payload.no_key_id)
payload_text bad_request bytes = ok (codes " request_copy_hex=" ++ to_hex bytes)
payload_text le_key_purge_all bytes = ok []

unfoldable pub id_text : Option ℕ → Text
id_text none = []
id_text (some id) = codes " request_id=" ++ decimal id

-- The line that is printed, or the exception that a decoder throws.
unfoldable pub result_line : ClientExchangeResult → Result Text
unfolding id_text
result_line result = do
  let response = result.response
  payload ← payload_text response.command response.payload
  ok (
      codes "peer="
      ++ (result.peer_thumbprint
          ++ (codes " command="
              ++ (codes (command_to_string response.command)
                  ++ (codes " response="
                      ++ (codes (response_to_string response.response_code)
                          ++ (id_text response.request_id ++ (payload ++ (b'\n' ∷ [])))))))))

-- How the program ends: with a status, what it printed and its error message; or by an exception that
-- nobody catches.
pub data Exit : Type 0 where
  exits : ℕ → Text → String → Exit
  aborts : String → Exit

printed : Result Text → Exit
printed (ok line) = exits 0 line ""
printed (err what) = aborts what

module _ {P : Type 0} (returns : Returns) (openssl : OpenSsl P) (route : Text → ℕ → Route P)
    (server : ByteBuffer → ByteBuffer) where
  after_prepare : Prepared → Exit
  unfolding printed
  after_prepare (refused message) = exits 1 [] message
  after_prepare (uncaught what) = aborts what
  after_prepare (prepared config host request) = printed (do
    result ← send_request config returns openssl (route host 1173) server request
    result_line result)

  -- What the system does for a host and a port is a parameter.
  unfoldable pub main : List Text → Exit
  unfolding after_prepare
  main argv = after_prepare (prepare argv)

  -- An exchange whose result can be printed ends the program well.
  pub main-exits :
      (argv : List Text) (config : TlsConfig) (host line : Text) (request : StandardRequest)
      (result : ClientExchangeResult)
      → prepare argv ≡ prepared config host request
      → send_request config returns openssl (route host 1173) server request ≡ ok result
      → result_line result ≡ ok line
      → main argv ≡ exits 0 line ""
  unfolding main after_prepare printed
  main-exits argv config host line request result typed answered shown =
      rw (typed, answered, shown) refl

  -- A result that cannot be printed ends the program by the exception.
  pub main-aborts :
      (argv : List Text) (config : TlsConfig) (host : Text) (what : String)
      (request : StandardRequest) (result : ClientExchangeResult)
      → prepare argv ≡ prepared config host request
      → send_request config returns openssl (route host 1173) server request ≡ ok result
      → result_line result ≡ err what
      → main argv ≡ aborts what
  unfolding main after_prepare printed
  main-aborts argv config host what request result typed answered shown =
      rw (typed, answered, shown) refl

  after_prepare_prints :
      (p : Prepared) (line : Text) (what : String)
      → after_prepare p ≡ exits 0 line what
      → (config : TlsConfig) × (host : Text) × (request : StandardRequest)
        × (result : ClientExchangeResult) × (p ≡ prepared config host request)
        × (send_request config returns openssl (route host 1173) server request ≡ ok result)
        × (result_line result ≡ ok line)
  unfolding after_prepare printed
  after_prepare_prints (refused message) line what h = absurd (ground (arith, h))
  after_prepare_prints (uncaught message) line what h = absurd (ground (arith, h))
  after_prepare_prints (prepared config host request) line what h =
      elim (Result-cases (send_request config returns openssl (route host 1173) server request)) [
        | inr (m, e) ↦ absurd (ground (arith, h, e))
        | inl (result, e) ↦ elim (Result-cases (result_line result)) [
          | inr (m, e2) ↦ absurd (ground (arith, h, e, e2))
          | inl (shown, e2) ↦
              (config, host, request, result, refl, e, e2 ∙ ground (arith, h, e, e2))
        ]
      ]

  -- What is printed at a good end is the result of an exchange.
  pub main-prints :
      (argv : List Text) (line : Text) (what : String)
      → main argv ≡ exits 0 line what
      → (config : TlsConfig) × (host : Text) × (request : StandardRequest)
        × (result : ClientExchangeResult) × (prepare argv ≡ prepared config host request)
        × (send_request config returns openssl (route host 1173) server request ≡ ok result)
        × (result_line result ≡ ok line)
  unfolding main
  main-prints argv line what h = after_prepare_prints (prepare argv) line what h
