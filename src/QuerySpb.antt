-- ===== src/QuerySpb.antt =====
-- include/asm/query_spb.hpp and src/asm/query_spb.cpp. A status is the enumeration's underlying byte,
-- since `static_cast` lets a decoded status be any byte.
use iso26430_6_asm_prototype.Base.{
  ℕ, String, [], ◌∷◌, length, get_or, Result, ok, err, u8, ◌==◌, ◌!=◌, if◌then◌else◌,
}
use iso26430_6_asm_prototype.Common.{ByteBuffer}

abbrev pub QuerySpbStatus : Type 0
QuerySpbStatus = ℕ

abbrev pub not_playing : QuerySpbStatus
not_playing = 0x00

abbrev pub playing : QuerySpbStatus
playing = 0x01

abbrev pub security_alert : QuerySpbStatus
security_alert = 0x02

pub record QuerySpbResponsePayload : Type 0 where
  pub protocol_version : ℕ
  pub status : QuerySpbStatus

unfoldable pub encode_response : QuerySpbResponsePayload → ByteBuffer
encode_response payload = payload.protocol_version ∷ u8 payload.status ∷ []

unfoldable pub decode_response : ByteBuffer → Result QuerySpbResponsePayload
decode_response bytes =
    if length bytes != 2
    then err "QuerySPB response payload must be 2 bytes"
    else ok (record { protocol_version = get_or bytes 0 0; status = get_or bytes 1 0 })

-- `StaticQuerySpbStatusProvider`: the status that it was built with.
pub record StaticQuerySpbStatusProvider : Type 0 where
  pub status : QuerySpbStatus

unfoldable pub current_status : StaticQuerySpbStatusProvider → QuerySpbStatus
current_status provider = provider.status

pub status_to_string : QuerySpbStatus → String
status_to_string status =
    if status == not_playing
    then "not_playing"
    else if status == playing
    then "playing"
    else if status == security_alert
    then "security_alert"
    else "unknown"
