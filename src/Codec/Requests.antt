-- ===== src/Codec/Requests.antt =====
-- Requests on the wire: `Klv::encode(Codec::encode_request(…))` of the client, and
-- `Codec::decode_request(Klv::decode(…))` of the server.
use iso26430_6_asm_prototype.Base.{
  ◌+◌, ◌≤◌, ◌≡◌, ◌≢◌, inl, inr, false, [], ◌++◌, arith, length, drop, All-drop, ok, All, IsByte,
  IsU32, Result-cases, ap,
}
use iso26430_6_asm_prototype.Common.{StandardRequest, bad_request}
use iso26430_6_asm_prototype.BigEndian.{decode_be_u32}
use iso26430_6_asm_prototype.BigEndian.Words.{
  be_u32, append_be_u32-be_u32, decode_be_u32-be_u32, decode_be_u32-inverse,
}
use iso26430_6_asm_prototype.Klv.{KlvPacket}
use iso26430_6_asm_prototype.Klv.Ber.{max_length}
use iso26430_6_asm_prototype.Klv.RoundTrip.{IsPacket}
use iso26430_6_asm_prototype.Codec.{encode_request, decode_request}
use iso26430_6_asm_prototype.Codec.UlMap.{ul_for, describe_ul}
use iso26430_6_asm_prototype.Codec.UlMap.Inverse.{
  ul_for_cases, bad_request_unlisted, describe_ul-ul_for_iff,
}

-- A request that can be sent: any command but BadRequest, and a size that the length field can hold.
pub record IsSendable (r : StandardRequest) : Type 0 where
  pub request_only : r.command ≢ bad_request
  pub id_fits : IsU32 r.request_id
  pub size_fits : 4 + length r.payload ≤ max_length

-- The packet of a sendable request decodes to the request. It is a packet that KLV can encode.
pub decode_request-encode_request :
    (r : StandardRequest)
    → IsSendable r
    → (p : KlvPacket) × (encode_request r ≡ ok p) × IsPacket p × (decode_request p ≡ ok r)
unfolding encode_request decode_request
decode_request-encode_request r h = elim (ul_for_cases r.command false) [
  | inl (bad, _, e) ↦ absurd (h.request_only bad)
  | inr (ul, e, d, l) ↦
      let p : KlvPacket = record {
        ul = ul;
        length = 4 + length r.payload;
        value = be_u32 r.request_id ++ r.payload;
      } in
      (
        p,
        ground (arith, append_be_u32-be_u32 [] r.request_id),
        ground arith,
        ground (arith, decode_be_u32-be_u32 r.request_id r.payload),
      )
]

-- The payload of a request in bytes is bytes.
pub decode_request-IsByte :
    (p : KlvPacket) (r : StandardRequest)
    → All IsByte p.value
    → decode_request p ≡ ok r
    → All IsByte r.payload
unfolding decode_request
decode_request-IsByte p r bytes e = elim (Result-cases (describe_ul p.ul)) [
  | inl (d, known) ↦ elim (Result-cases (decode_be_u32 p.value 0)) [
    | inl (id, read) ↦
        let same : r.payload ≡ drop 4 p.value = ground arith in
        rw same (All-drop IsByte 4 p.value bytes)
    | inr (m, bad) ↦ absurd (ground arith)
  ]
  | inr (m, unknown) ↦ absurd (ground arith)
]

-- A packet that decodes to a request, if its value is bytes and its length field is right, is the
-- packet of that request; so the id fits 32 bits and the command is not BadRequest.
pub encode_request-decode_request :
    (p : KlvPacket) (r : StandardRequest)
    → IsPacket p
    → All IsByte p.value
    → decode_request p ≡ ok r
    → (encode_request r ≡ ok p) × IsSendable r
unfolding encode_request decode_request
encode_request-decode_request p r v bytes e = elim (Result-cases (describe_ul p.ul)) [
  | inl (d, known) ↦ elim (Result-cases (decode_be_u32 p.value 0)) [
    | inl (id, read) ↦
        let listed = (describe_ul-ul_for_iff p.ul d).0 known in
        let (fits, split) = decode_be_u32-inverse p.value id bytes read in
        let parts : (r.command ≡ d.command)
            × (d.response ≡ false)
            × (r.request_id ≡ id)
            × (r.payload ≡ drop 4 p.value) =
          ground arith in
        let size : length p.value ≡ 4 + length (drop 4 p.value) =
          ground (arith, ap (length {0}) split) in
        (
          ground (arith, append_be_u32-be_u32 [] id),
          record {
            request_only = λ bad. ground (arith, bad_request_unlisted);
            id_fits = ground arith;
            size_fits = ground arith;
          },
        )
    | inr (m, bad) ↦ ground arith
  ]
  | inr (m, unknown) ↦ ground arith
]

pub length-encode_request :
    (r : StandardRequest) (p : KlvPacket)
    → IsSendable r
    → encode_request r ≡ ok p
    → p.length ≡ 4 + length r.payload
unfolding encode_request
length-encode_request r p h e = elim (Result-cases (ul_for r.command false)) [
  | inl (ul, named) ↦ ground (arith, append_be_u32-be_u32 [] r.request_id)
  | inr (m, missing) ↦ absurd (ground arith)
]
