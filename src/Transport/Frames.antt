-- ===== src/Transport/Frames.antt =====
-- What one side of a connection puts on the wire and how the other side reads it, as serve_client and
-- send_request of src/transport compose the codecs.
use iso26430_6_asm_prototype.Base.{
  ℕ, ◌+◌, refl, ◌<◌, take, err, ◌≤◌, ◌≡◌, inl, inr, true, arith, length, Result-cases, All, IsByte,
  IsU32, u32, Result, ok, ◌>>=◌, ap, ◌+◌,
}
use iso26430_6_asm_prototype.Common.{ByteBuffer, StandardRequest, StandardResponse}
use iso26430_6_asm_prototype.Klv
use iso26430_6_asm_prototype.Klv.{KlvPacket, encode, encode_ber_length}
use iso26430_6_asm_prototype.BigEndian.{push_back}
use iso26430_6_asm_prototype.Klv.Ber.{max_length}
use iso26430_6_asm_prototype.Klv.RoundTrip.{
  IsPacket, wire, encode-wire, encode-decode, decode-IsByte, decode-wire,
}
use iso26430_6_asm_prototype.Codec.{
  encode_request, decode_request, encode_response, decode_response,
}
use iso26430_6_asm_prototype.Codec.Requests as Requests
use iso26430_6_asm_prototype.Codec.Requests.{
  decode_request-encode_request, encode_request-decode_request, length-encode_request,
}
use iso26430_6_asm_prototype.Klv.Prefix.{length-wire, decode-take}
use iso26430_6_asm_prototype.Codec.UlMap.{ul_for}
use iso26430_6_asm_prototype.Codec.UlMap.Inverse.{ul_for_cases}
use iso26430_6_asm_prototype.Codec.Responses.{
  HasRightId, IsSendable, decode_response-encode_response, content, response_prefix-id_bytes,
  id_bytes, length-content,
}

-- `Klv::encode(Codec::encode_response(…))`.
unfoldable pub encoded : StandardResponse → Result ByteBuffer
encoded response = do packet ← encode_response response; Klv.encode packet

-- `Klv::encode(Codec::encode_request(…))`.
unfoldable pub encoded_request : StandardRequest → Result ByteBuffer
encoded_request request = do packet ← encode_request request; Klv.encode packet

-- `Codec::decode_request(Klv::decode(…))`.
unfoldable pub read_request : ByteBuffer → Result StandardRequest
read_request bytes = do packet ← Klv.decode bytes; decode_request packet

-- `Codec::decode_response(Klv::decode(…))`.
unfoldable pub read_answer : ByteBuffer → Result StandardResponse
read_answer bytes = do packet ← Klv.decode bytes; decode_response packet

-- A sendable request has bytes, 24 and those of its payload, and they read back as it.
pub encoded_request-sendable :
    (r : StandardRequest)
    → Requests.IsSendable r
    → (bytes : ByteBuffer) × (encoded_request r ≡ ok bytes)
      × (read_request bytes ≡ ok r)
      × (length bytes ≡ 24 + length r.payload)
unfolding encoded_request read_request
encoded_request-sendable r h =
    let (p, e, v, d) = decode_request-encode_request r h in
    (
      wire p,
      ground (arith, encode-wire p v),
      ground (arith, decode-wire p v),
      omega (arith, length-wire p v, length-encode_request r p h e, v.measured),
    )

-- A sendable response has bytes, and they read back as it.
pub encoded-sendable :
    (r : StandardResponse)
    → IsSendable r
    → (bytes : ByteBuffer) × (encoded r ≡ ok bytes) × (read_answer bytes ≡ ok r)
unfolding encoded read_answer
encoded-sendable r h =
    let (p, e, v, d) = decode_response-encode_response r h in
    (wire p, ground (arith, encode-wire p v), ground (arith, decode-wire p v))

encode_response-content :
    (r : StandardResponse) (ul : ByteBuffer)
    → HasRightId r
    → ul_for r.command true ≡ ok ul
    → encode_response r
      ≡ ok (record { ul = ul; length = u32 (length (content r)); value = content r })
unfolding encode_response content push_back
encode_response-content r ul h e = rw (e, response_prefix-id_bytes r h) refl

-- A response that is encoded at all fits the length field.
pub encoded_fits :
    (r : StandardResponse) (bytes : ByteBuffer)
    → HasRightId r
    → encoded r ≡ ok bytes
    → length (content r) ≤ max_length
unfolding encoded encode encode_ber_length
encoded_fits r bytes h e = elim (ul_for_cases r.command true) [
  | inl (_, no_request, _) ↦ cc
  | inr (ul, named, d, l) ↦ ground (arith, encode_response-content r ul h named)
]

-- The id of a request that was read is below 2 ^ 32.
pub read_request-IsU32 :
    (bytes : ByteBuffer) (r : StandardRequest)
    → All IsByte bytes
    → read_request bytes ≡ ok r
    → IsU32 r.request_id
unfolding read_request
read_request-IsU32 bytes r h e = elim (Result-cases (Klv.decode bytes)) [
  | inl (p, d) ↦
      let (v, _) = encode-decode bytes p h d in
      (encode_request-decode_request p r v (decode-IsByte bytes p h d) (rw d at e)).1.id_fits
  | inr (m, d) ↦ absurd (ground arith)
]

packet-content :
    (r : StandardResponse) (p : KlvPacket)
    → IsSendable r
    → encode_response r ≡ ok p
    → p.value ≡ content r
packet-content r p h e = elim (ul_for_cases r.command true) [
  | inl (bad, no_request, _) ↦ absurd (ground arith)
  | inr (ul, named, d, l) ↦ ground (arith, encode_response-content r ul h.right_id named)
]

-- A sendable response that is encoded is the wire form of a packet.
encoded-IsPacket :
    (r : StandardResponse) (bytes : ByteBuffer)
    → IsSendable r
    → encoded r ≡ ok bytes
    → (p : KlvPacket) × IsPacket p × (Klv.encode p ≡ ok bytes)
unfolding encoded
encoded-IsPacket r bytes h e =
    let (p, e', v, d) = decode_response-encode_response r h in (p, v, ground arith)

pub length-encoded :
    (r : StandardResponse) (bytes : ByteBuffer)
    → IsSendable r
    → encoded r ≡ ok bytes
    → length bytes ≡ 21 + length (id_bytes r.request_id) + length r.payload
unfolding encoded
length-encoded r bytes h e =
    let (p, made, v, d) = decode_response-encode_response r h in
    let framed : Klv.encode p ≡ ok bytes = ground (arith, made, e) in
    let same : wire p ≡ bytes = ground (arith, framed, encode-wire p v) in
    rw (← same) (
      omega (
        arith,
        length-wire p v,
        v.measured,
        ap (length {0}) (packet-content r p h made),
        length-content r,
      ))

pub some_bytes :
    (r : StandardResponse) (bytes : ByteBuffer)
    → IsSendable r
    → encoded r ≡ ok bytes
    → 0 < length bytes
some_bytes r bytes h e =
    let (p, v, f) = encoded-IsPacket r bytes h e in ground (arith, encode-wire p v, length-wire p v)

-- A response whose end is cut off somewhere behind the length field cannot be read.
pub cut_answer :
    (r : StandardResponse) (bytes : ByteBuffer) (n : ℕ)
    → IsSendable r
    → encoded r ≡ ok bytes
    → 20 ≤ n
    → n < length bytes
    → read_answer (take n bytes) ≡ err "KLV value length mismatch"
unfolding read_answer
cut_answer r bytes n h e far cut =
    let (p, v, f) = encoded-IsPacket r bytes h e in rw (decode-take p bytes n v f far cut) refl
