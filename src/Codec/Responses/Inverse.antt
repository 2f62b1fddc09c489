-- ===== src/Codec/Responses/Inverse.antt =====
-- What a response packet must look like for `decode_response` to accept it.
use iso26430_6_asm_prototype.Base.{
  ℕ, zero, suc, ◌-◌, ◌≤◌, ◌≡◌, ◌≢◌, ◌⊎◌, sym, inl, inr, true, none, some, [], ◌∷◌, ◌++◌, arith,
  length, take, drop, ok, All, IsByte, Result-cases, ap, split_last, ◌∙◌,
}
use iso26430_6_asm_prototype.Common.{ByteBuffer, bad_request, response_byte, StandardResponse}
use iso26430_6_asm_prototype.BigEndian.{decode_be_u32}
use iso26430_6_asm_prototype.BigEndian.Words.{be_u32, decode_be_u32-inverse}
use iso26430_6_asm_prototype.Klv.{KlvPacket}
use iso26430_6_asm_prototype.Klv.RoundTrip.{IsPacket}
use iso26430_6_asm_prototype.Codec.{
  decode_response_code, encode_response, decode_response, back, but_last,
}
use iso26430_6_asm_prototype.Codec.UlMap.{describe_ul}
use iso26430_6_asm_prototype.Codec.UlMap.Inverse.{describe_ul-ul_for_iff}
use iso26430_6_asm_prototype.Codec.Responses.{
  IsSendable, HasRightId, packet, content, length-content, is_bad_request, encode_response-packet,
  response_byte-decode_response_code,
}

id_then_payload :
    (id : ℕ) (value : ByteBuffer) (n : ℕ)
    → value ≡ be_u32 id ++ drop 4 value
    → 4 ≤ n
    → be_u32 id ++ drop 4 (take n value) ≡ take n value
id_then_payload id value zero e h = absurd (omega arith)
id_then_payload id value (suc zero) e h = absurd (omega arith)
id_then_payload id value (suc (suc zero)) e h = absurd (omega arith)
id_then_payload id value (suc (suc (suc zero))) e h = absurd (omega arith)
id_then_payload id value (suc (suc (suc (suc m)))) e h =
    ap (λ v. be_u32 id ++ drop 4 (take (suc (suc (suc (suc m)))) v)) e
    ∙ ap (take (suc (suc (suc (suc m))))) (sym e)

-- What a successful `decode_response` has found.
record Found (p : KlvPacket) (r : StandardResponse) : Type 0 where
  listed : describe_ul p.ul ≡ ok (record { command = r.command; response = true })
  coded : decode_response_code (back p.value) ≡ ok r.response_code
  some_bytes : 1 ≤ length p.value
  shape :
      ((r.command ≡ bad_request) × (r.request_id ≡ none) × (r.payload ≡ but_last p.value))
      ⊎ ((r.command ≢ bad_request)
          × ((id : ℕ) × (r.request_id ≡ some id)
              × (decode_be_u32 p.value 0 ≡ ok id)
              × (5 ≤ length p.value)
              × (r.payload ≡ drop 4 (but_last p.value))))

found : (p : KlvPacket) (r : StandardResponse) → decode_response p ≡ ok r → Found p r
unfolding decode_response
found p r e = elim (Result-cases (describe_ul p.ul)) [
  | inl (d, known) ↦ elim (Result-cases (decode_response_code (back p.value))) [
    | inl (code, coded) ↦ elim (Result-cases (decode_be_u32 p.value 0)) [
      | inl (id, read) ↦ elim (is_bad_request d.command) [
        | inl b ↦ record {
          listed = ground arith;
          coded = ground arith;
          some_bytes = ground arith;
          shape = inl (ground arith);
        }
        | inr o ↦ record {
          listed = ground arith;
          coded = ground arith;
          some_bytes = ground arith;
          shape = inr (ground arith, (id, ground arith, ground arith, ground arith, ground arith));
        }
      ]
      | inr (m, bad) ↦ record {
        listed = ground (arith, is_bad_request d.command);
        coded = ground (arith, is_bad_request d.command);
        some_bytes = ground arith;
        shape = inl (ground (arith, is_bad_request d.command));
      }
    ]
    | inr (m, bad) ↦ absurd (ground arith)
  ]
  | inr (m, bad) ↦ absurd (ground arith)
]

-- The value of an accepted packet is the content of the response.
content_of_found :
    (p : KlvPacket) (r : StandardResponse) → All IsByte p.value → Found p r → content r ≡ p.value
unfolding content
content_of_found p r bytes f =
    let n = length p.value - 1 in
    let whole : but_last p.value ++ (back p.value ∷ []) ≡ p.value =
      split_last p.value (length p.value - 1) 0 (omega (arith, f.some_bytes)) in
    let code : response_byte r.response_code ≡ back p.value =
      response_byte-decode_response_code (back p.value) r.response_code f.coded in
    elim f.shape [
      | inl (bad, without, all) ↦ ground arith
      | inr (other, (id, with_id, read, enough, rest)) ↦
          let (fits, split) = decode_be_u32-inverse p.value id bytes read in
          ground
            (arith, id_then_payload id p.value (length p.value - 1) split (omega (arith, enough)))
    ]

right_id_of_found :
    (p : KlvPacket) (r : StandardResponse) → All IsByte p.value → Found p r → HasRightId r
right_id_of_found p r bytes f = elim f.shape [
  | inl (bad, without, all) ↦ inl (bad, without)
  | inr (other, (id, with_id, read, enough, rest)) ↦
      inr (other, (id, with_id, (decode_be_u32-inverse p.value id bytes read).0))
]

-- A packet that decodes to a response, if its value is bytes and its length field is right, is the
-- packet of that response; so the response has an id of 32 bits, or is a BadRequest and has none.
pub encode_response-decode_response :
    (p : KlvPacket) (r : StandardResponse)
    → IsPacket p
    → All IsByte p.value
    → decode_response p ≡ ok r
    → (encode_response r ≡ ok p) × IsSendable r
encode_response-decode_response p r v bytes e =
    let f = found p r e in
    let same = content_of_found p r bytes f in
    let sendable : IsSendable r = record {
      right_id = right_id_of_found p r bytes f;
      size_fits = ground (arith, length-content r);
    } in
    let listed =
      (describe_ul-ul_for_iff p.ul (record { command = r.command; response = true })).0 f.listed in
    (encode_response-packet r p.ul sendable listed ∙ unfold packet in ground arith, sendable)
