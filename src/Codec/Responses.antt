-- ===== src/Codec/Responses.antt =====
-- Response packets: the id stands before the payload in all but BadRequest, the response code stands
-- behind it.
pub mod Inverse
use iso26430_6_asm_prototype.Base.{
  ℕ, zero, suc, ◌+◌, ◌-◌, ◌≤◌, ◌≡◌, ◌≢◌, refl, ◌⊎◌, inl, inr, Bool, true, false, Option, none, some,
  [], ◌∷◌, ◌++◌, append_assoc, arith, length, get_or, take, drop, length-append, length-take,
  take-append_at, get_or-append_at, split_last, drop-drop, ok, All, IsByte, IsU32, Result-cases, ap,
  Option-cases, All-take, ◌==◌,
}
use iso26430_6_asm_prototype.Common.{
  ByteBuffer, Command, bad_request, get_time, GeneralResponse, successful, failed, invalid, busy,
  response_byte, StandardResponse,
}
use iso26430_6_asm_prototype.BigEndian.{append_be_u32, decode_be_u32, push_back}
use iso26430_6_asm_prototype.BigEndian.Words.{
  be_u32, append_be_u32-be_u32, decode_be_u32-be_u32, decode_be_u32-inverse,
}
use iso26430_6_asm_prototype.Klv.{KlvPacket}
use iso26430_6_asm_prototype.Klv.Ber.{max_length}
use iso26430_6_asm_prototype.Klv.RoundTrip.{IsPacket}
use iso26430_6_asm_prototype.Codec.{
  decode_response_code, response_prefix, encode_response, decode_response, back, but_last,
}
use iso26430_6_asm_prototype.Codec.UlMap.{command_eq, ul_for, describe_ul}
use iso26430_6_asm_prototype.Codec.UlMap.Inverse.{ul_for_cases, describe_ul-ul_for_iff}

-- The bytes that stand before the payload.
abbrev pub id_bytes : Option ℕ → ByteBuffer
id_bytes none = []
id_bytes (some id) = be_u32 id

-- A BadRequest has no id, and every other response has one of 32 bits.
abbrev pub HasRightId : StandardResponse → Type 0
HasRightId r =
    ((r.command ≡ bad_request) × (r.request_id ≡ none))
    ⊎ ((r.command ≢ bad_request) × ((id : ℕ) × (r.request_id ≡ some id) × IsU32 id))

pub record IsSendable (r : StandardResponse) : Type 0 where
  pub right_id : HasRightId r
  pub size_fits : length (id_bytes r.request_id) + length r.payload + 1 ≤ max_length

pub is_bad_request :
    (c : Command)
    → ((c ≡ bad_request) × (command_eq c bad_request ≡ true))
      ⊎ ((c ≢ bad_request) × (command_eq c bad_request ≡ false))
unfolding command_eq
is_bad_request bad_request = inl (refl, refl)
is_bad_request get_time = inr ((λ e. cc), refl)
is_bad_request _ = inr ((λ e. cc), refl)

decode_response_code-response_byte :
    (c : GeneralResponse) → decode_response_code (response_byte c) ≡ ok c
unfolding decode_response_code response_byte
decode_response_code-response_byte successful = refl
decode_response_code-response_byte _ = refl

response_byte-decode_response_code :
    (v : ℕ) (c : GeneralResponse) → decode_response_code v ≡ ok c → response_byte c ≡ v
unfolding decode_response_code response_byte
response_byte-decode_response_code v c e = ground arith

-- What `encode_response` puts into the value.
unfoldable pub content : StandardResponse → ByteBuffer
content r = (id_bytes r.request_id ++ r.payload) ++ (response_byte r.response_code ∷ [])

pub response_prefix-id_bytes :
    (r : StandardResponse) → HasRightId r → response_prefix r ≡ ok (id_bytes r.request_id)
unfolding response_prefix
response_prefix-id_bytes r (inl (c, e)) = ground (arith, is_bad_request r.command)
response_prefix-id_bytes r (inr (c, (id, e, fits))) =
    ground (arith, is_bad_request r.command, append_be_u32-be_u32 [] id)

-- The packet of a sendable response.
packet : (ul : ByteBuffer) → StandardResponse → KlvPacket
packet ul r = record { ul = ul; length = length (content r); value = content r }

pub length-content :
    (r : StandardResponse)
    → length (content r) ≡ length (id_bytes r.request_id) + length r.payload + 1
unfolding content
length-content r = omega (
  arith,
  length-append (id_bytes r.request_id ++ r.payload) (response_byte r.response_code ∷ []),
  length-append (id_bytes r.request_id) r.payload,
)

back-content : (r : StandardResponse) → back (content r) ≡ response_byte r.response_code
unfolding content
back-content r = ground (
  arith,
  length-content r,
  length-append (id_bytes r.request_id) r.payload,
  get_or-append_at (id_bytes r.request_id ++ r.payload) [] (response_byte r.response_code) 0,
)

but_last-content :
    (r : StandardResponse) → but_last (content r) ≡ id_bytes r.request_id ++ r.payload
unfolding content
but_last-content r =
    take-append_at _ (id_bytes r.request_id ++ r.payload) (response_byte r.response_code ∷ [])
      (omega (arith, length-content r, length-append (id_bytes r.request_id) r.payload))

read-content :
    (r : StandardResponse) (id : ℕ)
    → r.request_id ≡ some id
    → IsU32 id
    → decode_be_u32 (content r) 0 ≡ ok id
unfolding content
read-content r id e fits = ground (
  arith,
  append_assoc (be_u32 id) r.payload (response_byte r.response_code ∷ []),
  decode_be_u32-be_u32 id (r.payload ++ (response_byte r.response_code ∷ [])),
)

encode_response-packet :
    (r : StandardResponse) (ul : ByteBuffer)
    → IsSendable r
    → ul_for r.command true ≡ ok ul
    → encode_response r ≡ ok (packet ul r)
unfolding encode_response packet content push_back
encode_response-packet r ul h e = ground (arith, response_prefix-id_bytes r, length-content r)

decode_response-packet :
    (r : StandardResponse) (ul : ByteBuffer)
    → IsSendable r
    → describe_ul ul ≡ ok (record { command = r.command; response = true })
    → decode_response (packet ul r) ≡ ok r
unfolding decode_response packet
decode_response-packet r ul h e = elim h.right_id [
  | inl (bad, without) ↦ ground (
    arith,
    is_bad_request r.command,
    length-content r,
    back-content r,
    but_last-content r,
    decode_response_code-response_byte r.response_code,
  )
  | inr (other, (id, with_id, fits)) ↦ ground (
    arith,
    is_bad_request r.command,
    length-content r,
    back-content r,
    but_last-content r,
    decode_response_code-response_byte r.response_code,
    read-content r id with_id fits,
  )
]

-- Every sendable response is encoded, to a packet that KLV can encode, and decoding that packet gives
-- the response back: command, id, payload and response code.
pub decode_response-encode_response :
    (r : StandardResponse)
    → IsSendable r
    → (p : KlvPacket) × (encode_response r ≡ ok p) × IsPacket p × (decode_response p ≡ ok r)
decode_response-encode_response r h = elim (ul_for_cases r.command true) [
  | inl (_, no_request, _) ↦ cc
  | inr (ul, e, d, l) ↦ (
    packet ul r,
    encode_response-packet r ul h e,
    unfold packet in ground (arith, length-content r),
    decode_response-packet r ul h d,
  )
]
