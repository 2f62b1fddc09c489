-- ===== src/Klv/RoundTrip.antt =====
-- Encoding and decoding of a KLV packet.
use iso26430_6_asm_prototype.Base.{
  ◌+◌, ◌≤◌, ◌≡◌, ◌++◌, append_assoc, arith, length, drop, length-append, length-take, length-drop,
  take-append_at, drop-append_at, take-append-drop, drop-drop, All-drop, ok, All, IsByte,
  Result-cases, inl, inr, ap, ◌∙◌,
}
use iso26430_6_asm_prototype.Common.{ByteBuffer}
use iso26430_6_asm_prototype.Klv.{KlvPacket, decode_ber_length, encode, decode}
use iso26430_6_asm_prototype.Klv.Ber.{
  max_length, ber, encode_ber_length-ber, decode_ber_length-ber, decode_ber_length-inverse,
}

-- A packet that has a wire form: a label of 16 bytes, and a length that is the value's and fits.
pub record IsPacket (p : KlvPacket) : Type 0 where
  pub label : length p.ul ≡ 16
  pub measured : length p.value ≡ p.length
  pub fits : p.length ≤ max_length

-- The bytes of such a packet.
abbrev pub wire : KlvPacket → ByteBuffer
wire p = p.ul ++ (ber p.length ++ p.value)

pub encode-wire : (p : KlvPacket) → IsPacket p → encode p ≡ ok (wire p)
unfolding encode
encode-wire p h =
    ground (arith, encode_ber_length-ber p.length, append_assoc p.ul (ber p.length) p.value)

pub decode-wire : (p : KlvPacket) → IsPacket p → decode (wire p) ≡ ok p
unfolding decode
decode-wire p h = ground (
  arith,
  decode_ber_length-ber p.length p.value,
  take-append_at 16 p.ul (ber p.length ++ p.value),
  drop-append_at 16 p.ul (ber p.length ++ p.value),
  drop-drop 4 16 (wire p),
  length-append p.ul (ber p.length ++ p.value),
)

-- A packet whose label has 16 bytes and whose length field is its value's size, below 2 ^ 24, is
-- encoded, and decoding the bytes gives the packet back.
pub decode-encode :
    (p : KlvPacket)
    → IsPacket p
    → (bytes : ByteBuffer) × (encode p ≡ ok bytes) × (decode bytes ≡ ok p)
decode-encode p h = (wire p, encode-wire p h, decode-wire p h)

decode-inverse :
    (bytes : ByteBuffer) (p : KlvPacket)
    → All IsByte bytes
    → decode bytes ≡ ok p
    → IsPacket p × (wire p ≡ bytes)
unfolding decode
decode-inverse bytes p h e = elim (Result-cases (decode_ber_length (drop 16 bytes))) [
  | inl ((size, consumed), r) ↦
      let (four, fits, split) =
        decode_ber_length-inverse (drop 16 bytes) size consumed (All-drop IsByte 16 bytes h) r in
      ground (
        arith,
        length-take 16 bytes,
        length-drop 20 bytes,
        drop-drop 4 16 bytes,
        take-append-drop 16 bytes,
      )
  | inr (m, r) ↦ ground arith
]

-- Every buffer of bytes that decodes gives a packet with a wire form, and that form is the buffer: no
-- two buffers decode to one packet.
pub encode-decode :
    (bytes : ByteBuffer) (p : KlvPacket)
    → All IsByte bytes
    → decode bytes ≡ ok p
    → IsPacket p × (encode p ≡ ok bytes)
encode-decode bytes p h e =
    let (v, same) = decode-inverse bytes p h e in (v, encode-wire p v ∙ ap ok same)

pub decode-IsByte :
    (bytes : ByteBuffer) (p : KlvPacket)
    → All IsByte bytes
    → decode bytes ≡ ok p
    → All IsByte p.value
unfolding decode
decode-IsByte bytes p h e = elim (Result-cases (decode_ber_length (drop 16 bytes))) [
  | inl ((size, consumed), r) ↦
      let tail : p.value ≡ drop (16 + consumed) bytes = ground arith in
      rw tail (All-drop IsByte (16 + consumed) bytes h)
  | inr (m, r) ↦ absurd (ground arith)
]
