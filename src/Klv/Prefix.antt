-- ===== src/Klv/Prefix.antt =====
-- A message that is cut.
use iso26430_6_asm_prototype.Base.{
  ℕ, ◌+◌, ◌-◌, ◌≤◌, ◌<◌, ◌≡◌, ◌++◌, arith, length, take, length-append, length-take, drop-append_at,
  take-append_past, ok, err,
}
use iso26430_6_asm_prototype.Common.{ByteBuffer}
use iso26430_6_asm_prototype.Klv.{KlvPacket, encode, decode}
use iso26430_6_asm_prototype.Klv.Ber.{ber, decode_ber_length-ber}
use iso26430_6_asm_prototype.Klv.RoundTrip.{IsPacket, wire, encode-wire}

pub length-wire : (p : KlvPacket) → IsPacket p → length (wire p) ≡ 20 + p.length
length-wire p h = omega (arith, h.label, h.measured, length-append p.ul (ber p.length ++ p.value))

take-wire :
    (p : KlvPacket) (n : ℕ)
    → IsPacket p
    → take (20 + n) (wire p) ≡ p.ul ++ (ber p.length ++ take n p.value)
take-wire p n h = ground (
  arith,
  take-append_past p.ul (ber p.length ++ p.value) (4 + n),
  take-append_past (ber p.length) p.value n,
)

decode-take_wire :
    (p : KlvPacket) (n : ℕ)
    → IsPacket p
    → n < p.length
    → decode (p.ul ++ (ber p.length ++ take n p.value)) ≡ err "KLV value length mismatch"
unfolding decode
decode-take_wire p n h cut = ground (
  arith,
  decode_ber_length-ber p.length (take n p.value),
  drop-append_at 16 p.ul (ber p.length ++ take n p.value),
  length-append p.ul (ber p.length ++ take n p.value),
  length-take n p.value,
)

-- What is left of the bytes of a packet that has a wire form, when their end is cut off somewhere
-- behind the length field, is refused for its size.
pub decode-take :
    (p : KlvPacket) (bytes : ByteBuffer) (n : ℕ)
    → IsPacket p
    → encode p ≡ ok bytes
    → 20 ≤ n
    → n < length bytes
    → decode (take n bytes) ≡ err "KLV value length mismatch"
decode-take p bytes n h e far cut =
    let same : bytes ≡ wire p = ground (arith, encode-wire p h) in
    let m : 20 + (n - 20) ≡ n = omega arith in
    rw (same, ← m, take-wire p (n - 20) h)
      (decode-take_wire p (n - 20) h (ground (arith, length-wire p h)))
