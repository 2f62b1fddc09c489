-- ===== src/BigEndian/RoundTrip.antt =====
-- The readers and writers of src/asm/codec.cpp undo one another, at any place of a buffer.
use iso26430_6_asm_prototype.Base.{
  ℕ, ◌+◌, ◌≡◌, ◌++◌, append_assoc, length, take, drop, drop-append_left, take-append-drop,
  drop-drop, All-drop, ok, All, IsByte, IsU32, IsU64,
}
use iso26430_6_asm_prototype.Common.{ByteBuffer}
use iso26430_6_asm_prototype.BigEndian.{append_be_u32, append_be_u64, decode_be_u32, decode_be_u64}
use iso26430_6_asm_prototype.BigEndian.Words.{
  be_u32, be_u64, append_be_u32-be_u32, append_be_u64-be_u64, decode_be_u32-drop,
  decode_be_u64-drop, decode_be_u32-be_u32, decode_be_u64-be_u64, decode_be_u32-inverse,
}

-- A 32-bit word that is appended to a buffer is read back at the place where it was written, whatever
-- stands before and behind it.
pub decode_be_u32-append_be_u32 :
    (out rest : ByteBuffer) (v : ℕ)
    → IsU32 v
    → decode_be_u32 (append_be_u32 out v ++ rest) (length out) ≡ ok v
decode_be_u32-append_be_u32 out rest v h =
    rw
      (
        append_be_u32-be_u32 out v,
        append_assoc out (be_u32 v) rest,
        decode_be_u32-drop (out ++ (be_u32 v ++ rest)) (length out),
        drop-append_left out (be_u32 v ++ rest),
      )
      (decode_be_u32-be_u32 v rest h)

-- A 64-bit word that is appended to a buffer is read back at the place where it was written, whatever
-- stands before and behind it.
pub decode_be_u64-append_be_u64 :
    (out rest : ByteBuffer) (v : ℕ)
    → IsU64 v
    → decode_be_u64 (append_be_u64 out v ++ rest) (length out) ≡ ok v
decode_be_u64-append_be_u64 out rest v h =
    rw
      (
        append_be_u64-be_u64 out v,
        append_assoc out (be_u64 v) rest,
        decode_be_u64-drop (out ++ (be_u64 v ++ rest)) (length out),
        drop-append_left out (be_u64 v ++ rest),
      )
      (decode_be_u64-be_u64 v rest h)

-- A successful read of bytes at an offset gives a 32-bit word, and writing that word in its place
-- gives the buffer again.
pub append_be_u32-decode_be_u32 :
    (bytes : ByteBuffer) (offset v : ℕ)
    → All IsByte bytes
    → decode_be_u32 bytes offset ≡ ok v
    → IsU32 v × (append_be_u32 (take offset bytes) v ++ drop (offset + 4) bytes ≡ bytes)
append_be_u32-decode_be_u32 bytes offset v h e =
    let (fits, split) =
      decode_be_u32-inverse (drop offset bytes) v (All-drop IsByte offset bytes h)
        (rw (decode_be_u32-drop bytes offset) at e) in
    (
      fits,
      rw
          (
            append_be_u32-be_u32 (take offset bytes) v,
            append_assoc (take offset bytes) (be_u32 v) (drop (offset + 4) bytes),
            ← (drop-drop 4 offset bytes),
            ← split,
          )
          (take-append-drop offset bytes),
    )
