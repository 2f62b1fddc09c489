-- ===== src/LeKey/Jsonl/Saved.antt =====
-- What the file holds, and what the store does when it cannot be written.
use iso26430_6_asm_prototype.Base.{
  ℕ, ◌≡◌, refl, true, some, [], ◌∷◌, arith, All, IsByte, ok, map, Text,
}
use iso26430_6_asm_prototype.LeKey.{LeKeyRecord}
use iso26430_6_asm_prototype.LeKey.Jsonl.{parse_jsonl_line, key_line, bytes_to_hex}
use iso26430_6_asm_prototype.LeKey.Jsonl.RoundTrip.{parse_jsonl_line-key_line, bytes_to_hex-digits}
use iso26430_6_asm_prototype.LeKey.Jsonl.Store.{
  Disk, JsonlLeKeyStore, open_store, opened, persist, load_keys, purge_key, purge_all, jsonl,
}
use iso26430_6_asm_prototype.LeKey.Payload.Records.{IsKeyRecord}
use iso26430_6_asm_prototype.LeKey.Store as Memory
use iso26430_6_asm_prototype.LeKey.Store.{
  Keys, capacity, would_overflow, put, put_all, erase_key, in_memory,
}
use iso26430_6_asm_prototype.Service.Refinement.{Refines}
use iso26430_6_asm_prototype.Streams.{lines_of, decimal}
use iso26430_6_asm_prototype.Streams.Decimal.{decimal-digits}
use iso26430_6_asm_prototype.Streams.Jsonl.Reading.{Reads, read_jsonl-Reads}
use iso26430_6_asm_prototype.Streams.Lines.{
  OneLine, joined, lines_of-joined, no_newline, no_newline-append, digits-OneLine,
  hexadecimals-OneLine,
}

-- A file system that never fails.
pub record IsWorking (disk : Disk) : Type 0 where
  pub reads : disk.readable ≡ true
  pub always_opens : (n : ℕ) → disk.opens n ≡ true
  pub writes_all : (n : ℕ) (text : Text) → disk.written n text ≡ text

-- A key as a request can bring it: its fields fit their types.
pub record IsStorable (k : LeKeyRecord) : Type 0 where
  pub fields_fit : IsKeyRecord k
  pub key_bytes : All IsByte k.key

-- Over a file system that never fails, the store does what the in-memory store does.
pub jsonl-Refines : (disk : Disk) → IsWorking disk → Refines (jsonl disk) in_memory (λ s. s.keys)
unfolding load_keys purge_key purge_all persist Memory.load_keys Memory.purge_key
jsonl-Refines disk w = record {
  loads = λ keys s. ground (arith, w.always_opens s.openings);
  contains = λ id s. refl;
  lists = λ s. refl;
  purges = λ id s. ground (arith, w.always_opens s.openings);
  clears = λ s. ground (arith, w.always_opens s.openings);
}

-- A line has no newline in it.
key_line-OneLine : (k : LeKeyRecord) → IsStorable k → OneLine (key_line k)
unfolding key_line no_newline
key_line-OneLine k h =
    let number = λ (n : ℕ). digits-OneLine (decimal n) (decimal-digits n) in
    rw
      (
        no_newline-append (decimal k.key_id) _,
        number k.key_id,
        no_newline-append (bytes_to_hex k.key) _,
        hexadecimals-OneLine (bytes_to_hex k.key) (bytes_to_hex-digits k.key h.key_bytes),
        no_newline-append (decimal k.expire_time) _,
        number k.expire_time,
        no_newline-append (decimal k.attribute_data) _,
        number k.attribute_data,
      )
      refl

lines-OneLine : (keys : Keys) → All IsStorable keys → All OneLine (map key_line keys)
lines-OneLine [] h = tt
lines-OneLine (k ∷ keys) (hk, h) = (key_line-OneLine k hk, lines-OneLine keys h)

lines-Reads : (keys : Keys) → All IsStorable keys → Reads parse_jsonl_line (map key_line keys) keys
unfolding Reads key_line
lines-Reads [] h = refl
lines-Reads (k ∷ keys) (hk, h) =
    (k, keys, refl, parse_jsonl_line-key_line k hk.fields_fit hk.key_bytes, lines-Reads keys h)

-- The file reads as the keys.
abbrev pub IsSaved : JsonlLeKeyStore → Type 0
IsSaved s = Reads parse_jsonl_line (lines_of s.file) s.keys

pub record IsKept (s : JsonlLeKeyStore) : Type 0 where
  pub storable : All IsStorable s.keys
  pub saved : IsSaved s

-- A program that starts on the file of such a store has its keys.
pub open_store-IsKept :
    (disk : Disk) (s : JsonlLeKeyStore)
    → IsWorking disk
    → IsKept s
    → open_store disk (some s.file) ≡ ok (record { keys = s.keys; file = s.file; openings = 0 })
unfolding open_store
open_store-IsKept disk s w h =
    rw
      (
        w.reads,
        read_jsonl-Reads "failed to parse LEKey JSONL line " parse_jsonl_line s.file s.keys h.saved,
        opened,
      )
      refl

module _ (disk : Disk) (w : IsWorking disk) where
  pub persist-IsKept : (s : JsonlLeKeyStore) → All IsStorable s.keys → IsKept (persist disk s).1
  unfolding persist
  persist-IsKept s h = rw (w.always_opens s.openings) (record {
    storable = h;
    saved =
        rw
          (
            w.writes_all s.openings (joined (map key_line s.keys)),
            lines_of-joined (map key_line s.keys) (lines-OneLine s.keys h),
          )
          (lines-Reads s.keys h);
  })
