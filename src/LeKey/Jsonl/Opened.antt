-- ===== src/LeKey/Jsonl/Opened.antt =====
-- A store that was opened is one that its file reads as, whatever the file holds.
use iso26430_6_asm_prototype.Base.{
  ℕ, zero, suc, ◌+◌, ◌*◌, ◌≡◌, refl, Option, none, some, List, [], ◌∷◌, arith, All, IsByte, u8, u32,
  u64, length, take, drop, ok, bind_ok, inl, inr, ◌!=◌, Bool-cases, Text,
}
use iso26430_6_asm_prototype.Common.{ByteBuffer}
use iso26430_6_asm_prototype.LeKey.{LeKeyRecord}
use iso26430_6_asm_prototype.LeKey.Jsonl.{
  hex_to_key, hex_loop, key_pattern, from_groups, parse_jsonl_line,
}
use iso26430_6_asm_prototype.LeKey.Jsonl.Saved.{IsStorable, IsKept}
use iso26430_6_asm_prototype.LeKey.Jsonl.Store.{Disk, JsonlLeKeyStore, open_store, opened}
use iso26430_6_asm_prototype.LeKey.Store.{Keys}
use iso26430_6_asm_prototype.Streams.{ten, sixteen, stoul, stoull, lines_of}
use iso26430_6_asm_prototype.Streams.Jsonl.Reading.{Reads, read_jsonl-cases}
use iso26430_6_asm_prototype.Streams.Regex.{match}

hex_loop-IsByte :
    (n i : ℕ) (hex : Text) (key : ByteBuffer)
    → hex_loop n i hex ≡ ok key
    → (length key ≡ n) × All IsByte key
unfolding hex_loop
hex_loop-IsByte zero i hex key h = let same : key ≡ [] = ground (arith, h) in rw same (refl, tt)
hex_loop-IsByte (suc n) i hex key h =
    let (value, _, h1) = bind_ok (stoul sixteen (take 2 (drop (i * 2) hex))) _ key h in
    let (rest, e, h2) = bind_ok (hex_loop n (i + 1) hex) _ key h1 in
    let (size, bytes) = hex_loop-IsByte n (i + 1) hex rest e in
    let same : key ≡ u8 value ∷ rest = ground (arith, h2) in
    rw same (omega (arith, size), (omega arith, bytes))

hex_to_key-IsByte :
    (hex : Text) (key : ByteBuffer) → hex_to_key hex ≡ ok key → (length key ≡ 16) × All IsByte key
unfolding hex_to_key
hex_to_key-IsByte hex key h = elim (Bool-cases (length hex != 32)) [
  | inl wrong ↦ absurd (ground (arith, rw wrong at h))
  | inr right ↦ hex_loop-IsByte 16 0 hex key (rw right at h)
]

from_groups-IsStorable :
    (groups : Option (List Text)) (k : LeKeyRecord) → from_groups groups ≡ ok k → IsStorable k
unfolding from_groups
from_groups-IsStorable none k h = absurd (ground (arith, h))
from_groups-IsStorable (some []) k h = absurd (ground (arith, h))
from_groups-IsStorable (some (a ∷ [])) k h = absurd (ground (arith, h))
from_groups-IsStorable (some (a ∷ b ∷ [])) k h = absurd (ground (arith, h))
from_groups-IsStorable (some (a ∷ b ∷ c ∷ [])) k h = absurd (ground (arith, h))
from_groups-IsStorable (some (a ∷ b ∷ c ∷ d ∷ e ∷ more)) k h = absurd (ground (arith, h))
from_groups-IsStorable (some (a ∷ b ∷ c ∷ d ∷ [])) k h =
    let (id, _, h1) = bind_ok (stoul ten a) _ k h in
    let (bytes, e, h2) = bind_ok (hex_to_key b) _ k h1 in
    let (expire, _, h3) = bind_ok (stoul ten c) _ k h2 in
    let (attribute, _, h4) = bind_ok (stoull d) _ k h3 in
    let (size, all) = hex_to_key-IsByte b bytes e in
    let same : k ≡ record {
      key_id = u32 id;
      key = bytes;
      expire_time = u32 expire;
      attribute_data = u64 attribute;
    } =
      ground (arith, h4) in
    rw same (record {
      fields_fit = record {
        id_fits = omega arith;
        key_size = size;
        expire_fits = omega arith;
        attribute_fits = omega arith;
      };
      key_bytes = all;
    })

Reads-IsStorable :
    (lines : List Text) (keys : Keys) → Reads parse_jsonl_line lines keys → All IsStorable keys
unfolding Reads parse_jsonl_line
Reads-IsStorable [] keys h = rw h tt
Reads-IsStorable ([] ∷ lines) keys h = Reads-IsStorable lines keys h
Reads-IsStorable ((c ∷ line) ∷ lines) keys (k, rest, same, parsed, read) = rw same (
  from_groups-IsStorable (match key_pattern (c ∷ line)) k parsed,
  Reads-IsStorable lines rest read,
)

-- Whatever the file holds, a store that is opened on it, or created where there is none, holds keys that fit
-- their types, and its file reads as them.
pub opened-IsKept :
    (disk : Disk) (file : Option Text) (s : JsonlLeKeyStore)
    → open_store disk file ≡ ok s
    → IsKept s
unfolding open_store opened
opened-IsKept disk none s h = elim (Bool-cases disk.creates) [
  | inr failed ↦ absurd (ground (arith, rw failed at h))
  | inl made ↦
      let same : s ≡ record { keys = []; file = []; openings = 0 } = ground (arith, rw made at h) in
      rw same (record { storable = tt; saved = unfold Reads lines_of in refl })
]
opened-IsKept disk (some text) s h = elim (Bool-cases disk.readable) [
  | inr failed ↦ absurd (ground (arith, rw failed at h))
  | inl readable ↦
      elim (read_jsonl-cases "failed to parse LEKey JSONL line " parse_jsonl_line text) [
        | inl (keys, e, reads) ↦
            let same : s ≡ record { keys = keys; file = text; openings = 0 } =
              ground (arith, rw (readable, e) at h) in
            rw same
              (record { storable = Reads-IsStorable (lines_of text) keys reads; saved = reads })
        | inr (number, what, e, _) ↦ absurd (ground (arith, rw (readable, e) at h))
      ]
]
