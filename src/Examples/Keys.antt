-- ===== src/Examples/Keys.antt =====
-- Key payloads and the key store.
use iso26430_6_asm_prototype.Base.{ℕ, suc, zero, ◌≡◌, refl, true, false, [], ◌∷◌, length, ok, ltb}
use iso26430_6_asm_prototype.Common.{ByteBuffer}
use iso26430_6_asm_prototype.BigEndian.{decode_be_u32, decode_be_u64}
use iso26430_6_asm_prototype.Batch.{decode_batch}
use iso26430_6_asm_prototype.LeKey.Payload.{decode_load_request, decode_record}
use iso26430_6_asm_prototype.LeKey.Store.{
  Keys, capacity, is_found, would_overflow, put, put_all, load_keys,
}
use iso26430_6_asm_prototype.LeKey.Store.Table.{find, last_of, load_keys-find}
use iso26430_6_asm_prototype.LeKey.Store.Overflow.{overflow_exact, overflow_counts_twice}
use iso26430_6_asm_prototype.Examples.Data.{key, two_keys}

-- A load request of one key, byte by byte.
abbrev one_key : ByteBuffer
one_key =
    0 ∷ 0 ∷ 0 ∷ 1 ∷ 0 ∷ 0 ∷ 0 ∷ 32 ∷ 0 ∷ 0 ∷ 0 ∷ 7 ∷ 0xab ∷ 1 ∷ 2 ∷ 3 ∷ 4 ∷ 5 ∷ 6 ∷ 7 ∷ 8 ∷ 9 ∷ 10
    ∷ 11 ∷ 12 ∷ 13 ∷ 14 ∷ 255 ∷ 0 ∷ 0 ∷ 0 ∷ 9 ∷ 1 ∷ 2 ∷ 3 ∷ 4 ∷ 5 ∷ 6 ∷ 7 ∷ 8 ∷ []

one_key_read : decode_load_request one_key ≡ ok (record { keys = key 7 9 ∷ [] })
unfolding decode_load_request decode_batch decode_be_u32 decode_be_u64 decode_record
one_key_read = refl

abbrev two_ids : ByteBuffer
two_ids = 0 ∷ 0 ∷ 0 ∷ 2 ∷ 0 ∷ 0 ∷ 0 ∷ 4 ∷ 0 ∷ 0 ∷ 0 ∷ 7 ∷ 255 ∷ 255 ∷ 255 ∷ 255 ∷ []

-- A load replaces a key in its place and puts a new one behind.
load_replaces :
    load_keys (key 7 1 ∷ key 8 2 ∷ []) (key 7 0 ∷ key 9 3 ∷ [])
    ≡ (false, key 7 1 ∷ key 9 3 ∷ key 8 2 ∷ [])
unfolding load_keys would_overflow put_all put
load_replaces = refl

load_keys-find_example :
    ((load_keys two_keys (key 7 0 ∷ [])).0 ≡ would_overflow two_keys (key 7 0 ∷ []) capacity)
    × ((load_keys two_keys (key 7 0 ∷ [])).0 ≡ true
        → (load_keys two_keys (key 7 0 ∷ [])).1 ≡ key 7 0 ∷ [])
    × ((load_keys two_keys (key 7 0 ∷ [])).0 ≡ false
        → (id : ℕ)
        → find id (load_keys two_keys (key 7 0 ∷ [])).1
          ≡ last_of id two_keys (find id (key 7 0 ∷ [])))
load_keys-find_example = load_keys-find two_keys (key 7 0 ∷ [])

overflow_exact_example :
    (load_keys two_keys (key 7 0 ∷ [])).0 ≡ ltb capacity (length (put_all two_keys (key 7 0 ∷ [])))
overflow_exact_example =
    overflow_exact two_keys (key 7 0 ∷ []) (unfold is_found in (refl, (refl, tt)))

-- Keys with the ids 1 to `n`.
abbrev keys_to : ℕ → Keys
keys_to zero = []
keys_to (suc n) = key (suc n) 0 ∷ keys_to n

overflow_counts_twice_example :
    (load_keys (key 20 1 ∷ key 20 2 ∷ []) (keys_to 15) ≡ (true, keys_to 15))
    × (length (put_all (key 20 1 ∷ key 20 2 ∷ []) (keys_to 15)) ≡ capacity)
overflow_counts_twice_example =
    overflow_counts_twice (keys_to 15) (key 20 1) (key 20 2) refl (unfold is_found in refl) refl
