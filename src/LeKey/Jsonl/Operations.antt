-- ===== src/LeKey/Jsonl/Operations.antt =====
-- Every operation of the store over a file keeps the file true to the keys.
use iso26430_6_asm_prototype.Base.{
  ℕ, ◌+◌, ◌≡◌, ◌≤◌, refl, ap, true, false, [], ◌∷◌, arith, All, IsByte, length, Result, ok, err,
  ◌==◌, ◌!=◌, Bool-cases, inl, inr, take, drop, All-take, All-drop, Result-cases,
}
use iso26430_6_asm_prototype.Common.{ByteBuffer}
use iso26430_6_asm_prototype.Batch.{decode_batch}
use iso26430_6_asm_prototype.Batch.Items.{decode_batch-All}
use iso26430_6_asm_prototype.LeKey.{LeKeyRecord, LeKeyLoadRequestPayload}
use iso26430_6_asm_prototype.LeKey.Payload.{decode_record, decode_load_request, load_messages}
use iso26430_6_asm_prototype.LeKey.Payload.Records.{IsKeyRecord}
use iso26430_6_asm_prototype.LeKey.Payload.RoundTrip.{encode_load_request-decode_load_request}
use iso26430_6_asm_prototype.LeKey.Store.{Keys, capacity, would_overflow, put, put_all, erase_key}
use iso26430_6_asm_prototype.LeKey.Jsonl.Store.{
  Disk, JsonlLeKeyStore, persist, load_keys, purge_key, purge_all,
}
use iso26430_6_asm_prototype.Service.Actions.{pure, resume}
use iso26430_6_asm_prototype.LeKey.Jsonl.Saved.{IsWorking, IsStorable, IsKept, persist-IsKept}

put-IsStorable :
    (k : LeKeyRecord) (keys : Keys)
    → IsStorable k
    → All IsStorable keys
    → All IsStorable (put k keys)
unfolding put
put-IsStorable k [] hk h = (hk, tt)
put-IsStorable k (x ∷ keys) hk (hx, h) = elim (Bool-cases (x.key_id == k.key_id)) [
  | inl same ↦ rw same (hk, h)
  | inr other ↦ rw other (hx, put-IsStorable k keys hk h)
]

put_all-IsStorable :
    (incoming keys : Keys)
    → All IsStorable incoming
    → All IsStorable keys
    → All IsStorable (put_all incoming keys)
unfolding put_all
put_all-IsStorable [] keys hi h = h
put_all-IsStorable (k ∷ incoming) keys (hk, hi) h =
    put_all-IsStorable incoming (put k keys) hi (put-IsStorable k keys hk h)

erase_key-IsStorable :
    (id : ℕ) (keys : Keys) → All IsStorable keys → All IsStorable (erase_key id keys)
unfolding erase_key
erase_key-IsStorable id [] h = tt
erase_key-IsStorable id (k ∷ keys) (hk, h) = elim (Bool-cases (k.key_id == id)) [
  | inl same ↦ rw same (erase_key-IsStorable id keys h)
  | inr other ↦ rw other (hk, erase_key-IsStorable id keys h)
]

length-erase_key : (id : ℕ) (keys : Keys) → length (erase_key id keys) ≤ length keys
unfolding erase_key
length-erase_key id [] = omega arith
length-erase_key id (k ∷ keys) = ground (arith, length-erase_key id keys)

-- Where no key goes, nothing changes.
erase_key_none :
    (id : ℕ) (keys : Keys) → length (erase_key id keys) ≡ length keys → erase_key id keys ≡ keys
unfolding erase_key
erase_key_none id [] h = refl
erase_key_none id (k ∷ keys) h = elim (Bool-cases (k.key_id == id)) [
  | inl same ↦ absurd (ground (arith, length-erase_key id keys))
  | inr other ↦ rw other (ap (◌∷◌ k) (erase_key_none id keys (ground arith)))
]

module _ (disk : Disk) (w : IsWorking disk) where
  pub load_keys-IsKept :
      (incoming : Keys) (s : JsonlLeKeyStore)
      → All IsStorable incoming
      → IsKept s
      → IsKept (load_keys disk incoming s).1
  unfolding load_keys
  load_keys-IsKept incoming s hi h = elim (Bool-cases (would_overflow incoming s.keys capacity)) [
    | inl full ↦ rw full h
    | inr room ↦
        let after : JsonlLeKeyStore = record s { keys = put_all incoming s.keys } in
        let kept = persist-IsKept disk w after (put_all-IsStorable incoming s.keys hi h.storable) in
        rw room (state_of (persist disk after) kept)
  ]
    where
      state_of :
          (o : Result (Unit {0}) × JsonlLeKeyStore)
          → IsKept o.1
          → IsKept (resume o.0 (λ _. pure false) o.1).1
      state_of (ok done, t) k = k
      state_of (err what, t) k = k

  pub purge_key-IsKept : (id : ℕ) (s : JsonlLeKeyStore) → IsKept s → IsKept (purge_key disk id s).1
  unfolding purge_key
  purge_key-IsKept id s h = elim (Bool-cases (length (erase_key id s.keys) != length s.keys)) [
    | inl removed ↦
        let after : JsonlLeKeyStore = record s { keys = erase_key id s.keys } in
        let kept = persist-IsKept disk w after (erase_key-IsStorable id s.keys h.storable) in
        rw removed (state_of (persist disk after) kept)
    | inr missing ↦ rw (missing, erase_key_none id s.keys (ground arith)) h
  ]
    where
      state_of :
          (o : Result (Unit {0}) × JsonlLeKeyStore)
          → IsKept o.1
          → IsKept (resume o.0 (λ _. pure true) o.1).1
      state_of (ok done, t) k = k
      state_of (err what, t) k = k

  pub purge_all-IsKept : (s : JsonlLeKeyStore) → IsKept s → IsKept (purge_all disk s).1
  unfolding purge_all
  purge_all-IsKept s h = persist-IsKept disk w (record s { keys = [] }) tt

decode_record-bytes :
    (bytes : ByteBuffer) (offset : ℕ) (k : LeKeyRecord)
    → All IsByte bytes
    → decode_record bytes offset ≡ ok k
    → All IsByte k.key
unfolding decode_record
decode_record-bytes bytes offset k h e =
    let same : k.key ≡ take 16 (drop (offset + 4) bytes) = ground arith in
    rw same (All-take IsByte 16 (drop (offset + 4) bytes) (All-drop IsByte (offset + 4) bytes h))

both : (keys : Keys) → All IsKeyRecord keys → All (λ k. All IsByte k.key) keys → All IsStorable keys
both [] a b = tt
both (k ∷ keys) (ka, a) (kb, b) = (record { fields_fit = ka; key_bytes = kb }, both keys a b)

-- The keys of a request of bytes can be stored.
pub decode_load_request-IsStorable :
    (bytes : ByteBuffer) (p : LeKeyLoadRequestPayload)
    → All IsByte bytes
    → decode_load_request bytes ≡ ok p
    → All IsStorable p.keys
unfolding decode_load_request
decode_load_request-IsStorable bytes p h e =
    let (_, fits) = encode_load_request-decode_load_request bytes p h e in
    elim (Result-cases (decode_batch load_messages 32 decode_record bytes)) [
      | inl (keys, r) ↦
          let same : keys ≡ p.keys = ground arith in
          both p.keys fits (
            rw same at (
              decode_batch-All (λ k. All IsByte k.key) decode_record 32 bytes
                (λ offset k read. decode_record-bytes bytes offset k h read) load_messages keys r))
      | inr (m, r) ↦ absurd (ground arith)
    ]
