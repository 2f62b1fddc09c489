-- ===== src/LeKey/Store/Capacity.antt =====
-- The store holds no id twice and never more keys than its capacity, and the test for an overflow
-- against the room that a load really takes.
use iso26430_6_asm_prototype.Base.{
  ℕ, ◌+◌, ◌≤◌, ◌≡◌, refl, true, false, ◌||◌, [], ◌∷◌, arith, length, ltb, ◌==◌, if◌then◌else◌,
  Bool-cases, inl, inr,
}
use iso26430_6_asm_prototype.LeKey.{LeKeyRecord}
use iso26430_6_asm_prototype.LeKey.Store.{
  Keys, is_found, would_overflow, count_unique, capacity, put, put_all, load_keys, erase_key,
  purge_key,
}

abbrev pub Distinct : Keys → Type 0
Distinct [] = Unit {0}
Distinct (k ∷ rest) = (is_found k.key_id rest ≡ false) × Distinct rest

pub record IsStore (keys : Keys) : Type 0 where
  pub distinct : Distinct keys
  pub bounded : length keys ≤ capacity

pub is_found-put :
    (j : ℕ) (k : LeKeyRecord) (keys : Keys)
    → is_found j (put k keys) ≡ (k.key_id == j || is_found j keys)
unfolding is_found put
is_found-put j k [] = refl
is_found-put j k (x ∷ rest) = ground (arith, is_found-put j k rest)

put-Distinct : (k : LeKeyRecord) (keys : Keys) → Distinct keys → Distinct (put k keys)
unfolding put is_found
put-Distinct k [] h = (refl, tt)
put-Distinct k (x ∷ rest) (fresh, h) = elim (Bool-cases (x.key_id == k.key_id)) [
  | inl same ↦ rw same (ground arith, h)
  | inr other ↦ rw other (ground (arith, is_found-put x.key_id k rest), put-Distinct k rest h)
]

pub length-put :
    (k : LeKeyRecord) (keys : Keys)
    → length (put k keys) ≡ (if is_found k.key_id keys then length keys else length keys + 1)
unfolding put is_found
length-put k [] = omega arith
length-put k (x ∷ rest) = ground (arith, length-put k rest)

put_all-Distinct : (incoming keys : Keys) → Distinct keys → Distinct (put_all incoming keys)
unfolding put_all
put_all-Distinct [] keys h = h
put_all-Distinct (k ∷ incoming) keys h =
    put_all-Distinct incoming (put k keys) (put-Distinct k keys h)

-- While the batch is loaded, what was there at its start stays there, so the count is high enough.
abbrev Keeps : Keys → Keys → Type 0
Keeps existing keys = (j : ℕ) → is_found j existing ≡ true → is_found j keys ≡ true

put-Keeps :
    (k : LeKeyRecord) (existing keys : Keys) → Keeps existing keys → Keeps existing (put k keys)
put-Keeps k existing keys h j e = ground (arith, is_found-put j k keys, h j e)

length-put_all-le-count_unique :
    (incoming existing keys : Keys) (n : ℕ)
    → Keeps existing keys
    → length keys ≤ n
    → length (put_all incoming keys) ≤ count_unique incoming existing n
unfolding put_all count_unique
length-put_all-le-count_unique [] existing keys n h le = le
length-put_all-le-count_unique (k ∷ incoming) existing keys n h le =
    length-put_all-le-count_unique incoming existing (put k keys)
      (if is_found k.key_id existing then n else n + 1) (put-Keeps k existing keys h)
      (elim (Bool-cases (is_found k.key_id existing)) [
        | inl old ↦ rw old (ground (arith, length-put k keys, h k.key_id old))
        | inr new ↦ rw new (ground (arith, length-put k keys))
      ])

-- Loading keeps the ids distinct and at most sixteen keys, whatever the batch.
pub load_keys-IsStore : (incoming keys : Keys) → IsStore keys → IsStore (load_keys incoming keys).1
unfolding load_keys would_overflow
load_keys-IsStore incoming keys h =
    elim (Bool-cases (ltb capacity (count_unique incoming keys (length keys)))) [
      | inl full ↦ rw full h
      | inr room ↦ rw room (record {
        distinct = put_all-Distinct incoming keys h.distinct;
        bounded =
            ground
              (arith, length-put_all-le-count_unique incoming keys keys (length keys) (λ j e. e));
      })
    ]

is_found-erase_key :
    (id j : ℕ) (keys : Keys) → is_found j keys ≡ false → is_found j (erase_key id keys) ≡ false
unfolding is_found erase_key
is_found-erase_key id j [] h = refl
is_found-erase_key id j (k ∷ rest) h = ground (arith, is_found-erase_key id j rest)

erase_key-IsStore :
    (id : ℕ) (keys : Keys)
    → Distinct keys
    → Distinct (erase_key id keys) × (length (erase_key id keys) ≤ length keys)
unfolding erase_key
erase_key-IsStore id [] h = (tt, omega arith)
erase_key-IsStore id (k ∷ rest) (fresh, h) =
    let (d, l) = erase_key-IsStore id rest h in
    elim (Bool-cases (k.key_id == id)) [
      | inl same ↦ rw same (d, omega arith)
      | inr other ↦ rw other ((is_found-erase_key id k.key_id rest fresh, d), omega arith)
    ]

-- So does purging one key.
pub purge_key-IsStore : (id : ℕ) (keys : Keys) → IsStore keys → IsStore (purge_key id keys).1
unfolding purge_key
purge_key-IsStore id keys h =
    let (d, l) = erase_key-IsStore id keys h.distinct in
    record { distinct = d; bounded = omega (arith, h.bounded) }
