-- ===== src/LeKey/Store/Table.antt =====
-- The store as a table from ids to records: what each operation does to what is found under an id.
use iso26430_6_asm_prototype.Base.{
  ℕ, ◌≡◌, refl, ap, ◌∙◌, Bool, true, false, Option, none, some, [], ◌∷◌, arith, ◌==◌, if◌then◌else◌,
  inl, inr, Bool-cases, length, ◌≤◌,
}
use iso26430_6_asm_prototype.LeKey.{LeKeyRecord}
use iso26430_6_asm_prototype.LeKey.Store.{
  Keys, would_overflow, capacity, put, put_all, load_keys, contains_key, erase_key, purge_key,
}

-- The first record under an id.
unfoldable pub find : ℕ → Keys → Option LeKeyRecord
find id [] = none
find id (k ∷ rest) = if k.key_id == id then some k else find id rest

abbrev pub is_some : Option LeKeyRecord → Bool
is_some none = false
is_some (some k) = true

-- The last of some records under an id, and otherwise what was there.
pub last_of : ℕ → Keys → Option LeKeyRecord → Option LeKeyRecord
last_of id [] before = before
last_of id (k ∷ rest) before = last_of id rest (if k.key_id == id then some k else before)

find-put :
    (id : ℕ) (k : LeKeyRecord) (keys : Keys)
    → find id (put k keys) ≡ (if k.key_id == id then some k else find id keys)
unfolding find put
find-put id k [] = refl
find-put id k (x ∷ rest) = ground (arith, find-put id k rest)

find-put_all :
    (id : ℕ) (incoming keys : Keys)
    → find id (put_all incoming keys) ≡ last_of id incoming (find id keys)
unfolding put_all last_of
find-put_all id [] keys = refl
find-put_all id (k ∷ incoming) keys =
    find-put_all id incoming (put k keys) ∙ ap (last_of id incoming) (find-put id k keys)

find-erase_key :
    (id j : ℕ) (keys : Keys) → find j (erase_key id keys) ≡ (if id == j then none else find j keys)
unfolding find erase_key
find-erase_key id j [] = ground arith
find-erase_key id j (k ∷ rest) = ground (arith, find-erase_key id j rest)

-- `load_keys` is all or nothing: on an overflow it answers `true` and keeps every key, and otherwise it
-- answers `false`, and under each id stands the last incoming record of that id, or what stood there if
-- there is none.
pub load_keys-find :
    (incoming keys : Keys)
    → ((load_keys incoming keys).0 ≡ would_overflow incoming keys capacity)
      × ((load_keys incoming keys).0 ≡ true → (load_keys incoming keys).1 ≡ keys)
      × ((load_keys incoming keys).0 ≡ false
          → (id : ℕ) → find id (load_keys incoming keys).1 ≡ last_of id incoming (find id keys))
unfolding load_keys
load_keys-find incoming keys = elim (Bool-cases (would_overflow incoming keys capacity)) [
  | inl full ↦ rw full (refl, λ _. refl, λ e. cc)
  | inr room ↦ rw room (refl, (λ e. cc), λ _ id. find-put_all id incoming keys)
]

length-erase_key : (id : ℕ) (keys : Keys) → length (erase_key id keys) ≤ length keys
unfolding erase_key
length-erase_key id [] = omega arith
length-erase_key id (k ∷ rest) = ground (arith, length-erase_key id rest)

purge_key_answer : (id : ℕ) (keys : Keys) → (purge_key id keys).0 ≡ is_some (find id keys)
unfolding purge_key erase_key find
purge_key_answer id [] = refl
purge_key_answer id (k ∷ rest) = ground (arith, length-erase_key id rest, purge_key_answer id rest)

-- `purge_key` answers whether there was a record under the id; afterwards there is none, and what is
-- found under every other id is as before.
pub purge_key-find :
    (id : ℕ) (keys : Keys)
    → ((purge_key id keys).0 ≡ is_some (find id keys))
      × ((j : ℕ) → find j (purge_key id keys).1 ≡ (if id == j then none else find j keys))
purge_key-find id keys =
    (purge_key_answer id keys, λ j. unfold purge_key in find-erase_key id j keys)

-- `contains_key` answers whether a record is found.
pub contains_key-find : (id : ℕ) (keys : Keys) → contains_key id keys ≡ is_some (find id keys)
unfolding contains_key find
contains_key-find id [] = refl
contains_key-find id (k ∷ rest) = ground (arith, contains_key-find id rest)
