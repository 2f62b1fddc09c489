-- ===== src/LeKey/Store.antt =====
-- The in-memory key store of src/asm/le_key.cpp. Its state is the vector `keys_`.
pub mod Table
pub mod Capacity
pub mod Overflow
use iso26430_6_asm_prototype.Base.{
  ℕ, ◌+◌, Bool, true, false, not, ◌||◌, List, [], ◌∷◌, length, Result, ok, ltb, ◌==◌, ◌!=◌,
  if◌then◌else◌,
}
use iso26430_6_asm_prototype.LeKey.{LeKeyRecord, LeKeyStore}

abbrev pub Keys : Type 0
Keys = List LeKeyRecord

abbrev pub capacity : ℕ
capacity = 16

-- `find_if(existing, key_id == id) != end()`
unfoldable pub is_found : ℕ → Keys → Bool
is_found id [] = false
is_found id (current ∷ rest) = current.key_id == id || is_found id rest

-- The loop of `would_overflow` that counts the incoming keys which are not found.
unfoldable pub count_unique : Keys → Keys → ℕ → ℕ
count_unique [] existing unique_count = unique_count
count_unique (key ∷ incoming) existing unique_count =
    count_unique incoming existing
      (if is_found key.key_id existing then unique_count else unique_count + 1)

unfoldable pub would_overflow : Keys → Keys → ℕ → Bool
unfolding count_unique is_found
would_overflow incoming existing limit =
    ltb limit (count_unique incoming existing (length existing))

-- `*found = incoming` where `find_if` stops, and `push_back` where it does not.
unfoldable pub put : LeKeyRecord → Keys → Keys
put incoming [] = incoming ∷ []
put incoming (current ∷ rest) =
    if current.key_id == incoming.key_id then incoming ∷ rest else current ∷ put incoming rest

unfoldable pub put_all : Keys → Keys → Keys
put_all [] keys = keys
put_all (incoming ∷ rest) keys = put_all rest (put incoming keys)

-- `true` is an overflow.
unfoldable pub load_keys : Keys → Keys → Bool × Keys
load_keys incoming keys =
    if would_overflow incoming keys capacity then (true, keys) else (false, put_all incoming keys)

unfoldable pub contains_key : ℕ → Keys → Bool
contains_key id [] = false
contains_key id (key ∷ rest) = key.key_id == id || contains_key id rest

unfoldable pub list_key_ids : Keys → List ℕ
list_key_ids [] = []
list_key_ids (key ∷ rest) = key.key_id ∷ list_key_ids rest

-- `erase_if`
unfoldable pub erase_key : ℕ → Keys → Keys
erase_key id [] = []
erase_key id (key ∷ rest) =
    let kept = erase_key id rest in if key.key_id == id then kept else key ∷ kept

unfoldable pub purge_key : ℕ → Keys → Bool × Keys
purge_key id keys = let kept = erase_key id keys in (length kept != length keys, kept)

abbrev pub purge_all : Keys → Keys
purge_all keys = []

-- The store behind the interface. None of its functions throws.
abbrev pub in_memory : LeKeyStore Keys
in_memory = record {
  load_keys =
      λ incoming keys. let (overflow, keys') = load_keys incoming keys in (ok overflow, keys');
  contains_key = contains_key;
  list_key_ids = list_key_ids;
  purge_key = λ id keys. let (removed, keys') = purge_key id keys in (ok removed, keys');
  purge_all = λ keys. (ok tt, purge_all keys);
}
