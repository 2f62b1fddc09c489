-- ===== src/Service/KeyIds.antt =====
-- What a client can learn of the keys of src/asm/le_key.cpp: their ids, in their order. The reference for
-- `InMemoryLeKeyStore` is a store that keeps the ids and nothing else.
use iso26430_6_asm_prototype.Base.{
  ℕ, ◌+◌, ◌≡◌, refl, sym, ap, ◌∙◌, Bool, true, false, ◌||◌, List, [], ◌∷◌, ◌++◌, ok, arith, length,
  ltb, ◌==◌, ==_iff, if◌then◌else◌, Bool-cases, inl, inr,
}
use iso26430_6_asm_prototype.LeKey.{LeKeyRecord, LeKeyStore}
use iso26430_6_asm_prototype.LeKey.Store.{
  Keys, capacity, is_found, count_unique, would_overflow, put, put_all, load_keys, contains_key,
  list_key_ids, erase_key, purge_key, in_memory,
}
use iso26430_6_asm_prototype.LeKey.Store.Table.{purge_key-find, contains_key-find}
use iso26430_6_asm_prototype.Service.KeyListing.{length-list_key_ids}
use iso26430_6_asm_prototype.Service.Refinement.{Agrees, Refines}

-- Whether an id is there.
pub listed : ℕ → List ℕ → Bool
listed id [] = false
listed id (x ∷ ids) = x == id || listed id ids

-- A new id comes last.
abbrev add_id : ℕ → List ℕ → List ℕ
add_id id ids = if listed id ids then ids else ids ++ (id ∷ [])

pub add_ids : List ℕ → List ℕ → List ℕ
add_ids [] ids = ids
add_ids (id ∷ incoming) ids = add_ids incoming (add_id id ids)

pub remove_id : ℕ → List ℕ → List ℕ
remove_id id [] = []
remove_id id (x ∷ ids) = let kept = remove_id id ids in if x == id then kept else x ∷ kept

-- How many of the incoming ids are not there.
pub newcomers : List ℕ → List ℕ → ℕ
newcomers [] ids = 0
newcomers (id ∷ incoming) ids = (if listed id ids then 0 else 1) + newcomers incoming ids

-- The store of the ids. Of incoming keys it keeps the ids alone.
abbrev pub id_store : LeKeyStore (List ℕ)
id_store = record {
  load_keys = λ incoming ids.
      if ltb capacity (length ids + newcomers (list_key_ids incoming) ids)
      then (ok true, ids)
      else (ok false, add_ids (list_key_ids incoming) ids);
  contains_key = listed;
  list_key_ids = λ ids. ids;
  purge_key = λ id ids. (ok (listed id ids), remove_id id ids);
  purge_all = λ ids. (ok tt, []);
}

is_found-listed : (id : ℕ) (s : Keys) → is_found id s ≡ listed id (list_key_ids s)
unfolding is_found listed list_key_ids
is_found-listed id [] = refl
is_found-listed id (k ∷ rest) = ground (arith, is_found-listed id rest)

contains_key-listed : (id : ℕ) (s : Keys) → contains_key id s ≡ listed id (list_key_ids s)
unfolding contains_key listed list_key_ids
contains_key-listed id [] = refl
contains_key-listed id (k ∷ rest) = ground (arith, contains_key-listed id rest)

put-add_id :
    (k : LeKeyRecord) (s : Keys) → list_key_ids (put k s) ≡ add_id k.key_id (list_key_ids s)
unfolding put listed list_key_ids
put-add_id k [] = refl
put-add_id k (x ∷ rest) = elim (Bool-cases (x.key_id == k.key_id)) [
  | inl same ↦ let eq = (==_iff x.key_id k.key_id).0 same in ground (arith, eq)
  | inr other ↦ ground (arith, put-add_id k rest)
]

put_all-add_ids :
    (incoming s : Keys)
    → list_key_ids (put_all incoming s) ≡ add_ids (list_key_ids incoming) (list_key_ids s)
unfolding put_all add_ids list_key_ids
put_all-add_ids [] s = refl
put_all-add_ids (k ∷ incoming) s =
    put_all-add_ids incoming (put k s) ∙ ap (add_ids (list_key_ids incoming)) (put-add_id k s)

count_unique-newcomers :
    (incoming s : Keys) (n : ℕ)
    → count_unique incoming s n ≡ n + newcomers (list_key_ids incoming) (list_key_ids s)
unfolding count_unique newcomers list_key_ids
count_unique-newcomers [] s n = omega arith
count_unique-newcomers (k ∷ incoming) s n =
    count_unique-newcomers incoming s (if is_found k.key_id s then n else n + 1)
    ∙ ground (arith, is_found-listed k.key_id s)

erase_key-remove_id :
    (id : ℕ) (s : Keys) → list_key_ids (erase_key id s) ≡ remove_id id (list_key_ids s)
unfolding erase_key remove_id list_key_ids
erase_key-remove_id id [] = refl
erase_key-remove_id id (k ∷ rest) = ground (arith, erase_key-remove_id id rest)

loads-Agrees :
    (incoming s : Keys)
    → Agrees list_key_ids
        (in_memory.load_keys incoming s)
        (id_store.load_keys incoming (list_key_ids s))
unfolding load_keys would_overflow
loads-Agrees incoming s =
    let count = count_unique-newcomers incoming s (length s) in
    let size = length s + newcomers (list_key_ids incoming) (list_key_ids s) in
    rw (length-list_key_ids s) (elim (Bool-cases (ltb capacity size)) [
      | inl full ↦ rw (count, full) (refl, refl)
      | inr room ↦ rw (count, room) (refl, put_all-add_ids incoming s)
    ])

-- The keys in memory do what their ids say.
pub in_memory-Refines : Refines in_memory id_store list_key_ids
in_memory-Refines = record {
  loads = loads-Agrees;
  contains = contains_key-listed;
  lists = λ s. refl;
  purges = λ id s. (
    ap ok ((purge_key-find id s).0 ∙ sym (contains_key-find id s) ∙ contains_key-listed id s),
    unfold purge_key in erase_key-remove_id id s,
  );
  clears = λ s. (unfold list_key_ids in (refl, refl));
}
