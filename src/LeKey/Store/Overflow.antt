-- ===== src/LeKey/Store/Overflow.antt =====
-- When a load is refused: the count of `would_overflow` against the size that the load would reach.
use iso26430_6_asm_prototype.Base.{
  ℕ, ◌+◌, ◌≡◌, refl, ap, ◌∙◌, true, false, [], ◌∷◌, arith, length, ltb, ◌==◌, if◌then◌else◌,
  Bool-cases, inl, inr, ==_iff,
}
use iso26430_6_asm_prototype.LeKey.{LeKeyRecord}
use iso26430_6_asm_prototype.LeKey.Store.{
  Keys, is_found, would_overflow, count_unique, capacity, put, put_all, load_keys,
}
use iso26430_6_asm_prototype.LeKey.Store.Capacity.{Distinct, is_found-put, length-put}

-- The ids that are still to come are found in `keys` just as they were at the start.
abbrev SameFor : Keys → Keys → Keys → Type 0
SameFor incoming existing keys =
    (j : ℕ) → is_found j incoming ≡ true → is_found j keys ≡ is_found j existing

put-SameFor :
    (k : LeKeyRecord) (incoming existing keys : Keys)
    → is_found k.key_id incoming ≡ false
    → SameFor (k ∷ incoming) existing keys
    → SameFor incoming existing (put k keys)
unfolding is_found
put-SameFor k incoming existing keys fresh h j e = elim (Bool-cases (k.key_id == j)) [
  | inl same ↦ let eq = (==_iff k.key_id j).0 same in ground arith
  | inr other ↦ ground (arith, is_found-put j k keys, h j)
]

same_length :
    (k : LeKeyRecord) (incoming existing keys : Keys)
    → SameFor (k ∷ incoming) existing keys
    → (if is_found k.key_id existing then length keys else length keys + 1) ≡ length (put k keys)
unfolding is_found
same_length k incoming existing keys h =
    ground (arith, length-put k keys, h k.key_id, ==_iff k.key_id k.key_id)

count_unique-length :
    (incoming existing keys : Keys)
    → Distinct incoming
    → SameFor incoming existing keys
    → count_unique incoming existing (length keys) ≡ length (put_all incoming keys)
unfolding count_unique put_all
count_unique-length [] existing keys d h = refl
count_unique-length (k ∷ incoming) existing keys (fresh, d) h =
    ap (count_unique incoming existing) (same_length k incoming existing keys h)
    ∙ count_unique-length incoming existing (put k keys) d
        (put-SameFor k incoming existing keys fresh h)

-- A batch with no id twice is refused exactly when the keys of the store and the batch together are
-- more than sixteen, an id that is in both counting once.
pub overflow_exact :
    (incoming keys : Keys)
    → Distinct incoming
    → (load_keys incoming keys).0 ≡ ltb capacity (length (put_all incoming keys))
unfolding load_keys would_overflow
overflow_exact incoming keys d =
    ground (arith, count_unique-length incoming keys keys d (λ j e. refl))

-- But a batch that brings one new id twice counts it twice: a store of fifteen keys refuses it, though
-- the load would leave just sixteen.
pub overflow_counts_twice :
    (keys : Keys) (first second : LeKeyRecord)
    → length keys ≡ 15
    → is_found first.key_id keys ≡ false
    → second.key_id ≡ first.key_id
    → (load_keys (first ∷ second ∷ []) keys ≡ (true, keys))
      × (length (put_all (first ∷ second ∷ []) keys) ≡ capacity)
unfolding load_keys would_overflow count_unique put_all
overflow_counts_twice keys first second full fresh same = (
  ground arith,
  ground (
    arith,
    length-put first keys,
    length-put second (put first keys),
    is_found-put second.key_id first keys,
  ),
)
