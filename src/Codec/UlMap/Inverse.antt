-- ===== src/Codec/UlMap/Inverse.antt =====
-- The label table read both ways: `ul_for` and `describe_ul` are inverse partial functions.
use iso26430_6_asm_prototype.Base.{
  ◌≡◌, refl, ◌⊎◌, inl, inr, Bool, true, false, List, [], ◌∷◌, All, arith, ok, err, length, ◌↔◌,
}
use iso26430_6_asm_prototype.Common.{Ul, Command, bad_request, get_time}
use iso26430_6_asm_prototype.Codec.UlMap.{
  UlMapEntry, CommandDescriptor, ul_map, ul_eq, find_ul, ul_for, describe_ul,
}

ul_eq_sound : (a b : Ul) → ul_eq a b ≡ true → a ≡ b
unfolding ul_eq
ul_eq_sound [] [] h = refl
ul_eq_sound [] (y ∷ ys) h = ground arith
ul_eq_sound (x ∷ xs) [] h = ground arith
ul_eq_sound (x ∷ xs) (y ∷ ys) h = ground (arith, ul_eq_sound xs ys)

-- Every pair of a command and a direction has a label that describes it, but for a request that
-- would be a BadRequest.
pub ul_for_cases :
    (c : Command) (r : Bool)
    → ((c ≡ bad_request) × (r ≡ false) × (ul_for c r ≡ err "missing UL mapping"))
      ⊎ ((ul : Ul) × (ul_for c r ≡ ok ul)
          × (describe_ul ul ≡ ok (record { command = c; response = r }))
          × (length ul ≡ 16))
unfolding ul_for describe_ul
ul_for_cases bad_request false = inl (refl, refl, refl)
ul_for_cases get_time false = inr (_, refl, refl, refl)
ul_for_cases _ false = inr (_, refl, refl, refl)
ul_for_cases bad_request true = inr (_, refl, refl, refl)
ul_for_cases _ true = inr (_, refl, refl, refl)

pub bad_request_unlisted : ul_for bad_request false ≡ err "missing UL mapping"
unfolding ul_for
bad_request_unlisted = refl

abbrev IsListed : UlMapEntry → Type 0
IsListed e = ul_for e.command e.response ≡ ok e.ul

ul_map-IsListed : All IsListed ul_map
unfolding ul_for
ul_map-IsListed = (
  refl,
  (
    refl,
    (
      refl,
      (
        refl,
        (
          refl,
          (
            refl,
            (
              refl,
              (
                refl,
                (
                  refl,
                  (
                    refl,
                    (refl, (refl, (refl, (refl, (refl, (refl, (refl, (refl, (refl, tt))))))))),
                  ),
                ),
              ),
            ),
          ),
        ),
      ),
    ),
  ),
)

find_ul-IsListed :
    (ul : Ul) (entries : List UlMapEntry) (d : CommandDescriptor)
    → All IsListed entries
    → find_ul ul entries ≡ ok d
    → ul_for d.command d.response ≡ ok ul
unfolding find_ul
find_ul-IsListed ul [] d h e = ground arith
find_ul-IsListed ul (x ∷ rest) d (hx, hr) e =
    ground (arith, ul_eq_sound x.ul ul, find_ul-IsListed ul rest d hr)

-- A label describes a command and a direction exactly when it is the label of that command in that
-- direction.
pub describe_ul-ul_for_iff :
    (ul : Ul) (d : CommandDescriptor)
    → (describe_ul ul ≡ ok d) ↔ (ul_for d.command d.response ≡ ok ul)
describe_ul-ul_for_iff ul d = (there, back)
  where
    there : describe_ul ul ≡ ok d → ul_for d.command d.response ≡ ok ul
    there e = find_ul-IsListed ul ul_map d ul_map-IsListed (unfold describe_ul in e)

    back : ul_for d.command d.response ≡ ok ul → describe_ul ul ≡ ok d
    back e = ground (arith, ul_for_cases d.command d.response)
