-- ===== src/Codec/UlMap.antt =====
-- The table of universal labels of src/asm/codec.cpp, searched from its first entry both ways.
pub mod Inverse
use iso26430_6_asm_prototype.Base.{
  ℕ, ◌≡◌, refl, ◌⊎◌, inl, inr, Bool, true, false, ◌&&◌, List, [], ◌∷◌, All, arith, Result, ok, err,
  ◌>>=◌, ◌==◌, if◌then◌else◌, Bool-cases,
}
use iso26430_6_asm_prototype.Common.{
  Ul, Command, bad_request, get_time, get_event_list, get_event_id, query_spb, le_key_load,
  le_key_query_id, le_key_query_all, le_key_purge_id, le_key_purge_all, command_code,
}

pub record UlMapEntry : Type 0 where
  pub command : Command
  pub response : Bool
  pub ul : Ul

pub record CommandDescriptor : Type 0 where
  pub command : Command
  pub response : Bool

unfoldable pub make_ul : ℕ → ℕ → Ul
make_ul byte12 byte13 =
    0x06 ∷ 0x0e ∷ 0x2b ∷ 0x34 ∷ 0x02 ∷ 0x05 ∷ 0x01 ∷ 0x01 ∷ 0x02 ∷ 0x07 ∷ 0x01 ∷ byte12 ∷ byte13
    ∷ 0x00 ∷ 0x00 ∷ 0x00 ∷ []

abbrev entry : Command → Bool → ℕ → ℕ → UlMapEntry
entry command response byte12 byte13 = record {
  command = command;
  response = response;
  ul = make_ul byte12 byte13;
}

ul_map : List UlMapEntry
ul_map =
    entry bad_request true 0x01 0x01
    ∷ entry get_time false 0x02 0x10
    ∷ entry get_time true 0x02 0x11
    ∷ entry get_event_list false 0x02 0x12
    ∷ entry get_event_list true 0x02 0x13
    ∷ entry get_event_id false 0x02 0x14
    ∷ entry get_event_id true 0x02 0x15
    ∷ entry query_spb false 0x02 0x16
    ∷ entry query_spb true 0x02 0x17
    ∷ entry le_key_load false 0x03 0x20
    ∷ entry le_key_load true 0x03 0x21
    ∷ entry le_key_query_id false 0x03 0x22
    ∷ entry le_key_query_id true 0x03 0x23
    ∷ entry le_key_query_all false 0x03 0x24
    ∷ entry le_key_query_all true 0x03 0x25
    ∷ entry le_key_purge_id false 0x03 0x26
    ∷ entry le_key_purge_id true 0x03 0x27
    ∷ entry le_key_purge_all false 0x03 0x28
    ∷ entry le_key_purge_all true 0x03 0x29
    ∷ []

-- `==` of two enumerators, of two flags and of two arrays.
unfoldable pub command_eq : Command → Command → Bool
unfolding command_code
command_eq a b = command_code a == command_code b

abbrev flag_eq : Bool → Bool → Bool
flag_eq true b = b
flag_eq false true = false
flag_eq false false = true

unfoldable pub ul_eq : Ul → Ul → Bool
ul_eq [] [] = true
ul_eq [] (y ∷ ys) = false
ul_eq (x ∷ xs) [] = false
ul_eq (x ∷ xs) (y ∷ ys) = x == y && ul_eq xs ys

find_command : Command → Bool → List UlMapEntry → Result UlMapEntry
find_command command response [] = err "missing UL mapping"
find_command command response (e ∷ rest) =
    if command_eq e.command command && flag_eq e.response response
    then ok e
    else find_command command response rest

lookup_entry : Command → Bool → Result UlMapEntry
unfolding find_command ul_map command_eq make_ul
lookup_entry command response = find_command command response ul_map

unfoldable pub ul_for : Command → Bool → Result Ul
unfolding lookup_entry
ul_for command response = do e ← lookup_entry command response; ok e.ul

find_ul : Ul → List UlMapEntry → Result CommandDescriptor
find_ul ul [] = err "unknown ASM UL"
find_ul ul (e ∷ rest) =
    if ul_eq e.ul ul
    then ok (record { command = e.command; response = e.response })
    else find_ul ul rest

unfoldable pub describe_ul : Ul → Result CommandDescriptor
unfolding find_ul ul_map ul_eq make_ul
describe_ul ul = find_ul ul ul_map
