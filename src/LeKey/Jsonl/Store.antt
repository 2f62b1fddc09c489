-- ===== src/LeKey/Jsonl/Store.antt =====
-- JsonlLeKeyStore of src/asm/le_key.cpp. The file system is a parameter: whether each opening succeeds, and
-- what of the text gets to the disk, since nothing tests the stream behind the opening.
use iso26430_6_asm_prototype.Base.{
  ℕ, ◌+◌, Bool, true, false, Option, none, some, List, [], length, map, Result, ok, err, ◌!=◌,
  if◌then◌else◌, Text,
}
use iso26430_6_asm_prototype.LeKey.{LeKeyStore}
use iso26430_6_asm_prototype.LeKey.Jsonl.{parse_jsonl_line, key_line}
use iso26430_6_asm_prototype.LeKey.Store as Memory
use iso26430_6_asm_prototype.LeKey.Store.{Keys, capacity, would_overflow, put_all, erase_key}
use iso26430_6_asm_prototype.Service.Actions.{Action, pure, ◌>>=◌}
use iso26430_6_asm_prototype.Streams.Jsonl.{read_jsonl}
use iso26430_6_asm_prototype.Streams.Lines.{joined}

-- Openings for writing are numbered.
pub record Disk : Type 0 where
  pub creates : Bool
  pub readable : Bool
  pub opens : ℕ → Bool
  pub written : ℕ → Text → Text

-- The store, what its file holds, and how often it was opened for writing.
pub record JsonlLeKeyStore : Type 0 where
  pub keys : Keys
  pub file : Text
  pub openings : ℕ

-- The constructor, for what the file holds, if there is one.
unfoldable pub opened : Result Keys → Text → Result JsonlLeKeyStore
opened (ok keys) text = ok (record { keys = keys; file = text; openings = 0 })
opened (err what) text = err what

unfoldable pub open_store : Disk → Option Text → Result JsonlLeKeyStore
unfolding opened
open_store disk none =
    if disk.creates
    then ok (record { keys = []; file = []; openings = 0 })
    else err "failed to create LEKey JSONL store"
open_store disk (some text) =
    if disk.readable
    then opened (read_jsonl "failed to parse LEKey JSONL line " parse_jsonl_line text) text
    else err "failed to open LEKey JSONL store"

-- The two queries are written like those of the in-memory store.
abbrev pub contains_key : ℕ → JsonlLeKeyStore → Bool
contains_key id s = Memory.contains_key id s.keys

abbrev pub list_key_ids : JsonlLeKeyStore → List ℕ
list_key_ids s = Memory.list_key_ids s.keys

module _ (disk : Disk) where
  unfoldable pub persist : Action JsonlLeKeyStore (Unit {0})
  persist s =
      if disk.opens s.openings
      then (
        ok tt,
        record s {
          file = disk.written s.openings (joined (map key_line s.keys));
          openings = s.openings + 1;
        },
      )
      else (err "failed to persist LEKey JSONL store", record s { openings = s.openings + 1 })

  unfoldable pub load_keys : Keys → Action JsonlLeKeyStore Bool
  unfolding persist
  load_keys incoming s =
      if would_overflow incoming s.keys capacity
      then (ok true, s)
      else (do _ ← persist; pure false) (record s { keys = put_all incoming s.keys })

  unfoldable pub purge_key : ℕ → Action JsonlLeKeyStore Bool
  unfolding persist
  purge_key id s =
      let kept = erase_key id s.keys in
      let removed = length kept != length s.keys in
      if removed
      then (do _ ← persist; pure removed) (record s { keys = kept })
      else (ok removed, record s { keys = kept })

  unfoldable pub purge_all : Action JsonlLeKeyStore (Unit {0})
  unfolding persist
  purge_all s = persist (record s { keys = [] })

  -- The store behind the interface.
  abbrev pub jsonl : LeKeyStore JsonlLeKeyStore
  jsonl = record {
    load_keys = load_keys;
    contains_key = contains_key;
    list_key_ids = list_key_ids;
    purge_key = purge_key;
    purge_all = purge_all;
  }
