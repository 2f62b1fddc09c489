-- ===== src/Apps/Initiator/Orders.antt =====
-- What the command line asks for is what the request says.
use iso26430_6_asm_prototype.Base.{
  ℕ, ◌≡◌, refl, List, [], ◌∷◌, ◌++◌, length, arith, ok, All, IsByte, IsU32, Text, codes, text_eq,
}
use iso26430_6_asm_prototype.Common.{
  ByteBuffer, Command, get_time, get_event_list, get_event_id, query_spb, le_key_load,
  le_key_query_id, le_key_query_all, le_key_purge_id, le_key_purge_all, StandardRequest,
}
use iso26430_6_asm_prototype.Apps.Initiator.{
  parse_command, parse_key_hex, command_argc, arg, u32_arg, build_payload, prepared, prepare,
  with_payload, with_argc, with_command,
}
use iso26430_6_asm_prototype.EventLog.Payload as EventPayload
use iso26430_6_asm_prototype.LeKey.{LeKeyRecord}
use iso26430_6_asm_prototype.LeKey.Jsonl.{bytes_to_hex, hex_to_key}
use iso26430_6_asm_prototype.LeKey.Jsonl.RoundTrip.{hex_to_key-bytes_to_hex, length-bytes_to_hex}
use iso26430_6_asm_prototype.LeKey.Jsonl.Saved.{IsStorable}
use iso26430_6_asm_prototype.LeKey.Payload as KeyPayload
use iso26430_6_asm_prototype.Security.Profile.{tls_config}
use iso26430_6_asm_prototype.Streams.{decimal}
use iso26430_6_asm_prototype.Streams.Parsing.{stoul_whole}

-- What a user may want.
pub data Order : Type 0 where
  ask_time ask_status list_keys purge_everything : Order
  list_events : ℕ → ℕ → Order
  ask_event find_key purge : ℕ → Order
  load : LeKeyRecord → Order

-- How it is typed.
unfoldable pub words : Order → List Text
words ask_time = codes "get-time" ∷ []
words ask_status = codes "query-spb" ∷ []
words list_keys = codes "le-key-query-all" ∷ []
words purge_everything = codes "le-key-purge-all" ∷ []
words (list_events start stop) = codes "get-event-list" ∷ decimal start ∷ decimal stop ∷ []
words (ask_event id) = codes "get-event-id" ∷ decimal id ∷ []
words (find_key id) = codes "le-key-query-id" ∷ decimal id ∷ []
words (purge id) = codes "le-key-purge-id" ∷ decimal id ∷ []
words (load k) =
    codes "le-key-load"
    ∷ decimal k.key_id
    ∷ bytes_to_hex k.key
    ∷ decimal k.expire_time
    ∷ decimal k.attribute_data
    ∷ []

abbrev as_request : Command → ByteBuffer → StandardRequest
as_request command payload = record { command = command; request_id = 1; payload = payload }

-- The request that says it.
unfoldable pub asked : Order → StandardRequest
asked ask_time = as_request get_time []
asked ask_status = as_request query_spb []
asked list_keys = as_request le_key_query_all []
asked purge_everything = as_request le_key_purge_all []
asked (list_events start stop) =
    as_request get_event_list
      (EventPayload.encode_list_request (record { time_start = start; time_stop = stop }))
asked (ask_event id) =
    as_request get_event_id (EventPayload.encode_id_request (record { event_id = id }))
asked (find_key id) =
    as_request le_key_query_id (KeyPayload.encode_query_id_request (record { key_id = id }))
asked (purge id) =
    as_request le_key_purge_id (KeyPayload.encode_purge_id_request (record { key_id = id }))
asked (load k) = as_request le_key_load (KeyPayload.encode_load_request (record { keys = k ∷ [] }))

-- The numbers and the key of the order fit their types.
unfoldable pub IsOrder : Order → Type 0
IsOrder (list_events start stop) = IsU32 start × IsU32 stop
IsOrder (ask_event id) = IsU32 id
IsOrder (find_key id) = IsU32 id
IsOrder (purge id) = IsU32 id
IsOrder (load k) = IsStorable k
IsOrder _ = Unit {0}

u32_arg-decimal :
    (argv : List Text) (i n : ℕ) → arg argv i ≡ decimal n → IsU32 n → u32_arg argv i ≡ ok n
unfolding u32_arg
u32_arg-decimal argv i n e h = rw (e, stoul_whole "stoul" n (omega (arith, h))) (ground (arith, h))

parse_key_hex-bytes_to_hex :
    (key : ByteBuffer)
    → All IsByte key
    → length key ≡ 16
    → parse_key_hex (bytes_to_hex key) ≡ ok key
unfolding parse_key_hex hex_to_key
parse_key_hex-bytes_to_hex key h size =
    ground (arith, length-bytes_to_hex key, size, hex_to_key-bytes_to_hex key h size)

module _ (name host certificate key ca : Text) where
  -- The command line of an order.
  abbrev pub command_line : Order → List Text
  command_line o = name ∷ host ∷ (words o ++ (certificate ∷ key ∷ ca ∷ []))

  prepare_parsed :
      (o : Order)
      → parse_command (arg (command_line o) 2) ≡ ok (asked o).command
      → build_payload (asked o).command (command_line o) ≡ ok (asked o).payload
      → prepare (command_line o) ≡ prepared (tls_config certificate key ca) host (asked o)
  unfolding prepare with_command with_argc with_payload command_argc words asked
  prepare_parsed ask_time e h = rw (e, h) refl
  prepare_parsed ask_status e h = rw (e, h) refl
  prepare_parsed list_keys e h = rw (e, h) refl
  prepare_parsed purge_everything e h = rw (e, h) refl
  prepare_parsed (list_events start stop) e h = rw (e, h) refl
  prepare_parsed (ask_event id) e h = rw (e, h) refl
  prepare_parsed (find_key id) e h = rw (e, h) refl
  prepare_parsed (purge id) e h = rw (e, h) refl
  prepare_parsed (load k) e h = rw (e, h) refl

  parsed : (o : Order) → parse_command (arg (command_line o) 2) ≡ ok (asked o).command
  unfolding parse_command text_eq words asked
  parsed ask_time = refl
  parsed ask_status = refl
  parsed list_keys = refl
  parsed purge_everything = refl
  parsed (list_events start stop) = refl
  parsed (ask_event id) = refl
  parsed (find_key id) = refl
  parsed (purge id) = refl
  parsed (load k) = refl

  built :
      (o : Order)
      → IsOrder o
      → build_payload (asked o).command (command_line o) ≡ ok (asked o).payload
  unfolding build_payload words asked IsOrder
  built ask_time h = refl
  built ask_status h = refl
  built list_keys h = refl
  built purge_everything h = refl
  built (list_events start stop) (h, h2) =
      rw
        (
          u32_arg-decimal (command_line (list_events start stop)) 3 start refl h,
          u32_arg-decimal (command_line (list_events start stop)) 4 stop refl h2,
        )
        refl
  built (ask_event id) h = rw (u32_arg-decimal (command_line (ask_event id)) 3 id refl h) refl
  built (find_key id) h = rw (u32_arg-decimal (command_line (find_key id)) 3 id refl h) refl
  built (purge id) h = rw (u32_arg-decimal (command_line (purge id)) 3 id refl h) refl
  built (load k) h =
      rw
        (
          u32_arg-decimal (command_line (load k)) 3 k.key_id refl h.fields_fit.id_fits,
          parse_key_hex-bytes_to_hex k.key h.key_bytes h.fields_fit.key_size,
          u32_arg-decimal (command_line (load k)) 5 k.expire_time refl h.fields_fit.expire_fits,
          stoul_whole "stoull" k.attribute_data h.fields_fit.attribute_fits,
        )
        (ground (arith, h.fields_fit.attribute_fits))

  -- A command line that types an order, with numbers that fit their types and a key of 16 bytes, becomes the
  -- request that says it, with id 1, for the host and with the files that are named.
  pub prepare-command_line :
      (o : Order)
      → IsOrder o
      → prepare (command_line o) ≡ prepared (tls_config certificate key ca) host (asked o)
  prepare-command_line o h = prepare_parsed o (parsed o) (built o h)
