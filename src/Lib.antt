-- ===== src/Lib.antt =====
-- Auditorium Security Messages (ISO 26430-6) between an initiator and a responder: requests and
-- responses in KLV packets over TLS, with a store of link encryption keys and an event log.
--
-- A message is a KLV packet: a universal label of 16 bytes, a BER length of 4 bytes, a value. The label
-- says which command it is and in which direction; the value of a request is its id and a payload, that of
-- a response an id, a payload and a response code. The server reads a message, decodes it, asks the
-- service, and writes the encoded answer; an exception on the way makes a BadRequest that copies the
-- message. The service decodes the payload of each command and calls the key store, the event log or the
-- status provider.
--
-- Files, and the code that they are about:
--   Base          machine words, lists, results and Boolean tests that all parts share
--   Common        include/asm/common.hpp; to_string of src/asm/codec.cpp
--   BigEndian     append_be_u32, append_be_u64, decode_be_u32, decode_be_u64 of src/asm/codec.cpp
--   Klv           Klv of src/klv/klv.cpp
--   Codec         Codec of src/asm/codec.cpp, its label table in Codec/UlMap
--   Batch         the loops of encode_u32_batch, decode_u32_batch and the load request, which
--                 src/asm/le_key.cpp and src/asm/event_log.cpp write out for each type of item
--   LeKey         include/asm/le_key.hpp; LeKeyPayloadCodec in LeKey/Payload, and InMemoryLeKeyStore with
--                 would_overflow in LeKey/Store and JsonlLeKeyStore in LeKey/Jsonl, of src/asm/le_key.cpp
--   EventLog      src/asm/event_log.cpp: InMemoryEventLogProvider, escape_xml and render_event_xml in
--                 EventLog/Xml, the two payload codecs in EventLog/Payload, JsonlEventLogProvider in
--                 EventLog/Jsonl
--   QuerySpb      src/asm/query_spb.cpp
--   Streams       what the files and the command lines use of the C++ library: numbers as text, std::stoul,
--                 std::getline, the regular expressions; the loop over the lines of a JSONL file, which both
--                 stores have, in Streams/Jsonl
--   Service       AsmService of src/asm/service.cpp, its constructors in Service/Constructors, its handlers in
--                 Service/Handlers; one key store in place of another in Service/Refinement, the service over
--                 a file in Service/Persistence, the ids of the keys in Service/KeyIds, and what requests
--                 can tell of the keys in Service/Observation
--   Security      validate_certificate_profile and read_peer_identity of src/security/certificate_utils.cpp in
--                 Security/Certificates; TlsProfile of src/security/tls_profile.cpp and TlsContextFactory of
--                 src/transport/tls_context.cpp in Security/Profile
--   Transport     src/transport/tls_server.cpp, tls_client.cpp and socket.cpp: ssl_expect_positive in
--                 Transport/Errors, write_all in Transport/Writing, read_one_message in Transport/Reading,
--                 the server's session from the received message on in Transport/Session, both sides from
--                 there on in Transport/Exchange, the composition of the codecs in Transport/Frames,
--                 Socket in Transport/Socket with the ownership of descriptors in
--                 Transport/Socket/Ownership, TlsServer in Transport/Server, TlsClient in
--                 Transport/Client; what tls_client.cpp repeats of tls_server.cpp in
--                 Transport/ClientCalls; the requests that reach the service in Transport/Server/Requests,
--                 the whole server over one key store in place of another in Transport/Server/Simulation
--                 and Transport/Server/Views
--   Apps          main of src/apps/asm_initiator.cpp in Apps/Initiator, of src/apps/asm_responder.cpp in
--                 Apps/Responder; both together in Apps/EndToEnd
--   Examples      tests of the definitions, and the theorems at concrete inputs
--
-- A byte is a number, and a buffer a list of numbers; that they are below 256 is a hypothesis (`IsByte`)
-- where it matters. Casts to 8, 32 and 64 bits wrap and are written out. A function that throws returns
-- the message of the exception, since that is all that a caller reads of it. A function that changes an
-- object takes its state and returns it, so what was written before a throw stays. A handler of the service
-- is an action over the state of the key store, which is any implementation of the interface `LeKeyStore`.
--
-- Loops are recursion on their list or on the number of their rounds: a count that was read, eight rounds
-- for a word of 64 bits, twenty for the digits of a number of 64 bits, and as many as there are bytes for
-- `write_all`, where each round that goes on writes a byte. The capacity of the key store is 16, and a
-- packet's value has at most 2 ^ 24 - 1 bytes. The server's loop is recursion on the list of its rounds,
-- where a round says what the stop flag, `select`, `accept` and the connection of the client do; a loop at
-- the end of its list goes on with rounds that are not known.
--
-- Parameters: `SSL_write` and `SSL_read` of OpenSSL, by their return values; the certificates, keys and
-- contexts of OpenSSL, by what its functions return on them; the system calls on sockets, by what they return;
-- the file system, by whether a file can be opened and what is written; `std::get_time` and `timegm`; and the
-- clock, by its reading. The bytes that one side writes are those that the other may read. `unsigned long`
-- has 64 bits, and what the exceptions of `std::stoul` say is what libstdc++ says.
--
-- Not modelled: `ensure_openssl_initialized`, which only initializes OpenSSL; the release of OpenSSL's objects;
-- the signal handler of the responder beyond the stop flag that it sets; the signal SIGPIPE, which a write to
-- a connection that the peer has broken off can raise, and which ends the process, since the programs leave it
-- as it is: a call of `SSL_write` is taken to return; an observer that throws; the timeout that send_request
-- ignores; and a call of OpenSSL or of the system that never comes back.
pub mod Base
pub mod Common
pub mod BigEndian
pub mod Klv
pub mod Codec
pub mod Batch
pub mod LeKey
pub mod EventLog
pub mod QuerySpb
pub mod Service
pub mod Streams
pub mod Security
pub mod Apps
pub mod Transport
pub mod Examples
