-- ===== src/Apps/EndToEnd/Visits.antt =====
-- Several users of src/apps/asm_initiator.cpp, one after another, at one responder with its keys in memory.
use iso26430_6_asm_prototype.Base.{
  ℕ, ◌+◌, ◌≤◌, ◌≡◌, refl, ap, ◌∙◌, List, [], ◌∷◌, Result, ok, err, Text,
}
use iso26430_6_asm_prototype.Common.{ByteBuffer}
use iso26430_6_asm_prototype.Apps.EndToEnd.{
  session, session_over, responder_over, order_carried_out,
}
use iso26430_6_asm_prototype.Apps.EndToEnd.Reply.{reply_line}
use iso26430_6_asm_prototype.Apps.Initiator.Answers.{IsAnswerable}
use iso26430_6_asm_prototype.Apps.Initiator.Orders.{Order, asked, IsOrder, command_line}
use iso26430_6_asm_prototype.Apps.Initiator.Printing.{Exit, exits, main}
use iso26430_6_asm_prototype.Apps.Initiator.Replies.{carried_out, reply_size}
use iso26430_6_asm_prototype.EventLog.{EventLogStore}
use iso26430_6_asm_prototype.LeKey.Store.{Keys}
use iso26430_6_asm_prototype.QuerySpb.{StaticQuerySpbStatusProvider}
use iso26430_6_asm_prototype.Security.Certificates.{OpenSsl, PeerIdentity}
use iso26430_6_asm_prototype.Security.Profile.{Returns, TlsConfig, tls_config}
use iso26430_6_asm_prototype.Service.Handlers.{AsmService}
use iso26430_6_asm_prototype.Service.KeyCommands.{in_memory_service}
use iso26430_6_asm_prototype.Transport.Client.{Route}
use iso26430_6_asm_prototype.Transport.Client.Reached.{Reaches}
use iso26430_6_asm_prototype.Transport.Frames.{encoded_request}
use iso26430_6_asm_prototype.Transport.Reading.{buffer_size}
use iso26430_6_asm_prototype.Transport.Server.{Connection, Server}
use iso26430_6_asm_prototype.Transport.Server.Admitted.{Admits}

-- What a user wants, the way to the server, and who the two sides are.
pub record Visit (P Q : Type 0) : Type 0 where
  pub order : Order
  pub route : Text → ℕ → Route P
  pub connection : Connection Q
  pub server_identity : PeerIdentity
  pub client_identity : PeerIdentity

abbrev or_nothing : Result ByteBuffer → ByteBuffer
or_nothing (ok bytes) = bytes
or_nothing (err what) = []

module _ {S P Q : Type 0} (service : AsmService S) (config : TlsConfig) (server_returns : Returns)
    (server_ssl : OpenSsl Q) (returns : Returns) (openssl : OpenSsl P)
    (name host certificate key ca : Text) where
  -- The server after a visit.
  abbrev pub after_over : Visit P Q → Server S → Server S
  after_over v s =
      (session_over service config server_returns server_ssl v.connection
        (or_nothing (encoded_request (asked v.order))) s).1

  abbrev pub visit_over : Visit P Q → Server S → Exit
  visit_over v s =
      main returns openssl v.route
        (responder_over service config server_returns server_ssl v.connection s)
        (command_line name host certificate key ca v.order)

  -- How the initiators end, and the server in the end.
  unfoldable pub visits_over : List (Visit P Q) → Server S → List Exit × Server S
  visits_over [] s = ([], s)
  visits_over (v ∷ visits) s =
      let (ends, last) = visits_over visits (after_over v s) in (visit_over v s ∷ ends, last)

-- The keys when all is done.
unfoldable pub all_carried_out : {P Q : Type 0} → List (Visit P Q) → Keys → Keys
all_carried_out [] s = s
all_carried_out (v ∷ visits) s = all_carried_out visits (carried_out v.order s)

module _ {P Q : Type 0} (log : EventLogStore) (status : StaticQuerySpbStatusProvider)
    (config : TlsConfig) (server_returns : Returns) (server_ssl : OpenSsl Q) (returns : Returns)
    (openssl : OpenSsl P) (name host certificate key ca : Text) where
  -- The responder with its keys in memory.
  abbrev after : Visit P Q → Server Keys → Server Keys
  after =
      after_over (in_memory_service log status) config server_returns server_ssl returns openssl
        name host certificate key ca

  abbrev visit : Visit P Q → Server Keys → Exit
  visit =
      visit_over (in_memory_service log status) config server_returns server_ssl returns openssl
        name host certificate key ca

  abbrev pub visits_end : List (Visit P Q) → Server Keys → List Exit × Server Keys
  visits_end =
      visits_over (in_memory_service log status) config server_returns server_ssl returns openssl
        name host certificate key ca

  -- What the users read, by the keys that the orders before have left.
  unfoldable pub all_lines : List (Visit P Q) → Keys → List Exit
  all_lines [] s = []
  all_lines (v ∷ visits) s =
      exits 0 (reply_line log status v.server_identity.sha256_thumbprint v.connection.now v.order s)
        ""
      ∷ all_lines visits (carried_out v.order s)

  pub record IsGood (v : Visit P Q) (s : Keys) : Type 0 where
    pub fits : IsOrder v.order
    pub answerable : IsAnswerable log status v.connection.now v.order s
    pub short : 25 + reply_size log status v.connection.now v.order s ≤ buffer_size
    pub reaches :
        Reaches
          (tls_config certificate key ca)
          returns
          openssl
          (v.route host 1173)
          v.server_identity
    pub admits : Admits config server_returns server_ssl v.connection v.client_identity

  -- Every visit is good for the keys that it finds.
  unfoldable pub AllGood : List (Visit P Q) → Keys → Type 0
  AllGood [] s = Unit {0}
  AllGood (v ∷ visits) s = IsGood v s × AllGood visits (carried_out v.order s)

  visit-carried_out :
      (v : Visit P Q) (s : Server Keys)
      → IsGood v s.store
      → (visit v s
          ≡ exits 0
              (reply_line log status v.server_identity.sha256_thumbprint v.connection.now v.order
                s.store)
              "")
        × ((after v s).store ≡ carried_out v.order s.store)
  visit-carried_out v s h =
      let (shown, (raw, trace, sent, _, store, _, _, _, _)) =
        order_carried_out log status config server_returns server_ssl returns openssl name host
          certificate key ca v.order v.route v.connection v.server_identity v.client_identity s
          h.fits h.answerable h.short h.reaches h.admits in
      (
        shown,
        ap
              (λ bytes.
                (session log status config server_returns server_ssl v.connection (or_nothing bytes)
                  s).1.store)
              sent
            ∙ store,
      )

  -- Any orders that users type one after another, each over a connection of its own, are carried out in
  -- their turn. For each visit, the numbers of the order fit their types and a key has 16 bytes; a
  -- window of times does not end before it starts; the answer, for the keys that the orders before have
  -- left, fits its fields and 4096 bytes; client and server let each other in; and every write takes a byte at least, and every read delivers what there is. Then each
  -- asm_initiator exits with 0 and prints what the order asks for of the keys that the orders before
  -- have left, and the responder has in the end the keys that all orders together leave.
  pub visits_carried_out :
      (visits : List (Visit P Q)) (s : Server Keys)
      → AllGood visits s.store
      → ((visits_end visits s).0 ≡ all_lines visits s.store)
        × ((visits_end visits s).1.store ≡ all_carried_out visits s.store)
  unfolding visits_over all_lines all_carried_out AllGood
  visits_carried_out [] s h = (refl, refl)
  visits_carried_out (v ∷ visits) s (good, h) =
      let (shown, store) = visit-carried_out v s good in
      let (ends, last) = visits_carried_out visits (after v s) (rw store h) in
      (rw (shown, ends, store) refl, rw (last, store) refl)
