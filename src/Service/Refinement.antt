-- ===== src/Service/Refinement.antt =====
-- One key store in place of another: what the service answers, when the two stores do the same.
use iso26430_6_asm_prototype.Base.{
  ℕ, ◌≡◌, refl, List, [], ◌∷◌, arith, Result, ok, err, Result-cases, inl, inr, Bool-cases, length,
  ◌==◌, ◌!=◌,
}
use iso26430_6_asm_prototype.Common.{
  ByteBuffer, Command, bad_request, get_time, le_key_load, le_key_query_id, le_key_query_all,
  le_key_purge_id, le_key_purge_all, StandardRequest, ServiceResult,
}
use iso26430_6_asm_prototype.EventLog.{EventLogStore}
use iso26430_6_asm_prototype.LeKey.{LeKeyRecord, LeKeyStore}
use iso26430_6_asm_prototype.LeKey.Payload.{
  decode_load_request, decode_query_id_request, decode_purge_id_request,
}
use iso26430_6_asm_prototype.QuerySpb.{StaticQuerySpbStatusProvider}
use iso26430_6_asm_prototype.Service.{handle_request, dispatch}
use iso26430_6_asm_prototype.Service.Actions.{Action, resume}
use iso26430_6_asm_prototype.Service.Handlers.{
  AsmService, handle_get_time, handle_get_event_list, handle_get_event_id, handle_query_spb,
  handle_le_key_load, handle_le_key_query_id, handle_le_key_query_all, handle_le_key_purge_id,
  handle_le_key_purge_all,
}

-- An action on the concrete state has the result of the abstract one, and the effect that is seen.
abbrev pub Agrees : {A S T : Type 0} → (S → T) → Result A × S → Result A × T → Type 0
Agrees view (r, s) (q, t) = (r ≡ q) × (view s ≡ t)

-- Seen through `view`, every function of the concrete store does what the abstract one does.
pub record Refines {S T : Type 0} (concrete : LeKeyStore S) (abstract : LeKeyStore T) (view : S → T)
    : Type 0 where
  pub loads :
      (keys : List LeKeyRecord) (s : S)
      → Agrees view (concrete.load_keys keys s) (abstract.load_keys keys (view s))
  pub contains : (id : ℕ) (s : S) → concrete.contains_key id s ≡ abstract.contains_key id (view s)
  pub lists : (s : S) → concrete.list_key_ids s ≡ abstract.list_key_ids (view s)
  pub purges :
      (id : ℕ) (s : S) → Agrees view (concrete.purge_key id s) (abstract.purge_key id (view s))
  pub clears : (s : S) → Agrees view (concrete.purge_all s) (abstract.purge_all (view s))

-- A request as it comes in: when, what it says, and its bytes.
pub record Arrival : Type 0 where
  pub now : ℕ
  pub request : StandardRequest
  pub raw : ByteBuffer

-- The answers to one request after another.
unfoldable pub run :
    {S : Type 0} → AsmService S → List Arrival → S → List (Result ServiceResult) × S
run service [] s = ([], s)
run service (a ∷ arrivals) s =
    let (result, next) = handle_request service a.now a.request a.raw s in
    let (results, last) = run service arrivals next in (result ∷ results, last)

module _ {S T A B : Type 0} (view : S → T) where
  -- Actions that agree go on to agree.
  bind-Agrees :
      (m : Result A × S) (n : Result A × T) (f : A → Action S B) (g : A → Action T B)
      → Agrees view m n
      → ((a : A) (s : S) → Agrees view (f a s) (g a (view s)))
      → Agrees view (resume m.0 f m.1) (resume n.0 g n.1)
  bind-Agrees (ok a, s) (q, t) f g (same, seen) k = rw (← same, ← seen) (k a s)
  bind-Agrees (err e, s) (q, t) f g (same, seen) k = rw (← same, ← seen) (refl, refl)

module _ {S T : Type 0} (log : EventLogStore) (status : StaticQuerySpbStatusProvider)
    (concrete : LeKeyStore S) (abstract : LeKeyStore T) (view : S → T)
    (h : Refines concrete abstract view) where
  abbrev pub over : {U : Type 0} → LeKeyStore U → AsmService U
  over store = record { event_log_store = log; le_key_store = store; spb_status_provider = status }

  load-Agrees :
      (r : StandardRequest) (s : S)
      → Agrees view
          (handle_le_key_load (over concrete) r s)
          (handle_le_key_load (over abstract) r (view s))
  unfolding handle_le_key_load
  load-Agrees r s = elim (Result-cases (decode_load_request r.payload)) [
    | inl (p, e) ↦ rw e (
        bind-Agrees view (concrete.load_keys p.keys s) (abstract.load_keys p.keys (view s)) _ _
          (h.loads p.keys s) (λ b s. (refl, refl)))
    | inr (m, e) ↦ rw e (refl, refl)
  ]

  purge-Agrees :
      (r : StandardRequest) (s : S)
      → Agrees view
          (handle_le_key_purge_id (over concrete) r s)
          (handle_le_key_purge_id (over abstract) r (view s))
  unfolding handle_le_key_purge_id
  purge-Agrees r s = elim (Result-cases (decode_purge_id_request r.payload)) [
    | inl (p, e) ↦ rw e (
        bind-Agrees view (concrete.purge_key p.key_id s) (abstract.purge_key p.key_id (view s)) _ _
          (h.purges p.key_id s) (λ b s. (refl, refl)))
    | inr (m, e) ↦ rw e (refl, refl)
  ]

  clear-Agrees :
      (r : StandardRequest) (s : S)
      → Agrees view
          (handle_le_key_purge_all (over concrete) r s)
          (handle_le_key_purge_all (over abstract) r (view s))
  unfolding handle_le_key_purge_all
  clear-Agrees r s = elim (Bool-cases (length r.payload != 0)) [
    | inl full ↦ rw full (refl, refl)
    | inr empty ↦ rw empty (
        bind-Agrees view (concrete.purge_all s) (abstract.purge_all (view s)) _ _ (h.clears s)
          (λ b s. (refl, refl)))
  ]

  dispatch-Agrees :
      (c : Command) (now : ℕ) (r : StandardRequest) (raw : ByteBuffer) (s : S)
      → Agrees view
          (dispatch (over concrete) c now r raw s)
          (dispatch (over abstract) c now r raw (view s))
  unfolding dispatch handle_get_time handle_get_event_list handle_get_event_id handle_query_spb
      handle_le_key_query_id handle_le_key_query_all
  dispatch-Agrees bad_request now r raw s = (refl, refl)
  dispatch-Agrees get_time now r raw s = (refl, refl)
  dispatch-Agrees le_key_load now r raw s = load-Agrees r s
  dispatch-Agrees le_key_purge_id now r raw s = purge-Agrees r s
  dispatch-Agrees le_key_purge_all now r raw s = clear-Agrees r s
  dispatch-Agrees le_key_query_id now r raw s =
      elim (Result-cases (decode_query_id_request r.payload)) [
        | inl (p, e) ↦ rw (e, h.contains p.key_id s) (refl, refl)
        | inr (m, e) ↦ rw e (refl, refl)
      ]
  dispatch-Agrees le_key_query_all now r raw s = ground (arith, h.lists s)
  dispatch-Agrees _ now r raw s = ground arith

  pub handle_request-Agrees :
      (now : ℕ) (r : StandardRequest) (raw : ByteBuffer) (s : S)
      → Agrees view
          (handle_request (over concrete) now r raw s)
          (handle_request (over abstract) now r raw (view s))
  unfolding handle_request
  handle_request-Agrees now r raw s = elim (Bool-cases (r.request_id == 0)) [
    | inl zero ↦ rw zero (refl, refl)
    | inr nonzero ↦ rw nonzero (dispatch-Agrees r.command now r raw s)
  ]

  -- If, seen through a view, every function of a concrete key store does what the abstract one does,
  -- then whatever requests come in, in whatever order, a service over the concrete store gives the
  -- answers of one over the abstract store, and ends in a state that is seen as the abstract one.
  pub run-Refines :
      (arrivals : List Arrival) (s : S)
      → ((run (over concrete) arrivals s).0 ≡ (run (over abstract) arrivals (view s)).0)
        × (view (run (over concrete) arrivals s).1 ≡ (run (over abstract) arrivals (view s)).1)
  unfolding run
  run-Refines [] s = (refl, refl)
  run-Refines (a ∷ arrivals) s =
      let (same, seen) = handle_request-Agrees a.now a.request a.raw s in
      let next = (handle_request (over concrete) a.now a.request a.raw s).1 in
      let (later, last) = run-Refines arrivals next in
      (rw (same, later, seen) refl, rw (last, seen) refl)
