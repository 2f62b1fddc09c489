-- ===== src/EventLog/Lookup.antt =====
-- Listing and fetching agree on the events of a log.
use iso26430_6_asm_prototype.Base.{
  ℕ, ◌≡◌, Bool, true, false, ◌||◌, Option, none, some, List, [], ◌∷◌, arith, ◌==◌, Bool-cases, inl,
  inr, Text, if◌then◌else◌,
}
use iso26430_6_asm_prototype.EventLog.{list_event_ids, get_event_xml}
use iso26430_6_asm_prototype.EventLog.Xml.{EventRecord}

pub is_listed : ℕ → List ℕ → Bool
is_listed id [] = false
is_listed id (x ∷ ids) = x == id || is_listed id ids

abbrev pub is_some : Option Text → Bool
is_some none = false
is_some (some x) = true

-- An id that a window lists has a text.
listed_has_xml :
    (events : List EventRecord) (time_start time_stop id : ℕ)
    → is_listed id (list_event_ids events time_start time_stop) ≡ true
    → is_some (get_event_xml events id) ≡ true
unfolding list_event_ids get_event_xml is_listed
listed_has_xml [] a b id h = h
listed_has_xml (e ∷ events) a b id h = ground (arith, listed_has_xml events a b id)

-- The window that lists the first event of an id.
time_of : ℕ → List EventRecord → ℕ
time_of id [] = 0
time_of id (e ∷ events) = if e.event_id == id then e.timestamp_epoch else time_of id events

xml_is_listed :
    (events : List EventRecord) (id : ℕ)
    → is_some (get_event_xml events id) ≡ true
    → is_listed id (list_event_ids events (time_of id events) (time_of id events)) ≡ true
unfolding list_event_ids get_event_xml is_listed time_of
xml_is_listed [] id h = h
xml_is_listed (e ∷ events) id h = elim (Bool-cases (e.event_id == id)) [
  | inl here ↦ rw here (ground arith)
  | inr later ↦ rw later (ground (arith, xml_is_listed events id))
]

-- GetEventID finds a text for an id exactly when some time window lists the id.
pub get_event_xml_iff :
    (events : List EventRecord) (id : ℕ)
    → ((time_start time_stop : ℕ)
        → is_listed id (list_event_ids events time_start time_stop) ≡ true
        → is_some (get_event_xml events id) ≡ true)
      × (is_some (get_event_xml events id) ≡ true
          → (t : ℕ) × (is_listed id (list_event_ids events t t) ≡ true))
get_event_xml_iff events id =
    (λ a b h. listed_has_xml events a b id h, λ h. (time_of id events, xml_is_listed events id h))
