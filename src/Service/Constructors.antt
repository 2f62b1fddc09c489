-- ===== src/Service/Constructors.antt =====
-- The constructors of `AsmService`, of src/asm/service.cpp: from the stores, from an event log, and from nothing.
use iso26430_6_asm_prototype.EventLog
use iso26430_6_asm_prototype.EventLog.{EventLogStore, default_events}
use iso26430_6_asm_prototype.LeKey.{LeKeyStore}
use iso26430_6_asm_prototype.LeKey.Store as Memory
use iso26430_6_asm_prototype.LeKey.Store.{Keys}
use iso26430_6_asm_prototype.QuerySpb.{StaticQuerySpbStatusProvider, not_playing}
use iso26430_6_asm_prototype.Service.Handlers.{AsmService}

-- The default argument: a provider that is not told a status.
abbrev pub default_provider : StaticQuerySpbStatusProvider
default_provider = record { status = not_playing }

abbrev pub of_stores :
    {S : Type 0} → EventLogStore → LeKeyStore S → StaticQuerySpbStatusProvider → AsmService S
of_stores log store status = record {
  event_log_store = log;
  le_key_store = store;
  spb_status_provider = status;
}

abbrev pub of_event_log : EventLogStore → AsmService Keys
of_event_log log = of_stores log Memory.in_memory default_provider

abbrev pub by_default : AsmService Keys
by_default = of_stores (EventLog.in_memory default_events) Memory.in_memory default_provider
