-- ===== src/LeKey.antt =====
-- include/asm/le_key.hpp: key records, the payloads of the LE key commands, and the interface that
-- the service has to a key store.
pub mod Payload
pub mod Store
pub mod Jsonl
use iso26430_6_asm_prototype.Base.{ℕ, Bool, List, Result}
use iso26430_6_asm_prototype.Common.{ByteBuffer}

pub record LeKeyRecord : Type 0 where
  pub key_id : ℕ
  pub key : ByteBuffer
  pub expire_time : ℕ
  pub attribute_data : ℕ

pub record LeKeyLoadRequestPayload : Type 0 where
  pub keys : List LeKeyRecord

pub record LeKeyLoadResponsePayload : Type 0 where
  pub overflow : Bool

pub record LeKeyQueryIdRequestPayload : Type 0 where
  pub key_id : ℕ

pub record LeKeyQueryIdResponsePayload : Type 0 where
  pub key_present : Bool

pub record LeKeyQueryAllResponsePayload : Type 0 where
  pub key_ids : List ℕ

pub record LeKeyPurgeIdRequestPayload : Type 0 where
  pub key_id : ℕ

pub record LeKeyPurgeIdResponsePayload : Type 0 where
  pub no_key_id : Bool

-- The virtual functions, over the state `S` of an implementation. A function that writes may throw, and
-- what it had written before stays written.
pub record LeKeyStore (S : Type 0) : Type 0 where
  pub load_keys : List LeKeyRecord → S → Result Bool × S
  pub contains_key : ℕ → S → Bool
  pub list_key_ids : S → List ℕ
  pub purge_key : ℕ → S → Result Bool × S
  pub purge_all : S → Result (Unit {0}) × S
