-- ===== src/Core/Journal.antt =====
-- crates/silo-core/src/journal.rs: the record of one proxied network exchange. (The journal's
-- writer is file output.)
use llmdevsilo.Prelude.{ℕ, Bool, false, Option, none, Text, String}

pub record NetworkRecord : Type 0 where
  pub host : Text
  pub port : ℕ
  pub method : Option Text
  pub path : Option Text
  pub status : Option ℕ
  pub bytes_sent : ℕ
  pub bytes_received : ℕ
  pub allowed : Bool
  pub credential_injected : Bool
  pub note : Option String

-- `NetworkRecord::default()` with a host and a port.
abbrev pub network_record : Text → ℕ → NetworkRecord
network_record host port = record {
  host = host;
  port = port;
  method = none;
  path = none;
  status = none;
  bytes_sent = 0;
  bytes_received = 0;
  allowed = false;
  credential_injected = false;
  note = none;
}
