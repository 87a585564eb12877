-- ===== src/Synapse/Connection.antt =====
-- The connection of synapse with the server, pkg/synapse/synapse.go: the attempts to connect and what
-- ends them, and the channel `MsgChan` between the goroutines and the writer.
pub mod Signals
pub mod Reader
use test_at_scale.Prelude.{
  ℕ, suc, ◌+◌, ◌<◌, String, Bool, true, false, Option, none, some, List, [], ◌∷◌, ◌++◌, length,
  if◌then◌else◌,
}
use test_at_scale.Synapse.{
  Selected, connection_handler, invalid_request, Message, MessageType, Synapse, message_of,
  write_message_to_buffer,
}
use test_at_scale.Synapse

-- One run of `backoff.Retry` in `openAndMaintainConnection`: the time for retries ran out, the context was
-- done, or a connection was made, which ended so.
pub data Attempt : Type 0 where
  exhausted cancelled : Attempt
  connected : Selected → Attempt

-- What was sent on `connectionFailed`, and `LogoutRequired`.
pub record Connection : Type 0 where
  pub failures : ℕ
  pub logout_required : Bool

abbrev signals : Selected → ℕ
signals invalid_request = 1
signals other = 0

abbrev pub after_connection : Selected → Connection → Connection
after_connection selected c = record {
  failures = c.failures + signals selected;
  logout_required = (connection_handler selected c.logout_required).1;
}

-- The attempts that are not reached are never made.
unfoldable pub open_and_maintain_connection : List Attempt → Connection → Connection
open_and_maintain_connection [] c = c
open_and_maintain_connection (exhausted ∷ attempts) c = record {
  failures = c.failures + 1;
  logout_required = false;
}
open_and_maintain_connection (cancelled ∷ attempts) c = c
open_and_maintain_connection (connected selected ∷ attempts) c =
    let rest = open_and_maintain_connection attempts (after_connection selected c) in
    if (connection_handler selected c.logout_required).0 then rest else after_connection selected c

pub record LoginDetails : Type 0 where
  pub name : String
  pub synapse_id : String
  pub secret_key : String
  pub cpu : String
  pub ram : String
  pub synapse_version : String

unfoldable pub create_login_message : (LoginDetails → Option String) → LoginDetails → Message
create_login_message encode details = message_of MessageType.login (encode details)

-- `login`, for an identity of the machine that could be read.
unfoldable pub login : (LoginDetails → Option String) → LoginDetails → Synapse → Synapse
login encode details = write_message_to_buffer (create_login_message encode details)
