-- ===== src/Synapse/Connection/Signals.antt =====
-- How often pkg/synapse/synapse.go signals that its connection failed.
use test_at_scale.Prelude.{◌≤◌, ◌≡◌, refl, true, List, [], ◌∷◌, ◌==◌, arith}
use test_at_scale.Synapse.{
  context_done, normal_closure, invalid_request, message_error, connection_handler,
}
use test_at_scale.Synapse.Connection.{
  Attempt, exhausted, cancelled, connected, Connection, open_and_maintain_connection,
}

abbrev pub fresh : Connection
fresh = record { failures = 0; logout_required = true }

-- However often synapse connects again, it signals a failed connection at most once, and at its end it
-- logs out exactly if it has not signalled one.
pub open_and_maintain_connection-IsSettled :
    (attempts : List Attempt)
    → ((open_and_maintain_connection attempts fresh).failures ≤ 1)
      × ((open_and_maintain_connection attempts fresh).logout_required
          ≡ ((open_and_maintain_connection attempts fresh).failures == 0))
unfolding open_and_maintain_connection connection_handler
open_and_maintain_connection-IsSettled [] = (omega arith, refl)
open_and_maintain_connection-IsSettled (exhausted ∷ attempts) = (omega arith, refl)
open_and_maintain_connection-IsSettled (cancelled ∷ attempts) = (omega arith, refl)
open_and_maintain_connection-IsSettled (connected context_done ∷ attempts) = (omega arith, refl)
open_and_maintain_connection-IsSettled (connected normal_closure ∷ attempts) = (omega arith, refl)
open_and_maintain_connection-IsSettled (connected invalid_request ∷ attempts) = (omega arith, refl)
open_and_maintain_connection-IsSettled (connected message_error ∷ attempts) =
    open_and_maintain_connection-IsSettled attempts
