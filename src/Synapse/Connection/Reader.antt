-- ===== src/Synapse/Connection/Reader.antt =====
-- `messageReader` of pkg/synapse/synapse.go: the messages that are read from the websocket.
use test_at_scale.Prelude.{String, ◌≡◌, ap, Option, none, some, List, [], ◌∷◌, map}
use test_at_scale.Errs.{Err}
use test_at_scale.Synapse.{Json, Handler, process_message, Selected, normal_closure, message_error}

-- What one round of the loop finds: a duplicate connection, a message, or that the websocket failed.
pub data Round : Type 0 where
  duplicate : Round
  received : String → Round
  closed_normally : Round
  read_failed : Round

-- The handlers that the reader started, and what it sent when it ended, if it did.
pub record Reading : Type 0 where
  pub started : List Handler
  pub sent : Option Selected

abbrev pub ended : Selected → Reading
ended selected = record { started = []; sent = some selected }

abbrev pub after_message : Json → String → Reading → Reading
after_message json msg rest = record rest { started = process_message json msg ∷ rest.started }

unfoldable pub read_rounds : Json → List Round → Reading
read_rounds json [] = record { started = []; sent = none }
read_rounds json (duplicate ∷ rounds) = ended message_error
read_rounds json (closed_normally ∷ rounds) = ended normal_closure
read_rounds json (read_failed ∷ rounds) = ended message_error
read_rounds json (received msg ∷ rounds) = after_message json msg (read_rounds json rounds)

-- `deadline` is the error of the first `SetReadDeadline`.
unfoldable pub message_reader : Json → Option Err → List Round → Reading
message_reader json (some e) rounds = ended message_error
message_reader json none rounds = read_rounds json rounds

-- The messages that stand before the first round of an other kind.
abbrev pub sends_at : Round → Option Selected
sends_at duplicate = some message_error
sends_at closed_normally = some normal_closure
sends_at read_failed = some message_error
sends_at (received msg) = none

abbrev pub all_received : List String → List Round → List Round
all_received [] rounds = rounds
all_received (msg ∷ msgs) rounds = received msg ∷ all_received msgs rounds

read_rounds-all :
    (json : Json) (msgs : List String) (last : Round) (rounds : List Round) (selected : Selected)
    → sends_at last ≡ some selected
    → read_rounds json (all_received msgs (last ∷ rounds))
      ≡ record { started = map (process_message json) msgs; sent = some selected }
unfolding read_rounds
read_rounds-all json [] duplicate rounds selected e = ap (λ o. record { started = []; sent = o }) e
read_rounds-all json [] closed_normally rounds selected e =
    ap (λ o. record { started = []; sent = o }) e
read_rounds-all json [] read_failed rounds selected e =
    ap (λ o. record { started = []; sent = o }) e
read_rounds-all json [] (received msg) rounds selected e = cc
read_rounds-all json (msg ∷ msgs) last rounds selected e =
    ap (after_message json msg) (read_rounds-all json msgs last rounds selected e)

-- A reader whose deadline could be set handles every message that it reads, once and in order, until
-- the first round that is none; it then sends one signal, a normal closure exactly if the websocket
-- was closed so, and looks at nothing after it.
pub message_reader-all :
    (json : Json) (msgs : List String) (last : Round) (rounds : List Round) (selected : Selected)
    → sends_at last ≡ some selected
    → message_reader json none (all_received msgs (last ∷ rounds))
      ≡ record { started = map (process_message json) msgs; sent = some selected }
unfolding message_reader
message_reader-all json msgs last rounds selected e =
    read_rounds-all json msgs last rounds selected e
