-- ===== src/Session/Driver/Runs.antt =====
-- The rounds of a driver's loop, and what holds between them.
use mango_protocol.Common.{Text, ℕ, ◌+◌, ◌≡◌, List, [], ◌∷◌, Bool, true, false, not, none, list_eq}
use mango_protocol.Libs.{Libs}
use mango_protocol.Wire.Close.{contains}
use mango_protocol.Wire.Frame.{Frame}
use mango_protocol.Codec.Serde.{Serde}
use mango_protocol.Session.State.{SessionDriver, Command, is_handshaking}
use mango_protocol.Session.Dispatch.Accounts.{same_id}
use mango_protocol.Session.Driver.{
  Event, handshake_timeout, handler_settled, command, inbound, step,
}

-- A handle sends no answer as a command: its commands carry `req`, `evt` and `cancel` frames.
abbrev pub is_answer : {L : Libs} → Frame L → Bool
is_answer (Frame.res response) = true
is_answer (Frame.err response) = true
is_answer _ = false

abbrev pub is_request : {L : Libs} → Frame L → Bool
is_request (Frame.req request) = true
is_request _ = false

-- When the runtime can deliver an event: the handshake timer is polled only in `Handshaking`, a
-- joined task is one of the set, and a spawned task's id is no other's.
unfoldable pub enabled : {L : Libs} → SessionDriver L → Event L → Bool
unfolding is_handshaking
enabled d (handshake_timeout millis) = is_handshaking d.shared.state
enabled d (handler_settled task outcome) = contains d.tracking.tasks task
enabled d (command (Command.request frame reply)) = not (is_answer frame)
enabled d (command (Command.send frame)) = not (is_answer frame)
enabled d (inbound frame alive spawned) = not (contains d.tracking.tasks spawned.task)
enabled d _ = true

-- Requests with this id among the events.
abbrev pub request_count : {L : Libs} → Text → Event L → ℕ
request_count id (inbound (Frame.req request) alive spawned) = same_id request.id id
request_count id _ = 0

unfoldable pub requests : {L : Libs} → Text → List (Event L) → ℕ
requests id [] = 0
requests id (event ∷ events) = request_count id event + requests id events

module _ ⦃L : Libs⦄ ⦃S : Serde L⦄ where
  -- Rounds of the loop that do not end it.
  pub data Run (d : SessionDriver L) : SessionDriver L → List (Event L) → Type 0 where
    start : Run d d []
    round :
        (d' : SessionDriver L) (events : List (Event L)) (event : Event L)
        → Run d d' events
        → enabled d' event ≡ true
        → (step d' event).1 ≡ none
        → Run d (step d' event).0 (event ∷ events)
