-- ===== src/Manager/Output.antt =====
-- The channel on which a turn hands its events to the client, and its result: `managedOutput` of
-- cursoragentv1/manager.go, and `newSnapshotOutput` of cursoragentv1/completed_events.go.
pub mod Delivery
use cursor_agent2api.Base.{
  ℕ, ◌*◌, Bool, true, false, List, [], ◌∷◌, ◌++◌, Option, none, some, ltb, length, reverse,
  if◌then◌else◌,
}
use cursor_agent2api.Types.{Event}
use cursor_agent2api.Ids.{Error, Result, ok, err, max_pending_tools}
use cursor_agent2api.Snapshot.{Encoder, no_events, append_all}

-- The events that wait in the buffered channel, and what was sent on the channel of the result:
-- nothing yet, no error, or an error.
pub record Output : Type 0 where
  pub capacity : ℕ
  pub buffered : List Event
  pub closed : Bool
  pub result : Option (Option Error)

pub data SendResult : Type 0 where
  send_ok send_closed send_full : SendResult

unfoldable pub output_of : ℕ → Output
output_of capacity = record { capacity = capacity; buffered = []; closed = false; result = none }

unfoldable pub new_managed_output : Output
unfolding output_of
new_managed_output = output_of (max_pending_tools * 4)

-- `(*managedOutput).send`, which never waits.
unfoldable pub send : Event → Output → Output × SendResult
send e o =
    if o.closed
    then (o, send_closed)
    else if ltb (length o.buffered) o.capacity
    then (record o { buffered = o.buffered ++ e ∷ [] }, send_ok)
    else (o, send_full)

-- `(*managedOutput).close`
unfoldable pub close : Option Error → Output → Output
close e o = if o.closed then o else record o { closed = true; result = some e }

-- The client's receive on the channel; `none` where it has to wait or the channel is done.
unfoldable pub receive_event : Output → Output × Option Event
receive_event o = elim o.buffered [
  | [] ↦ (o, none)
  | (e ∷ es) ↦ (record o { buffered = es }, some e)
]

-- The events of a replay, all of them at once.
unfoldable pub new_snapshot_output : Encoder → List Event → Output
unfolding output_of close append_all new_managed_output
new_snapshot_output encoder events = elim (append_all encoder no_events events) [
  | err e ↦ close (some e) new_managed_output
  | ok s ↦ close none (record (output_of (length s.events)) { buffered = reverse s.events })
]
