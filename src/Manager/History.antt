-- ===== src/Manager/History.antt =====
-- A full-history request: `StartHistory` of cursoragentv1/manager_history.go, which tries `Start` until
-- the session is free.
use cursor_agent2api.Base.{List, [], ◌∷◌}
use cursor_agent2api.Ids.{ok, err, session_active, state_lease_held}
use cursor_agent2api.Snapshot.{Encoder}
use cursor_agent2api.Store.{Platform}
use cursor_agent2api.Manager.World.{World, Moment, W}
use cursor_agent2api.Manager.Turns.{ManagedOutput}
use cursor_agent2api.Manager.Replays.{ManagedRequest}
use cursor_agent2api.Manager.Ends.{context_canceled}
use cursor_agent2api.Manager.Start.{start}

module _ (p : Platform) (encoder : Encoder) where
  -- Each round is a try, with what the process does until the next one; after the last round the
  -- context is done.
  unfoldable pub start_history : ManagedRequest → List (Moment × (World → World)) → W ManagedOutput
  unfolding start
  start_history r [] w = (w, err context_canceled)
  start_history r ((m, meanwhile) ∷ rounds) w =
      let (tried, found) = start p encoder r m w in
      let later = start_history r rounds (meanwhile tried) in
      elim found [
        | ok output ↦ (tried, ok output)
        | err session_active ↦ later
        | err state_lease_held ↦ later
        | err e ↦ (tried, err e)
      ]
