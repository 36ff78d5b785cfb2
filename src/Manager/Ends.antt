-- ===== src/Manager/Ends.antt =====
-- How a turn ends: `Park`, the end of `run`, `Cancel` and `CancelState` of
-- cursoragentv1/manager.go.
pub mod Frame
pub mod Honest
pub mod Told
use cursor_agent2api.Base.{
  ℕ, Bool, true, false, not, ◌&&◌, ◌||◌, List, [], ◌∷◌, Option, none, some, eqb, if◌then◌else◌,
  reverse, Text, text, ◌==◌, trim_space,
}
use cursor_agent2api.Types.{Event, ToolResult}
use cursor_agent2api.Ids.{
  Error, Result, ok, err, failed, session_not_pending, credential_mismatch, is_empty,
  pending_tool_ids, tool_results_for_batch,
}
use cursor_agent2api.Snapshot.{Encoder, no_events}
use cursor_agent2api.Store.{Platform, release}
use cursor_agent2api.Store.Update.{save_pending, save_follow_up, delete_state, delete_session}
use cursor_agent2api.Store.Directory.{lookup, delete}
use cursor_agent2api.Store.Save.{save_completed, save_history, credential_fingerprint}
use cursor_agent2api.Manager.Calls.{pending_values}
use cursor_agent2api.Manager.Output.{Output, send, send_full, close}
use cursor_agent2api.Manager.World.{
  Session, World, Moment, W, ◌>>=◌, ◌>>◌, fail, give, put_session, put_output, put_store, on_store,
}
use cursor_agent2api.Manager.Events.{buffer_full}
use cursor_agent2api.Manager.Flights.{finish_flight}

-- `context.Canceled`
abbrev pub context_canceled : Error
context_canceled = failed (text "context canceled")

-- The session without the segment that is saved, and without a client.
unfoldable pub end_segment : Session → Session
end_segment s = record s {
  segment_results = [];
  segment_snapshot = no_events;
  segment_batch = [];
  capturing = false;
  output = none;
}

-- The results of a segment, brought to those of its batch where they cover it.
unfoldable pub segment_results_for : List ToolResult → List Text → List ToolResult
unfolding tool_results_for_batch
segment_results_for results batch = elim (tool_results_for_batch results batch) [
  | none ↦ results
  | some filtered ↦ filtered
]

-- The results as `finishFlight` sees them at the end of a run.
abbrev pub run_results : Session → List ToolResult
run_results s =
    if s.request.history_request_key == []
    then segment_results_for s.segment_results s.segment_batch
    else s.segment_results

-- The end of the client's turn: the last event only where all went well.
unfoldable pub conclude : Option Event → Option Error → Output → Output
unfolding send close
conclude terminal (some e) o = close (some e) o
conclude none none o = close none o
conclude (some event) none o =
    let (sent, r) = send event o in close (elim r [ send_full ↦ some buffer_full | _ ↦ none ]) sent

unfoldable pub conclude_output : Session → Option Error → World → World
unfolding conclude
conclude_output s e w = elim s.output [
  | none ↦ w
  | some address ↦ put_output address (conclude s.terminal_event e (w.outputs address)) w
]

-- The session is idle, if it is still the active one of its id.
unfoldable pub leave_active : ℕ → Text → World → World
unfolding lookup delete
leave_active i session_id w = elim (lookup session_id w.active) [
  | none ↦ w
  | some j ↦ if eqb j i then record w { active = delete session_id w.active } else w
]

abbrev pub first_error : Option Error → Option Error → Option Error
first_error none outcome = outcome
first_error (some e) outcome = some e

module _ (p : Platform) (encoder : Encoder) where
  -- `Park` once the pending calls are saved, on the session as it was: the segment is saved for a
  -- replay, and the client's turn is over.
  unfoldable pub park_segment : ℕ → ℕ → Session → Moment → W (Unit {0})
  unfolding save_completed segment_results_for finish_flight close
  park_segment i address s m w =
      let events = reverse s.segment_snapshot.events in
      if is_empty s.segment_results
      then (put_output address (close none (w.outputs address)) w, ok tt)
      else let results = segment_results_for s.segment_results s.segment_batch in
        let (store, saved) =
          save_completed p encoder s.owner results events false s.snapshot_follow_up m.now
            w.store in
        let w' = put_store store w in
        elim saved [
          | err e ↦ (
            finish_flight i (some e) [] [] true s.snapshot_follow_up
                (put_output address (close (some e) (w'.outputs address)) w'),
            err e,
          )
          | ok _ ↦
              let landed = finish_flight i none results events true s.snapshot_follow_up w' in
              (put_output address (close none (landed.outputs address)) landed, ok tt)
        ]

  -- The saves of `Park` under the locks: the follow-up, if there is one, and the pending calls.
  unfoldable pub park_saves : Session → Moment → W (Unit {0})
  unfolding save_follow_up save_pending pending_values trim_space
  park_saves s m =
      (if trim_space s.pending_follow_up == []
        then give tt
        else on_store (save_follow_up p s.owner (trim_space s.pending_follow_up) m.now))
      >> on_store (save_pending p s.owner (pending_values s.pending) m.now)

  unfoldable pub park_session : ℕ → Moment → W (Unit {0})
  unfolding park_saves park_segment end_segment pending_values pending_tool_ids
  park_session i m w =
      let s = w.sessions i in
      if s.closed || is_empty s.pending then (w, err session_not_pending) else elim s.output [
        | none ↦ (w, err session_not_pending)
        | some address ↦
            (park_saves s m >> λ u. park_segment i address s m (
                put_session i
                  (record (end_segment s) {
                    pending_batch = pending_tool_ids (pending_values s.pending);
                  })
                  u))
              w
      ]

  unfoldable pub park : Text → Text → Text → Moment → W (Unit {0})
  unfolding credential_fingerprint lookup park_session trim_space
  park scope account session_id m w = elim (credential_fingerprint p scope account) [
    | err e ↦ (w, err e)
    | ok fingerprint ↦ elim (lookup (trim_space session_id) w.active) [
      | none ↦ (w, err session_not_pending)
      | some i ↦
          if (w.sessions i).owner.credential_hash == fingerprint
          then park_session i m w
          else (w, err credential_mismatch)
    ]
  ]

  -- The saving of the replay at the end of a run: of a full-history request, or of the results.
  unfoldable pub save_run : Session → List Event → Moment → W (Unit {0})
  unfolding save_history save_completed segment_results_for
  save_run s events m =
      if not (s.request.history_request_key == [])
      then on_store (save_history p encoder s.owner s.request.history_request_key events m.now)
      else if is_empty s.segment_results
      then give tt
      else on_store (
          save_completed p encoder s.owner (segment_results_for s.segment_results s.segment_batch)
            events (s.request.delete_completed_state && is_empty s.pending) s.snapshot_follow_up
            m.now)

  -- The state of a run that needs none any more is deleted.
  unfoldable pub delete_finished : Session → Option Error → Moment → World → World
  unfolding delete_state
  delete_finished s (some e) m w = w
  delete_finished s none m w =
      if (s.request.history_request_key == [])
        && (s.request.delete_completed_state && (is_empty s.pending && is_empty s.segment_results))
      then put_store (delete_state p s.owner m.now w.store).0 w
      else w

  -- The end of `run` once it is known whether its replay was saved.
  unfoldable pub settle : ℕ → Session → Option Error → Moment → World → World
  unfolding finish_flight delete_finished release leave_active conclude_output
  settle i s e m w =
      let events = reverse s.segment_snapshot.events in
      let landed =
        finish_flight i e (run_results s) events (not (is_empty s.pending)) s.snapshot_follow_up
          w in
      let deleted = delete_finished s e m landed in
      let freed = put_store (release s.owner deleted.store) deleted in
      let concluded = conclude_output s e (leave_active i s.owner.session_id freed) in
      put_session i (record (concluded.sessions i) { cancelled = true }) concluded

  -- The end of `run`, after the runner returned: with the first error of the session, if it had one.
  unfoldable pub finish_run : ℕ → Option Error → Moment → World → World
  unfolding save_run settle end_segment
  finish_run i outcome m w =
      let s = w.sessions i in
      let ended = put_session i (record (end_segment s) { closed = true }) w in
      elim (first_error s.state_err outcome) [
        | some e ↦ settle i s (some e) m ended
        | none ↦
            let (saved, r) = save_run s (reverse s.segment_snapshot.events) m ended in
            settle i s (elim r [ ok _ ↦ none | err e ↦ some e ]) m saved
      ]

  -- The part of `Cancel` behind the locks, on a session that is no longer active.
  unfoldable pub cancel_session : ℕ → Moment → W (Unit {0})
  unfolding delete_state release close
  cancel_session i m w =
      let s = w.sessions i in
      let (store, deleted) = delete_state p s.owner m.now w.store in
      let ended =
        put_session i (record s { closed = true; output = none; cancelled = true })
          (put_store (release s.owner store) w) in
      (
        elim s.output [
          | none ↦ ended
          | some address ↦
              put_output address (close (some context_canceled) (ended.outputs address)) ended
        ],
        deleted,
      )

  unfoldable pub cancel : Text → Text → Text → Moment → W (Unit {0})
  unfolding credential_fingerprint lookup delete cancel_session trim_space
  cancel scope account session_id m w = elim (credential_fingerprint p scope account) [
    | err e ↦ (w, err e)
    | ok fingerprint ↦ elim (lookup (trim_space session_id) w.active) [
      | none ↦ (w, ok tt)
      | some i ↦
          if (w.sessions i).owner.credential_hash == fingerprint
          then cancel_session i m (record w { active = delete (trim_space session_id) w.active })
          else (w, err credential_mismatch)
    ]
  ]

  unfoldable pub cancel_state : Text → Text → Text → Moment → W (Unit {0})
  unfolding cancel credential_fingerprint delete_session lookup trim_space
  cancel_state scope account session_id m w =
      let id = trim_space session_id in
      if id == []
      then (w, ok tt)
      else ((elim (lookup id w.active) [
        | none ↦ give tt
        | some _ ↦ cancel scope account session_id m
      ])
            >> (elim (credential_fingerprint p scope account) [
              | err e ↦ fail e
              | ok fingerprint ↦ on_store (delete_session p id fingerprint m.now)
            ]))
          w
