-- ===== src/Manager/Flights.antt =====
-- Resume flights of cursoragentv1/manager.go: of the requests that bring the same results at the same
-- time, one resumes the run and the others wait for its replay.
pub mod Single
pub mod Run
use cursor_agent2api.Base.{
  ℕ, ◌+◌, Bool, true, false, not, ◌&&◌, ◌||◌, List, [], ◌∷◌, ◌++◌, Option, none, some, eqb,
  if◌then◌else◌, Text, text, ◌==◌, trim_space,
}
use cursor_agent2api.Types.{Event, ToolResult}
use cursor_agent2api.Ids.{
  Error, Result, ok, err, tool_result_conflict, session_not_pending, normalize_tool_ids, is_empty,
}
use cursor_agent2api.Store.Tombstone.{CompletedReplay}
use cursor_agent2api.Store.Directory.{lookup, insert, delete}
use cursor_agent2api.Store.Index.{join_nul}
use cursor_agent2api.Manager.World.{Session, Flight, World, at, put_session}

unfoldable pub resume_flight_key : Text → List Text → Text → Text
unfolding trim_space join_nul normalize_tool_ids
resume_flight_key fingerprint batch follow_up =
    trim_space fingerprint
    ++ (0 ∷ (join_nul (normalize_tool_ids batch) ++ (0 ∷ trim_space follow_up)))

-- A request leads a flight, or joins the one under way.
pub record Boarding : Type 0 where
  pub flight : ℕ
  pub leader : Bool

-- `beginResumeFlight`
unfoldable pub begin_resume_flight :
    Text → List Text → Text → Text → World → World × Result Boarding
unfolding resume_flight_key lookup insert
begin_resume_flight fingerprint batch digest follow_up w =
    let key = resume_flight_key fingerprint batch follow_up in
    elim (lookup key w.flights) [
      | some address ↦
          if (w.flight_at address).digest == digest
          then (w, ok (record { flight = address; leader = false }))
          else (w, err tool_result_conflict)
      | none ↦ (
        record w {
          flights = insert key w.next w.flights;
          flight_at =
              at w.next
                (record { key = key; digest = digest; done = false; replay = none; err = none })
                w.flight_at;
          next = w.next + 1;
        },
        ok (record { flight = w.next; leader = true }),
      )
    ]

-- `waitResumeFlight` on a request that was not cancelled; `none` while the flight is under way.
unfoldable pub wait_resume_flight : ℕ → World → Option (Result CompletedReplay)
wait_resume_flight address w =
    let f = w.flight_at address in
    if not f.done then none else elim f.err [
      | some e ↦ some (err e)
      | none ↦ elim f.replay [
        | none ↦ some (err session_not_pending)
        | some replay ↦ some (ok replay)
      ]
    ]

-- The end of a flight: its key is free again, and the waiting requests see how it ended.
unfoldable pub land : Option CompletedReplay → Option Error → Flight → Flight
land replay e f = if f.done then f else record f {
  replay = elim replay [ none ↦ f.replay | some r ↦ some r ];
  err = e;
  done = true;
}

-- `endResumeFlight`
unfoldable pub end_resume_flight :
    Text → List Text → ℕ → Option CompletedReplay → Option Error → World → World
unfolding resume_flight_key lookup delete land
end_resume_flight fingerprint batch address replay e w =
    let f = w.flight_at address in
    let key = if f.key == [] then resume_flight_key fingerprint batch [] else f.key in
    let landed = record w { flight_at = at address (land replay e f) w.flight_at } in
    elim (lookup key w.flights) [
      | none ↦ landed
      | some current ↦
          if eqb current address then record landed { flights = delete key w.flights } else landed
    ]

-- `bindResumeFlight`: the session will end the flight.
unfoldable pub bind_resume_flight : Text → Text → List Text → ℕ → World → World
unfolding lookup
bind_resume_flight session_id fingerprint batch address w = elim (lookup session_id w.active) [
  | none ↦ w
  | some i ↦
      put_session i
        (record (w.sessions i) {
          flight = some address;
          flight_fingerprint = fingerprint;
          flight_batch = batch;
        })
        w
]

-- The session without a flight.
unfoldable pub unbind : Session → Session
unbind s = record s { flight = none; flight_fingerprint = []; flight_batch = [] }

-- The replay that a session offers to the requests that wait.
unfoldable pub session_replay :
    Session → Option Error → List ToolResult → List Event → Bool → Text → Option CompletedReplay
session_replay s (some e) results events has_pending follow_up = none
session_replay s none results events has_pending follow_up =
    if is_empty results
    then none
    else some (record {
      session_id = s.owner.session_id;
      conversation_id = s.owner.conversation_id;
      billing_run_id = s.owner.billing_run_id;
      request_segment_id = s.owner.request_segment_id;
      original_batch = s.flight_batch;
      events = events;
      has_pending = has_pending;
      follow_up_text = follow_up;
    })

-- `finishFlight`
unfoldable pub finish_flight :
    ℕ → Option Error → List ToolResult → List Event → Bool → Text → World → World
unfolding unbind session_replay end_resume_flight
finish_flight i e results events has_pending follow_up w =
    let s = w.sessions i in
    let w' = put_session i (unbind s) w in
    elim s.flight [
      | none ↦ w'
      | some address ↦
          end_resume_flight s.flight_fingerprint s.flight_batch address
            (session_replay s e results events has_pending follow_up) e w'
    ]
