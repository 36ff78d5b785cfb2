-- ===== src/Manager/Tests.antt =====
-- The calls and outputs of cursoragentv1/manager.go on concrete ones.
pub mod Turns
use cursor_agent2api.Base.{
  ℕ, ◌<◌, ◌≡◌, ◌≢◌, ◌↔◌, refl, inl, pos, true, false, List, [], ◌∷◌, map, none, some, Text, text,
  Text-discrete, arith, trim_space, Distinct, member, sort, ◌==◌, if◌then◌else◌,
}
use cursor_agent2api.Types.{Event, ToolResult, text_event}
use cursor_agent2api.Ids.{Result, ok, err, PendingTool, tool_result_conflict, session_not_pending}
use cursor_agent2api.Snapshot.{no_events}
use cursor_agent2api.Snapshot.Tests.{sizes, event}
use cursor_agent2api.Store.Directory.{lookup}
use cursor_agent2api.Store.Tests.{plain, new_owner, owned_store}
use cursor_agent2api.Manager.Calls.{
  Pending, filter_pending_map_results, result_id, public_tool_call_id_for_upstream,
  upstream_tool_result,
}
use cursor_agent2api.Manager.Calls.Routes.{upstream_ids, upstream_round_trip}
use cursor_agent2api.Manager.Calls.Filter.{pending_keys, filter_pending-ids, filter_pending_iff}
use cursor_agent2api.Manager.Output.{output_of}
use cursor_agent2api.Manager.Output.Delivery.{
  Use, put, shut, take, Traffic, use_all, IsFaithful, use_all-IsFaithful, use_all-closed,
}
use cursor_agent2api.Manager.World.{RunRequest, Session, World, Moment}
use cursor_agent2api.Manager.Flights.{
  Boarding, begin_resume_flight, wait_resume_flight, end_resume_flight,
}
use cursor_agent2api.Manager.Flights.Single.{IsSound}
use cursor_agent2api.Manager.Flights.Run.{begins, ends, Run, here, after, one_leader, landed_answer}
use cursor_agent2api.Manager.Turns.{ManagedOutput, public_output, resume_session}
use cursor_agent2api.Manager.Turns.Handed.{IsHanded, resume_session-IsHanded}
use cursor_agent2api.Manager.Resumption.{Resumption}
use cursor_agent2api.Manager.Resume.{resume_led}
use cursor_agent2api.Manager.Resume.Told.{resume_led-told}
use cursor_agent2api.Manager.Ends.{finish_run, first_error, run_results}
use cursor_agent2api.Manager.Ends.Told.{told, end_error, finish_run-told}
use cursor_agent2api.Manager.Ends.Frame.{SameCompleted}
use cursor_agent2api.Manager.Ends.Honest.{HearsSuccess, saved, finish_run-honest}

abbrev call : Text → Text → PendingTool
call id upstream = record {
  message_id = 1;
  exec_id = [];
  tool_call_id = id;
  upstream_tool_call_id = upstream;
  name = text "read";
  arguments = text "{}";
}

-- Two calls that wait; the upstream has its own id for the first.
abbrev pub two_calls : Pending
two_calls = (text "b", call (text "b") (text " up-b")) ∷ (text "a", call (text "a") []) ∷ []

abbrev answer : Text → Text → ToolResult
answer id content = record { tool_call_id = id; content = content; is_error = false; media = [] }

abbrev pub answers : List ToolResult
answers = answer (text "a") (text "1") ∷ answer (text "c") [] ∷ answer (text "b") (text "2") ∷ []

abbrev pub taken : List ToolResult
taken = answer (text "a") (text "1") ∷ answer (text "b") (text "2") ∷ []

calls-Distinct : Distinct (upstream_ids two_calls)
unfolding trim_space Text-discrete member
calls-Distinct = (refl, (refl, tt))

found_b : lookup (text "b") two_calls ≡ some (call (text "b") (text " up-b"))
unfolding lookup Text-discrete
found_b = refl

b_trimmed : trim_space (text "b") ≡ text "b"
unfolding trim_space
b_trimmed = refl

upstream_round_trip_example :
    public_tool_call_id_for_upstream two_calls
      (upstream_tool_result two_calls (answer (text "b") (text "2"))).tool_call_id
    ≡ text "b"
upstream_round_trip_example =
    upstream_round_trip two_calls (answer (text "b") (text "2")) (call (text "b") (text " up-b"))
      found_b calls-Distinct b_trimmed

resumes : filter_pending_map_results two_calls answers ≡ some taken
unfolding filter_pending_map_results Text-discrete
resumes = refl

filter_pending-ids_example : map result_id taken ≡ text "a" ∷ text "b" ∷ []
unfolding sort
filter_pending-ids_example = filter_pending-ids two_calls answers taken resumes

-- Three results for two calls.
filter_pending_iff_example :
    ((xs : List ToolResult) × (filter_pending_map_results two_calls answers ≡ some xs)) ↔ (
      Distinct (map result_id answers)
      × ((x : Text)
          → member x (pending_keys two_calls) ≡ true
          → member x (map result_id answers) ≡ true))
filter_pending_iff_example = filter_pending_iff two_calls answers

abbrev pub says : Text → Event
says t = event text_event t 0 none

abbrev quiet : Traffic
quiet = record { output = output_of 2; accepted = []; handed = [] }

quiet-IsFaithful : IsFaithful quiet
unfolding output_of
quiet-IsFaithful = record { log = refl; bound = ground arith }

-- The third event finds the channel full, the fourth finds it closed.
abbrev uses : List Use
uses =
    put (says (text "one"))
    ∷ put (says (text "two"))
    ∷ put (says (text "three"))
    ∷ take
    ∷ shut none
    ∷ put (says (text "four"))
    ∷ take
    ∷ []

use_all-IsFaithful_example : IsFaithful (use_all uses quiet)
use_all-IsFaithful_example = use_all-IsFaithful uses quiet quiet-IsFaithful

abbrev ended_traffic : Traffic
ended_traffic = use_all uses quiet

ended_traffic-closed : ended_traffic.output.closed ≡ true
unfolding use_all output_of
ended_traffic-closed = refl

use_all-closed_example :
    ((use_all uses ended_traffic).accepted ≡ ended_traffic.accepted)
    × ((use_all uses ended_traffic).output.result ≡ ended_traffic.output.result)
use_all-closed_example = use_all-closed uses ended_traffic ended_traffic-closed
