-- ===== src/Manager/Tests/Turns.antt =====
-- Flights and turns of cursoragentv1/manager.go on a concrete session.
use cursor_agent2api.Base.{
  ℕ, ◌<◌, ◌≡◌, ◌≢◌, refl, inl, pos, true, false, List, [], ◌∷◌, map, none, some, Text, text,
  Text-discrete, arith, sort, ◌==◌, if◌then◌else◌,
}
use cursor_agent2api.Types.{ToolResult}
use cursor_agent2api.Ids.{Result, ok, err, tool_result_conflict, session_not_pending}
use cursor_agent2api.Snapshot.{no_events}
use cursor_agent2api.Snapshot.Tests.{sizes}
use cursor_agent2api.Store.Directory.{lookup}
use cursor_agent2api.Store.Tests.{plain, new_owner, owned_store}
use cursor_agent2api.Manager.Calls.{filter_pending_map_results, result_id}
use cursor_agent2api.Manager.Calls.Filter.{pending_keys}
use cursor_agent2api.Manager.Output.{output_of}
use cursor_agent2api.Manager.World.{RunRequest, Session, World, Moment}
use cursor_agent2api.Manager.Flights.{
  Boarding, begin_resume_flight, wait_resume_flight, end_resume_flight,
}
use cursor_agent2api.Manager.Flights.Single.{IsSound}
use cursor_agent2api.Manager.Flights.Run.{begins, ends, Run, here, after, one_leader, landed_answer}
use cursor_agent2api.Manager.Turns.{ManagedOutput, public_output, resume_session}
use cursor_agent2api.Manager.Turns.Handed.{IsHanded, resume_session-IsHanded}
use cursor_agent2api.Manager.Resumption.{Resumption}
use cursor_agent2api.Manager.Resume.{resume_led}
use cursor_agent2api.Manager.Resume.Told.{resume_led-told}
use cursor_agent2api.Manager.Ends.{finish_run, first_error, run_results}
use cursor_agent2api.Manager.Ends.Told.{told, end_error, finish_run-told}
use cursor_agent2api.Manager.Ends.Frame.{SameCompleted}
use cursor_agent2api.Manager.Ends.Honest.{HearsSuccess, saved, finish_run-honest}
use cursor_agent2api.Manager.Tests.{two_calls, answers, taken, says}

abbrev request : RunRequest
request = record {
  runtime_profile = [];
  history_request_key = [];
  route_user_id = pos 1;
  route_channel_id = pos 1;
  conversation_id = text "talk-2";
  user_text = text "hello";
  tools = [];
  delete_completed_state = false;
  follow_up_text = [];
  initial_checkpoint = [];
  initial_blobs = [];
  resume = true;
}

-- A session at the end of its run, with the results that it was resumed with.
abbrev live : Session
live = record {
  owner = new_owner;
  request = request;
  cancelled = false;
  tool_results = [];
  output = some 0;
  pending = [];
  state_err = none;
  closed = false;
  capturing = true;
  pending_batch = [];
  segment_batch = text "a" ∷ text "b" ∷ [];
  segment_results = taken;
  segment_snapshot = no_events;
  snapshot_follow_up = [];
  terminal_event = some (says (text "done"));
  flight = none;
  flight_fingerprint = [];
  flight_batch = [];
  pending_follow_up = [];
  billing_carry = [];
  disable_caller_tools = false;
}

abbrev world : World
world = record {
  store = owned_store;
  active = (text "session", 1) ∷ [];
  starting = [];
  flights = [];
  sessions = λ i. live;
  outputs = λ i. output_of 4;
  flight_at = λ i. record { key = []; digest = []; done = false; replay = none; err = none };
  next = 2;
}

abbrev at_eleven : Moment
at_eleven = record {
  now = 11;
  call_id = text "call";
  conversation_id = text "talk-3";
  owner_token = text "token-3";
  billing_id = text "billing-3";
  turn_id = text "turn-3";
}

no_flights : {A : Type 0} → (key : Text) (a : ℕ) → lookup key world.flights ≡ some a → A
unfolding lookup
no_flights key a h = ground (arith, h)

world-IsSound : IsSound world
world-IsSound = record {
  keyed = λ k a h. no_flights k a h;
  filled = λ k a h q. no_flights k a h;
  under_way = λ k a h. no_flights k a h;
  used = λ k a h. no_flights k a h;
}

abbrev led : World × Result Boarding
led = begin_resume_flight (text "key") (text "b" ∷ text "a" ∷ []) (text "digest") [] world

led_by : led.1 ≡ ok (record { flight = 2; leader = true })
unfolding begin_resume_flight
led_by = refl

-- Another flight begins and ends meanwhile.
abbrev other_begun : World
other_begun = (begin_resume_flight (text "key") (text "z" ∷ []) (text "digest-z") [] led.0).0

abbrev other_ended : World
other_ended =
    end_resume_flight (text "key") (text "z" ∷ []) 3 none (some tool_result_conflict) other_begun

other_used : 3 < other_begun.next
unfolding begin_resume_flight Text-discrete
other_used = ground arith

meanwhile : Run led.0 other_ended
meanwhile =
    after (after here (begins (text "key") (text "z" ∷ []) (text "digest-z") []))
      (ends (text "key") (text "z" ∷ []) 3 none (some tool_result_conflict) other_used)

still_open : (other_ended.flight_at 2).done ≡ false
unfolding begin_resume_flight end_resume_flight Text-discrete
still_open = refl

one_leader_example :
    begin_resume_flight (text "key") (text "b" ∷ text "a" ∷ []) (text "digest-2") [] other_ended ≡ (
      other_ended,
      (if text "digest" == text "digest-2"
          then ok (record { flight = 2; leader = false })
          else err tool_result_conflict),
    )
one_leader_example =
    one_leader (text "key") (text "b" ∷ text "a" ∷ []) (text "digest") (text "digest-2") [] 2 world
      other_ended world-IsSound led_by meanwhile still_open

landed_used : 3 < other_ended.next
unfolding begin_resume_flight end_resume_flight Text-discrete
landed_used = ground arith

landed_done : (other_ended.flight_at 3).done ≡ true
unfolding begin_resume_flight end_resume_flight Text-discrete
landed_done = refl

abbrev later : World
later = end_resume_flight (text "key") (text "z" ∷ []) 3 none none other_ended

landed_answer_example :
    (wait_resume_flight 3 other_ended ≢ none)
    × (wait_resume_flight 3 later ≡ wait_resume_flight 3 other_ended)
landed_answer_example =
    landed_answer 3 other_ended later landed_used landed_done
      (after here (ends (text "key") (text "z" ∷ []) 3 none none landed_used))

abbrev finished : World
finished = finish_run plain sizes 1 none at_eleven world

heard : HearsSuccess (world.outputs 0) (finished.outputs 0)
unfolding finish_run Text-discrete output_of
heard = inl refl

open_output : (world.outputs 0).closed ≡ false
unfolding output_of
open_output = refl

finish_run-honest_example :
    (first_error live.state_err none ≡ none)
    × ((saved plain sizes 1 none at_eleven world).1 ≡ ok tt)
    × SameCompleted (saved plain sizes 1 none at_eleven world).0.store finished.store
finish_run-honest_example =
    finish_run-honest plain sizes 1 none at_eleven world 0 refl open_output heard

abbrev parked_session : Session
parked_session = record live {
  output = none;
  pending = two_calls;
  segment_results = [];
  terminal_event = none;
}

abbrev parked : World
parked = record world { sessions = λ i. parked_session }

abbrev resumed_world : World × Result ManagedOutput
resumed_world = resume_session plain sizes 1 answers [] [] (text "segment") false at_eleven parked

abbrev new_client : ManagedOutput
new_client = record (public_output 2 (text "session") (text "segment")) {
  request_segment_id = text "segment";
  original_batch = text "a" ∷ text "b" ∷ [];
}

resumes_session : resumed_world.1 ≡ ok new_client
unfolding resume_session public_output Text-discrete
resumes_session = refl

resume_session-IsHanded_example :
    (filtered : List ToolResult) × (filter_pending_map_results two_calls answers ≡ some filtered)
    × (map result_id filtered ≡ sort (pending_keys two_calls))
    × IsHanded 1 parked resumed_world.0 filtered 2
unfolding public_output
resume_session-IsHanded_example =
    resume_session-IsHanded plain sizes 1 answers [] [] (text "segment") false at_eleven parked
      new_client resumes_session

-- A session that a flight waits for.
abbrev awaited : World
awaited = record world { sessions = λ i. record live { flight = some 1 } }

finish_run-told_example :
    wait_resume_flight 1 (finish_run plain sizes 1 none at_eleven awaited)
    ≡ some (
        told
          (awaited.sessions 1)
          (end_error plain sizes 1 none at_eleven awaited)
          (run_results (awaited.sessions 1)))
finish_run-told_example = finish_run-told plain sizes 1 none at_eleven awaited 1 refl refl refl

abbrev lost : Resumption
lost = record {
  request = record {
    turn_metering = true;
    request_segment_id = [];
    session_id = [];
    billing_run_id = [];
    credential_scope = text "scope";
    account_key = text "account";
    tool_catalog_digest = [];
    follow_up_text = [];
    active_results = [];
    carry_usage = [];
    require_existing = false;
    reuse_billing_run = false;
    cancelled = false;
    run = request;
    disable_caller_tools = false;
  };
  fingerprint = text "key";
  results = taken;
  submitted_ids = text "a" ∷ text "b" ∷ [];
  original_batch = text "b" ∷ text "a" ∷ [];
  accepted = [];
  follow_up = [];
}

-- No session waits for the results.
nobody_waits : (resume_led plain sizes lost 2 at_eleven led.0).1 ≡ err session_not_pending
unfolding resume_led begin_resume_flight Text-discrete
nobody_waits = refl

under_way : (led.0.flight_at 2).done ≡ false
unfolding begin_resume_flight
under_way = refl

resume_led-told_example :
    wait_resume_flight 2 (resume_led plain sizes lost 2 at_eleven led.0).0
    ≡ some (err session_not_pending)
resume_led-told_example =
    resume_led-told plain sizes lost 2 at_eleven led.0 session_not_pending under_way nobody_waits
