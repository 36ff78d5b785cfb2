-- ===== src/Snapshot/Tests.antt =====
-- A completed snapshot of cursoragentv1/completed_events.go on concrete events.
use cursor_agent2api.Base.{
  ℕ, ◌≡◌, refl, pos, true, false, List, [], ◌∷◌, Option, none, some, Text, text, Text-discrete,
  length, ◌+◌, All, arith, sub64, add64,
}
use cursor_agent2api.Types.{
  UsageObservation, Event, EventType, text_event, thinking, usage, token_delta,
}
use cursor_agent2api.Usage.{no_observation}
use cursor_agent2api.Usage.Facts.{fresh, observe_all}
use cursor_agent2api.Ids.{ok}
use cursor_agent2api.Snapshot.{Encoder, persist_events, same_rest}
use cursor_agent2api.Snapshot.Append.{IsRunEvent}
use cursor_agent2api.Snapshot.Facts.{persist_events-facts}

-- Sizes that stand for those of JSON.
abbrev pub sizes : Encoder
sizes = record { text_size = λ t. some (length t + 2); event_size = λ e. some (length e.text + 40) }

abbrev pub event : EventType → Text → ℕ → Option UsageObservation → Event
event kind t n u = record {
  type = kind;
  text = t;
  signature = [];
  progress_events = 0;
  tokens = pos n;
  usage = u;
  checkpoint = [];
  blobs = [];
  tool_call = none;
  tool_result = none;
  hosted_search = none;
}

abbrev delta : ℕ → Option UsageObservation
delta n = some (record (no_observation token_delta) {
  token_delta = record { present = true; malformed = false; value = pos n };
})

abbrev run_events : List Event
run_events =
    event thinking (text "a") 0 none
    ∷ event thinking (text "b") 0 none
    ∷ event text_event (text "c") 0 none
    ∷ event text_event (text "d") 0 none
    ∷ event usage [] 3 (delta 3)
    ∷ event usage [] 4 (delta 4)
    ∷ event usage [] 5 none
    ∷ []

abbrev kept_events : List Event
kept_events =
    record (event thinking (text "ab") 0 none) { progress_events = 2 }
    ∷ event text_event (text "cd") 0 none
    ∷ event usage [] 7 (delta 7)
    ∷ event usage [] 5 none
    ∷ []

run_events-persist : persist_events sizes run_events ≡ ok kept_events
unfolding persist_events Text-discrete same_rest sub64 add64
run_events-persist = refl

run_events-IsRunEvent : All IsRunEvent run_events
run_events-IsRunEvent = ground arith

persist_events-facts_example :
    observe_all (fresh true) kept_events ≡ observe_all (fresh true) run_events
persist_events-facts_example =
    persist_events-facts sizes (fresh true) run_events kept_events run_events-IsRunEvent
      run_events-persist
