-- ===== src/Usage/Tests.antt =====
-- Usage observations of cursoragentv1/usage_observation.go with concrete counters.
use cursor_agent2api.Base.{
  ℕ, ◌+◌, ◌≡◌, ◌↔◌, refl, pos, max_int64, sub64, add64, ◌+ℤ◌, ◌≤ℤ◌, true, false, ◌&&◌, List, [],
  ◌∷◌, Option, none, some, if◌then◌else◌, length, arith,
}
use cursor_agent2api.Types.{
  UsageObservation, ObservedCount, Event, EventType, usage_observation, text_event, turn_ended,
}
use cursor_agent2api.Usage.{no_observation, measured_turn, MeasuredTurnUsage, add_turn_observations}
use cursor_agent2api.Usage.Counts.{
  Measurable, IsMeasured, measured_turn_iff, measured_turn-IsMeasured,
}
use cursor_agent2api.Usage.Sums.{IsSum, measured_turn-add}
use cursor_agent2api.Usage.Facts.{fresh, observe_all, facts_measured_turn}
use cursor_agent2api.Usage.Chain.{
  terminals, chained, any_fresh, observe_all-chained, facts_measured_turn-observe_all,
}

abbrev count : ℕ → ObservedCount
count n = record { present = true; malformed = false; value = pos n }

abbrev turn : ℕ → UsageObservation
turn n = record (no_observation turn_ended) {
  input = count (n + 30);
  output = count 7;
  cache_read = count 10;
  cache_write = count 20;
  reasoning = count 3;
}

abbrev measured : ℕ → MeasuredTurnUsage
measured n = record {
  input = pos n;
  total_input = pos (n + 30);
  output = pos 7;
  cache_read = pos 10;
  cache_write = pos 20;
  reasoning = pos 3;
}

turn-measured : measured_turn (some (turn 5)) ≡ some (measured 5)
unfolding measured_turn sub64
turn-measured = refl

turn-measured_more : measured_turn (some (turn 6)) ≡ some (measured 6)
unfolding measured_turn sub64
turn-measured_more = refl

sum_fits : pos 35 +ℤ pos 36 +ℤ (pos 7 +ℤ pos 7) ≤ℤ pos max_int64
unfolding ◌+ℤ◌
sum_fits = ground arith

measured_turn_iff_example :
    ((m : MeasuredTurnUsage) × (measured_turn (some (turn 5)) ≡ some m))
    ↔ ((i : ℕ) × (out : ℕ) × (r : ℕ) × (w : ℕ) × Measurable (turn 5) i out r w)
measured_turn_iff_example = measured_turn_iff (turn 5) (ground arith)

measured_turn-IsMeasured_example : IsMeasured (measured 5) × (pos 35 ≡ pos 35) × (pos 7 ≡ pos 7)
measured_turn-IsMeasured_example =
    measured_turn-IsMeasured (turn 5) (measured 5) (ground arith) turn-measured

measured_turn-add_example :
    (q : MeasuredTurnUsage) × (measured_turn (some (add_turn_observations (turn 5) (turn 6)))
      ≡ some q)
    × IsSum (measured 5) (measured 6) q
measured_turn-add_example =
    measured_turn-add (turn 5) (turn 6) (measured 5) (measured 6) (ground arith) (ground arith)
      turn-measured turn-measured_more sum_fits

abbrev event : EventType → Option UsageObservation → Event
event kind u = record {
  type = kind;
  text = 65 ∷ [];
  signature = [];
  progress_events = 0;
  tokens = pos 0;
  usage = u;
  checkpoint = [];
  blobs = [];
  tool_call = none;
  tool_result = none;
  hosted_search = none;
}

abbrev three_events : List Event
three_events =
    event usage_observation (some (record (turn 5) { carried = true }))
    ∷ event text_event none
    ∷ event usage_observation (some (turn 6))
    ∷ []

observe_all-chained_example :
    ((observe_all (fresh true) three_events).turn_ended ≡ chained none (terminals three_events))
    × ((observe_all (fresh true) three_events).terminal_count ≡ length (terminals three_events))
    × ((observe_all (fresh true) three_events).fresh_terminal ≡ any_fresh (terminals three_events))
observe_all-chained_example = observe_all-chained three_events

facts_measured_turn-observe_all_example :
    facts_measured_turn (observe_all (fresh true) three_events) ≡ (
      if true && any_fresh (terminals three_events)
      then measured_turn (chained none (terminals three_events))
      else none)
facts_measured_turn-observe_all_example = facts_measured_turn-observe_all true three_events

run_of_two_turns :
    facts_measured_turn (observe_all (fresh true) three_events)
    ≡ some (record {
      input = pos 11;
      total_input = pos 71;
      output = pos 14;
      cache_read = pos 20;
      cache_write = pos 40;
      reasoning = pos 6;
    })
unfolding facts_measured_turn observe_all measured_turn add_turn_observations sub64 add64
run_of_two_turns = refl
