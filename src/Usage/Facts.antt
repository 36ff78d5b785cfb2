-- ===== src/Usage/Facts.antt =====
-- `usageFacts` of cursoragentv1/usage_observation.go: what is kept of the events of a run.
use Prim.Native.Nat.{max}
use cursor_agent2api.Base.{
  ℕ, ◌+◌, ℤ, pos, ltb_ℤ, add64, Bool, true, false, not, ◌||◌, List, [], ◌∷◌, ◌++◌, Option, none,
  some, if◌then◌else◌, Text, ◌==◌,
}
use cursor_agent2api.Types.{
  UsageObservation, Event, EventType, text_event, thinking, usage, tool_call, hosted_search_call,
  hosted_search_started, hosted_search_completed, thinking_completed, usage_observation, ToolCall,
  ObservedCount,
}
use cursor_agent2api.Usage.{
  is_turn_ended, is_token_delta, measured_turn, MeasuredTurnUsage, add_turn_observations,
}

pub record UsageFacts : Type 0 where
  pub measured_enabled : Bool
  pub terminal_count : ℕ
  pub fresh_terminal : Bool
  pub visible_output : Text
  pub output_token_delta : ℤ
  pub output_token_delta_observed : Bool
  pub output_token_delta_invalid : Bool
  pub turn_ended : Option UsageObservation
  pub hosted_searches : ℕ
  pub completed_search_count : ℕ
  pub completed_search_observed : Bool
  pub progress_event_count : ℕ

-- `usageFacts{}` with its one setting.
abbrev pub fresh : Bool → UsageFacts
fresh measured = record {
  measured_enabled = measured;
  terminal_count = 0;
  fresh_terminal = false;
  visible_output = [];
  output_token_delta = pos 0;
  output_token_delta_observed = false;
  output_token_delta_invalid = false;
  turn_ended = none;
  hosted_searches = 0;
  completed_search_count = 0;
  completed_search_observed = false;
  progress_event_count = 0;
}

-- The token delta that an event reports.
unfoldable pub delta_count : ℤ → Option UsageObservation → ObservedCount
delta_count tokens none = record {
  present = true;
  malformed = ltb_ℤ tokens (pos 0);
  value = tokens;
}
delta_count tokens (some u) =
    if is_token_delta u.kind
    then u.token_delta
    else record { present = true; malformed = ltb_ℤ tokens (pos 0); value = tokens }

unfoldable pub observe_token_delta : UsageFacts → Event → UsageFacts
unfolding delta_count
observe_token_delta f e =
    let c = delta_count e.tokens e.usage in
    if c.malformed
    then record f { output_token_delta_invalid = true }
    else if not c.present
    then f
    else record f {
      output_token_delta_observed = true;
      output_token_delta = add64 f.output_token_delta c.value;
    }

-- What a terminal observation makes of the one before it: a metered turn adds up, any other keeps
-- the last.
unfoldable pub chain : Bool → Option UsageObservation → UsageObservation → UsageObservation
chain true (some t) u = add_turn_observations t u
chain true none u = u
chain false t u = u

unfoldable pub observe_terminal : UsageFacts → Option UsageObservation → UsageFacts
unfolding chain
observe_terminal f none = f
observe_terminal f (some u) =
    if is_turn_ended u.kind
    then record f {
      fresh_terminal = f.fresh_terminal || not u.carried;
      turn_ended = some (chain f.measured_enabled f.turn_ended u);
      terminal_count = f.terminal_count + 1;
    }
    else f

unfoldable pub observe_call : UsageFacts → Option ToolCall → UsageFacts
observe_call f none = f
observe_call f (some c) = record f { visible_output = f.visible_output ++ (c.name ++ c.arguments) }

unfoldable pub observe_thinking : UsageFacts → Text → ℕ → UsageFacts
observe_thinking f t progress = record f {
  visible_output = f.visible_output ++ t;
  progress_event_count =
      if t == [] then f.progress_event_count else f.progress_event_count + max 1 progress;
}

unfoldable pub observe_type : UsageFacts → Event → EventType → UsageFacts
unfolding observe_token_delta observe_terminal observe_call observe_thinking
observe_type f e text_event = record f { visible_output = f.visible_output ++ e.text }
observe_type f e tool_call = observe_call f e.tool_call
observe_type f e usage = observe_token_delta f e
observe_type f e usage_observation = observe_terminal f e.usage
observe_type f e hosted_search_call = record f { hosted_searches = f.hosted_searches + 1 }
observe_type f e hosted_search_started = record f {
  progress_event_count = f.progress_event_count + 1;
}
observe_type f e hosted_search_completed = record f {
  completed_search_count = f.completed_search_count + 1;
  completed_search_observed = true;
  progress_event_count = f.progress_event_count + 1;
}
observe_type f e thinking = observe_thinking f e.text e.progress_events
observe_type f e thinking_completed = record f { progress_event_count = f.progress_event_count + 1 }
observe_type f e _ = f

unfoldable pub observe : UsageFacts → Event → UsageFacts
unfolding observe_type
observe f e = observe_type f e e.type

unfoldable pub observe_all : UsageFacts → List Event → UsageFacts
unfolding observe
observe_all f [] = f
observe_all f (e ∷ es) = observe_all (observe f e) es

-- `(*usageFacts).measuredTurn`
unfoldable pub facts_measured_turn : UsageFacts → Option MeasuredTurnUsage
facts_measured_turn f =
    if not f.measured_enabled || not f.fresh_terminal then none else measured_turn f.turn_ended

unfoldable pub public_output_tokens : UsageFacts → ℤ
unfolding facts_measured_turn
public_output_tokens f = elim (facts_measured_turn f) [
  | some m ↦ m.output
  | none ↦ f.output_token_delta
]
