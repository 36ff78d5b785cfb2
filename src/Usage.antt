-- ===== src/Usage.antt =====
-- cursoragentv1/usage_observation.go: the token counters of a run, and the facts that a stream of
-- events leaves behind.
pub mod Counts
pub mod Sums
pub mod Facts
pub mod Chain
pub mod Tests
use cursor_agent2api.Base.{
  ℕ, zero, suc, ◌+◌, ◌-◌, ℤ, pos, ltb_ℤ, add64, sub64, max_int64, Bool, true, false, not, ◌&&◌,
  ◌||◌, List, [], ◌∷◌, ◌++◌, Option, none, some, eqb, if◌then◌else◌, Text, ◌==◌,
}
use Prim.Native.Nat.{max}
use cursor_agent2api.Types.{
  UsageKind, unknown, token_delta, turn_ended, ObservedCount, UsageObservation, Event, EventType,
  text_event, thinking, usage, tool_call, hosted_search_call, hosted_search_started,
  hosted_search_completed, thinking_completed, usage_observation, ToolCall,
}

-- `ObservedCount{}`: the counter was not on the wire.
abbrev pub absent : ObservedCount
absent = record { present = false; malformed = false; value = pos 0 }

abbrev pub no_observation : UsageKind → UsageObservation
no_observation k = record {
  carried = false;
  kind = k;
  token_delta = absent;
  input = absent;
  output = absent;
  cache_read = absent;
  cache_write = absent;
  reasoning = absent;
}

-- `observedOptionalInt64`, with the optional field as an option.
unfoldable pub observed_optional_int64 : Option ℤ → ObservedCount
observed_optional_int64 none = absent
observed_optional_int64 (some v) = record { present = true; malformed = ltb_ℤ v (pos 0); value = v }

unfoldable pub observed_int32_tokens : ℤ → ObservedCount
observed_int32_tokens v = record { present = true; malformed = ltb_ℤ v (pos 0); value = v }

-- An unknown field that protowire reads off a message: its number, and whether it is a varint.
abbrev pub UnknownField : Type 0
UnknownField = ℕ × Bool

unfoldable pub number_in : ℕ → List ℕ → Bool
number_in n [] = false
number_in n (m ∷ ms) = eqb n m || number_in n ms

-- The numbers of the fields that are no varint, each once, in the order of the message. The
-- argument holds the fields up to the first that protowire cannot read.
unfoldable pub malformed_varint_fields : List ℕ → List UnknownField → List ℕ
unfolding number_in
malformed_varint_fields seen [] = []
malformed_varint_fields seen ((n, varint) ∷ fs) =
    let skip = malformed_varint_fields seen fs in
    let keep = n ∷ malformed_varint_fields (n ∷ seen) fs in
    if varint || number_in n seen then skip else keep

abbrev pub mark : ObservedCount → ObservedCount
mark c = record c { present = true; malformed = true }

unfoldable pub mark_malformed_count : ObservedCount → List ℕ → ℕ → ObservedCount
unfolding number_in
mark_malformed_count c numbers n = if number_in n numbers then mark c else c

unfoldable pub mark_malformed_turn_ended : UsageObservation → List ℕ → UsageObservation
mark_malformed_turn_ended o [] = o
mark_malformed_turn_ended o (n ∷ ns) =
    mark_malformed_turn_ended
      (if eqb n 1
        then record o { input = mark o.input }
        else if eqb n 2
        then record o { output = mark o.output }
        else if eqb n 3
        then record o { cache_read = mark o.cache_read }
        else if eqb n 4
        then record o { cache_write = mark o.cache_write }
        else if eqb n 5
        then record o { reasoning = mark o.reasoning }
        else o)
      ns

-- `agentv1.TurnEndedUpdate`: its optional int64 fields, and its unknown fields.
pub record TurnEndedUpdate : Type 0 where
  pub input_tokens : Option ℤ
  pub output_tokens : Option ℤ
  pub cache_read_tokens : Option ℤ
  pub cache_write_tokens : Option ℤ
  pub reasoning_tokens : Option ℤ
  pub unknown_fields : List UnknownField

unfoldable pub observe_turn_ended_update : Option TurnEndedUpdate → UsageObservation
unfolding observed_optional_int64 malformed_varint_fields mark_malformed_turn_ended
observe_turn_ended_update none = no_observation turn_ended
observe_turn_ended_update (some u) =
    mark_malformed_turn_ended
      (record (no_observation turn_ended) {
        input = observed_optional_int64 u.input_tokens;
        output = observed_optional_int64 u.output_tokens;
        cache_read = observed_optional_int64 u.cache_read_tokens;
        cache_write = observed_optional_int64 u.cache_write_tokens;
        reasoning = observed_optional_int64 u.reasoning_tokens;
      })
      (malformed_varint_fields [] u.unknown_fields)

-- `agentv1.TokenDeltaUpdate`: its int32, and its unknown fields.
pub record TokenDeltaUpdate : Type 0 where
  pub tokens : ℤ
  pub unknown_fields : List UnknownField

unfoldable pub observe_token_delta_update : Option TokenDeltaUpdate → UsageObservation
unfolding observed_int32_tokens malformed_varint_fields mark_malformed_count
observe_token_delta_update none = record (no_observation token_delta) {
  token_delta = record absent { malformed = true };
}
observe_token_delta_update (some u) = record (no_observation token_delta) {
  token_delta =
      mark_malformed_count (observed_int32_tokens u.tokens)
        (malformed_varint_fields [] u.unknown_fields) 1;
}

-- One completed turn. Cursor's input counts both cache buckets, `input` leaves them out.
pub record MeasuredTurnUsage : Type 0 where
  pub input : ℤ
  pub total_input : ℤ
  pub output : ℤ
  pub cache_read : ℤ
  pub cache_write : ℤ
  pub reasoning : ℤ

abbrev pub is_turn_ended : UsageKind → Bool
is_turn_ended turn_ended = true
is_turn_ended _ = false

abbrev pub is_token_delta : UsageKind → Bool
is_token_delta token_delta = true
is_token_delta _ = false

-- `count.Present && !count.Invalid && count.Value >= 0`
abbrev pub usable : ObservedCount → Bool
usable c = c.present && (not c.malformed && not (ltb_ℤ c.value (pos 0)))

-- `(*UsageObservation).measuredTurn`
unfoldable pub measured_turn : Option UsageObservation → Option MeasuredTurnUsage
measured_turn none = none
measured_turn (some o) =
    if not (is_turn_ended o.kind)
    then none
    else if not
        (usable o.input && (usable o.output && (usable o.cache_read && usable o.cache_write)))
    then none
    else if ltb_ℤ o.input.value o.cache_read.value
        || (ltb_ℤ (sub64 o.input.value o.cache_read.value) o.cache_write.value
            || ltb_ℤ (sub64 (pos max_int64) o.input.value) o.output.value)
    then none
    else some (record {
      input = sub64 (sub64 o.input.value o.cache_read.value) o.cache_write.value;
      total_input = o.input.value;
      output = o.output.value;
      cache_read = o.cache_read.value;
      cache_write = o.cache_write.value;
      reasoning =
          if usable o.reasoning && not (ltb_ℤ o.output.value o.reasoning.value)
          then o.reasoning.value
          else pos 0;
    })

-- The local function `add` of `addTurnObservations`.
unfoldable pub add_counts : ObservedCount → ObservedCount → ObservedCount
add_counts x y =
    if not x.present || not y.present
    then absent
    else if x.malformed
        || (y.malformed
            || (ltb_ℤ x.value (pos 0)
                || (ltb_ℤ y.value (pos 0) || ltb_ℤ (sub64 (pos max_int64) x.value) y.value)))
    then record absent { present = true; malformed = true }
    else record { present = true; malformed = false; value = add64 x.value y.value }

unfoldable pub add_turn_observations : UsageObservation → UsageObservation → UsageObservation
unfolding add_counts
add_turn_observations a b = record (no_observation turn_ended) {
  input = add_counts a.input b.input;
  output = add_counts a.output b.output;
  cache_read = add_counts a.cache_read b.cache_read;
  cache_write = add_counts a.cache_write b.cache_write;
  reasoning = add_counts a.reasoning b.reasoning;
}
