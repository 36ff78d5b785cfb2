-- ===== src/Snapshot.antt =====
-- The completed snapshot of the events of a run: cursoragentv1/completed_events.go, and
-- `persistEvents` and `eventsFromPersisted` of cursoragentv1/completed_state.go.
pub mod Coalescing
pub mod Append
pub mod Facts
pub mod Tests
use Prim.Native.Nat.{max}
use cursor_agent2api.Base.{
  ℕ, zero, suc, ◌+◌, ◌*◌, ◌/◌, ◌^◌, ℤ, pos, ◌+ℤ◌, ◌-ℤ◌, ltb_ℤ, sub64, add64, max_int64, Bool, true,
  false, not, ◌&&◌, ◌||◌, List, [], ◌∷◌, ◌++◌, Option, none, some, reverse, length, ltb, eqb,
  if◌then◌else◌, Text, text, ◌==◌,
}
use cursor_agent2api.Types.{
  ObservedCount, UsageKind, unknown, token_delta, turn_ended, UsageObservation, Event, EventType,
  text_event, thinking, usage, checkpoint, tool_call, clone_event,
}
use cursor_agent2api.Usage.{absent, is_token_delta}
use cursor_agent2api.Ids.{Result, ok, err, failed, is_empty, ◌>>=◌}

-- The lengths of JSON texts: of a string with its quotes, and of an event. `none` where
-- `json.Marshal` fails.
pub record Encoder : Type 0 where
  pub text_size : Text → Option ℕ
  pub event_size : Event → Option ℕ

-- 16 << 20
abbrev pub max_completed_event_bytes : ℕ
max_completed_event_bytes = 16 * 2 ^ 20

-- `eventSnapshot`; the newest event comes first.
pub record EventSnapshot : Type 0 where
  pub events : List Event
  pub bytes : ℤ
  pub last_size : ℤ
  pub text : Text

abbrev pub no_events : EventSnapshot
no_events = record { events = []; bytes = pos 0; last_size = pos 0; text = [] }

abbrev pub is_none {ℓ} : {A : Type ℓ} → Option A → Bool
is_none none = true
is_none (some a) = false

abbrev pub is_text : EventType → Bool
is_text text_event = true
is_text _ = false

abbrev pub is_thinking : EventType → Bool
is_thinking thinking = true
is_thinking _ = false

abbrev pub is_usage : EventType → Bool
is_usage usage = true
is_usage _ = false

unfoldable pub snapshot_text : Event → Bool
snapshot_text e =
    (is_text e.type || is_thinking e.type)
    && (not (e.text == [])
        && (not (ltb_ℤ e.tokens (pos 0))
            && not (ltb_ℤ (pos 0) e.tokens)
            && (is_none e.usage
                && (is_none e.tool_call
                    && (is_none e.tool_result
                        && (is_none e.hosted_search
                            && (is_empty e.checkpoint
                                && (is_empty e.blobs
                                    && (is_thinking e.type || eqb e.progress_events 0)))))))))

-- Two events that are both text, or both thinking.
abbrev pub same_text : EventType → EventType → Bool
same_text t u = (is_text t && is_text u) || (is_thinking t && is_thinking u)

-- The digits of `strconv.Itoa`, on the fuel of the number itself.
unfoldable pub digits : ℕ → ℕ → ℕ
digits zero n = 1
digits (suc fuel) n = let rest = digits fuel (n / 10) in if ltb n 10 then 1 else suc rest

unfoldable pub progress_field_size : ℕ → ℕ
unfolding digits
progress_field_size count =
    if eqb count 0 then 0 else length (text ",\"progress_events\":") + digits count count

abbrev pub same_bool : Bool → Bool → Bool
same_bool true b = b
same_bool false b = not b

abbrev pub same_count : ObservedCount → ObservedCount → Bool
same_count x y =
    same_bool x.present y.present
    && (same_bool x.malformed y.malformed
        && (not (ltb_ℤ x.value y.value) && not (ltb_ℤ y.value x.value)))

-- `left != right` once both token deltas are cleared; both are token deltas already.
unfoldable pub same_rest : UsageObservation → UsageObservation → Bool
same_rest a b =
    same_bool a.carried b.carried
    && (same_count a.input b.input
        && (same_count a.output b.output
            && (same_count a.cache_read b.cache_read
                && (same_count a.cache_write b.cache_write && same_count a.reasoning b.reasoning))))

-- Both counters are usable and their sum is an int64.
abbrev pub addable : ObservedCount → ObservedCount → Bool
addable x y =
    x.present
    && (y.present
        && (not x.malformed
            && (not y.malformed
                && (not (ltb_ℤ x.value (pos 0))
                    && (not (ltb_ℤ y.value (pos 0))
                        && not (ltb_ℤ (sub64 (pos max_int64) x.value) y.value))))))

-- The usage of two usage events that combine; the outer option is the `ok` of the source.
unfoldable pub merge_usage :
    Option UsageObservation → Option UsageObservation → Option (Option UsageObservation)
unfolding sub64
merge_usage none none = some none
merge_usage (some a) (some b) =
    if is_token_delta a.kind
      && (is_token_delta b.kind && (addable a.token_delta b.token_delta && same_rest a b))
    then some (
        some (record a {
          token_delta = record a.token_delta {
            value = add64 a.token_delta.value b.token_delta.value;
          };
        }))
    else none
merge_usage a b = none

unfoldable pub merge_snapshot_usage : Event → Event → Option Event
unfolding merge_usage clone_event sub64 add64
merge_snapshot_usage a b =
    if not (is_usage a.type)
      || (not (is_usage b.type)
          || (ltb_ℤ a.tokens (pos 0)
              || (ltb_ℤ b.tokens (pos 0) || ltb_ℤ (sub64 (pos max_int64) a.tokens) b.tokens)))
    then none
    else elim (merge_usage a.usage b.usage) [
      | none ↦ none
      | some u ↦ some (record (clone_event a) { tokens = add64 a.tokens b.tokens; usage = u })
    ]

unfoldable pub grow : ℤ → EventSnapshot → Result EventSnapshot
unfolding ◌+ℤ◌ ◌-ℤ◌
grow delta s =
    if ltb_ℤ (pos max_completed_event_bytes -ℤ s.bytes) delta
    then err (failed (text "completed snapshot exceeds the limit"))
    else ok (record s { bytes = s.bytes +ℤ delta })

-- Thinking deltas that a thinking event stands for.
abbrev pub progress_of : Event → ℕ
progress_of e = max 1 e.progress_events

-- The progress of the last event once another of its type is appended.
abbrev pub joined_progress : Event → Event → ℕ
joined_progress last e =
    if is_thinking e.type then progress_of last + progress_of e else last.progress_events

module _ (encoder : Encoder) where
  open encoder use {text_size, event_size}

  -- The first branch of `append`: the text goes to the last event.
  unfoldable pub append_text : EventSnapshot → Event → List Event → Event → Result EventSnapshot
  unfolding progress_field_size grow ◌+ℤ◌ ◌-ℤ◌
  append_text s last before e = elim (text_size e.text) [
    | none ↦ err (failed (text "json"))
    | some n ↦
        let progress = joined_progress last e in
        let field =
          if is_thinking e.type
          then pos (progress_field_size progress) -ℤ pos (progress_field_size last.progress_events)
          else pos 0 in
        let delta = pos n -ℤ pos 2 +ℤ field in
        grow delta s >>= λ t. ok (record t {
          events = record last { text = s.text ++ e.text; progress_events = progress } ∷ before;
          text = s.text ++ e.text;
          last_size = s.last_size +ℤ delta;
        })
  ]

  -- The second branch: the last event is replaced.
  unfoldable pub append_merged : EventSnapshot → Event → List Event → Result EventSnapshot
  unfolding grow ◌-ℤ◌
  append_merged s merged before = elim (event_size merged) [
    | none ↦ err (failed (text "json"))
    | some n ↦ grow (pos n -ℤ s.last_size) s >>= λ t.
        ok (record t { events = merged ∷ before; last_size = pos n })
  ]

  -- The rest of `append`: a new event, behind a comma if it is not the first.
  unfoldable pub append_new : EventSnapshot → Event → Result EventSnapshot
  unfolding grow snapshot_text clone_event
  append_new s e = elim (event_size e) [
    | none ↦ err (failed (text "json"))
    | some n ↦ grow (pos (if is_empty s.events then n else n + 1)) s >>= λ t. ok (record t {
      events = clone_event e ∷ t.events;
      last_size = pos n;
      text = (if snapshot_text e then e.text else []);
    })
  ]

  unfoldable pub append_behind : EventSnapshot → List Event → Event → Result EventSnapshot
  unfolding append_text append_merged append_new snapshot_text merge_snapshot_usage
  append_behind s [] e = append_new s e
  append_behind s (last ∷ before) e =
      if same_text last.type e.type && (snapshot_text last && snapshot_text e)
      then append_text s last before e
      else elim (merge_snapshot_usage last e) [
        | some merged ↦ append_merged s merged before
        | none ↦ append_new s e
      ]

  unfoldable pub append : EventSnapshot → Event → Result EventSnapshot
  unfolding append_behind
  append s e =
      let opened =
        if ltb_ℤ s.bytes (pos 0) || ltb_ℤ (pos 0) s.bytes then s else record s { bytes = pos 2 } in
      append_behind opened opened.events e

  unfoldable pub append_all : EventSnapshot → List Event → Result EventSnapshot
  unfolding append
  append_all s [] = ok s
  append_all s (e ∷ es) = elim (append s e) [ err x ↦ err x | ok t ↦ append_all t es ]

  -- `persistEvents`: the events of the snapshot, the oldest first.
  unfoldable pub persist_events : List Event → Result (List Event)
  unfolding append_all
  persist_events es = elim (append_all no_events es) [
    | err x ↦ err x
    | ok s ↦ ok (reverse s.events)
  ]
