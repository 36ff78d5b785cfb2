-- ===== src/Manager/Events.antt =====
-- What a session does with an event of its run: `handleEvent`, `emit` and `failState` of
-- cursoragentv1/manager.go.
pub mod Frame
use cursor_agent2api.Base.{
  ℕ, zero, suc, ◌+◌, ◌/◌, ◌%◌, ℤ, pos, negsuc, ltb_ℤ, Bool, true, false, ◌&&◌, List, [], ◌∷◌, ◌++◌,
  none, some, ltb, eqb, if◌then◌else◌, Text, text, trim_space,
}
use cursor_agent2api.Types.{
  Event, EventType, ToolCall, ToolResult, clone_event, checkpoint, tool_call, tool_result_accepted,
  done,
}
use cursor_agent2api.Ids.{Error, ok, err, failed, caller_tools_disabled, PendingTool}
use cursor_agent2api.Snapshot.{Encoder, append}
use cursor_agent2api.Store.{Platform}
use cursor_agent2api.Store.Update.{save_checkpoint, save_pending}
use cursor_agent2api.Store.Directory.{lookup, insert, delete}
use cursor_agent2api.Manager.Calls.{
  find_public_tool_call_id, public_tool_call_id_for_upstream, pending_values,
}
use cursor_agent2api.Manager.Output.{send, send_full}
use cursor_agent2api.Manager.World.{Session, World, Moment, put_session, put_output, put_store}

-- The decimal digits of a number, on the fuel of the number itself.
unfoldable pub decimal : ℕ → ℕ → Text
decimal zero n = []
decimal (suc f) n =
    let front = decimal f (n / 10) in
    if ltb n 10 then (b'0' + n) ∷ [] else front ++ (b'0' + n % 10) ∷ []

abbrev pub itoa : ℤ → Text
itoa (pos n) = decimal (suc n) n
itoa (negsuc n) = text "-" ++ decimal (suc (suc n)) (suc n)

-- `strings.ReplaceAll(id, "-", "")`
unfoldable pub without_dashes : Text → Text
without_dashes [] = []
without_dashes (c ∷ cs) = let rest = without_dashes cs in if eqb c b'-' then rest else c ∷ rest

unfoldable pub routed_tool_call_id : ℤ → ℤ → Text → Text
unfolding decimal without_dashes
routed_tool_call_id user channel uuid =
    text "toolu_bf_agentv1_u"
    ++ (itoa user ++ (text "_c" ++ (itoa channel ++ (text "_" ++ without_dashes uuid))))

unfoldable pub fail_session : Error → Session → Session
fail_session e s = record s {
  state_err = elim s.state_err [ none ↦ some e | some old ↦ some old ];
  cancelled = true;
}

-- `failState`: the first error stays, and the run is cancelled.
unfoldable pub fail_state : ℕ → Error → World → World
unfolding fail_session
fail_state i e w = put_session i (fail_session e (w.sessions i)) w

abbrev pub buffer_full : Error
buffer_full = failed (text "downstream event buffer is full")

unfoldable pub deliver : ℕ → Event → ℕ → World → World
unfolding send fail_state
deliver i e address w =
    let (o, r) = send e (w.outputs address) in
    elim r [
      | send_full ↦ fail_state i buffer_full (put_output address o w)
      | _ ↦ put_output address o w
    ]

abbrev pub is_done : EventType → Bool
is_done done = true
is_done _ = false

-- The part of `emit` after the snapshot: the end of the run is kept back.
unfoldable pub emit_out : ℕ → Event → World → World
unfolding deliver clone_event
emit_out i e w =
    let s = w.sessions i in
    if is_done e.type
    then put_session i (record s { terminal_event = some (clone_event e) }) w
    else elim s.output [ none ↦ w | some address ↦ deliver i e address w ]

-- The public id of a call: its own, or a routed one.
unfoldable pub public_id : Session → Text → Text → Text
unfolding routed_tool_call_id
public_id s upstream uuid =
    if ltb_ℤ (pos 0) s.request.route_user_id && ltb_ℤ (pos 0) s.request.route_channel_id
    then routed_tool_call_id s.request.route_user_id s.request.route_channel_id uuid
    else upstream

abbrev pub pending_tool : ToolCall → Text → Text → PendingTool
pending_tool c public_id upstream = record {
  message_id = c.message_id;
  exec_id = c.exec_id;
  tool_call_id = public_id;
  upstream_tool_call_id = upstream;
  name = c.name;
  arguments = c.arguments;
}

-- The event as the client sees it.
abbrev pub public_event : Event → ToolCall → Text → Event
public_event e c public_id = record e { tool_call = some (record c { tool_call_id = public_id }) }

module _ (encoder : Encoder) where
  unfoldable pub emit : ℕ → Event → World → World
  unfolding append emit_out fail_state
  emit i e w =
      let s = w.sessions i in
      elim s.state_err [
        | some _ ↦ w
        | none ↦
            if s.capturing
            then elim (append encoder s.segment_snapshot e) [
              | err x ↦ fail_state i x w
              | ok t ↦ emit_out i e (put_session i (record s { segment_snapshot = t }) w)
            ]
            else emit_out i e w
      ]

  -- The loop that emits the usage carried over.
  unfoldable pub emit_all : ℕ → List Event → World → World
  unfolding emit
  emit_all i [] w = w
  emit_all i (e ∷ es) w = emit_all i es (emit i e w)

  unfoldable pub add_call : ℕ → Event → ToolCall → Text → Text → World → World
  unfolding lookup insert fail_state emit
  add_call i e c upstream id w =
      let s = w.sessions i in
      elim (lookup id s.pending) [
        | some _ ↦ w
        | none ↦ elim s.output [
          | none ↦ fail_state i (failed (text "new tool call after the turn was parked")) w
          | some _ ↦ emit i (public_event e c id) (
              put_session i
                (record s { pending = insert id (pending_tool c id upstream) s.pending }) w)
        ]
      ]

  unfoldable pub handle_tool_call : ℕ → Event → ToolCall → Moment → World → World
  unfolding find_public_tool_call_id public_id add_call fail_state trim_space
  handle_tool_call i e c m w =
      let s = w.sessions i in
      let upstream = trim_space c.tool_call_id in
      elim (find_public_tool_call_id s.pending upstream) [
        | some _ ↦ w
        | none ↦
            if s.disable_caller_tools
            then fail_state i caller_tools_disabled w
            else add_call i e c upstream (public_id s upstream m.call_id) w
      ]

  module _ (p : Platform) where
    unfoldable pub handle_accepted : ℕ → Event → ToolResult → Moment → World → World
    unfolding public_tool_call_id_for_upstream delete pending_values save_pending fail_state emit
    handle_accepted i e r m w =
        let s = w.sessions i in
        let left = delete (public_tool_call_id_for_upstream s.pending r.tool_call_id) s.pending in
        let (store, saved) = save_pending p s.owner (pending_values left) m.now w.store in
        let w' = put_store store (put_session i (record s { pending = left }) w) in
        elim saved [ err x ↦ fail_state i x w' | ok _ ↦ emit i e w' ]

    unfoldable pub handle_checkpoint : ℕ → Event → Moment → World → World
    unfolding save_checkpoint fail_state
    handle_checkpoint i e m w =
        let s = w.sessions i in
        let (store, saved) = save_checkpoint p s.owner e.checkpoint e.blobs m.now w.store in
        let w' = put_store store w in elim saved [ err x ↦ fail_state i x w' | ok _ ↦ w' ]

    unfoldable pub handle_as : EventType → ℕ → Event → Moment → World → World
    unfolding handle_checkpoint handle_tool_call handle_accepted fail_state emit
    handle_as checkpoint i e m w = handle_checkpoint i e m w
    handle_as tool_call i e m w = elim e.tool_call [
      | none ↦ fail_state i (failed (text "tool event is empty")) w
      | some c ↦ handle_tool_call i e c m w
    ]
    handle_as tool_result_accepted i e m w = elim e.tool_result [
      | none ↦ w
      | some r ↦ handle_accepted i e r m w
    ]
    handle_as _ i e m w = emit i e w

    unfoldable pub handle_event : ℕ → Event → Moment → World → World
    unfolding handle_as
    handle_event i e m w = handle_as e.type i e m w
