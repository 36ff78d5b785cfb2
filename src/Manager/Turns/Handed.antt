-- ===== src/Manager/Turns/Handed.antt =====
-- What a resumed session hands to its run: `resume` of cursoragentv1/manager.go.
use cursor_agent2api.Base.{
  ℕ, ◌+◌, ◌≡◌, refl, sym, Bool, true, false, List, [], ◌∷◌, ◌++◌, map, Option, none, some, Text,
  arith, if◌then◌else◌, sort,
}
use mathlib.Core.List.{append_assoc, append-nil}
use cursor_agent2api.Types.{Event, ToolResult}
use cursor_agent2api.Ids.{Result, ok, err}
use cursor_agent2api.Snapshot.{Encoder}
use cursor_agent2api.Store.{Platform, OwnerLease}
use cursor_agent2api.Store.Claim.{is_metered_turn}
use cursor_agent2api.Store.Mutation.{usage_evidence_events}
use cursor_agent2api.Manager.Calls.{
  Pending, result_id, filter_pending_map_results, upstream_tool_result,
}
use cursor_agent2api.Manager.Calls.Filter.{pending_keys, filter_pending-ids}
use cursor_agent2api.Manager.Output.{new_managed_output}
use cursor_agent2api.Manager.World.{Session, World, Moment, at}
use cursor_agent2api.Manager.Events.{emit_all}
use cursor_agent2api.Manager.Events.Frame.{emit_all-same}
use cursor_agent2api.Manager.Turns.{
  ManagedOutput, queue_results, hand_over, is_busy, resumed, update_billing, resume_with,
  resume_session,
}

queue_results-whole :
    (queue rs : List ToolResult)
    → (queue_results queue rs).1 ≡ true
    → (queue_results queue rs).0 ≡ queue ++ rs
unfolding queue_results
queue_results-whole queue [] h = sym (append-nil queue)
queue_results-whole queue (r ∷ rs) h =
    ground (arith, h, queue_results-whole (queue ++ r ∷ []) rs, append_assoc queue (r ∷ []) rs)

-- The session waits for the same calls and has the results in its queue.
record Handed (s t : Session) (results : List ToolResult) : Type 0 where
  queue : t.tool_results ≡ s.tool_results ++ results
  output : t.output ≡ s.output
  pending : t.pending ≡ s.pending

-- What `resume` leaves behind: the session is not busy before; it has a new client and the results
-- after.
pub record IsHanded (i : ℕ) (w t : World) (filtered : List ToolResult) (output : ℕ) : Type 0 where
  pub was_idle : is_busy (w.sessions i) ≡ false
  pub queue :
      (t.sessions i).tool_results
      ≡ (w.sessions i).tool_results ++ map (upstream_tool_result (w.sessions i).pending) filtered
  pub client : (t.sessions i).output ≡ some output
  pub pending : (t.sessions i).pending ≡ (w.sessions i).pending

module _ (p : Platform) (encoder : Encoder) where
  hand_over-Handed :
      (i address : ℕ) (carry : List Event) (results : List ToolResult) (w : World)
      → (hand_over p encoder i address carry results w).1 ≡ ok tt
      → Handed (w.sessions i) ((hand_over p encoder i address carry results w).0.sessions i) results
  unfolding hand_over
  hand_over-Handed i address carry results w h =
      let turn = (emit_all-same encoder i carry w).turn in
      let q = (emit_all encoder i carry w).sessions i in
      ground (arith, h, turn, queue_results-whole q.tool_results results)

  resumed-Handed :
      (segment_id request_segment_id : Text) (disable : Bool) (batch : List Text)
      (segment_results results : List ToolResult) (address : ℕ) (s : Session)
      → let t =
          resumed segment_id request_segment_id disable batch segment_results results address s in
        (t.tool_results ≡ s.tool_results) × (t.output ≡ some address) × (t.pending ≡ s.pending)
  unfolding resumed
  resumed-Handed segment_id request_segment_id disable batch segment_results results address s =
      (refl, refl, refl)

  resume_with-IsHanded :
      (i : ℕ) (filtered results : List ToolResult) (batch : List Text)
      (segment_results : List ToolResult) (segment_id request_segment_id : Text) (disable : Bool)
      (w : World) (o : ManagedOutput)
      → let r =
          resume_with p encoder i filtered results batch segment_results segment_id
            request_segment_id disable w in
        r.1 ≡ ok o → IsHanded i w r.0 filtered o.output
  unfolding resume_with
  resume_with-IsHanded i filtered results batch segment_results segment_id request_segment_id
        disable w o h =
      by_busy (is_busy (w.sessions i)) refl
        (hand_over p encoder i w.next (usage_evidence_events s.billing_carry)
          (map (upstream_tool_result s.pending) filtered) w').1
        refl
    where
      s : Session
      s =
          resumed segment_id request_segment_id disable batch segment_results results w.next
            (w.sessions i)

      w' : World
      w' = record w {
        sessions = at i s w.sessions;
        outputs = at w.next new_managed_output w.outputs;
        next = w.next + 1;
      }

      by_busy :
          (b : Bool)
          → is_busy (w.sessions i) ≡ b
          → (r : Result (Unit {0}))
          → (hand_over p encoder i w.next
              (usage_evidence_events s.billing_carry)
              (map (upstream_tool_result s.pending) filtered)
              w').1
            ≡ r
          → IsHanded i w
              (resume_with p encoder i filtered results batch segment_results segment_id
                request_segment_id disable w).0
              filtered
              o.output
      by_busy true k r l = ground (arith, h, k)
      by_busy false k (err e) l = ground (arith, h, k, l)
      by_busy false k (ok tt) l = ground (
        arith,
        h,
        k,
        l,
        hand_over-Handed i w.next (usage_evidence_events s.billing_carry)
            (map (upstream_tool_result s.pending) filtered) w' l,
        resumed-Handed segment_id request_segment_id disable batch segment_results results w.next
            (w.sessions i),
      )

  billing-sessions :
      (o : OwnerLease) (segment_id : Text) (m : Moment) (w : World)
      → (update_billing p encoder o segment_id m w).0.sessions ≡ w.sessions
  unfolding update_billing
  billing-sessions o segment_id m w = ground arith

  IsHanded-same :
      (i : ℕ) (u w t : World) (filtered : List ToolResult) (output : ℕ)
      → u.sessions ≡ w.sessions
      → IsHanded i u t filtered output
      → IsHanded i w t filtered output
  IsHanded-same i u w t filtered output same v = ground (arith, same, v)

  -- A session that resumes was idle before. Its run gets, behind the results that already wait in
  -- its queue, one result for each pending call, under the id of the upstream; the turn has a new
  -- client, and the calls stay pending until the upstream accepts them.
  pub resume_session-IsHanded :
      (i : ℕ) (results : List ToolResult) (batch : List Text) (segment_results : List ToolResult)
      (segment_id : Text) (disable : Bool) (m : Moment) (w : World) (o : ManagedOutput)
      → let r = resume_session p encoder i results batch segment_results segment_id disable m w in
        r.1 ≡ ok o
        → (filtered : List ToolResult) × (filter_pending_map_results (w.sessions i).pending results
            ≡ some filtered)
          × (map result_id filtered ≡ sort (pending_keys (w.sessions i).pending))
          × IsHanded i w r.0 filtered o.output
  unfolding resume_session
  resume_session-IsHanded i results batch segment_results segment_id disable m w o h =
      by_filter (filter_pending_map_results pending results) refl
    where
      pending : Pending
      pending = (w.sessions i).pending

      owner : OwnerLease
      owner = (w.sessions i).owner

      billing : Text
      billing = if is_metered_turn owner.billing_run_id then owner.billing_run_id else segment_id

      after : World × Result ManagedOutput
      after = resume_session p encoder i results batch segment_results segment_id disable m w

      by_billing :
          (filtered : List ToolResult)
          → filter_pending_map_results pending results ≡ some filtered
          → (u : World) (r : Result (Unit {0}))
          → update_billing p encoder owner billing m w ≡ (u, r)
          → u.sessions ≡ w.sessions
          → IsHanded i w after.0 filtered o.output
      by_billing filtered f u (err e) b same = ground (arith, h, f, b)
      by_billing filtered f u (ok tt) b same = IsHanded-same i u w after.0 filtered o.output same (
          ground (
            arith,
            h,
            f,
            b,
            resume_with-IsHanded i filtered results batch segment_results billing segment_id disable
                u o,
          ))

      by_filter :
          (f : Option (List ToolResult))
          → filter_pending_map_results pending results ≡ f
          → (filtered : List ToolResult) × (filter_pending_map_results pending results
              ≡ some filtered)
            × (map result_id filtered ≡ sort (pending_keys pending))
            × IsHanded i w after.0 filtered o.output
      by_filter none f = absurd (ground (arith, h, f))
      by_filter (some filtered) f = (
        filtered,
        f,
        filter_pending-ids pending results filtered f,
        by_billing filtered f (update_billing p encoder owner billing m w).0
            (update_billing p encoder owner billing m w).1 refl
            (billing-sessions owner billing m w),
      )
