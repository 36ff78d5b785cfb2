-- ===== src/Manager/Resume.antt =====
-- How a turn goes on with the results of its tool calls: `ResumeTools` of cursoragentv1/manager.go.
pub mod Keeps
pub mod Told
use cursor_agent2api.Base.{
  ℕ, Bool, true, false, not, List, [], map, none, some, if◌then◌else◌, Text, ◌==◌, trim_space,
}
use cursor_agent2api.Types.{ToolResult}
use cursor_agent2api.Ids.{
  Error, Result, ok, err, session_active, session_not_pending, credential_mismatch, to_tool_result,
  pending_tool_ids,
}
use cursor_agent2api.Snapshot.{Encoder}
use cursor_agent2api.Store.{Platform, StateSnapshot, OwnerLease}
use cursor_agent2api.Store.Directory.{lookup}
use cursor_agent2api.Store.Tombstone.{CompletedReplay}
use cursor_agent2api.Store.Resolve.{resolve_pending}
use cursor_agent2api.Store.Claim.{ClaimOptions, ClaimResult, granted, replayed}
use cursor_agent2api.Store.Claim.Run.{claim}
use cursor_agent2api.Store.Completed.{tool_result_digest}
use cursor_agent2api.Manager.Calls.{filter_pending_results}
use cursor_agent2api.Manager.World.{World, Moment, W, ◌>>=◌, give, put_session, on_store}
use cursor_agent2api.Manager.Flights.{begin_resume_flight, end_resume_flight, bind_resume_flight}
use cursor_agent2api.Manager.Turns.{ManagedOutput, start_claimed, resume_session, or_else}
use cursor_agent2api.Manager.Replays.{
  ManagedRequest, metering_version_error, unmetered, apply_caller_tool_catalog,
  emit_completed_replay, generation_segment_id, lookup_request_replay,
}
use cursor_agent2api.Manager.Start.{
  reserve, reserved, or_new, fresh_of, give_back, resume_error, map_error,
}
use cursor_agent2api.Manager.Resumption.{
  Resumption, with_claim, resume_run, keep_follow_up, resumption,
}

-- A request is answered, or waits for the flight of another one.
pub data Answer : Type 0 where
  answered : ManagedOutput → Answer
  joined : ℕ → Answer

module _ (p : Platform) (encoder : Encoder) where
  -- `fail`: the flight of the leader ends with the error.
  unfoldable pub fail_flight : {A : Type 0} → Resumption → ℕ → Error → W A
  unfolding end_resume_flight
  fail_flight q flight e w =
      (end_resume_flight q.fingerprint q.original_batch flight none (some e) w, err e)

  -- The result of a step, where an error ends the flight.
  unfoldable pub or_fail :
      Resumption → ℕ → World × Result ManagedOutput → World × Result ManagedOutput
  unfolding fail_flight
  or_fail q flight (after, ok output) = (after, ok output)
  or_fail q flight (after, err e) = fail_flight q flight e after

  abbrev pub segment_of : Resumption → Text
  segment_of q = generation_segment_id p q.fingerprint q.original_batch q.accepted q.follow_up

  -- The results go to the session that runs in this process.
  unfoldable pub resume_active : Resumption → Text → ℕ → ℕ → Moment → W ManagedOutput
  unfolding resume_session bind_resume_flight unmetered
  resume_active q session_id i flight m w =
      let s = w.sessions i in
      let noted =
        if q.follow_up == []
        then w
        else put_session i (record s { pending_follow_up = q.follow_up }) w in
      if unmetered s.owner.billing_run_id q.request.turn_metering
      then (w, err metering_version_error)
      else if not (s.owner.credential_hash == q.fingerprint)
      then (w, err credential_mismatch)
      else resume_session p encoder i q.results q.original_batch (map to_tool_result q.accepted)
          (segment_of q) q.request.disable_caller_tools m
          (bind_resume_flight session_id q.fingerprint q.original_batch flight noted)

  abbrev pub resume_options : Resumption → ClaimOptions
  resume_options q = record {
    runtime_profile = q.request.run.runtime_profile;
    history_request_key = [];
    allow_pending = true;
    require_existing = true;
    allow_credential_change = false;
    tool_catalog_digest = q.request.tool_catalog_digest;
    tool_catalog = [];
    require_tool_catalog = true;
    new_billing_run_id = segment_of q;
    reuse_billing_run = false;
  }

  -- The saved session goes on from its checkpoint, with the results of all its pending calls.
  unfoldable pub resume_granted : Resumption → OwnerLease → StateSnapshot → Bool → W ManagedOutput
  unfolding filter_pending_results unmetered give_back with_claim apply_caller_tool_catalog
      start_claimed pending_tool_ids
  resume_granted q o x cold w = elim (filter_pending_results x.pending_tools q.results) [
    | none ↦
        give_back o
          (if unmetered o.billing_run_id q.request.turn_metering
            then metering_version_error
            else session_not_pending)
          w
    | some filtered ↦
        if unmetered o.billing_run_id q.request.turn_metering
        then give_back o metering_version_error w
        else if cold
        then give_back o session_not_pending w
        else elim (apply_caller_tool_catalog (with_claim q.request x o) x.tool_catalog true) [
          | err e ↦ give_back o e w
          | ok r ↦
              start_claimed (resume_run r.run x) (record o { request_segment_id = segment_of q })
                x.pending_tools filtered (map to_tool_result q.accepted)
                (or_else x.pending_batch_ids (pending_tool_ids x.pending_tools)) x.usage_carry
                q.request.disable_caller_tools w
        ]
  ]

  -- The follow-up of a saved session, if the request brings none.
  abbrev pub follow_up_of : Resumption → StateSnapshot → Text
  follow_up_of q x = if q.follow_up == [] then trim_space x.follow_up_text else q.follow_up

  -- A claim without a request key replays nothing: that case is there for its type only.
  unfoldable pub resume_claimed : Resumption → Text → ℕ → ClaimResult → W (ManagedOutput × Bool)
  unfolding resume_granted keep_follow_up bind_resume_flight
  resume_claimed q session_id flight (replayed replay) w = (w, err session_not_pending)
  resume_claimed q session_id flight (granted o x cold) w =
      (resume_granted q o x cold >>= λ output t. (
        bind_resume_flight session_id q.fingerprint q.original_batch flight
            (keep_follow_up session_id (follow_up_of q x) t),
        ok (output, true),
      ))
        w

  unfoldable pub claim_saved : Resumption → Text → ℕ → Moment → W (ManagedOutput × Bool)
  unfolding claim resume_claimed trim_space
  claim_saved q session_id flight m = do
    claimed ← map_error resume_error (
        on_store (
          claim p session_id (or_new (trim_space q.request.run.conversation_id) m.conversation_id)
            q.fingerprint (resume_options q) (fresh_of m)))
    resume_claimed q session_id flight claimed

  unfoldable pub resume_saved : Resumption → Text → ℕ → Moment → W ManagedOutput
  unfolding reserve reserved claim_saved
  resume_saved q session_id flight m w =
      let (taken, free) = reserve session_id w in
      if free
      then reserved session_id (claim_saved q session_id flight m) taken
      else (w, err session_active)

  -- A leader that found a replay of its results.
  unfoldable pub resume_replayed : Resumption → ℕ → CompletedReplay → W ManagedOutput
  unfolding unmetered emit_completed_replay end_resume_flight fail_flight
  resume_replayed q flight replay w =
      if unmetered replay.billing_run_id q.request.turn_metering
      then fail_flight q flight metering_version_error w
      else let (shown, output) = emit_completed_replay encoder replay w in
        (
          end_resume_flight q.fingerprint q.original_batch flight (some replay) none shown,
          ok output,
        )

  -- A leader without a replay, on the session that waits for the results, if there is one.
  unfoldable pub resume_waiting : Resumption → Text → ℕ → Moment → W ManagedOutput
  unfolding lookup resume_active resume_saved fail_flight or_fail
  resume_waiting q session_id flight m w =
      if session_id == []
      then fail_flight q flight session_not_pending w
      else or_fail q flight (
          (elim (lookup session_id w.active) as (λ _. W ManagedOutput) [
            | some i ↦ resume_active q session_id i flight m
            | none ↦ resume_saved q session_id flight m
          ])
            w)

  -- The part of `ResumeTools` behind the resolution of the submitted ids.
  unfoldable pub resume_resolved : Resumption → Text → ℕ → Moment → W ManagedOutput
  unfolding lookup_request_replay resume_replayed resume_waiting fail_flight
  resume_resolved q session_id flight m w =
      let results = if session_id == [] then q.results else map to_tool_result q.accepted in
      let (looked, found) = lookup_request_replay p q.fingerprint results q.follow_up m.now w in
      elim found [
        | ok replay ↦ resume_replayed q flight replay looked
        | err session_not_pending ↦ resume_waiting q session_id flight m looked
        | err e ↦ fail_flight q flight e looked
      ]

  unfoldable pub resume_led : Resumption → ℕ → Moment → W ManagedOutput
  unfolding resolve_pending resume_resolved fail_flight
  resume_led q flight m w =
      let (resolved, r) = on_store (resolve_pending p q.fingerprint q.submitted_ids m.now) w in
      elim r [
        | ok session_id ↦ resume_resolved q session_id flight m resolved
        | err session_not_pending ↦ resume_resolved q [] flight m resolved
        | err e ↦ fail_flight q flight e resolved
      ]

  -- What `ResumeTools` makes of the end of the flight that it waited for.
  unfoldable pub resume_joined : ManagedRequest → Result CompletedReplay → W ManagedOutput
  unfolding emit_completed_replay unmetered
  resume_joined r (err e) w = (w, err e)
  resume_joined r (ok replay) w =
      let (shown, output) = emit_completed_replay encoder replay w in
      (
        shown,
        if unmetered output.billing_run_id r.turn_metering
            then err metering_version_error
            else ok output,
      )

  -- `ResumeTools`: one request leads, the others wait (`waitResumeFlight`, then `resume_joined`).
  unfoldable pub resume_tools : ManagedRequest → List ToolResult → Moment → W Answer
  unfolding resumption begin_resume_flight resume_led tool_result_digest
  resume_tools r submitted m w = elim (resumption p encoder r submitted w) [
    | err e ↦ (w, err e)
    | ok q ↦
        (begin_resume_flight q.fingerprint q.original_batch (tool_result_digest p q.accepted)
              q.follow_up
            >>= λ b.
                (if b.leader
                  then (resume_led q b.flight m >>= λ output. give (answered output))
                  else give (joined b.flight)))
          w
  ]
