-- ===== src/Manager/FollowUp.antt =====
-- How a turn goes on with a new message: `StartFollowUp` and `waitFollowUpSnapshot` of
-- cursoragentv1/manager.go. An empty list of covered results stands for nil.
use cursor_agent2api.Base.{
  Bool, true, false, not, List, [], ◌∷◌, Option, none, some, if◌then◌else◌, Text, text, ◌==◌,
  trim_space,
}
use cursor_agent2api.Types.{ToolResult}
use cursor_agent2api.Ids.{
  Result, ok, err, failed, session_active, session_not_pending, session_pending, state_lease_held,
  is_empty,
}
use cursor_agent2api.Snapshot.{Encoder}
use cursor_agent2api.Store.{Platform, StateSnapshot, OwnerLease}
use cursor_agent2api.Store.Update.{save_usage_carry}
use cursor_agent2api.Store.Claim.{
  ClaimOptions, ClaimResult, granted, replayed, normalize_runtime_profile,
}
use cursor_agent2api.Store.Claim.Run.{claim}
use cursor_agent2api.Manager.Calls.{completed_batch_ids_from_results}
use cursor_agent2api.Manager.World.{World, Moment, W, ◌>>=◌, give, on_store}
use cursor_agent2api.Manager.Turns.{ManagedOutput, start_claimed, or_else}
use cursor_agent2api.Manager.Replays.{
  ManagedRequest, metering_version_error, unmetered, billing_id_for_request,
  apply_caller_tool_catalog, lookup_follow_up_replay,
}
use cursor_agent2api.Manager.Ends.{context_canceled}
use cursor_agent2api.Manager.Start.{
  is_active, reserve, reserved, or_new, fresh_of, give_back, start_error, fingerprint_of,
}

-- A follow-up has its turn, or waits for the turn of the session, after which it may try again or
-- takes what it finds.
pub data FollowUp : Type 0 where
  started : ManagedOutput → FollowUp
  waits_first waits_last : FollowUp

module _ (p : Platform) (encoder : Encoder) where
  abbrev pub follow_up_options : ManagedRequest → Moment → ClaimOptions
  follow_up_options r m = record {
    runtime_profile = r.run.runtime_profile;
    history_request_key = [];
    allow_pending = false;
    require_existing = true;
    allow_credential_change = false;
    tool_catalog_digest = r.tool_catalog_digest;
    tool_catalog = r.run.tools;
    require_tool_catalog = r.tool_catalog_digest == [];
    new_billing_run_id = billing_id_for_request r m;
    reuse_billing_run = r.reuse_billing_run;
  }

  -- The last steps of `StartFollowUp`: the usage carried over is saved, and the turn starts.
  unfoldable pub follow_up_run :
      ManagedRequest
      → List ToolResult
      → Text
      → OwnerLease
      → StateSnapshot
      → Moment
      → W ManagedOutput
  unfolding apply_caller_tool_catalog save_usage_carry give_back start_claimed
      completed_batch_ids_from_results normalize_runtime_profile
  follow_up_run r covering follow_up o x m w =
      let run = record r.run {
        runtime_profile = normalize_runtime_profile x.runtime_profile;
        conversation_id = o.conversation_id;
      } in
      elim (apply_caller_tool_catalog (record r { run = run }) x.tool_catalog false) [
        | err e ↦ give_back o e w
        | ok applied ↦
            let owner = record o { request_segment_id = r.request_segment_id } in
            let (stored, saved) = on_store (save_usage_carry p owner r.carry_usage m.now) w in
            elim saved [
              | err e ↦ give_back o e stored
              | ok _ ↦
                  start_claimed
                    (record applied.run {
                      user_text = follow_up;
                      follow_up_text = follow_up;
                      resume = false;
                      initial_checkpoint = x.checkpoint;
                      initial_blobs = x.blobs;
                    })
                    owner [] [] covering (completed_batch_ids_from_results covering) r.carry_usage
                    r.disable_caller_tools stored
            ]
      ]

  -- `StartFollowUp` on a claim: a replay that another request saved meanwhile is taken. A claim
  -- without a request key replays nothing.
  unfoldable pub follow_up_granted :
      ManagedRequest
      → Text
      → List ToolResult
      → Text
      → ClaimResult
      → Moment
      → W (ManagedOutput × Bool)
  unfolding lookup_follow_up_replay give_back follow_up_run
  follow_up_granted r fingerprint covering follow_up (replayed replay) m w =
      (w, err session_not_pending)
  follow_up_granted r fingerprint covering follow_up (granted o x cold) m w =
      if not (is_empty x.pending_tools)
      then give_back o session_pending w
      else let (looked, found) =
          lookup_follow_up_replay p encoder fingerprint covering follow_up m.now w in
        elim found [
          | err e ↦ give_back o e looked
          | ok (some output) ↦
              let (after, _) = give_back {A = Unit {0}} o session_pending looked in
              (after, ok (output, false))
          | ok none ↦
              (follow_up_run r covering follow_up o x m >>= λ output. give (output, true)) looked
        ]

  -- One round of `waitFollowUpSnapshot`: `none` while the session is active.
  unfoldable pub poll_follow_up :
      ManagedRequest → List ToolResult → Moment → World → World × Option (Result ManagedOutput)
  unfolding lookup_follow_up_replay trim_space
  poll_follow_up r covering m w =
      if r.cancelled
      then (w, some (err context_canceled))
      else if is_active (trim_space r.session_id) w
      then (w, none)
      else elim ((fingerprint_of p encoder r w).1) [
        | err e ↦ (w, some (err e))
        | ok fingerprint ↦
            let (looked, found) =
              lookup_follow_up_replay p encoder fingerprint (or_else covering r.active_results)
                r.follow_up_text m.now w in
            (
              looked,
              some (elim found [
                | err e ↦ err e
                | ok none ↦ err session_not_pending
                | ok (some output) ↦ ok output
              ]),
            )
      ]

  -- A lease that another owner holds makes `StartFollowUp` wait.
  abbrev pub follow_up_wait : {A : Type 0} → Result A → Result (Option A)
  follow_up_wait (ok a) = ok (some a)
  follow_up_wait (err state_lease_held) = ok none
  follow_up_wait (err e) = err (start_error e)

  -- `StartFollowUp` on a reserved session; `none` where it has to wait.
  unfoldable pub follow_up_reserved :
      ManagedRequest
      → Text
      → Text
      → List ToolResult
      → Text
      → Moment
      → W (Option ManagedOutput × Bool)
  unfolding lookup_follow_up_replay claim follow_up_granted trim_space
  follow_up_reserved r session_id fingerprint covering follow_up m = do
    found ← lookup_follow_up_replay p encoder fingerprint covering follow_up m.now
    (elim found [
      | some output ↦ give (some output, false)
      | none ↦ do
        claimed ← λ w.
            let (after, c) =
              on_store
                (claim p session_id (or_new (trim_space r.run.conversation_id) m.conversation_id)
                  fingerprint (follow_up_options r m) (fresh_of m))
                w in
            (after, follow_up_wait c)
        (elim claimed [
          | none ↦ give (none, false)
          | some c ↦ do
            (output, kept) ← follow_up_granted r fingerprint covering follow_up c m
            give (some output, kept)
        ])
    ])

  -- `waitFollowUpSnapshot`: a round at each tick, with what the process does until the next one;
  -- when the timer comes first, the session is still active.
  unfoldable pub wait_follow_up :
      ManagedRequest → List ToolResult → List (Moment × (World → World)) → W ManagedOutput
  unfolding poll_follow_up
  wait_follow_up r covering [] w = (w, err session_active)
  wait_follow_up r covering ((m, meanwhile) ∷ rounds) w =
      let (polled, found) = poll_follow_up r covering m w in
      let later = wait_follow_up r covering rounds (meanwhile polled) in
      elim found [ some answer ↦ (polled, answer) | none ↦ later ]

  -- `StartFollowUp` on a reservation, if it is free; a session that another request starts or runs
  -- makes it wait.
  unfoldable pub try_follow_up :
      ManagedRequest → List ToolResult → Text → Text → Moment → FollowUp → W FollowUp
  unfolding reserve reserved follow_up_reserved trim_space
  try_follow_up r covering session_id fingerprint m busy w =
      let (taken, free) = reserve session_id w in
      if free
      then (reserved session_id (
              follow_up_reserved r session_id fingerprint (or_else covering r.active_results)
                (trim_space r.follow_up_text) m)
            >>= λ found. give (elim found [ some output ↦ started output | none ↦ waits_last ]))
          taken
      else (w, ok busy)

  -- `StartFollowUp`, up to its wait.
  unfoldable pub start_follow_up : ManagedRequest → List ToolResult → Moment → W FollowUp
  unfolding try_follow_up unmetered trim_space
  start_follow_up r covering m w =
      if unmetered r.billing_run_id r.turn_metering
      then (w, err metering_version_error)
      else if r.cancelled
      then (w, err context_canceled)
      else elim ((fingerprint_of p encoder r w).1) [
        | err e ↦ (w, err e)
        | ok fingerprint ↦
            if trim_space r.follow_up_text == []
            then (w, err (failed (text "follow-up text is required")))
            else if trim_space r.session_id == []
            then (w, err session_not_pending)
            else try_follow_up r covering (trim_space r.session_id) fingerprint m waits_first w
      ]

  -- `StartFollowUp` after its first wait: it tries once more where it found no replay.
  unfoldable pub follow_up_waited :
      ManagedRequest → List ToolResult → Result ManagedOutput → Moment → W FollowUp
  unfolding try_follow_up trim_space
  follow_up_waited r covering (ok output) m w = (w, ok (started output))
  follow_up_waited r covering (err e) m w =
      if r.cancelled then (w, err e) else elim ((fingerprint_of p encoder r w).1) [
        | err x ↦ (w, err x)
        | ok fingerprint ↦
            try_follow_up r covering (trim_space r.session_id) fingerprint m waits_last w
      ]
