-- ===== src/Manager/Start.antt =====
-- How a turn starts: the reservations and `Start` of cursoragentv1/manager.go.
use cursor_agent2api.Base.{
  Bool, true, false, not, ◌||◌, [], ◌∷◌, none, some, if◌then◌else◌, Text, text, ◌==◌, trim_space,
  member,
}
use cursor_agent2api.Ids.{
  Error, ok, err, failed, session_active, session_not_pending, session_pending, state_pending,
  not_exist,
}
use cursor_agent2api.Snapshot.{Encoder}
use cursor_agent2api.Store.{Platform, OwnerLease, release}
use cursor_agent2api.Store.Directory.{lookup}
use cursor_agent2api.Store.Claim.{
  ClaimOptions, ClaimResult, granted, replayed, Fresh, normalize_runtime_profile,
}
use cursor_agent2api.Store.Claim.Run.{claim, lookup_history}
use cursor_agent2api.Store.Save.{credential_fingerprint}
use cursor_agent2api.Manager.World.{World, Moment, W, ◌>>=◌, give, put_store, on_store}
use cursor_agent2api.Manager.Turns.{ManagedOutput, start_claimed, drop_name}
use cursor_agent2api.Manager.Replays.{
  ManagedRequest, billing_id_for_request, emit_completed_replay, history_session_id,
}

abbrev pub is_active : Text → World → Bool
is_active id w = elim (lookup id w.active) [ none ↦ false | some _ ↦ true ]

-- `reserve`: no other request starts the session, and none runs it.
unfoldable pub reserve : Text → World → World × Bool
unfolding member lookup
reserve id w =
    if is_active id w || member id w.starting
    then (w, false)
    else (record w { starting = id ∷ w.starting }, true)

unfoldable pub release_reservation : Text → World → World
unfolding drop_name
release_reservation id w = record w { starting = drop_name id w.starting }

-- The deferred release of a reservation: the session keeps it only where it started.
unfoldable pub reserved : {A : Type 0} → Text → W (A × Bool) → W A
unfolding release_reservation
reserved id body w =
    let (after, r) = body w in
    elim r [
      | ok (a, kept) ↦ (if kept then after else release_reservation id after, ok a)
      | err e ↦ (release_reservation id after, err e)
    ]

abbrev pub or_new : Text → Text → Text
or_new id fresh = if id == [] then fresh else id

abbrev pub fresh_of : Moment → Fresh
fresh_of m = record { now = m.now; token = m.owner_token; billing = m.billing_id }

-- The lease goes back with an error.
unfoldable pub give_back : {A : Type 0} → OwnerLease → Error → W A
unfolding release
give_back o e w = (put_store (release o w.store) w, err e)

-- `Start` maps two errors of a claim.
abbrev pub start_error : Error → Error
start_error state_pending = session_pending
start_error not_exist = session_not_pending
start_error e = e

abbrev pub resume_error : Error → Error
resume_error not_exist = session_not_pending
resume_error e = e

abbrev pub map_error : {A : Type 0} → (Error → Error) → W A → W A
map_error f m w = ((m w).0, elim (m w).1 [ ok a ↦ ok a | err e ↦ err (f e) ])

module _ (p : Platform) (encoder : Encoder) where
  abbrev pub fingerprint_of : ManagedRequest → W Text
  fingerprint_of r w = (w, credential_fingerprint p r.credential_scope r.account_key)

  abbrev pub start_options : ManagedRequest → Moment → ClaimOptions
  start_options r m = record {
    runtime_profile = r.run.runtime_profile;
    history_request_key = r.run.history_request_key;
    allow_pending = not (r.run.history_request_key == []);
    require_existing = r.require_existing;
    allow_credential_change = not r.require_existing;
    tool_catalog_digest = r.tool_catalog_digest;
    tool_catalog = r.run.tools;
    require_tool_catalog = false;
    new_billing_run_id = billing_id_for_request r m;
    reuse_billing_run = r.reuse_billing_run;
  }

  -- `Start` on a claim.
  unfoldable pub start_granted : ManagedRequest → ClaimResult → W (ManagedOutput × Bool)
  unfolding emit_completed_replay start_claimed normalize_runtime_profile
  start_granted r (replayed replay) w =
      let (shown, output) = emit_completed_replay encoder replay w in (shown, ok (output, false))
  start_granted r (granted owner x cold) w =
      (do
        output ←
            start_claimed
              (record r.run {
                conversation_id = owner.conversation_id;
                runtime_profile = normalize_runtime_profile x.runtime_profile;
                initial_checkpoint = x.checkpoint;
                initial_blobs = x.blobs;
                resume = false;
              })
              (record owner { request_segment_id = r.billing_run_id }) x.pending_tools [] [] [] []
              r.disable_caller_tools
        give (output, true))
        w

  unfoldable pub start_reserved : ManagedRequest → Text → Moment → W (ManagedOutput × Bool)
  unfolding claim start_granted trim_space
  start_reserved r session_id m = do
    fingerprint ← fingerprint_of r
    claimed ← map_error start_error (
        on_store (
          claim p session_id (or_new (trim_space r.run.conversation_id) m.conversation_id)
            fingerprint (start_options r m) (fresh_of m)))
    start_granted r claimed

  unfoldable pub start_session : ManagedRequest → Text → Moment → W ManagedOutput
  unfolding reserve reserved start_reserved
  start_session r id m w =
      if id == []
      then (w, err (failed (text "session id is required")))
      else let (taken, free) = reserve id w in
        if free then reserved id (start_reserved r id m) taken else (w, err session_active)

  -- `Start`: a full-history request is answered from its replay, if there is one.
  unfoldable pub start : ManagedRequest → Moment → W ManagedOutput
  unfolding lookup_history emit_completed_replay history_session_id start_session trim_space
  start r m w =
      if r.run.history_request_key == []
      then start_session r (trim_space r.session_id) m w
      else elim (credential_fingerprint p r.credential_scope r.account_key) [
        | err e ↦ (w, err e)
        | ok fingerprint ↦
            elim (lookup_history p fingerprint r.run.history_request_key m.now w.store) [
              | ok replay ↦
                  let (shown, output) = emit_completed_replay encoder replay w in (shown, ok output)
              | err session_not_pending ↦
                  start_session r
                    (trim_space (history_session_id p fingerprint r.run.history_request_key)) m w
              | err e ↦ (w, err e)
            ]
      ]
