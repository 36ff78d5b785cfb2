-- ===== src/Manager/Resume/Told.antt =====
-- What the requests that wait hear of a leader that failed: the error paths of `ResumeTools` in
-- cursoragentv1/manager.go.
use cursor_agent2api.Base.{
  ℕ, ◌≡◌, refl, ap, ◌∙◌, Bool, true, false, if◌then◌else◌, map, [], Option, none, some, Text, arith,
  ◌==◌,
}
use cursor_agent2api.Ids.{Error, Result, ok, err, session_not_pending, to_tool_result}
use cursor_agent2api.Snapshot.{Encoder}
use cursor_agent2api.Store.{Platform}
use cursor_agent2api.Store.Resolve.{resolve_pending}
use cursor_agent2api.Store.Tombstone.{CompletedReplay}
use cursor_agent2api.Store.Directory.{lookup}
use cursor_agent2api.Manager.World.{World, Moment, put_store}
use cursor_agent2api.Manager.Flights.{wait_resume_flight, land}
use cursor_agent2api.Manager.Flights.Single.{end-same}
use cursor_agent2api.Manager.Turns.{ManagedOutput}
use cursor_agent2api.Manager.Replays.{lookup_request_replay, metering_version_error}
use cursor_agent2api.Manager.Resumption.{Resumption}
use cursor_agent2api.Manager.Resume.{
  fail_flight, or_fail, resume_active, resume_saved, resume_replayed, resume_waiting,
  resume_resolved, resume_led,
}
use cursor_agent2api.Manager.Resume.Keeps.{resume_active-Keeps, resume_saved-Keeps, lookup-Keeps}

module _ (p : Platform) (encoder : Encoder) where
  -- An error of the leader is the answer to those who wait.
  abbrev Told : {A : Type 0} → ℕ → World × Result A → Type 0
  Told a r = (e : Error) → r.1 ≡ err e → wait_resume_flight a r.0 ≡ some (err e)

  fail-Told :
      (A : Type 0) (q : Resumption) (a : ℕ) (x : Error) (w : World)
      → (w.flight_at a).done ≡ false
      → Told a (fail_flight p encoder {A = A} q a x w)
  unfolding fail_flight wait_resume_flight land
  fail-Told A q a x w open_ e h =
      let (landed, same) = end-same q.fingerprint q.original_batch a none (some x) w in
      ground (arith, open_, landed, h)

  replayed-Told :
      (q : Resumption) (a : ℕ) (replay : CompletedReplay) (w : World)
      → (w.flight_at a).done ≡ false
      → Told a (resume_replayed p encoder q a replay w)
  unfolding resume_replayed
  replayed-Told q a replay w open_ e h =
      ground (arith, h, fail-Told ManagedOutput q a metering_version_error w open_ e)

  after-Told :
      (q : Resumption) (a : ℕ) (r : World × Result ManagedOutput)
      → (r.0.flight_at a).done ≡ false
      → Told a (or_fail p encoder q a r)
  unfolding or_fail
  after-Told q a (t, ok output) open_ e h = ground (arith, h)
  after-Told q a (t, err x) open_ e h = fail-Told ManagedOutput q a x t open_ e h

  waiting-Told :
      (q : Resumption) (session_id : Text) (a : ℕ) (m : Moment) (w : World)
      → (w.flight_at a).done ≡ false
      → Told a (resume_waiting p encoder q session_id a m w)
  unfolding resume_waiting
  waiting-Told q session_id a m w open_ =
      by_session (session_id == []) refl (lookup session_id w.active) refl
    where
      by_session :
          (empty : Bool)
          → (session_id == []) ≡ empty
          → (o : Option ℕ) → lookup session_id w.active ≡ o
          → Told a (resume_waiting p encoder q session_id a m w)
      by_session true k o l e h =
          ground (arith, k, h, fail-Told ManagedOutput q a session_not_pending w open_ e)
      by_session false k none l e h = ground (
        arith,
        k,
        l,
        h,
        after-Told q a (resume_saved p encoder q session_id a m w)
            (ap (λ g. (g a).done) (resume_saved-Keeps p encoder q session_id a m w) ∙ open_) e,
      )
      by_session false k (some i) l e h = ground (
        arith,
        k,
        l,
        h,
        after-Told q a (resume_active p encoder q session_id i a m w)
            (ap (λ g. (g a).done) (resume_active-Keeps p encoder q session_id i a m w) ∙ open_) e,
      )

  resolved-Told :
      (q : Resumption) (session_id : Text) (a : ℕ) (m : Moment) (w : World)
      → (w.flight_at a).done ≡ false
      → Told a (resume_resolved p encoder q session_id a m w)
  unfolding resume_resolved
  resolved-Told q session_id a m w open_ =
      let results = if session_id == [] then q.results else map to_tool_result q.accepted in
      let looked = lookup_request_replay p q.fingerprint results q.follow_up m.now w in
      by_found looked.1 looked.0 refl (
        ap (λ g. (g a).done) (lookup-Keeps p encoder q.fingerprint results q.follow_up m.now w)
        ∙ open_)
    where
      by_found :
          (r : Result CompletedReplay) (t : World)
          → lookup_request_replay p q.fingerprint
              (if session_id == [] then q.results else map to_tool_result q.accepted)
              q.follow_up
              m.now
              w
            ≡ (t, r)
          → (t.flight_at a).done ≡ false
          → Told a (resume_resolved p encoder q session_id a m w)
      by_found (ok replay) t l still e h = ground (arith, l, h, replayed-Told q a replay t still e)
      by_found (err session_not_pending) t l still e h =
          ground (arith, l, h, waiting-Told q session_id a m t still e)
      by_found (err x) t l still e h = ground (arith, l, h, fail-Told ManagedOutput q a x t still e)

  -- A leader that fails ends its flight, which was under way, and every request that waits for the
  -- flight hears the same error.
  pub resume_led-told :
      (q : Resumption) (a : ℕ) (m : Moment) (w : World) (e : Error)
      → (w.flight_at a).done ≡ false
      → (resume_led p encoder q a m w).1 ≡ err e
      → wait_resume_flight a (resume_led p encoder q a m w).0 ≡ some (err e)
  unfolding resume_led
  resume_led-told q a m w e open_ =
      by_session (resolve_pending p q.fingerprint q.submitted_ids m.now w.store).1 refl e
    where
      resolved : World
      resolved = put_store (resolve_pending p q.fingerprint q.submitted_ids m.now w.store).0 w

      by_session :
          (r : Result Text)
          → (resolve_pending p q.fingerprint q.submitted_ids m.now w.store).1 ≡ r
          → Told a (resume_led p encoder q a m w)
      by_session (ok session_id) l x h =
          ground (arith, l, h, resolved-Told q session_id a m resolved open_ x)
      by_session (err session_not_pending) l x h =
          ground (arith, l, h, resolved-Told q [] a m resolved open_ x)
      by_session (err y) l x h =
          ground (arith, l, h, fail-Told ManagedOutput q a y resolved open_ x)
