-- ===== src/Manager/Resume/Keeps.antt =====
-- `ResumeTools` of cursoragentv1/manager.go changes no flight before it ends one.
use cursor_agent2api.Base.{
  ℕ, trim_space, ◌∷◌, ◌≡◌, refl, ◌∙◌, Bool, true, false, List, if◌then◌else◌, ◌+◌, map, [], Option,
  none, some, Text, arith, ◌==◌,
}
use cursor_agent2api.Types.{Event, ToolResult}
use cursor_agent2api.Ids.{Error, Result, ok, err, session_active, PendingTool, to_tool_result}
use cursor_agent2api.Snapshot.{Encoder}
use cursor_agent2api.Store.{Platform, StateSnapshot, OwnerLease}
use cursor_agent2api.Store.Claim.{ClaimResult, granted, replayed}
use cursor_agent2api.Store.Claim.Run.{claim}
use cursor_agent2api.Manager.World.{RunRequest, World, Moment, W, ◌>>=◌, put_session, on_store, at}
use cursor_agent2api.Manager.Events.Frame.{emit_all-same}
use cursor_agent2api.Manager.Flights.{bind_resume_flight}
use cursor_agent2api.Manager.Turns.{
  hand_over, update_billing, resume_with, resume_session, start_claimed, is_busy, resumed,
}
use cursor_agent2api.Store.Claim.{is_metered_turn}
use cursor_agent2api.Manager.Calls.{filter_pending_map_results, upstream_tool_result}
use cursor_agent2api.Manager.Output.{new_managed_output}
use cursor_agent2api.Store.Mutation.{usage_evidence_events}
use cursor_agent2api.Manager.Replays.{lookup_request_replay}
use cursor_agent2api.Manager.Start.{
  reserve, reserved, release_reservation, give_back, map_error, resume_error, or_new, fresh_of,
}
use cursor_agent2api.Manager.Resumption.{Resumption, keep_follow_up}
use cursor_agent2api.Manager.Resume.{
  segment_of, claim_saved, follow_up_of, resume_options, resume_active, resume_granted,
  resume_claimed, resume_saved,
}

-- An operation that changes no flight.
abbrev pub Keeps : {A : Type 0} → W A → Type 0
Keeps f = (w : World) → (f w).0.flight_at ≡ w.flight_at

then-same :
    {A B : Type 0} (f : W A) (next : A → W B) (w : World) (r : Result A)
    → (f w).1 ≡ r
    → (f w).0.flight_at ≡ w.flight_at
    → ((a : A) → Keeps (next a))
    → ((f >>= next) w).0.flight_at ≡ w.flight_at
then-same f next w (ok a) h same later = ground (arith, h, same, later a (f w).0)
then-same f next w (err e) h same later = ground (arith, h, same)

then-Keeps :
    {A B : Type 0} (f : W A) (next : A → W B)
    → Keeps f
    → ((a : A) → Keeps (next a))
    → Keeps (f >>= next)
then-Keeps f next kept later = λ w. then-same f next w (f w).1 refl (kept w) later

if-Keeps :
    {A : Type 0} (b : Bool) (f g : W A) → Keeps f → Keeps g → Keeps (λ w. if b then f w else g w)
if-Keeps true f g h k = h
if-Keeps false f g h k = k

module _ (p : Platform) (encoder : Encoder) where
  hand_over-same :
      (i address : ℕ) (carry : List Event) (results : List ToolResult) (w : World)
      → (hand_over p encoder i address carry results w).0.flight_at ≡ w.flight_at
  unfolding hand_over
  hand_over-same i address carry results w = ground (arith, emit_all-same encoder i carry w)

  update_billing-same :
      (o : OwnerLease) (segment_id : Text) (m : Moment) (w : World)
      → (update_billing p encoder o segment_id m w).0.flight_at ≡ w.flight_at
  unfolding update_billing
  update_billing-same o segment_id m w = ground arith

  resume_with-Keeps :
      (i : ℕ) (filtered results : List ToolResult) (batch : List Text)
      (segment_results : List ToolResult) (segment_id request_segment_id : Text) (disable : Bool)
      → Keeps (
          resume_with p encoder i filtered results batch segment_results segment_id
            request_segment_id disable)
  unfolding resume_with
  resume_with-Keeps i filtered results batch segment_results segment_id request_segment_id disable =
      λ w. by_busy w (is_busy (w.sessions i)) refl
    where
      by_busy :
          (w : World) (b : Bool)
          → is_busy (w.sessions i) ≡ b
          → (resume_with p encoder i filtered results batch segment_results segment_id
              request_segment_id disable w).0.flight_at
            ≡ w.flight_at
      by_busy w true h = ground (arith, h)
      by_busy w false h =
          let s =
            resumed segment_id request_segment_id disable batch segment_results results w.next
              (w.sessions i) in
          ground (
            arith,
            h,
            hand_over-same i w.next (usage_evidence_events s.billing_carry)
                (map (upstream_tool_result s.pending) filtered)
                (record w {
                  sessions = at i s w.sessions;
                  outputs = at w.next new_managed_output w.outputs;
                  next = w.next + 1;
                }),
          )

  resume_session-Keeps :
      (i : ℕ) (results : List ToolResult) (batch : List Text) (segment_results : List ToolResult)
      (segment_id : Text) (disable : Bool) (m : Moment)
      → Keeps (resume_session p encoder i results batch segment_results segment_id disable m)
  unfolding resume_session
  resume_session-Keeps i results batch segment_results segment_id disable m =
      λ w. by_filter w (filter_pending_map_results (w.sessions i).pending results) refl
    where
      by_filter :
          (w : World) (f : Option (List ToolResult))
          → filter_pending_map_results (w.sessions i).pending results ≡ f
          → (resume_session p encoder i results batch segment_results segment_id disable m
              w).0.flight_at
            ≡ w.flight_at
      by_filter w none h = ground (arith, h)
      by_filter w (some filtered) h =
          let o = (w.sessions i).owner in
          let billing = if is_metered_turn o.billing_run_id then o.billing_run_id else segment_id in
          ground (
            arith,
            h,
            then-Keeps (update_billing p encoder o billing m)
                (λ _.
                  resume_with p encoder i filtered results batch segment_results billing segment_id
                    disable)
                (λ u. update_billing-same o billing m u)
                (λ _.
                  resume_with-Keeps i filtered results batch segment_results billing segment_id
                    disable)
                w,
          )

  bind-same :
      (session_id fingerprint : Text) (batch : List Text) (a : ℕ) (w : World)
      → (bind_resume_flight session_id fingerprint batch a w).flight_at ≡ w.flight_at
  unfolding bind_resume_flight
  bind-same session_id fingerprint batch a w = ground arith

  pub resume_active-Keeps :
      (q : Resumption) (session_id : Text) (i a : ℕ) (m : Moment)
      → Keeps (resume_active p encoder q session_id i a m)
  unfolding resume_active
  resume_active-Keeps q session_id i a m w =
      let s = w.sessions i in
      let noted =
        if q.follow_up == []
        then w
        else put_session i (record s { pending_follow_up = q.follow_up }) w in
      let bound = bind_resume_flight session_id q.fingerprint q.original_batch a noted in
      ground (
        arith,
        bind-same session_id q.fingerprint q.original_batch a noted,
        resume_session-Keeps i q.results q.original_batch (map to_tool_result q.accepted)
            (segment_of p encoder q) q.request.disable_caller_tools m bound,
      )

  start_claimed-Keeps :
      (r : RunRequest) (o : OwnerLease) (restored : List PendingTool)
      (initial covering : List ToolResult) (batch : List Text) (carry : List Event) (disable : Bool)
      → Keeps (start_claimed r o restored initial covering batch carry disable)
  unfolding start_claimed
  start_claimed-Keeps r o restored initial covering batch carry disable w = ground arith

  give_back-Keeps : (A : Type 0) (o : OwnerLease) (e : Error) → Keeps (give_back {A = A} o e)
  unfolding give_back
  give_back-Keeps A o e w = refl

  keep_follow_up-same :
      (session_id follow_up : Text) (w : World)
      → (keep_follow_up session_id follow_up w).flight_at ≡ w.flight_at
  unfolding keep_follow_up
  keep_follow_up-same session_id follow_up w = ground arith

  reserved-Keeps :
      {A : Type 0} (session_id : Text) (body : W (A × Bool)) (w : World) (r : Result (A × Bool))
      → (body w).1 ≡ r
      → (body w).0.flight_at ≡ w.flight_at
      → (reserved session_id body w).0.flight_at ≡ w.flight_at
  unfolding reserved release_reservation
  reserved-Keeps session_id body w (ok (a, kept)) h same = ground (arith, h, same)
  reserved-Keeps session_id body w (err e) h same = ground (arith, h, same)

  resume_granted-Keeps :
      (q : Resumption) (o : OwnerLease) (x : StateSnapshot) (cold : Bool)
      → Keeps (resume_granted p encoder q o x cold)
  unfolding resume_granted start_claimed give_back
  resume_granted-Keeps q o x cold w = ground arith

  resume_claimed-Keeps :
      (q : Resumption) (session_id : Text) (a : ℕ) (c : ClaimResult)
      → Keeps (resume_claimed p encoder q session_id a c)
  unfolding resume_claimed
  resume_claimed-Keeps q session_id a (replayed replay) = λ w. refl
  resume_claimed-Keeps q session_id a (granted o x cold) =
      then-Keeps (resume_granted p encoder q o x cold)
        (λ output t. (
          bind_resume_flight session_id q.fingerprint q.original_batch a
              (keep_follow_up session_id (follow_up_of p encoder q x) t),
          ok (output, true),
        ))
        (resume_granted-Keeps q o x cold)
        (λ output t.
          let noted = keep_follow_up session_id (follow_up_of p encoder q x) t in
          bind-same session_id q.fingerprint q.original_batch a noted
          ∙ keep_follow_up-same session_id (follow_up_of p encoder q x) t)

  reserve-Keeps :
      {A : Type 0} (session_id : Text) (body : W (A × Bool)) (e : Error)
      → Keeps body
      → Keeps λ w.
        if (reserve session_id w).1
        then reserved session_id body (reserve session_id w).0
        else (w, err e)
  unfolding reserve
  reserve-Keeps session_id body e kept w =
      let taken = record w { starting = session_id ∷ w.starting } in
      ground (arith, reserved-Keeps session_id body taken (body taken).1 refl (kept taken))

  claim_saved-Keeps :
      (q : Resumption) (session_id : Text) (a : ℕ) (m : Moment)
      → Keeps (claim_saved p encoder q session_id a m)
  unfolding claim_saved
  claim_saved-Keeps q session_id a m =
      then-Keeps
        (map_error resume_error (
          on_store (
            claim p session_id (or_new (trim_space q.request.run.conversation_id) m.conversation_id)
              q.fingerprint (resume_options p encoder q) (fresh_of m))))
        (λ claimed. resume_claimed p encoder q session_id a claimed) (λ u. refl)
        (λ c. resume_claimed-Keeps q session_id a c)

  pub resume_saved-Keeps :
      (q : Resumption) (session_id : Text) (a : ℕ) (m : Moment)
      → Keeps (resume_saved p encoder q session_id a m)
  unfolding resume_saved
  resume_saved-Keeps q session_id a m =
      reserve-Keeps session_id (claim_saved p encoder q session_id a m) session_active
        (claim_saved-Keeps q session_id a m)

  pub lookup-Keeps :
      (fingerprint : Text) (results : List ToolResult) (follow_up : Text) (now : ℕ)
      → Keeps (lookup_request_replay p fingerprint results follow_up now)
  unfolding lookup_request_replay
  lookup-Keeps fingerprint results follow_up now w = ground arith
