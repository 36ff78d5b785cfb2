-- ===== src/Manager/Ends/Told.antt =====
-- What the requests that wait hear of a run that ends: `run` and `finishFlight` of
-- cursoragentv1/manager.go.
use cursor_agent2api.Base.{
  ℕ, ◌≡◌, refl, sym, ap, ◌∙◌, Bool, true, false, not, List, [], ◌∷◌, Option, none, some, Text,
  arith, reverse,
}
use cursor_agent2api.Types.{Event, ToolResult}
use cursor_agent2api.Ids.{Error, Result, ok, err, session_not_pending, is_empty}
use cursor_agent2api.Snapshot.{Encoder}
use cursor_agent2api.Store.{Platform, release}
use cursor_agent2api.Store.Tombstone.{CompletedReplay}
use cursor_agent2api.Manager.World.{Session, World, Moment, put_session, put_store}
use cursor_agent2api.Manager.Flights.{
  unbind, session_replay, finish_flight, wait_resume_flight, land,
}
use cursor_agent2api.Manager.Flights.Single.{end-same}
use cursor_agent2api.Manager.Ends.{
  end_segment, run_results, conclude_output, first_error, leave_active, delete_finished, settle,
  save_run, finish_run,
}
use cursor_agent2api.Manager.Ends.Honest.{
  session, ended, saved, finish-failed, finish-unsaved, finish-saved,
}

-- The answer to the requests that wait: the error of the run, or its events, if it was given results.
unfoldable pub told : Session → Option Error → List ToolResult → Result CompletedReplay
told s (some e) results = err e
told s none [] = err session_not_pending
told s none (r ∷ rs) = ok (record {
  session_id = s.owner.session_id;
  conversation_id = s.owner.conversation_id;
  billing_run_id = s.owner.billing_run_id;
  request_segment_id = s.owner.request_segment_id;
  original_batch = s.flight_batch;
  events = reverse s.segment_snapshot.events;
  has_pending = not (is_empty s.pending);
  follow_up_text = s.snapshot_follow_up;
})

landed-told :
    (s : Session) (e : Option Error) (results : List ToolResult) (a : ℕ) (w t : World)
    → (w.flight_at a).done ≡ false
    → (w.flight_at a).replay ≡ none
    → t.flight_at a
      ≡ land
          (session_replay s e results
            (reverse s.segment_snapshot.events)
            (not (is_empty s.pending))
            s.snapshot_follow_up)
          e
          (w.flight_at a)
    → wait_resume_flight a t ≡ some (told s e results)
unfolding told land session_replay wait_resume_flight
landed-told s (some e) results a w t open_ fresh_ h = ground (arith, open_, fresh_, h)
landed-told s none [] a w t open_ fresh_ h = ground (arith, open_, fresh_, h)
landed-told s none (r ∷ rs) a w t open_ fresh_ h = ground (arith, open_, fresh_, h)

finish_flight-lands :
    (i : ℕ) (e : Option Error) (results : List ToolResult) (events : List Event) (more : Bool)
    (follow_up : Text) (a : ℕ) (w : World)
    → (w.sessions i).flight ≡ some a
    → (finish_flight i e results events more follow_up w).flight_at a
      ≡ land (session_replay (w.sessions i) e results events more follow_up) e (w.flight_at a)
unfolding finish_flight
finish_flight-lands i e results events more follow_up a w h =
    let s = w.sessions i in
    ground (
      arith,
      h,
      end-same s.flight_fingerprint s.flight_batch a
          (session_replay s e results events more follow_up) e (put_session i (unbind s) w),
    )

module _ (p : Platform) (encoder : Encoder) where
  deleted-flights :
      (s : Session) (e : Option Error) (m : Moment) (w : World)
      → (delete_finished p encoder s e m w).flight_at ≡ w.flight_at
  unfolding delete_finished
  deleted-flights s none m w = ground arith
  deleted-flights s (some e) m w = refl

  idle-flights : (i : ℕ) (id : Text) (w : World) → (leave_active i id w).flight_at ≡ w.flight_at
  unfolding leave_active
  idle-flights i id w = ground arith

  concluded-flights :
      (s : Session) (e : Option Error) (w : World) → (conclude_output s e w).flight_at ≡ w.flight_at
  unfolding conclude_output
  concluded-flights s e w = ground arith

  settle-flights :
      (i : ℕ) (s : Session) (e : Option Error) (m : Moment) (w : World)
      → (settle p encoder i s e m w).flight_at
        ≡ (finish_flight i e
            (run_results s)
            (reverse s.segment_snapshot.events)
            (not (is_empty s.pending))
            s.snapshot_follow_up
            w).flight_at
  unfolding settle
  settle-flights i s e m w =
      let landed =
        finish_flight i e (run_results s) (reverse s.segment_snapshot.events)
          (not (is_empty s.pending)) s.snapshot_follow_up w in
      let deleted = delete_finished p encoder s e m landed in
      let freed = put_store (release s.owner deleted.store) deleted in
      concluded-flights s e (leave_active i s.owner.session_id freed)
      ∙ idle-flights i s.owner.session_id freed
      ∙ deleted-flights s e m landed

-- The end of a segment leaves what a replay says of the session.
replay-ended :
    (s : Session) (e : Option Error) (results : List ToolResult) (events : List Event) (more : Bool)
    (follow_up : Text)
    → session_replay (record (end_segment s) { closed = true }) e results events more follow_up
      ≡ session_replay s e results events more follow_up
unfolding session_replay end_segment
replay-ended s none results events more follow_up = ground arith
replay-ended s (some e) results events more follow_up = refl

module _ (p : Platform) (encoder : Encoder) (i : ℕ) (outcome : Option Error) (m : Moment)
    (w : World) where
  abbrev now : Session
  now = session p encoder i outcome m w

  abbrev before_save : World
  before_save = ended p encoder i outcome m w

  abbrev save : World × Result (Unit {0})
  save = saved p encoder i outcome m w

  -- The error of the run, of which the save of its replay is a part.
  abbrev pub end_error : Option Error
  end_error = elim (first_error now.state_err outcome) [
    | some e ↦ some e
    | none ↦ elim save.1 [ ok _ ↦ none | err e ↦ some e ]
  ]

  before_save-session : before_save.sessions i ≡ record (end_segment now) { closed = true }
  before_save-session = ground arith

  save-sessions : (save.0.sessions ≡ before_save.sessions) × (save.0.flight_at ≡ w.flight_at)
  unfolding save_run
  save-sessions = (ground arith, ground arith)

  ended_flight :
      before_save.sessions i ≡ record (end_segment now) { closed = true }
      → (before_save.sessions i).flight ≡ now.flight
  unfolding end_segment
  ended_flight h = ap (λ s. s.flight) h

  settle-told :
      (e : Option Error) (t : World) (a : ℕ)
      → t.sessions ≡ before_save.sessions
      → t.flight_at ≡ w.flight_at
      → now.flight ≡ some a
      → (w.flight_at a).done ≡ false
      → (w.flight_at a).replay ≡ none
      → wait_resume_flight a (settle p encoder i now e m t) ≡ some (told now e (run_results now))
  settle-told e t a same kept flies open_ fresh_ =
      let events = reverse now.segment_snapshot.events in
      let more = not (is_empty now.pending) in
      let here = ap (λ g. g i) same ∙ before_save-session in
      landed-told now e (run_results now) a w (settle p encoder i now e m t) open_ fresh_ (
        ap (λ g. g a) (settle-flights p encoder i now e m t)
        ∙ finish_flight-lands i e (run_results now) events more now.snapshot_follow_up a t
            (ap (λ g. (g i).flight) same ∙ ended_flight before_save-session ∙ flies)
        ∙ ap
            (λ s.
              land (session_replay s e (run_results now) events more now.snapshot_follow_up) e
                (t.flight_at a))
            here
        ∙ ap (λ r. land r e (t.flight_at a))
            (replay-ended now e (run_results now) events more now.snapshot_follow_up)
        ∙ ap
            (λ g.
              land (session_replay now e (run_results now) events more now.snapshot_follow_up) e
                (g a))
            kept)

  settled :
      (e : Option Error) (t : World) (a : ℕ)
      → finish_run p encoder i outcome m w ≡ settle p encoder i now e m t
      → end_error ≡ e
      → t.sessions ≡ before_save.sessions
      → t.flight_at ≡ w.flight_at
      → now.flight ≡ some a
      → (w.flight_at a).done ≡ false
      → (w.flight_at a).replay ≡ none
      → wait_resume_flight a (finish_run p encoder i outcome m w)
        ≡ some (told now end_error (run_results now))
  settled e t a ends h same kept flies open_ fresh_ =
      ap (wait_resume_flight a) ends
      ∙ settle-told e t a same kept flies open_ fresh_
      ∙ sym (ap (λ o. some (told now o (run_results now))) h)

  -- When a run ends, the flight under way that its session was resumed by ends too. Every request
  -- that waits for it hears the error of the run or of the save of its replay; without one it gets a
  -- replay of the events of the run, or hears that nothing is pending where the run had no results.
  pub finish_run-told :
      (a : ℕ)
      → now.flight ≡ some a
      → (w.flight_at a).done ≡ false
      → (w.flight_at a).replay ≡ none
      → wait_resume_flight a (finish_run p encoder i outcome m w)
        ≡ some (told now end_error (run_results now))
  finish_run-told a flies open_ fresh_ =
      by_error (first_error now.state_err outcome) refl save.1 refl
    where
      by_error :
          (f : Option Error)
          → first_error now.state_err outcome ≡ f
          → (r : Result (Unit {0})) → save.1 ≡ r
          → wait_resume_flight a (finish_run p encoder i outcome m w)
            ≡ some (told now end_error (run_results now))
      by_error (some e) failed r k =
          settled (some e) before_save a (finish-failed p encoder i outcome m w e failed)
            (ground (arith, failed)) refl refl flies open_ fresh_
      by_error none clean (err e) k =
          settled (some e) save.0 a (finish-unsaved p encoder i outcome m w e clean k)
            (ground (arith, clean, k)) save-sessions.0 save-sessions.1 flies open_ fresh_
      by_error none clean (ok tt) k =
          settled none save.0 a (finish-saved p encoder i outcome m w clean k)
            (ground (arith, clean, k)) save-sessions.0 save-sessions.1 flies open_ fresh_
