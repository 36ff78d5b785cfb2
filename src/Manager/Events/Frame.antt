-- ===== src/Manager/Events/Frame.antt =====
-- What `emit` of cursoragentv1/manager.go leaves alone.
use cursor_agent2api.Base.{
  ℕ, ◌≡◌, refl, ◌∙◌, true, List, [], ◌∷◌, Option, none, some, arith, Option-cases, Bool-cases, inl,
  inr,
}
use cursor_agent2api.Types.{Event}
use cursor_agent2api.Ids.{Error, Result, ok, err}
use cursor_agent2api.Snapshot.{Encoder, EventSnapshot, append}
use cursor_agent2api.Manager.Output.{send}
use cursor_agent2api.Manager.World.{Session, World, put_session}
use cursor_agent2api.Manager.Events.{fail_session, fail_state, deliver, emit_out, emit, emit_all}

-- The session with the same owner, calls and results; what may change is its error, its snapshot and
-- its last event.
pub record SameTurn (s t : Session) : Type 0 where
  pub owner : t.owner ≡ s.owner
  pub request : t.request ≡ s.request
  pub pending : t.pending ≡ s.pending
  pub output : t.output ≡ s.output
  pub tool_results : t.tool_results ≡ s.tool_results
  pub closed : t.closed ≡ s.closed
  pub flight : t.flight ≡ s.flight
  pub segment_batch : t.segment_batch ≡ s.segment_batch
  pub segment_results : t.segment_results ≡ s.segment_results

-- The world with the same turn at `i`, and nothing else changed but the outputs.
pub record SameWorld (i : ℕ) (w t : World) : Type 0 where
  pub store : t.store ≡ w.store
  pub active : t.active ≡ w.active
  pub starting : t.starting ≡ w.starting
  pub flights : t.flights ≡ w.flights
  pub flight_at : t.flight_at ≡ w.flight_at
  pub next : t.next ≡ w.next
  pub turn : SameTurn (w.sessions i) (t.sessions i)

SameTurn-refl : (s : Session) → SameTurn s s
SameTurn-refl s = ground arith

pub SameWorld-refl : (i : ℕ) (w : World) → SameWorld i w w
SameWorld-refl i w = record {
  store = refl;
  active = refl;
  starting = refl;
  flights = refl;
  flight_at = refl;
  next = refl;
  turn = SameTurn-refl (w.sessions i);
}

SameTurn-trans : (s t u : Session) → SameTurn s t → SameTurn t u → SameTurn s u
SameTurn-trans s t u h k = ground (arith, h, k)

pub SameWorld-trans : (i : ℕ) (w t u : World) → SameWorld i w t → SameWorld i t u → SameWorld i w u
SameWorld-trans i w t u h k = record {
  store = k.store ∙ h.store;
  active = k.active ∙ h.active;
  starting = k.starting ∙ h.starting;
  flights = k.flights ∙ h.flights;
  flight_at = k.flight_at ∙ h.flight_at;
  next = k.next ∙ h.next;
  turn = SameTurn-trans (w.sessions i) (t.sessions i) (u.sessions i) h.turn k.turn;
}

fail_state-same : (i : ℕ) (e : Error) (w : World) → SameWorld i w (fail_state i e w)
unfolding fail_state fail_session
fail_state-same i e w = ground arith

deliver-same : (i : ℕ) (e : Event) (a : ℕ) (w : World) → SameWorld i w (deliver i e a w)
unfolding deliver send fail_state fail_session
deliver-same i e a w = ground arith

emit_out-same : (i : ℕ) (e : Event) (w : World) → SameWorld i w (emit_out i e w)
unfolding emit_out
emit_out-same i e w = by_output (w.sessions i).output refl
  where
    by_output : (o : Option ℕ) → (w.sessions i).output ≡ o → SameWorld i w (emit_out i e w)
    by_output none h = ground (arith, h)
    by_output (some a) h = ground (arith, h, deliver-same i e a w)

module _ (encoder : Encoder) where
  snapshot-same :
      (i : ℕ) (t : EventSnapshot) (w : World)
      → SameWorld i w (put_session i (record (w.sessions i) { segment_snapshot = t }) w)
  snapshot-same i t w = ground arith

  captured-same :
      (i : ℕ) (e : Event) (w : World) (r : Result EventSnapshot)
      → append encoder (w.sessions i).segment_snapshot e ≡ r
      → (w.sessions i).state_err ≡ none
      → (w.sessions i).capturing ≡ true
      → SameWorld i w (emit encoder i e w)
  unfolding emit
  captured-same i e w (err x) h clean on = ground (arith, h, clean, on, fail_state-same i x w)
  captured-same i e w (ok t) h clean on =
      let w' = put_session i (record (w.sessions i) { segment_snapshot = t }) w in
      let same =
        SameWorld-trans i w w' (emit_out i e w') (snapshot-same i t w) (emit_out-same i e w') in
      ground (arith, h, clean, on, same)

  pub emit-same : (i : ℕ) (e : Event) (w : World) → SameWorld i w (emit encoder i e w)
  unfolding emit
  emit-same i e w = elim (Option-cases (w.sessions i).state_err) [
    | inr (x, failed) ↦ ground (arith, failed, SameWorld-refl i w)
    | inl clean ↦ elim (Bool-cases (w.sessions i).capturing) [
      | inl on ↦
          captured-same i e w (append encoder (w.sessions i).segment_snapshot e) refl clean on
      | inr off ↦ ground (arith, clean, off, emit_out-same i e w)
    ]
  ]

  pub emit_all-same :
      (i : ℕ) (es : List Event) (w : World) → SameWorld i w (emit_all encoder i es w)
  unfolding emit_all
  emit_all-same i [] w = SameWorld-refl i w
  emit_all-same i (e ∷ es) w =
      SameWorld-trans i w (emit encoder i e w) (emit_all encoder i (e ∷ es) w) (emit-same i e w)
        (emit_all-same i es (emit encoder i e w))
