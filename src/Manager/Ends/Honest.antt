-- ===== src/Manager/Ends/Honest.antt =====
-- A client hears of the end of a run only behind its replay: the end of `run` of
-- cursoragentv1/manager.go.
use cursor_agent2api.Base.{
  ℕ, ◌≡◌, ◌≢◌, ◌⊎◌, inl, inr, refl, sym, ap, subst, ◌∙◌, true, false, Option, none, some, arith,
  reverse,
}
use cursor_agent2api.Types.{Event}
use cursor_agent2api.Ids.{Error, Result, ok, err}
use cursor_agent2api.Snapshot.{Encoder}
use cursor_agent2api.Store.{Platform}
use cursor_agent2api.Manager.Output.{Output, close}
use cursor_agent2api.Manager.World.{Session, World, Moment, put_session}
use cursor_agent2api.Manager.Ends.{
  conclude, conclude_output, first_error, end_segment, save_run, settle, finish_run,
}
use cursor_agent2api.Manager.Ends.Frame.{SameCompleted, settle-same}

-- The client is told of a success: the result says so, or an event came at the end.
abbrev pub HearsSuccess : Output → Output → Type 0
HearsSuccess o t = (t.result ≡ some none) ⊎ (t.buffered ≢ o.buffered)

conclude-error :
    (terminal : Option Event) (e : Error) (o : Output)
    → o.closed ≡ false
    → ¬ HearsSuccess o (conclude terminal (some e) o)
unfolding conclude close
conclude-error terminal e o open_ (inl h) = ground (arith, open_, h)
conclude-error terminal e o open_ (inr h) = ground (arith, open_, h)

module _ (p : Platform) (encoder : Encoder) (i : ℕ) (outcome : Option Error) (m : Moment)
    (w : World) where
  abbrev pub session : Session
  session = w.sessions i

  -- The world in which the replay is saved.
  abbrev pub ended : World
  ended = put_session i (record (end_segment session) { closed = true }) w

  abbrev pub saved : World × Result (Unit {0})
  saved = save_run p encoder session (reverse session.segment_snapshot.events) m ended

  outputs-saved : saved.0.outputs ≡ w.outputs
  unfolding save_run
  outputs-saved = ground arith

  settled :
      (e : Option Error) (t : World) (a : ℕ)
      → session.output ≡ some a
      → t.outputs ≡ w.outputs
      → (settle p encoder i session e m t).outputs a
        ≡ conclude session.terminal_event e (w.outputs a)
  unfolding conclude_output
  settled e t a client same =
      ap (λ (o : ℕ → Output). o a) (settle-same p encoder i session e m t).0
      ∙ ground (arith, client, same)

  abbrev finished : World
  finished = finish_run p encoder i outcome m w

  pub finish-failed :
      (e : Error)
      → first_error session.state_err outcome ≡ some e
      → finished ≡ settle p encoder i session (some e) m ended
  unfolding finish_run
  finish-failed e h = ground (arith, h)

  pub finish-saved :
      first_error session.state_err outcome ≡ none
      → saved.1 ≡ ok tt
      → finished ≡ settle p encoder i session none m saved.0
  unfolding finish_run
  finish-saved h k = ground (arith, h, k)

  pub finish-unsaved :
      (e : Error)
      → first_error session.state_err outcome ≡ none
      → saved.1 ≡ err e
      → finished ≡ settle p encoder i session (some e) m saved.0
  unfolding finish_run
  finish-unsaved e h k = ground (arith, h, k)

  unheard :
      (e : Error) (t : World) (a : ℕ)
      → session.output ≡ some a
      → (w.outputs a).closed ≡ false
      → t.outputs ≡ w.outputs
      → finished ≡ settle p encoder i session (some e) m t
      → ¬ HearsSuccess (w.outputs a) (finished.outputs a)
  unheard e t a client open_ same ends hears =
      conclude-error session.terminal_event e (w.outputs a) open_ (
        subst (HearsSuccess (w.outputs a))
          (ap (λ (u : World). u.outputs a) ends ∙ settled (some e) t a client same) hears)

  -- A client with an open output that hears of a success at the end of a run, by the result or by the
  -- last event, hears it of a run without errors whose replay was saved, and the completed snapshots
  -- of the store are those of that save.
  pub finish_run-honest :
      (a : ℕ)
      → session.output ≡ some a
      → (w.outputs a).closed ≡ false
      → HearsSuccess (w.outputs a) ((finish_run p encoder i outcome m w).outputs a)
      → (first_error session.state_err outcome ≡ none)
        × (saved.1 ≡ ok tt)
        × SameCompleted saved.0.store (finish_run p encoder i outcome m w).store
  finish_run-honest a client open_ hears =
      by_error (first_error session.state_err outcome) refl saved.1 refl
    where
      by_error :
          (f : Option Error)
          → first_error session.state_err outcome ≡ f
          → (r : Result (Unit {0})) → saved.1 ≡ r
          → (first_error session.state_err outcome ≡ none)
            × (saved.1 ≡ ok tt)
            × SameCompleted saved.0.store finished.store
      by_error (some e) failed r k =
          absurd (unheard e ended a client open_ refl (finish-failed e failed) hears)
      by_error none clean (err e) k =
          absurd (unheard e saved.0 a client open_ outputs-saved (finish-unsaved e clean k) hears)
      by_error none clean (ok tt) k = (
        clean,
        k,
        subst (λ (u : World). SameCompleted saved.0.store u.store) (sym (finish-saved clean k))
            (settle-same p encoder i session none m saved.0).1,
      )
