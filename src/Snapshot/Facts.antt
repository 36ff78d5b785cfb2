-- ===== src/Snapshot/Facts.antt =====
-- A completed snapshot of cursoragentv1/completed_events.go leaves the usage facts that the events
-- themselves leave.
use cursor_agent2api.Base.{
  ◌≡◌, refl, sym, ap, ◌∙◌, pos, ltb_ℤ, Bool, true, false, ◌||◌, List, [], ◌∷◌, reverse, arith,
  if◌then◌else◌, All,
}
use cursor_agent2api.Types.{Event}
use cursor_agent2api.Usage.Facts.{UsageFacts, observe, observe_all}
use cursor_agent2api.Ids.{Result, ok, err}
use cursor_agent2api.Snapshot.{
  Encoder, EventSnapshot, append_behind, append, append_all, no_events, persist_events,
}
use cursor_agent2api.Snapshot.Append.{seen, Follows, IsRunEvent, ok-same, append_behind-seen}

module _ (encoder : Encoder) where
  append-seen :
      (f : UsageFacts) (s t : EventSnapshot) (e : Event)
      → Follows s.text s.events
      → IsRunEvent e
      → append encoder s e ≡ ok t
      → (seen f t.events ≡ observe (seen f s.events) e) × Follows t.text t.events
  unfolding append
  append-seen f s t e follows run appended =
      by_bytes (ltb_ℤ s.bytes (pos 0) || ltb_ℤ (pos 0) s.bytes) appended
    where
      by_bytes :
          (b : Bool)
          → (let opened = if b then s else record s { bytes = pos 2 } in
              append_behind encoder opened opened.events e)
            ≡ ok t
          → (seen f t.events ≡ observe (seen f s.events) e) × Follows t.text t.events
      by_bytes true done = append_behind-seen encoder f s t s.events e refl follows run done
      by_bytes false done =
          append_behind-seen encoder f (record s { bytes = pos 2 }) t s.events e refl follows run
            done

  append_all-seen :
      (f : UsageFacts) (s t : EventSnapshot) (es : List Event)
      → Follows s.text s.events
      → All IsRunEvent es
      → append_all encoder s es ≡ ok t
      → seen f t.events ≡ observe_all (seen f s.events) es
  unfolding append_all observe_all
  append_all-seen f s t [] follows run appended =
      ap (λ (x : EventSnapshot). seen f x.events) (sym (ok-same s t appended))
  append_all-seen f s t (e ∷ es) follows run appended =
      by_result (append encoder s e) (λ u. append-seen f s u e follows run.0)
        (λ u follows. append_all-seen f u t es follows run.1) appended
    where
      by_result :
          (r : Result EventSnapshot)
          → ((u : EventSnapshot)
              → r ≡ ok u
              → (seen f u.events ≡ observe (seen f s.events) e) × Follows u.text u.events)
          → ((u : EventSnapshot)
              → Follows u.text u.events
              → append_all encoder u es ≡ ok t
              → seen f t.events ≡ observe_all (seen f u.events) es)
          → elim r as (λ _. Result EventSnapshot) [ err x ↦ err x | ok u ↦ append_all encoder u es ]
            ≡ ok t
          → seen f t.events ≡ observe_all (observe (seen f s.events) e) es
      by_result (err x) first rest done = ground (arith, done)
      by_result (ok u) first rest done =
          rest u (first u refl).1 done ∙ ap (λ g. observe_all g es) (first u refl).0

  -- The events that are persisted leave the usage facts that the events of the run leave, whatever
  -- was observed before. The counters of the events are int64s, and only events of their own carry
  -- checkpoints and blobs.
  pub persist_events-facts :
      (f : UsageFacts) (es kept : List Event)
      → All IsRunEvent es
      → persist_events encoder es ≡ ok kept
      → observe_all f kept ≡ observe_all f es
  unfolding persist_events observe_all
  persist_events-facts f es kept run persisted =
      by_result (append_all encoder no_events es) (λ t. append_all-seen f no_events t es tt run)
        persisted
    where
      by_result :
          (r : Result EventSnapshot)
          → ((t : EventSnapshot) → r ≡ ok t → seen f t.events ≡ observe_all f es)
          → elim r as (λ _. Result (List Event)) [ err x ↦ err x | ok t ↦ ok (reverse t.events) ]
            ≡ ok kept
          → observe_all f kept ≡ observe_all f es
      by_result (err x) all done = ground (arith, done)
      by_result (ok t) all done =
          ap (observe_all f) (sym (ok-same (reverse t.events) kept done)) ∙ all t refl
