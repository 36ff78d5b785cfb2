-- ===== src/Snapshot/Append.antt =====
-- What one event more does to a completed snapshot of cursoragentv1/completed_events.go, as the
-- usage facts see it.
use mathlib.Core.List.{reverse-cons}
use cursor_agent2api.Base.{
  ◌≡◌, refl, sym, ap, ◌∙◌, Bool, true, false, ◌&&◌, ◌||◌, List, [], ◌∷◌, ◌++◌, Option, none, some,
  reverse, arith, subst, if◌then◌else◌, Text, ◌==◌,
}
use cursor_agent2api.Types.{Event, clone_event}
use cursor_agent2api.Usage.Facts.{UsageFacts, observe, observe_all}
use cursor_agent2api.Ids.{Result, ok, is_empty}
use cursor_agent2api.Snapshot.{
  Encoder, EventSnapshot, snapshot_text, same_text, merge_snapshot_usage, append_text,
  append_merged, append_new, append_behind, joined_progress, is_thinking, is_text,
}
use cursor_agent2api.Snapshot.Coalescing.{
  IsWire, observe-clone, observe-text, observe-thinking, observe-usage,
}

observe_all-append :
    (f : UsageFacts) (xs ys : List Event)
    → observe_all f (xs ++ ys) ≡ observe_all (observe_all f xs) ys
unfolding observe_all
observe_all-append f [] ys = refl
observe_all-append f (x ∷ xs) ys = observe_all-append (observe f x) xs ys

-- What the events of a snapshot leave behind, the newest coming last.
abbrev pub seen : UsageFacts → List Event → UsageFacts
seen f es = observe_all f (reverse es)

seen-cons : (f : UsageFacts) (e : Event) (es : List Event) → seen f (e ∷ es) ≡ observe (seen f es) e
unfolding observe_all
seen-cons f e es =
    ap (observe_all f) (reverse-cons e es) ∙ observe_all-append f (reverse es) (e ∷ [])

-- The text at hand is that of the last event, and its counters are int64s.
abbrev pub Follows : Text → List Event → Type 0
Follows t [] = Unit {0}
Follows t (last ∷ before) = (snapshot_text last ≡ true → t ≡ last.text) × IsWire last

snapshot_text-filled : (e : Event) → snapshot_text e ≡ true → (e.text == []) ≡ false
unfolding snapshot_text
snapshot_text-filled e h = ground (arith, h)

observe-joined :
    (f : UsageFacts) (last e : Event)
    → same_text last.type e.type ≡ true
    → snapshot_text last ≡ true
    → snapshot_text e ≡ true
    → observe f
        (record last { text = last.text ++ e.text; progress_events = joined_progress last e })
      ≡ observe (observe f last) e
observe-joined f last e same one two = ground (
  arith,
  same,
  observe-text f last e,
  observe-thinking f last e,
  snapshot_text-filled last one,
  snapshot_text-filled e two,
)

-- What the runner emits: int64 counters, and checkpoints on events of their own.
abbrev pub IsRunEvent : Event → Type 0
IsRunEvent e =
    IsWire e
    × ((is_text e.type || is_thinking e.type) ≡ true
        → (is_empty e.checkpoint ≡ true) × (is_empty e.blobs ≡ true))

snapshot_text-clone :
    (e : Event)
    → ((is_text e.type || is_thinking e.type) ≡ true
        → (is_empty e.checkpoint ≡ true) × (is_empty e.blobs ≡ true))
    → snapshot_text (clone_event e) ≡ true
    → snapshot_text e ≡ true
unfolding snapshot_text clone_event
snapshot_text-clone e bare h = ground (arith, bare, h)

pub ok-same : {A : Type 0} (a b : A) → ok a ≡ ok b → a ≡ b
ok-same a b same = cc

and-parts : (a b c : Bool) → (a && (b && c)) ≡ true → (a ≡ true) × (b ≡ true) × (c ≡ true)
and-parts a b c h = ground (arith, h)

module _ (encoder : Encoder) where
  append_text-keeps :
      (s t : EventSnapshot) (last e : Event) (before : List Event)
      → append_text encoder s last before e ≡ ok t
      → (t.events
          ≡ record last { text = s.text ++ e.text; progress_events = joined_progress last e }
            ∷ before)
        × (t.text ≡ s.text ++ e.text)
  unfolding append_text
  append_text-keeps s t last e before appended = ground (arith, appended)

  append_merged-keeps :
      (s t : EventSnapshot) (merged : Event) (before : List Event)
      → append_merged encoder s merged before ≡ ok t
      → t.events ≡ merged ∷ before
  unfolding append_merged
  append_merged-keeps s t merged before appended = ground (arith, appended)

  append_new-keeps :
      (s t : EventSnapshot) (e : Event)
      → append_new encoder s e ≡ ok t
      → (t.events ≡ clone_event e ∷ s.events) × (t.text ≡ (if snapshot_text e then e.text else []))
  unfolding append_new
  append_new-keeps s t e appended = ground (arith, appended)

  -- One event more: the facts are those of the events before, and then of this one.
  append_new-seen :
      (f : UsageFacts) (s t : EventSnapshot) (e : Event)
      → IsRunEvent e
      → append_new encoder s e ≡ ok t
      → (seen f t.events ≡ observe (seen f s.events) e) × Follows t.text t.events
  unfolding clone_event
  append_new-seen f s t e run appended =
      let kept = append_new-keeps s t e appended in
      (
        ap (seen f) kept.0
            ∙ seen-cons f (clone_event e) s.events
            ∙ observe-clone (seen f s.events) e,
        subst (Follows t.text) (sym kept.0)
            (λ texty. ground (arith, kept.1, snapshot_text-clone e run.1 texty), run.0),
      )

  append_text-seen :
      (f : UsageFacts) (s t : EventSnapshot) (last e : Event) (before : List Event)
      → Follows s.text (last ∷ before)
      → same_text last.type e.type ≡ true
      → snapshot_text last ≡ true
      → snapshot_text e ≡ true
      → append_text encoder s last before e ≡ ok t
      → (seen f t.events ≡ observe (seen f (last ∷ before)) e) × Follows t.text t.events
  append_text-seen f s t last e before follows same one two appended =
      let kept = append_text-keeps s t last e before appended in
      let joined = λ (w : Text). record last {
        text = w ++ e.text;
        progress_events = joined_progress last e;
      } in
      let text = follows.0 one in
      (
        ap (seen f) kept.0
            ∙ seen-cons f (joined s.text) before
            ∙ ap (λ w. observe (seen f before) (joined w)) text
            ∙ observe-joined (seen f before) last e same one two
            ∙ ap (λ g. observe g e) (sym (seen-cons f last before)),
        subst (Follows t.text) (sym kept.0) (λ texty. kept.1, follows.1),
      )

  append_merged-seen :
      (f : UsageFacts) (s t : EventSnapshot) (last e merged : Event) (before : List Event)
      → Follows s.text (last ∷ before)
      → merge_snapshot_usage last e ≡ some merged
      → append_merged encoder s merged before ≡ ok t
      → (seen f t.events ≡ observe (seen f (last ∷ before)) e) × Follows t.text t.events
  append_merged-seen f s t last e merged before follows merges appended =
      let kept = append_merged-keeps s t merged before appended in
      let usage = observe-usage (seen f before) last e merged follows.1 merges in
      (
        ap (seen f) kept
            ∙ seen-cons f merged before
            ∙ usage.0
            ∙ ap (λ g. observe g e) (sym (seen-cons f last before)),
        subst (Follows t.text) (sym kept) (λ texty. ground (arith, texty, usage.2), usage.1),
      )

  pub append_behind-seen :
      (f : UsageFacts) (s t : EventSnapshot) (events : List Event) (e : Event)
      → s.events ≡ events
      → Follows s.text events
      → IsRunEvent e
      → append_behind encoder s events e ≡ ok t
      → (seen f t.events ≡ observe (seen f events) e) × Follows t.text t.events
  unfolding append_behind
  append_behind-seen f s t [] e same follows run appended =
      let new = append_new-seen f s t e run appended in
      (new.0 ∙ ap (λ es. observe (seen f es) e) same, new.1)
  append_behind-seen f s t (last ∷ before) e same follows run appended =
      by_branch (same_text last.type e.type && (snapshot_text last && snapshot_text e)) refl
        (merge_snapshot_usage last e) refl appended
    where
      by_branch :
          (b : Bool)
          → (same_text last.type e.type && (snapshot_text last && snapshot_text e)) ≡ b
          → (m : Option Event) → merge_snapshot_usage last e ≡ m
          → (if b
              then append_text encoder s last before e
              else elim m as (λ _. Result EventSnapshot) [
                | some merged ↦ append_merged encoder s merged before
                | none ↦ append_new encoder s e
              ])
            ≡ ok t
          → (seen f t.events ≡ observe (seen f (last ∷ before)) e) × Follows t.text t.events
      by_branch true joins m merges done =
          let both =
            and-parts (same_text last.type e.type) (snapshot_text last) (snapshot_text e) joins in
          append_text-seen f s t last e before follows both.0 both.1 both.2 done
      by_branch false joins (some merged) merges done =
          append_merged-seen f s t last e merged before follows merges done
      by_branch false joins none merges done =
          let new = append_new-seen f s t e run done in
          (new.0 ∙ ap (λ es. observe (seen f es) e) same, new.1)
