-- ===== src/Snapshot/Coalescing.antt =====
-- The events that cursoragentv1/completed_events.go combines mean the same to the usage facts of
-- cursoragentv1/usage_observation.go.
use mathlib.Core.List.{append_assoc}
use cursor_agent2api.Base.{
  ◌+◌, ◌≤◌, ◌≡◌, refl, sym, ap, ◌∙◌, ℤ, pos, negsuc, ◌≤ℤ◌, IsInt64, add64-IsInt64, ltb_ℤ, sub64,
  add64, add64-add, add64-pos, sub64-pos, max_int64, true, false, not, [], ◌++◌, Option, none, some,
  arith, if◌then◌else◌, ◌==◌,
}
use cursor_agent2api.Types.{ObservedCount, UsageObservation, Event, clone_event}
use cursor_agent2api.Usage.{is_token_delta}
use cursor_agent2api.Usage.Facts.{
  UsageFacts, observe, observe_type, observe_token_delta, delta_count, observe_thinking,
}
use cursor_agent2api.Snapshot.{
  snapshot_text, merge_usage, merge_snapshot_usage, joined_progress, is_thinking, is_text, is_usage,
  addable,
}

pub observe-clone : (f : UsageFacts) (e : Event) → observe f (clone_event e) ≡ observe f e
unfolding observe observe_type clone_event
observe-clone f e = ground arith

-- A text event that took over the text of the next one.
pub observe-text :
    (f : UsageFacts) (last e : Event)
    → is_text last.type ≡ true
    → is_text e.type ≡ true
    → observe f
        (record last { text = last.text ++ e.text; progress_events = joined_progress last e })
      ≡ observe (observe f last) e
unfolding observe observe_type
observe-text f last e h k = ground (arith, h, k, append_assoc f.visible_output last.text e.text)

pub observe-thinking :
    (f : UsageFacts) (last e : Event)
    → is_thinking last.type ≡ true
    → is_thinking e.type ≡ true
    → (last.text == []) ≡ false
    → (e.text == []) ≡ false
    → observe f
        (record last { text = last.text ++ e.text; progress_events = joined_progress last e })
      ≡ observe (observe f last) e
unfolding observe observe_type observe_thinking
observe-thinking f last e h k a b =
    ground (arith, h, k, a, b, append_assoc f.visible_output last.text e.text)

-- What two usable counts add.
count-adds :
    (a x y : ℤ)
    → x ≤ℤ pos max_int64
    → ltb_ℤ x (pos 0) ≡ false
    → ltb_ℤ y (pos 0) ≡ false
    → ltb_ℤ (sub64 (pos max_int64) x) y ≡ false
    → (add64 (add64 a x) y ≡ add64 a (add64 x y)) × (ltb_ℤ (add64 x y) (pos 0) ≡ false)
count-adds a (pos x) (pos y) range p q r =
    let within : x ≤ max_int64 = ground (arith, range) in
    let bound : x + y ≤ max_int64 =
      ground (arith, r, sub64-pos max_int64 x within (ground arith)) in
    ground (arith, add64-pos x y bound, add64-add a x y bound)
count-adds a (pos x) (negsuc y) range p q r = ground (arith, q)
count-adds a (negsuc x) y range p q r = ground (arith, p)

-- The counters of the event are int64s.
abbrev count_of : Option UsageObservation → ℤ
count_of none = pos 0
count_of (some u) = u.token_delta.value

abbrev pub IsWire : Event → Type 0
IsWire e = IsInt64 e.tokens × IsInt64 (count_of e.usage)

-- A count that the facts add up.
abbrev Counts : ObservedCount → Type 0
Counts c = (c.present ≡ true) × (c.malformed ≡ false)

-- What a count does to the facts.
abbrev tally : UsageFacts → ObservedCount → UsageFacts
tally f c =
    if c.malformed
    then record f { output_token_delta_invalid = true }
    else if not c.present
    then f
    else record f {
      output_token_delta_observed = true;
      output_token_delta = add64 f.output_token_delta c.value;
    }

tally-add :
    (f : UsageFacts) (c d n : ObservedCount)
    → Counts c
    → Counts d
    → Counts n
    → ((x : ℤ) → add64 (add64 x c.value) d.value ≡ add64 x n.value)
    → tally f n ≡ tally (tally f c) d
tally-add f c d n h k l adds = ground (arith, h, k, l, adds f.output_token_delta)

addable-parts :
    (x y : ObservedCount)
    → addable x y ≡ true
    → (x.present ≡ true)
      × (y.present ≡ true)
      × (x.malformed ≡ false)
      × (y.malformed ≡ false)
      × (ltb_ℤ x.value (pos 0) ≡ false)
      × (ltb_ℤ y.value (pos 0) ≡ false)
      × (ltb_ℤ (sub64 (pos max_int64) x.value) y.value ≡ false)
addable-parts x y h = ground (arith, h)

merge_usage-some :
    (a b v : UsageObservation)
    → merge_usage (some a) (some b) ≡ some (some v)
    → (is_token_delta a.kind ≡ true)
      × (is_token_delta b.kind ≡ true)
      × (addable a.token_delta b.token_delta ≡ true)
      × (v ≡ record a {
        token_delta = record a.token_delta {
          value = add64 a.token_delta.value b.token_delta.value;
        };
      })
unfolding merge_usage
merge_usage-some a b v merged = ground (arith, merged)

-- The counts of two usages that combine, and their sum.
delta_count-add :
    (x y : ℤ) (a b u : Option UsageObservation)
    → IsInt64 x
    → IsInt64 (count_of a)
    → ltb_ℤ x (pos 0) ≡ false
    → ltb_ℤ y (pos 0) ≡ false
    → ltb_ℤ (sub64 (pos max_int64) x) y ≡ false
    → merge_usage a b ≡ some u
    → Counts (delta_count x a)
      × Counts (delta_count y b)
      × Counts (delta_count (add64 x y) u)
      × ((z : ℤ)
          → add64 (add64 z (delta_count x a).value) (delta_count y b).value
            ≡ add64 z (delta_count (add64 x y) u).value)
      × IsInt64 (count_of u)
unfolding merge_usage delta_count
delta_count-add x y none none none wide range p q r merged = (
  (refl, p),
  (refl, q),
  (refl, (count-adds (pos 0) x y wide.1 p q r).1),
  λ z. (count-adds z x y wide.1 p q r).0,
  ground arith,
)
delta_count-add x y none none (some v) wide range p q r merged = ground (arith, merged)
delta_count-add x y (some a) (some b) none wide range p q r merged = ground (arith, merged)
delta_count-add x y (some a) (some b) (some v) wide range p q r merged =
    let parts = merge_usage-some a b v merged in
    let usable = addable-parts a.token_delta b.token_delta parts.2 in
    let adds = λ (z : ℤ).
      count-adds z a.token_delta.value b.token_delta.value range.1 usable.4 usable.5 usable.6 in
    let sum = add64-IsInt64 a.token_delta.value b.token_delta.value in
    (
      ground (arith, parts, usable),
      ground (arith, parts, usable),
      ground (arith, parts, usable),
      λ z. ground (arith, parts, (adds z).0),
      ground (arith, parts, sum),
    )
delta_count-add x y none (some b) u wide range p q r merged = ground (arith, merged)
delta_count-add x y (some a) none u wide range p q r merged = ground (arith, merged)

observe-as_usage :
    (f : UsageFacts) (e : Event)
    → is_usage e.type ≡ true
    → observe f e ≡ tally f (delta_count e.tokens e.usage)
unfolding observe observe_type observe_token_delta
observe-as_usage f e h = ground (arith, h)

-- The conditions under which two usage events combine, and what they combine to.
merge-parts :
    (a b m : Event)
    → merge_snapshot_usage a b ≡ some m
    → (is_usage a.type ≡ true)
      × (is_usage b.type ≡ true)
      × (ltb_ℤ a.tokens (pos 0) ≡ false)
      × (ltb_ℤ b.tokens (pos 0) ≡ false)
      × (ltb_ℤ (sub64 (pos max_int64) a.tokens) b.tokens ≡ false)
      × (merge_usage a.usage b.usage ≡ some m.usage)
      × (m.tokens ≡ add64 a.tokens b.tokens)
      × (m.type ≡ a.type)
unfolding merge_snapshot_usage clone_event
merge-parts a b m merged = ground (arith, merged)

pub observe-usage :
    (f : UsageFacts) (a b m : Event)
    → IsWire a
    → merge_snapshot_usage a b ≡ some m
    → (observe f m ≡ observe (observe f a) b) × IsWire m × (snapshot_text m ≡ false)
unfolding snapshot_text
observe-usage f a b m wire merged =
    let parts = merge-parts a b m merged in
    let add =
      delta_count-add a.tokens b.tokens a.usage b.usage m.usage wire.0 wire.1 parts.2 parts.3
        parts.4 parts.5 in
    let sum = add64-IsInt64 a.tokens b.tokens in
    let total : delta_count m.tokens m.usage ≡ delta_count (add64 a.tokens b.tokens) m.usage =
      ap (λ t. delta_count t m.usage) parts.6 in
    (
      observe-as_usage f m (ap is_usage parts.7 ∙ parts.0)
          ∙ ap (tally f) total
          ∙ tally-add f (delta_count a.tokens a.usage) (delta_count b.tokens b.usage)
              (delta_count (add64 a.tokens b.tokens) m.usage) add.0 add.1 add.2 add.3
          ∙ ap (λ g. tally g (delta_count b.tokens b.usage)) (sym (observe-as_usage f a parts.0))
          ∙ sym (observe-as_usage (observe f a) b parts.1),
      ground (arith, parts.6, sum, add.4),
      ground (arith, parts.0, parts.7),
    )
