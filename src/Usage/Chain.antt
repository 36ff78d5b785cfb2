-- ===== src/Usage/Chain.antt =====
-- What a stream of events leaves behind: the terminal observations are chained, and earlier turns
-- that a request carries give no measured usage by themselves.
use cursor_agent2api.Base.{
  ℕ, ◌+◌, ◌≡◌, refl, ap, ◌∙◌, Bool, true, false, not, ◌&&◌, ◌||◌, List, [], ◌∷◌, Option, none, some,
  arith, if◌then◌else◌, Option-cases, inl, inr, length,
}
use cursor_agent2api.Types.{UsageObservation, Event, EventType, usage_observation}
use cursor_agent2api.Usage.{is_turn_ended, measured_turn, add_turn_observations}
use cursor_agent2api.Usage.Facts.{
  UsageFacts, fresh, observe, observe_type, observe_all, chain, facts_measured_turn,
}

-- The terminal observation that an event carries.
abbrev pub terminal_of : EventType → Option UsageObservation → Option UsageObservation
terminal_of usage_observation (some u) = if is_turn_ended u.kind then some u else none
terminal_of usage_observation none = none
terminal_of _ u = none

-- The terminal observations of a list of events, in order.
abbrev pub terminals : List Event → List UsageObservation
terminals [] = []
terminals (e ∷ es) = elim (terminal_of e.type e.usage) [
  | none ↦ terminals es
  | some u ↦ u ∷ terminals es
]

-- Their sum, over what came before.
abbrev pub chained : Option UsageObservation → List UsageObservation → Option UsageObservation
chained t [] = t
chained none (u ∷ us) = chained (some u) us
chained (some t) (u ∷ us) = chained (some (add_turn_observations t u)) us

-- Whether one of them is a turn of this run.
abbrev pub any_fresh : List UsageObservation → Bool
any_fresh [] = false
any_fresh (u ∷ us) = not u.carried || any_fresh us

-- The part of the facts that terminal observations decide.
abbrev pub Terminal : UsageFacts → Bool → ℕ → Bool → Option UsageObservation → Type 0
Terminal f enabled count any turn =
    (f.measured_enabled ≡ enabled)
    × (f.terminal_count ≡ count)
    × (f.fresh_terminal ≡ any)
    × (f.turn_ended ≡ turn)

observe_type-none :
    (f : UsageFacts) (e : Event) (t : EventType)
    → terminal_of t e.usage ≡ none
    → Terminal
        (observe_type f e t)
        f.measured_enabled
        f.terminal_count
        f.fresh_terminal
        f.turn_ended
unfolding observe_type
observe_type-none f e usage_observation h = ground arith
observe_type-none f e t h = ground arith

observe_type-some :
    (f : UsageFacts) (e : Event) (t : EventType) (u : UsageObservation)
    → terminal_of t e.usage ≡ some u
    → Terminal
        (observe_type f e t)
        f.measured_enabled
        (f.terminal_count + 1)
        (f.fresh_terminal || not u.carried)
        (some (chain f.measured_enabled f.turn_ended u))
unfolding observe_type
observe_type-some f e usage_observation u h = ground arith
observe_type-some f e t u h = ground arith

-- The terminal part of the facts after the events, from that before them.
abbrev After : UsageFacts → UsageFacts → List UsageObservation → Type 0
After f g us =
    (g.measured_enabled ≡ f.measured_enabled)
    × (g.terminal_count ≡ f.terminal_count + length us)
    × (g.fresh_terminal ≡ (f.fresh_terminal || any_fresh us))
    × (f.measured_enabled ≡ true → g.turn_ended ≡ chained f.turn_ended us)

chained-chain :
    (t : Option UsageObservation) (u : UsageObservation) (us : List UsageObservation)
    → chained (some (chain true t u)) us ≡ chained t (u ∷ us)
unfolding chain
chained-chain none u us = refl
chained-chain (some t) u us = refl

After-none :
    (f g h : UsageFacts) (us : List UsageObservation)
    → Terminal g f.measured_enabled f.terminal_count f.fresh_terminal f.turn_ended
    → After g h us
    → After f h us
After-none f g h us (m, c, a, t) (m', c', a', t') = (
  m' ∙ m,
  c' ∙ ap (λ (x : ℕ). x + length us) c,
  a' ∙ ap (λ (x : Bool). x || any_fresh us) a,
  λ on. t' (m ∙ on) ∙ ap (λ x. chained x us) t,
)

or_assoc : (a b c : Bool) → ((a || b) || c) ≡ (a || (b || c))
or_assoc a b c = ground arith

After-some :
    (f g h : UsageFacts) (u : UsageObservation) (us : List UsageObservation)
    → Terminal g f.measured_enabled
        (f.terminal_count + 1)
        (f.fresh_terminal || not u.carried)
        (some (chain f.measured_enabled f.turn_ended u))
    → After g h us
    → After f h (u ∷ us)
After-some f g h u us (m, c, a, t) (m', c', a', t') = (
  m' ∙ m,
  omega arith,
  a'
      ∙ ap (λ (x : Bool). x || any_fresh us) a
      ∙ or_assoc f.fresh_terminal (not u.carried) (any_fresh us),
  λ on.
      t' (m ∙ on)
      ∙ ap (λ x. chained x us) (t ∙ ap (λ x. some (chain x f.turn_ended u)) on)
      ∙ chained-chain f.turn_ended u us,
)

observe_all-After : (f : UsageFacts) (es : List Event) → After f (observe_all f es) (terminals es)
unfolding observe_all observe
observe_all-After f [] = (refl, omega arith, ground arith, λ _. refl)
observe_all-After f (e ∷ es) = elim (Option-cases (terminal_of e.type e.usage)) [
  | inl h ↦
      rw (h, terminals)
        (After-none f (observe f e) (observe_all (observe f e) es) (terminals es)
          (observe_type-none f e e.type h) (observe_all-After (observe f e) es))
  | inr (u, h) ↦
      rw (h, terminals)
        (After-some f (observe f e) (observe_all (observe f e) es) u (terminals es)
          (observe_type-some f e e.type u h) (observe_all-After (observe f e) es))
]

-- In a metered run the terminal snapshot is the sum of all terminal observations in the order of
-- the events, their number is counted, and it is known whether one of them belongs to this run.
pub observe_all-chained :
    (es : List Event)
    → ((observe_all (fresh true) es).turn_ended ≡ chained none (terminals es))
      × ((observe_all (fresh true) es).terminal_count ≡ length (terminals es))
      × ((observe_all (fresh true) es).fresh_terminal ≡ any_fresh (terminals es))
observe_all-chained es =
    let (_, count, any, turn) = observe_all-After (fresh true) es in
    (turn refl, omega (arith, count), any)

gate {ℓ} :
    {A : Type ℓ} (b : Bool) (x : Option A) → (if not b then none else x) ≡ (if b then x else none)
gate true x = refl
gate false x = refl

-- A usage is measured only in a metered run that has a terminal observation of its own: then it is
-- that of the sum. Turns that the request carries over give none by themselves.
pub facts_measured_turn-observe_all :
    (measured : Bool) (es : List Event)
    → facts_measured_turn (observe_all (fresh measured) es) ≡ (
        if measured && any_fresh (terminals es)
        then measured_turn (chained none (terminals es))
        else none)
unfolding facts_measured_turn
facts_measured_turn-observe_all true es =
    let (enabled, _, any, turn) = observe_all-After (fresh true) es in
    rw (enabled, any, turn refl) (gate (any_fresh (terminals es)) _)
facts_measured_turn-observe_all false es =
    let (enabled, _, _, _) = observe_all-After (fresh false) es in rw enabled refl
