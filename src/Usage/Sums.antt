-- ===== src/Usage/Sums.antt =====
-- The sum of two measured turns: `addTurnObservations` of cursoragentv1/usage_observation.go.
use cursor_agent2api.Base.{
  ℕ, ◌+◌, ◌-◌, ◌≤◌, ◌≡◌, refl, pos, ◌≤ℤ◌, ◌+ℤ◌, sub64-pos, add64-pos, max_int64, IsInt64, some,
  arith,
}
use mathlib.Core.Path.{subst₂}
use cursor_agent2api.Types.{ObservedCount, UsageObservation}
use cursor_agent2api.Usage.{measured_turn, MeasuredTurnUsage, add_counts, add_turn_observations}
use cursor_agent2api.Usage.Counts.{
  counted, Measurable, turn_of, measured_turn-fits, measured_turn_unique, measured_turn_iff,
}

add_counts-counted :
    (a b : ℕ) → a + b ≤ max_int64 → add_counts (counted a) (counted b) ≡ counted (a + b)
unfolding add_counts
add_counts-counted a b h = ground (arith, sub64-pos max_int64 a, add64-pos a b)

add_turn-Measurable :
    (o p : UsageObservation) (i out r w i' out' r' w' : ℕ)
    → Measurable o i out r w
    → Measurable p i' out' r' w'
    → i + i' + (out + out') ≤ max_int64
    → Measurable (add_turn_observations o p) (i + i') (out + out') (r + r') (w + w')
unfolding add_turn_observations
add_turn-Measurable o p i out r w i' out' r' w' (k, ei, eo, er, ew, f, t)
      (k', ei', eo', er', ew', f', t') h =
    (
      refl,
      rw (ei, ei') (add_counts-counted i i' (omega arith)),
      rw (eo, eo') (add_counts-counted out out' (omega arith)),
      rw (er, er') (add_counts-counted r r' (omega arith)),
      rw (ew, ew') (add_counts-counted w w' (omega arith)),
      omega arith,
      omega arith,
    )

pos-add : (a b : ℕ) → pos (a + b) ≡ pos a +ℤ pos b
unfolding ◌+ℤ◌
pos-add a b = ground arith

inputs-add :
    (i i' r r' w w' : ℕ)
    → r + w ≤ i
    → r' + w' ≤ i'
    → pos (i + i' - (r + r') - (w + w')) ≡ pos (i - r - w) +ℤ pos (i' - r' - w')
unfolding ◌+ℤ◌
inputs-add i i' r r' w w' h h' = ground arith

sum-bound :
    (i i' out out' : ℕ)
    → pos i +ℤ pos i' +ℤ (pos out +ℤ pos out') ≤ℤ pos max_int64
    → i + i' + (out + out') ≤ max_int64
unfolding ◌+ℤ◌
sum-bound i i' out out' h = ground arith

-- The sum `q` of two measured turns, whose reasoning tokens are left open.
abbrev pub IsSum : MeasuredTurnUsage → MeasuredTurnUsage → MeasuredTurnUsage → Type 0
IsSum m n q =
    (q.input ≡ m.input +ℤ n.input)
    × (q.total_input ≡ m.total_input +ℤ n.total_input)
    × (q.output ≡ m.output +ℤ n.output)
    × (q.cache_read ≡ m.cache_read +ℤ n.cache_read)
    × (q.cache_write ≡ m.cache_write +ℤ n.cache_write)

turn_of-IsSum :
    (i out r w i' out' r' w' : ℕ) (c c' c'' : ObservedCount)
    → r + w ≤ i
    → r' + w' ≤ i'
    → IsSum
        (turn_of i out r w c)
        (turn_of i' out' r' w' c')
        (turn_of (i + i') (out + out') (r + r') (w + w') c'')
turn_of-IsSum i out r w i' out' r' w' c c' c'' h h' =
    (inputs-add i i' r r' w w' h h', pos-add i i', pos-add out out', pos-add r r', pos-add w w')

add_turn-IsSum :
    (o p : UsageObservation) (m n : MeasuredTurnUsage) (i out r w i' out' r' w' : ℕ)
    → Measurable o i out r w
    → Measurable p i' out' r' w'
    → m ≡ turn_of i out r w o.reasoning
    → n ≡ turn_of i' out' r' w' p.reasoning
    → m.total_input +ℤ n.total_input +ℤ (m.output +ℤ n.output) ≤ℤ pos max_int64
    → (q : MeasuredTurnUsage) × (measured_turn (some (add_turn_observations o p)) ≡ some q)
      × IsSum m n q
add_turn-IsSum o p m n i out r w i' out' r' w' h h' same same' fits =
    let bound = sum-bound i i' out out' (
      subst₂
        (λ (x y : MeasuredTurnUsage).
          x.total_input +ℤ y.total_input +ℤ (x.output +ℤ y.output) ≤ℤ pos max_int64)
        same same' fits) in
    let sum = add_turn-Measurable o p i out r w i' out' r' w' h h' bound in
    (
      turn_of (i + i') (out + out') (r + r') (w + w') (add_turn_observations o p).reasoning,
      measured_turn-fits (add_turn_observations o p) (i + i') (out + out') (r + r') (w + w') sum,
      rw (same, same')
          (turn_of-IsSum i out r w i' out' r' w' o.reasoning p.reasoning
            (add_turn_observations o p).reasoning h.5 h'.5),
    )

-- Two measured turns chain to a measured turn whose counters are the sums, as long as the sum of
-- the totals fits an int64. (The reasoning tokens are not claimed: one turn may lack them.)
pub measured_turn-add :
    (o p : UsageObservation) (m n : MeasuredTurnUsage)
    → IsInt64 o.input.value
    → IsInt64 p.input.value
    → measured_turn (some o) ≡ some m
    → measured_turn (some p) ≡ some n
    → m.total_input +ℤ n.total_input +ℤ (m.output +ℤ n.output) ≤ℤ pos max_int64
    → (q : MeasuredTurnUsage) × (measured_turn (some (add_turn_observations o p)) ≡ some q)
      × IsSum m n q
measured_turn-add o p m n ro rp eo ep fits =
    let (i, out, r, w, h) = (measured_turn_iff o ro).0 (m, eo) in
    let (i', out', r', w', h') = (measured_turn_iff p rp).0 (n, ep) in
    add_turn-IsSum o p m n i out r w i' out' r' w' h h' (measured_turn_unique o m i out r w h eo)
      (measured_turn_unique p n i' out' r' w' h' ep) fits
