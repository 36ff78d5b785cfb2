-- ===== src/Usage/Counts.antt =====
-- What a measured turn guarantees: `measuredTurn` of cursoragentv1/usage_observation.go.
use cursor_agent2api.Base.{
  ℕ, ◌+◌, ◌-◌, ◌≤◌, ◌≡◌, ◌↔◌, sym, ◌∙◌, ap, refl, ℤ, pos, negsuc, pos_part, ◌≤ℤ◌, ◌+ℤ◌, ltb_ℤ, leb,
  sub64, sub64-pos, max_int64, IsInt64, true, false, not, ◌&&◌, none, some, if◌then◌else◌, arith,
}
use cursor_agent2api.Types.{turn_ended, ObservedCount, UsageObservation}
use cursor_agent2api.Usage.{usable, measured_turn, MeasuredTurnUsage}

-- A difference of int64 numbers that stays in range.
sub64-parts :
    (a b : ℤ)
    → ltb_ℤ b (pos 0) ≡ false
    → ltb_ℤ a b ≡ false
    → a ≤ℤ pos max_int64
    → (a ≡ pos (pos_part a))
      × (b ≡ pos (pos_part b))
      × (pos_part b ≤ pos_part a)
      × (sub64 a b ≡ pos (pos_part a - pos_part b))
sub64-parts (pos a) (pos b) hb hab ha = (refl, refl, ground arith, ground (arith, sub64-pos a b))
sub64-parts (negsuc a) (pos b) hb hab ha = ground arith
sub64-parts a (negsuc b) hb hab ha = ground arith

abbrev pub counted : ℕ → ObservedCount
counted n = record { present = true; malformed = false; value = pos n }

usable-counted : (c : ObservedCount) → usable c ≡ true → c ≡ counted (pos_part c.value)
usable-counted c h = ground arith

-- The counters from which a turn is measured, as numbers, and the relations between them.
abbrev pub Measurable : UsageObservation → ℕ → ℕ → ℕ → ℕ → Type 0
Measurable o i out r w =
    (o.kind ≡ turn_ended)
    × (o.input ≡ counted i)
    × (o.output ≡ counted out)
    × (o.cache_read ≡ counted r)
    × (o.cache_write ≡ counted w)
    × (r + w ≤ i)
    × (i + out ≤ max_int64)

-- What a consumer of a measured turn relies on: its parts add up to the total, no counter is
-- negative, the reasoning tokens are among the output tokens, and the total with the output fits
-- an int64.
pub record IsMeasured (m : MeasuredTurnUsage) : Type 0 where
  pub split : m.total_input ≡ m.input +ℤ m.cache_read +ℤ m.cache_write
  pub input : pos 0 ≤ℤ m.input
  pub cache_read : pos 0 ≤ℤ m.cache_read
  pub cache_write : pos 0 ≤ℤ m.cache_write
  pub reasoning : (pos 0 ≤ℤ m.reasoning) × (m.reasoning ≤ℤ m.output)
  pub total : m.total_input +ℤ m.output ≤ℤ pos max_int64

-- The measured turn of such counters.
abbrev pub turn_of : ℕ → ℕ → ℕ → ℕ → ObservedCount → MeasuredTurnUsage
turn_of i out r w c = record {
  input = pos (i - r - w);
  total_input = pos i;
  output = pos out;
  cache_read = pos r;
  cache_write = pos w;
  reasoning = if usable c && not (ltb_ℤ (pos out) c.value) then c.value else pos 0;
}

turn_of-IsMeasured :
    (i out r w : ℕ) (c : ObservedCount)
    → r + w ≤ i
    → i + out ≤ max_int64
    → IsMeasured (turn_of i out r w c)
unfolding ◌+ℤ◌
turn_of-IsMeasured i out r w c fits total = record {
  split = ground arith;
  input = ground arith;
  cache_read = ground arith;
  cache_write = ground arith;
  reasoning = ground arith;
  total = ground arith;
}

measured_turn-counted :
    (o : UsageObservation) (i out r w : ℕ)
    → i ≤ max_int64
    → o.kind ≡ turn_ended
    → o.input ≡ counted i
    → o.output ≡ counted out
    → o.cache_read ≡ counted r
    → o.cache_write ≡ counted w
    → measured_turn (some o) ≡ (
        if leb (r + w) i && leb (i + out) max_int64
        then some (turn_of i out r w o.reasoning)
        else none)
unfolding measured_turn
measured_turn-counted o i out r w small k hi ho hr hw =
    ground (arith, sub64-pos i r, sub64-pos (i - r) w, sub64-pos max_int64 i)

fit-bounds :
    (i out r w : ℕ) (c : ObservedCount) (m : MeasuredTurnUsage)
    → (if leb (r + w) i && leb (i + out) max_int64 then some (turn_of i out r w c) else none)
      ≡ some m
    → (r + w ≤ i) × (i + out ≤ max_int64) × (m ≡ turn_of i out r w c)
fit-bounds i out r w c m h = ground arith

pub measured_turn-fits :
    (o : UsageObservation) (i out r w : ℕ)
    → Measurable o i out r w
    → measured_turn (some o) ≡ some (turn_of i out r w o.reasoning)
measured_turn-fits o i out r w (k, ei, eo, er, ew, fits, total) =
    measured_turn-counted o i out r w (omega arith) k ei eo er ew ∙ ground arith

measured_turn-usable :
    (o : UsageObservation) (m : MeasuredTurnUsage)
    → measured_turn (some o) ≡ some m
    → (o.kind ≡ turn_ended)
      × (usable o.input ≡ true)
      × (usable o.output ≡ true)
      × (usable o.cache_read ≡ true)
      × (usable o.cache_write ≡ true)
unfolding measured_turn
measured_turn-usable o m h = ground arith

IsInt64-pos_part : (v : ℤ) → IsInt64 v → pos_part v ≤ max_int64
IsInt64-pos_part (pos n) h = omega arith
IsInt64-pos_part (negsuc n) h = omega arith

-- A turn is measured exactly when it is a terminal snapshot whose four counters are present, valid
-- and not negative, whose cache buckets lie within the input, and whose input and output together
-- fit an int64.
pub measured_turn_iff :
    (o : UsageObservation)
    → IsInt64 o.input.value
    → ((m : MeasuredTurnUsage) × (measured_turn (some o) ≡ some m))
      ↔ ((i : ℕ) × (out : ℕ) × (r : ℕ) × (w : ℕ) × Measurable o i out r w)
measured_turn_iff o range = (forth, back)
  where
    forth :
        (m : MeasuredTurnUsage) × (measured_turn (some o) ≡ some m)
        → (i : ℕ) × (out : ℕ) × (r : ℕ) × (w : ℕ) × Measurable o i out r w
    forth (m, e) =
        let (k, hi, ho, hr, hw) = measured_turn-usable o m e in
        let ei = usable-counted o.input hi in
        let eo = usable-counted o.output ho in
        let er = usable-counted o.cache_read hr in
        let ew = usable-counted o.cache_write hw in
        let fits =
          measured_turn-counted o _ _ _ _ (IsInt64-pos_part o.input.value range) k ei eo er ew in
        let bounds = fit-bounds _ _ _ _ o.reasoning m (sym fits ∙ e) in
        (_, _, _, _, (k, ei, eo, er, ew, bounds.0, bounds.1))

    back :
        (i : ℕ) × (out : ℕ) × (r : ℕ) × (w : ℕ) × Measurable o i out r w
        → (m : MeasuredTurnUsage) × (measured_turn (some o) ≡ some m)
    back (i, out, r, w, (k, ei, eo, er, ew, fits, total)) = (
      turn_of i out r w o.reasoning,
      measured_turn-fits o i out r w (k, ei, eo, er, ew, fits, total),
    )

pub measured_turn_unique :
    (o : UsageObservation) (m : MeasuredTurnUsage) (i out r w : ℕ)
    → Measurable o i out r w
    → measured_turn (some o) ≡ some m
    → m ≡ turn_of i out r w o.reasoning
measured_turn_unique o m i out r w h e = cc (measured_turn-fits o i out r w h)

consistent :
    (o : UsageObservation) (m : MeasuredTurnUsage) (i out r w : ℕ)
    → Measurable o i out r w
    → m ≡ turn_of i out r w o.reasoning
    → IsMeasured m × (m.total_input ≡ o.input.value) × (m.output ≡ o.output.value)
consistent o m i out r w (k, ei, eo, er, ew, fits, total) same = rw same (
  turn_of-IsMeasured i out r w o.reasoning fits total,
  sym (ap (λ (c : ObservedCount). c.value) ei),
  sym (ap (λ (c : ObservedCount). c.value) eo),
)

-- A measured turn is consistent: its parts add up to the total input on the wire, no counter is
-- negative, the reasoning tokens are among the output tokens, and total input and output together
-- fit an int64.
pub measured_turn-IsMeasured :
    (o : UsageObservation) (m : MeasuredTurnUsage)
    → IsInt64 o.input.value
    → measured_turn (some o) ≡ some m
    → IsMeasured m × (m.total_input ≡ o.input.value) × (m.output ≡ o.output.value)
measured_turn-IsMeasured o m range e =
    let (i, out, r, w, h) = (measured_turn_iff o range).0 (m, e) in
    consistent o m i out r w h (measured_turn_unique o m i out r w h e)
