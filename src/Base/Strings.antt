-- ===== src/Base/Strings.antt =====
-- Go's strings as their bytes: equality, the byte order, prefixes and `strings.TrimSpace`.
use Prim.Native.Char.{code}
use Prim.Native.Nat.{ℕ}
use Prim.Native.String.{String}
use mathlib.Core.Path.{◌≡◌, refl}
use mathlib.Core.Logic.{◌≢◌}
use mathlib.Core.Bool.{Bool, true, false}
use mathlib.Core.Option.{Option, none, some}
use mathlib.Core.List.{List, [], ◌∷◌, ◌++◌}
use native.Mathlib.Omega.{arith}
use native.Mathlib.Decide.{ℕ_discrete}
use cursor_agent2api.Base.Tests.{ltb, eqb, if◌then◌else◌}

-- A string is the list of its bytes.
abbrev pub Text : Type 0
Text = List ℕ

-- An ASCII literal.
abbrev pub text : String → Text
text String.[] = []
text (String.◌∷◌ c s) = code c ∷ text s

unfoldable pub Text-discrete : Discrete Text
unfolding ℕ_discrete
Text-discrete = hlevel ℕ_discrete

infix 50 ◌==◌
abbrev pub ◌==◌ : Text → Text → Bool
a == b = elim (Text-discrete a b) [ yes _ ↦ true | no _ ↦ false ]

pub ==-refl : (a : Text) → (a == a) ≡ true
==-refl a = ground arith

pub ==-eq : (a b : Text) → (a == b) ≡ true → a ≡ b
==-eq a b h = ground arith

pub ==-comm : (a b : Text) → (a == b) ≡ (b == a)
==-comm a b = ground arith

-- `a < b` of Go: the first byte that differs decides.
unfoldable pub before : Text → Text → Bool
before [] [] = false
before [] (y ∷ ys) = true
before (x ∷ xs) [] = false
before (x ∷ xs) (y ∷ ys) = if ltb x y then true else if ltb y x then false else before xs ys

pub before_irrefl : (a : Text) → before a a ≡ false
unfolding before
before_irrefl [] = refl
before_irrefl (x ∷ xs) = ground (arith, before_irrefl xs)

pub before_trans : (a b c : Text) → before a b ≡ true → before b c ≡ true → before a c ≡ true
unfolding before
before_trans [] [] c p q = cc
before_trans [] (y ∷ b) [] p q = cc
before_trans [] (y ∷ b) (z ∷ c) p q = refl
before_trans (x ∷ a) [] c p q = cc
before_trans (x ∷ a) (y ∷ b) [] p q = cc
before_trans (x ∷ a) (y ∷ b) (z ∷ c) p q = ground (arith, before_trans a b c)

-- Of two different strings one comes first.
pub before_total : (a b : Text) → before a b ≡ false → a ≢ b → before b a ≡ true
unfolding before
before_total [] [] p n = absurd (n refl)
before_total [] (y ∷ b) p n = cc
before_total (x ∷ a) [] p n = refl
before_total (x ∷ a) (y ∷ b) p n = ground (arith, before_total a b)

-- `strings.CutPrefix`: what follows the prefix.
unfoldable pub cut_prefix : Text → Text → Option Text
cut_prefix [] s = some s
cut_prefix (p ∷ ps) [] = none
cut_prefix (p ∷ ps) (c ∷ s) = if eqb p c then cut_prefix ps s else none

-- `strings.HasPrefix(s, p)`.
unfoldable pub has_prefix : Text → Text → Bool
unfolding cut_prefix
has_prefix p s = elim (cut_prefix p s) [ none ↦ false | some _ ↦ true ]

pub cut_prefix-some : (p s r : Text) → cut_prefix p s ≡ some r → s ≡ p ++ r
unfolding cut_prefix
cut_prefix-some [] s r h = ground arith
cut_prefix-some (c ∷ p) [] r h = cc
cut_prefix-some (c ∷ p) (d ∷ s) r h = ground (arith, cut_prefix-some p s r)

pub cut_prefix-append : (p s : Text) → cut_prefix p (p ++ s) ≡ some s
unfolding cut_prefix
cut_prefix-append [] s = refl
cut_prefix-append (c ∷ p) s = ground (arith, cut_prefix-append p s)

pub has_prefix-append : (p s : Text) → has_prefix p (p ++ s) ≡ true
unfolding has_prefix
has_prefix-append p s = rw (cut_prefix-append p s, has_prefix)
