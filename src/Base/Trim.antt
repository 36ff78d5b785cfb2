-- ===== src/Base/Trim.antt =====
-- `strings.TrimSpace`: leading and trailing white space of Unicode, in UTF-8.
use Prim.Native.Nat.{ℕ, zero, suc, ◌≤◌, ◌<◌}
use mathlib.Core.Path.{◌≡◌, refl, sym, ap, ◌∙◌, subst}
use mathlib.Core.Logic.{◌≢◌, inl, inr}
use mathlib.Core.Option.{Option, none, some}
use mathlib.Core.List.{
  List, [], ◌∷◌, ◌++◌, map, reverse, reverse-reverse, reverse-append, append_assoc,
}
use native.Mathlib.Omega.{arith}
use cursor_agent2api.Base.Tests.{Option-cases}
use cursor_agent2api.Base.Lists.{length, length-append, length-reverse}
use cursor_agent2api.Base.Strings.{Text, cut_prefix, cut_prefix-some, cut_prefix-append}

-- The encodings of the runes for which `unicode.IsSpace` holds.
unfoldable pub spaces : List Text
spaces =
    (9 ∷ [])
    ∷ (10 ∷ [])
    ∷ (11 ∷ [])
    ∷ (12 ∷ [])
    ∷ (13 ∷ [])
    ∷ (32 ∷ [])
    ∷ (0xc2 ∷ 0x85 ∷ [])
    ∷ (0xc2 ∷ 0xa0 ∷ [])
    ∷ (0xe1 ∷ 0x9a ∷ 0x80 ∷ [])
    ∷ (0xe2 ∷ 0x80 ∷ 0x80 ∷ [])
    ∷ (0xe2 ∷ 0x80 ∷ 0x81 ∷ [])
    ∷ (0xe2 ∷ 0x80 ∷ 0x82 ∷ [])
    ∷ (0xe2 ∷ 0x80 ∷ 0x83 ∷ [])
    ∷ (0xe2 ∷ 0x80 ∷ 0x84 ∷ [])
    ∷ (0xe2 ∷ 0x80 ∷ 0x85 ∷ [])
    ∷ (0xe2 ∷ 0x80 ∷ 0x86 ∷ [])
    ∷ (0xe2 ∷ 0x80 ∷ 0x87 ∷ [])
    ∷ (0xe2 ∷ 0x80 ∷ 0x88 ∷ [])
    ∷ (0xe2 ∷ 0x80 ∷ 0x89 ∷ [])
    ∷ (0xe2 ∷ 0x80 ∷ 0x8a ∷ [])
    ∷ (0xe2 ∷ 0x80 ∷ 0xa8 ∷ [])
    ∷ (0xe2 ∷ 0x80 ∷ 0xa9 ∷ [])
    ∷ (0xe2 ∷ 0x80 ∷ 0xaf ∷ [])
    ∷ (0xe2 ∷ 0x81 ∷ 0x9f ∷ [])
    ∷ (0xe3 ∷ 0x80 ∷ 0x80 ∷ [])
    ∷ []

-- What follows the first of the patterns that is a prefix.
unfoldable pub cut_any : List Text → Text → Option Text
cut_any [] s = none
cut_any (p ∷ ps) s = elim (cut_prefix p s) [ none ↦ cut_any ps s | some r ↦ some r ]

-- Cuts such prefixes off as long as there are any; the fuel is a bound on their number.
unfoldable pub trim_by : List Text → ℕ → Text → Text
trim_by ps zero s = s
trim_by ps (suc f) s = elim (cut_any ps s) [ none ↦ s | some r ↦ trim_by ps f r ]

unfoldable pub trim_left : Text → Text
unfolding spaces cut_any cut_prefix trim_by
trim_left s = trim_by spaces (length s) s

unfoldable pub trim_right : Text → Text
unfolding spaces cut_any cut_prefix trim_by
trim_right s = reverse (trim_by (map reverse spaces) (length s) (reverse s))

unfoldable pub trim_space : Text → Text
unfolding trim_left trim_right
trim_space s = trim_right (trim_left s)

-- Every pattern takes at least one byte.
abbrev NonEmpty : List Text → Type 0
NonEmpty [] = Unit
NonEmpty (p ∷ ps) = (p ≢ []) × NonEmpty ps

cut_any-some :
    (ps : List Text) (s r : Text)
    → cut_any ps s ≡ some r
    → NonEmpty ps
    → (p : Text) × (s ≡ p ++ r) × (p ≢ [])
unfolding cut_any
cut_any-some [] s r h n = cc
cut_any-some (p ∷ ps) s r h n = elim (Option-cases (cut_prefix p s)) [
  | inl e ↦ cut_any-some ps s r (ground arith) n.1
  | inr (r', e) ↦ (p, ground (arith, cut_prefix-some p s r), n.0)
]

-- A text with none of the prefixes keeps none when it is cut short at the end.
cut_any-none : (ps : List Text) (s t : Text) → cut_any ps (s ++ t) ≡ none → cut_any ps s ≡ none
unfolding cut_any
cut_any-none [] s t h = refl
cut_any-none (p ∷ ps) s t h = elim (Option-cases (cut_prefix p s)) [
  | inl e ↦ rw (e, cut_any) (cut_any-none ps s t (ground arith))
  | inr (r, e) ↦
      let split : s ++ t ≡ p ++ (r ++ t) =
        ap (λ (x : Text). x ++ t) (cut_prefix-some p s r e) ∙ append_assoc p r t in
      let found : cut_prefix p (s ++ t) ≡ some (r ++ t) = rw split (cut_prefix-append p (r ++ t)) in
      ground arith
]

length-cut : (p r : Text) → p ≢ [] → length r < length (p ++ r)
length-cut [] r n = absurd (n refl)
length-cut (x ∷ p) r n = omega (arith, length-append p r)

-- With enough fuel none of the prefixes is left.
trim_by-none :
    (ps : List Text) (f : ℕ) (s : Text)
    → NonEmpty ps
    → length s ≤ f
    → cut_any ps (trim_by ps f s) ≡ none
unfolding trim_by
trim_by-none ps zero s n h = elim (Option-cases (cut_any ps s)) [
  | inl e ↦ e
  | inr (r, e) ↦
      let (p, split, filled) = cut_any-some ps s r e n in
      absurd (omega (arith, length-cut p r filled, ap length split))
]
trim_by-none ps (suc f) s n h = elim (Option-cases (cut_any ps s)) [
  | inl e ↦ rw (e, trim_by) e
  | inr (r, e) ↦
      let (p, split, filled) = cut_any-some ps s r e n in
      rw (e, trim_by)
        (trim_by-none ps f r n (omega (arith, length-cut p r filled, ap length split)))
]

-- Such a text is not changed.
trim_by-fixed : (ps : List Text) (f : ℕ) (s : Text) → cut_any ps s ≡ none → trim_by ps f s ≡ s
unfolding trim_by
trim_by-fixed ps zero s h = refl
trim_by-fixed ps (suc f) s h = rw (h, trim_by) refl

-- What is cut off stands in front.
trim_by-suffix :
    (ps : List Text) (f : ℕ) (s : Text) → NonEmpty ps → (p : Text) × (s ≡ p ++ trim_by ps f s)
unfolding trim_by
trim_by-suffix ps zero s n = ([], refl)
trim_by-suffix ps (suc f) s n = elim (Option-cases (cut_any ps s)) [
  | inl e ↦ ([], rw (e, trim_by) refl)
  | inr (r, e) ↦
      let (p, split, filled) = cut_any-some ps s r e n in
      let (q, rest) = trim_by-suffix ps f r n in
      (p ++ q, rw (e, trim_by) (split ∙ ap (◌++◌ p) rest ∙ sym (append_assoc p q _)))
]

spaces-NonEmpty : NonEmpty spaces
unfolding spaces
spaces-NonEmpty = ground arith

reversed-NonEmpty : NonEmpty (map reverse spaces)
unfolding spaces
reversed-NonEmpty = ground arith

-- No white space stands in front of, or behind, a trimmed text.
abbrev pub IsTrimmed : Text → Type 0
IsTrimmed s = (cut_any spaces s ≡ none) × (cut_any (map reverse spaces) (reverse s) ≡ none)

-- `trim_right` keeps a first part of its text.
trim_right-prefix : (s : Text) → (q : Text) × (s ≡ trim_right s ++ q)
unfolding trim_right
trim_right-prefix s =
    let (p, split) = trim_by-suffix (map reverse spaces) (length s) (reverse s) reversed-NonEmpty in
    (
      reverse p,
      sym (reverse-reverse s)
          ∙ ap reverse split
          ∙ reverse-append p (trim_by (map reverse spaces) (length s) (reverse s)),
    )

pub trim_space-IsTrimmed : (s : Text) → IsTrimmed (trim_space s)
unfolding trim_space
trim_space-IsTrimmed s = (left, right)
  where
    first : cut_any spaces (trim_left s) ≡ none
    first = trim_by-none spaces (length s) s spaces-NonEmpty (omega arith)

    left : cut_any spaces (trim_space s) ≡ none
    left =
        let (q, split) = trim_right-prefix (trim_left s) in
        cut_any-none spaces (trim_space s) q (subst (λ x. cut_any spaces x ≡ none) split first)

    right : cut_any (map reverse spaces) (reverse (trim_space s)) ≡ none
    right =
        rw
          (reverse-reverse
            (trim_by (map reverse spaces) (length (trim_left s)) (reverse (trim_left s))))
          (trim_by-none (map reverse spaces) (length (trim_left s)) (reverse (trim_left s))
            reversed-NonEmpty (omega (arith, length-reverse (trim_left s))))

pub trim_space-fixed : (s : Text) → IsTrimmed s → trim_space s ≡ s
unfolding trim_space trim_left trim_right
trim_space-fixed s t =
    ap trim_right (trim_by-fixed spaces (length s) s t.0)
    ∙ ap reverse (trim_by-fixed (map reverse spaces) (length s) (reverse s) t.1)
    ∙ reverse-reverse s

pub trim_space_idem : (s : Text) → trim_space (trim_space s) ≡ trim_space s
trim_space_idem s = trim_space-fixed (trim_space s) (trim_space-IsTrimmed s)

trims_both_ends :
    trim_space (9 ∷ 0xc2 ∷ 0xa0 ∷ b'a' ∷ 32 ∷ b'b' ∷ 0xe3 ∷ 0x80 ∷ 0x80 ∷ 10 ∷ [])
    ≡ b'a' ∷ 32 ∷ b'b' ∷ []
unfolding trim_space
trims_both_ends = refl
