-- ===== src/Base/Sets.antt =====
-- Go's `map[string]struct{}` as a list of strings, and `sort.Strings`, `sort.Slice` on a key.
use mathlib.Core.Path.{◌≡◌, refl, ap, ap₂, ◌∙◌}
use mathlib.Core.Logic.{inl, inr}
use mathlib.Core.Bool.{Bool, true, false, ◌||◌}
use mathlib.Core.List.{List, [], ◌∷◌, map}
use native.Mathlib.Omega.{arith}
use cursor_agent2api.Base.Tests.{if◌then◌else◌, Bool-cases}
use cursor_agent2api.Base.Strings.{Text, ◌==◌, before, before_irrefl, before_trans, before_total}

unfoldable pub member : Text → List Text → Bool
member a [] = false
member a (x ∷ xs) = (a == x) || member a xs

abbrev pub Distinct : List Text → Type 0
Distinct [] = Unit
Distinct (x ∷ xs) = (member x xs ≡ false) × Distinct xs

-- `a` comes before the list, and the list ascends strictly.
abbrev pub Above : Text → List Text → Type 0
Above a [] = Unit
Above a (x ∷ xs) = (before a x ≡ true) × Above x xs

abbrev pub Ascending : List Text → Type 0
Ascending [] = Unit
Ascending (x ∷ xs) = Above x xs

-- Insertion sort: on distinct keys the only ascending order, whatever algorithm makes it.
module _ {ℓ} {A : Type ℓ} where
  unfoldable pub insert_by : (A → Text) → A → List A → List A
  insert_by key a [] = a ∷ []
  insert_by key a (x ∷ xs) = if before (key x) (key a) then x ∷ insert_by key a xs else a ∷ x ∷ xs

  unfoldable pub sort_by : (A → Text) → List A → List A
  unfolding insert_by before
  sort_by key [] = []
  sort_by key (x ∷ xs) = insert_by key x (sort_by key xs)

unfoldable pub sort : List Text → List Text
unfolding sort_by
sort = sort_by (λ x. x)

module _ {ℓ} {A : Type ℓ} (key : A → Text) where
  map-insert_by :
      (a : A) (xs : List A) → map key (insert_by key a xs) ≡ insert_by (λ x. x) (key a) (map key xs)
  unfolding insert_by
  map-insert_by a [] = refl
  map-insert_by a (x ∷ xs) = elim (Bool-cases (before (key x) (key a))) [
    | inl e ↦ rw (e, insert_by) (ap (◌∷◌ (key x)) (map-insert_by a xs))
    | inr e ↦ rw (e, insert_by) refl
  ]

  -- The keys of a list sorted on its keys are the sorted keys.
  pub map-sort_by : (xs : List A) → map key (sort_by key xs) ≡ sort (map key xs)
  unfolding sort_by sort
  map-sort_by [] = refl
  map-sort_by (x ∷ xs) =
      map-insert_by x (sort_by key xs) ∙ ap (insert_by (λ x. x) (key x)) (map-sort_by xs)

insert : Text → List Text → List Text
insert = insert_by (λ x. x)

member-insert : (a x : Text) (xs : List Text) → member a (insert x xs) ≡ ((a == x) || member a xs)
unfolding member insert insert_by
member-insert a x [] = refl
member-insert a x (y ∷ ys) = ground (arith, member-insert a x ys)

pub member-sort : (a : Text) (xs : List Text) → member a (sort xs) ≡ member a xs
unfolding member sort sort_by insert
member-sort a [] = refl
member-sort a (x ∷ xs) = ground (arith, member-insert a x (sort xs), member-sort a xs)

Above-insert :
    (a x : Text) (xs : List Text)
    → before a x ≡ true
    → Above a xs
    → member x xs ≡ false
    → Above a (insert x xs)
unfolding member insert insert_by
Above-insert a x [] h s m = (h, tt)
Above-insert a x (y ∷ ys) h s m = elim (Bool-cases (before y x)) [
  | inl e ↦ rw (e, insert_by) (s.0, Above-insert y x ys e s.1 (ground arith))
  | inr e ↦ rw (e, insert_by) (h, (before_total y x e (ground arith), s.1))
]

insert-Ascending :
    (x : Text) (xs : List Text) → Ascending xs → member x xs ≡ false → Ascending (insert x xs)
unfolding member insert insert_by
insert-Ascending x [] s m = tt
insert-Ascending x (y ∷ ys) s m = elim (Bool-cases (before y x)) [
  | inl e ↦ rw (e, insert_by) (Above-insert y x ys e s (ground arith))
  | inr e ↦ rw (e, insert_by) (before_total y x e (ground arith), s)
]

pub sort-Ascending : (xs : List Text) → Distinct xs → Ascending (sort xs)
unfolding sort sort_by insert
sort-Ascending [] d = tt
sort-Ascending (x ∷ xs) d =
    insert-Ascending x (sort xs) (sort-Ascending xs d.1) (member-sort x xs ∙ d.0)

-- What comes before an ascending list is no member of it.
Above-before :
    (a : Text) (xs : List Text) (b : Text) → Above a xs → member b xs ≡ true → before a b ≡ true
unfolding member
Above-before a [] b s m = cc
Above-before a (x ∷ xs) b s m = ground (arith, Above-before x xs b s.1, before_trans a x b s.0)

pub Above-member : (a : Text) (xs : List Text) → Above a xs → member a xs ≡ false
Above-member a xs s = elim (Bool-cases (member a xs)) [
  | inl m ↦ absurd (cc (before_irrefl a, Above-before a xs a s m))
  | inr m ↦ m
]

pub Above-Ascending : (a : Text) (xs : List Text) → Above a xs → Ascending xs
Above-Ascending a [] s = tt
Above-Ascending a (x ∷ xs) s = s.1

same_head :
    (x y : Text) (xs ys : List Text)
    → Above x xs
    → Above y ys
    → member x (x ∷ xs) ≡ member x (y ∷ ys)
    → member y (x ∷ xs) ≡ member y (y ∷ ys)
    → x ≡ y
unfolding member
same_head x y xs ys s t hx hy =
    ground
      (arith, Above-before y ys x t, Above-before x xs y s, before_irrefl x, before_trans x y x)

-- An ascending list is determined by its members.
pub Ascending-unique :
    (xs ys : List Text)
    → Ascending xs
    → Ascending ys
    → ((a : Text) → member a xs ≡ member a ys)
    → xs ≡ ys
unfolding member
Ascending-unique [] [] s t same = refl
Ascending-unique [] (y ∷ ys) s t same = ground (arith, same y)
Ascending-unique (x ∷ xs) [] s t same = ground (arith, same x)
Ascending-unique (x ∷ xs) (y ∷ ys) s t same = ap₂ ◌∷◌ head (
    Ascending-unique xs ys (Above-Ascending x xs s) (Above-Ascending y ys t)
      λ a. ground (arith, same a, head, Above-member x xs s, Above-member y ys t))
  where
    head : x ≡ y
    head = same_head x y xs ys s t (same x) (same y)
