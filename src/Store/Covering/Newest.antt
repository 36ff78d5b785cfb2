-- ===== src/Store/Covering/Newest.antt =====
-- Which of the snapshots that match is given back: the end of `lookupCompletedCovering` of
-- cursoragentv1/completed_state.go.
use cursor_agent2api.Base.{
  ◌≤◌, ◌≡◌, ◌⊎◌, inl, inr, refl, sym, subst, ◌∙◌, true, false, List, [], ◌∷◌, if◌then◌else◌, Text,
  member, arith, ltb, Bool-cases,
}
use cursor_agent2api.Ids.{ok}
use cursor_agent2api.Store.Tombstone.{CompletedTombstone}
use cursor_agent2api.Store.Covering.{Found, match_sessions, newest, pick, choose}

-- `x` is in the list.
abbrev pub IsIn : CompletedTombstone → List CompletedTombstone → Type 0
IsIn x [] = ⊥
IsIn x (y ∷ ys) = (x ≡ y) ⊎ IsIn x ys

newest-updated :
    (x : CompletedTombstone) (ys : List CompletedTombstone)
    → x.updated_at ≤ (newest x ys).updated_at
unfolding newest
newest-updated x [] = omega arith
newest-updated x (y ∷ ys) = ground (arith, newest-updated x ys, newest-updated y ys)

newest-upper :
    (x : CompletedTombstone) (ys : List CompletedTombstone) (z : CompletedTombstone)
    → IsIn z (x ∷ ys)
    → z.updated_at ≤ (newest x ys).updated_at
unfolding newest
newest-upper x [] z m = ground arith
newest-upper x (y ∷ ys) z m =
    ground
      (arith, newest-updated x ys, newest-updated y ys, newest-upper x ys z, newest-upper y ys z)

newest-IsIn : (x : CompletedTombstone) (ys : List CompletedTombstone) → IsIn (newest x ys) (x ∷ ys)
unfolding newest
newest-IsIn x [] = inl refl
newest-IsIn x (y ∷ ys) = choice (newest-IsIn x ys) (newest-IsIn y ys)
  where
    choice :
        IsIn (newest x ys) (x ∷ ys)
        → IsIn (newest y ys) (y ∷ ys)
        → IsIn (newest x (y ∷ ys)) (x ∷ y ∷ ys)
    choice kept moved = elim (Bool-cases (ltb x.updated_at y.updated_at)) [
      | inl e ↦ subst (λ b. IsIn (newest (if b then y else x) ys) (x ∷ y ∷ ys)) (sym e) (inr moved)
      | inr e ↦
          subst (λ b. IsIn (newest (if b then y else x) ys) (x ∷ y ∷ ys)) (sym e)
            (elim kept [ inl p ↦ inl p | inr q ↦ inr (inr q) ])
    ]

-- All the matches belong to one session.
member-sessions :
    (xs : List CompletedTombstone) (z : CompletedTombstone)
    → IsIn z xs
    → member z.session_id (match_sessions xs) ≡ true
unfolding match_sessions member
member-sessions [] z m = elim m [ ]
member-sessions (x ∷ xs) z m = ground (arith, member-sessions xs z)

only-session :
    (id other : Text) (ids : List Text) → ids ≡ id ∷ [] → member other ids ≡ true → other ≡ id
unfolding member
only-session id other ids e m = ground arith

pick-ok :
    (ids : List Text) (xs : List CompletedTombstone) (x : CompletedTombstone)
    → pick ids xs ≡ ok x
    → (id : Text) × (y : CompletedTombstone) × (ys : List CompletedTombstone) × (ids ≡ id ∷ [])
      × (xs ≡ y ∷ ys)
      × (newest y ys ≡ x)
unfolding pick
pick-ok (id ∷ []) (y ∷ ys) x h = (id, y, ys, refl, refl, cc)
pick-ok (id ∷ []) [] x h = cc
pick-ok (id ∷ other ∷ ids) xs x h = cc
pick-ok [] [] x h = cc
pick-ok [] (y ∷ ys) x h = cc

picked :
    (id : Text) (xs : List CompletedTombstone) (y : CompletedTombstone)
    (ys : List CompletedTombstone) (x : CompletedTombstone)
    → match_sessions xs ≡ id ∷ []
    → xs ≡ y ∷ ys
    → newest y ys ≡ x
    → IsIn x xs
      × ((z : CompletedTombstone)
          → IsIn z xs
          → (z.updated_at ≤ x.updated_at) × (z.session_id ≡ x.session_id))
picked id xs y ys x one found last =
    let head : IsIn (newest y ys) xs = subst (IsIn (newest y ys)) (sym found) (newest-IsIn y ys) in
    let inside : IsIn x xs = subst (λ z. IsIn z xs) last head in
    let session = λ (z : CompletedTombstone) (m : IsIn z xs).
      only-session id z.session_id (match_sessions xs) one (member-sessions xs z m) in
    (
      inside,
      λ z m. (
        subst (λ w. z.updated_at ≤ w.updated_at) last
            (newest-upper y ys z (subst (IsIn z) found m)),
        session z m ∙ sym (session x inside),
      ),
    )

choose-ok :
    (f : Found) (x : CompletedTombstone)
    → choose f ≡ ok x
    → (f.conflict ≡ false) × (pick (match_sessions f.matches) f.matches ≡ ok x)
unfolding choose
choose-ok f x h = ground arith

-- Of the snapshots that match, the one given back is one of them, none is newer, and all of them
-- belong to its session; and no results conflicted.
pub choose-newest :
    (f : Found) (x : CompletedTombstone)
    → choose f ≡ ok x
    → (f.conflict ≡ false)
      × IsIn x f.matches
      × ((z : CompletedTombstone)
          → IsIn z f.matches
          → (z.updated_at ≤ x.updated_at) × (z.session_id ≡ x.session_id))
choose-newest f x h =
    let (calm, found) = choose-ok f x h in
    let (id, y, ys, one, parts, last) = pick-ok (match_sessions f.matches) f.matches x found in
    let (inside, best) = picked id f.matches y ys x one parts last in (calm, inside, best)
