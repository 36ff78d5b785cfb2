-- ===== src/Store/Covering/Rounds.antt =====
-- The rounds of `lookupCompletedCovering` of cursoragentv1/completed_state.go: each adds only
-- snapshots that match.
use cursor_agent2api.Base.{
  ℕ, ◌≡◌, ◌⊎◌, inl, inr, refl, sym, subst, ap, ◌∙◌, List, [], ◌∷◌, ◌++◌, Text, member, arith,
  Bool-cases, Option, none, some,
}
use cursor_agent2api.Ids.{Error, Result, ok, err, CompletedToolResult, completed_batch_ids}
use cursor_agent2api.Store.{Store, Platform}
use cursor_agent2api.Store.Tombstone.{CompletedTombstone}
use cursor_agent2api.Store.Index.{join_nul}
use cursor_agent2api.Store.Prune.{remove_tombstone}
use cursor_agent2api.Store.Completed.{remove_expired, match_found, match_completed_tombstone}
use cursor_agent2api.Store.Match.{Matches, match_completed_tombstone_sound}
use cursor_agent2api.Store.Covering.{Found, record_match, covered_batch, find_covering, find_all}
use cursor_agent2api.Store.Covering.Newest.{IsIn}

IsIn-append :
    (z x : CompletedTombstone) (xs : List CompletedTombstone)
    → IsIn z (xs ++ x ∷ [])
    → (z ≡ x) ⊎ IsIn z xs
IsIn-append z x [] m = elim m [ inl p ↦ inl p | inr q ↦ absurd q ]
IsIn-append z x (y ∷ ys) m = ground (arith, IsIn-append z x ys)

record_match-matches :
    (r : Result CompletedTombstone) (f g : Found)
    → record_match r f ≡ ok g
    → (g.matches ≡ f.matches)
      ⊎ ((x : CompletedTombstone) × (r ≡ ok x) × (g.matches ≡ f.matches ++ x ∷ []))
unfolding record_match
record_match-matches (ok x) f g h = inr (x, refl, ground arith)
record_match-matches (err e) f g h = inl (ground arith)

-- The matches of what a loop found, none where it failed.
abbrev found_of : Result Found → List CompletedTombstone
found_of (ok f) = f.matches
found_of (err e) = []

module _ (p : Platform) where
  ttl-remove_expired :
      (fingerprint : Text) (batch : List Text) (follow_up : Text) (now : ℕ) (s : Store)
      → (remove_expired p fingerprint batch follow_up now s).0.ttl ≡ s.ttl
  unfolding remove_expired remove_tombstone
  ttl-remove_expired fingerprint batch follow_up now s = ground arith

  ttl-match_found :
      (fingerprint : Text) (batch : List Text) (canonical : List CompletedToolResult)
      (follow_up : Text) (now : ℕ) (x : CompletedTombstone) (s : Store)
      → (match_found p fingerprint batch canonical follow_up now x s).0.ttl ≡ s.ttl
  unfolding match_found
  ttl-match_found fingerprint batch canonical follow_up now x s =
      ground (arith, ttl-remove_expired fingerprint batch follow_up now s)

  module _ (fingerprint : Text) (canonical : List CompletedToolResult) (follow_up : Text)
      (now : ℕ) where
    pub ttl-match :
        (batch : List Text) (s : Store)
        → (match_completed_tombstone p fingerprint batch canonical follow_up now s).0.ttl ≡ s.ttl
    unfolding match_completed_tombstone
    ttl-match batch s = ground (
      arith,
      λ (x : CompletedTombstone). ttl-match_found fingerprint batch canonical follow_up now x s,
    )

    -- The snapshot was made of results at hand, for the credential and the follow-up asked for, and
    -- has not expired.
    abbrev pub IsGiven : Store → CompletedTombstone → Type 0
    IsGiven s x = (batch : List Text) × Matches p fingerprint batch canonical follow_up now s x

    IsGiven-ttl : (s t : Store) (x : CompletedTombstone) → t.ttl ≡ s.ttl → IsGiven t x → IsGiven s x
    IsGiven-ttl s t x e (batch, g) = (batch, ground arith)

    abbrev pub AreGiven : Store → List CompletedTombstone → Type 0
    AreGiven s xs = (x : CompletedTombstone) → IsIn x xs → IsGiven s x

    AreGiven-append :
        (s : Store) (xs : List CompletedTombstone) (x : CompletedTombstone)
        → AreGiven s xs
        → IsGiven s x
        → AreGiven s (xs ++ x ∷ [])
    AreGiven-append s xs x all given z m = elim (IsIn-append z x xs m) [
      | inl e ↦ subst (IsGiven s) (sym e) given
      | inr old ↦ all z old
    ]

    -- One match, of a batch in a store with the lifetime of `s`.
    match-AreGiven :
        (s t : Store) (batch : List Text) (f g : Found)
        → t.ttl ≡ s.ttl
        → record_match (match_completed_tombstone p fingerprint batch canonical follow_up now t).1 f
          ≡ ok g
        → AreGiven s f.matches
        → AreGiven s g.matches
    match-AreGiven s t batch f g e h all =
        let r = (match_completed_tombstone p fingerprint batch canonical follow_up now t).1 in
        elim (record_match-matches r f g h) [
          | inl same ↦ subst (AreGiven s) (sym same) all
          | inr (x, given, more) ↦ subst (AreGiven s) (sym more) (
              AreGiven-append s f.matches x all (
                IsGiven-ttl s t x e (
                  batch,
                  match_completed_tombstone_sound p fingerprint batch canonical follow_up now t x
                      given,
                )))
        ]

    abbrev with_seen : List Text → Found → Found
    with_seen batch f = record f { seen = join_nul batch ∷ f.seen }

    -- A round skips the call, fails on its pointer, or tries the batch that its pointer names.
    find_covering-cases :
        (id : Text) (f : Found) (t : Store)
        → (find_covering p fingerprint canonical follow_up now id f t ≡ (t, ok f))
          ⊎ (((e : Error) × (find_covering p fingerprint canonical follow_up now id f t
                  ≡ (t, err e)))
              ⊎ ((batch : List Text) × (find_covering p fingerprint canonical follow_up now id f t
                    ≡ (
                      (match_completed_tombstone p fingerprint batch canonical follow_up now t).0,
                      record_match
                          (match_completed_tombstone p fingerprint batch canonical follow_up now
                            t).1
                          (with_seen batch f),
                    ))))
    unfolding find_covering
    find_covering-cases id f t =
        by_batch (covered_batch p fingerprint (completed_batch_ids canonical) id t) refl
      where
        by_batch :
            (r : Result (Option (List Text)))
            → covered_batch p fingerprint (completed_batch_ids canonical) id t ≡ r
            → (find_covering p fingerprint canonical follow_up now id f t ≡ (t, ok f))
              ⊎ (((e : Error) × (find_covering p fingerprint canonical follow_up now id f t
                      ≡ (t, err e)))
                  ⊎ ((batch : List Text) × (find_covering p fingerprint canonical follow_up now id f
                          t
                        ≡ (
                          (match_completed_tombstone p fingerprint batch canonical follow_up now
                              t).0,
                          record_match
                              (match_completed_tombstone p fingerprint batch canonical follow_up now
                                t).1
                              (with_seen batch f),
                        ))))
        by_batch (err e) h = inr (inl (e, ground (arith, h)))
        by_batch (ok none) h = inl (ground (arith, h))
        by_batch (ok (some batch)) h = elim (Bool-cases (member (join_nul batch) f.seen)) [
          | inl known ↦ inl (ground (arith, h, known))
          | inr new ↦ inr (inr (batch, ground (arith, h, new)))
        ]

    find_covering-AreGiven :
        (s t : Store) (id : Text) (f g : Found)
        → t.ttl ≡ s.ttl
        → (find_covering p fingerprint canonical follow_up now id f t).1 ≡ ok g
        → AreGiven s f.matches
        → AreGiven s g.matches
          × ((find_covering p fingerprint canonical follow_up now id f t).0.ttl ≡ s.ttl)
    find_covering-AreGiven s t id f g e h all = elim (find_covering-cases id f t) [
      | inl skip ↦ (
        subst (λ (r : Result Found). AreGiven s (found_of r)) (sym (ap (λ r. r.1) skip) ∙ h) all,
        ap (λ r. r.0.ttl) skip ∙ e,
      )
      | inr (inl (x, bad)) ↦ absurd (ground (arith, h, bad))
      | inr (inr (batch, tried)) ↦ (
        match-AreGiven s t batch (with_seen batch f) g e (sym (ap (λ r. r.1) tried) ∙ h) all,
        ap (λ r. r.0.ttl) tried ∙ ttl-match batch t ∙ e,
      )
    ]

    pub find_all-AreGiven :
        (s t : Store) (ids : List Text) (f g : Found)
        → t.ttl ≡ s.ttl
        → (find_all p fingerprint canonical follow_up now ids f t).1 ≡ ok g
        → AreGiven s f.matches
        → AreGiven s g.matches
    unfolding find_all
    find_all-AreGiven s t [] f g e h all =
        subst (λ (r : Result Found). AreGiven s (found_of r)) h all
    find_all-AreGiven s t (id ∷ ids) f g e h all =
        next (find_covering p fingerprint canonical follow_up now id f t).1 refl h
          (λ u v. find_all-AreGiven s u ids v g)
      where
        next :
            (r : Result Found)
            → (find_covering p fingerprint canonical follow_up now id f t).1 ≡ r
            → (elim r as (λ _. Store × Result Found) [
              | ok a ↦
                  find_all p fingerprint canonical follow_up now ids a
                    (find_covering p fingerprint canonical follow_up now id f t).0
              | err e' ↦ ((find_covering p fingerprint canonical follow_up now id f t).0, err e')
            ]).1
              ≡ ok g
            → ((u : Store) (v : Found)
                → u.ttl ≡ s.ttl
                → (find_all p fingerprint canonical follow_up now ids v u).1 ≡ ok g
                → AreGiven s v.matches
                → AreGiven s g.matches)
            → AreGiven s g.matches
        next (err e') was done rest = absurd (cc done)
        next (ok v) was done rest =
            let (given, same) = find_covering-AreGiven s t id f v e was all in
            rest (find_covering p fingerprint canonical follow_up now id f t).0 v same done given
