-- ===== src/Store/Covering/Sound.antt =====
-- What `lookupCompletedTombstone` of cursoragentv1/completed_state.go may give back.
use cursor_agent2api.Base.{ℕ, ◌≡◌, refl, ◌∙◌, List, Text, arith}
use cursor_agent2api.Ids.{
  Result, ok, err, session_not_pending, CompletedToolResult, completed_batch_ids,
}
use cursor_agent2api.Store.{Store, Platform}
use cursor_agent2api.Store.Tombstone.{CompletedTombstone}
use cursor_agent2api.Store.Completed.{match_completed_tombstone}
use cursor_agent2api.Store.Match.{match_completed_tombstone_sound}
use cursor_agent2api.Store.Covering.{
  Found, nothing_found, choose, find_all, lookup_completed_covering, lookup_completed_tombstone,
}
use cursor_agent2api.Store.Covering.Newest.{choose-newest}
use cursor_agent2api.Store.Covering.Rounds.{IsGiven, ttl-match, find_all-AreGiven}

module _ (p : Platform) where
  module _ (fingerprint : Text) (canonical : List CompletedToolResult) (follow_up : Text)
      (now : ℕ) where
    covering-IsGiven :
        (s t : Store) (x : CompletedTombstone)
        → t.ttl ≡ s.ttl
        → (lookup_completed_covering p fingerprint canonical follow_up now t).1 ≡ ok x
        → IsGiven p fingerprint canonical follow_up now s x
    unfolding lookup_completed_covering
    covering-IsGiven s t x e h =
        chosen
          (find_all p fingerprint canonical follow_up now (completed_batch_ids canonical)
            nothing_found t).1
          refl h
      where
        chosen :
            (r : Result Found)
            → (find_all p fingerprint canonical follow_up now
                (completed_batch_ids canonical)
                nothing_found
                t).1
              ≡ r
            → (elim r as (λ _. Store × Result CompletedTombstone) [
              | ok f ↦ (
                (find_all p fingerprint canonical follow_up now
                    (completed_batch_ids canonical)
                    nothing_found
                    t).0,
                choose f,
              )
              | err e' ↦ (
                (find_all p fingerprint canonical follow_up now
                    (completed_batch_ids canonical)
                    nothing_found
                    t).0,
                err e',
              )
            ]).1
              ≡ ok x
            → IsGiven p fingerprint canonical follow_up now s x
        chosen (err e') was done = absurd (cc done)
        chosen (ok f) was done =
            find_all-AreGiven p fingerprint canonical follow_up now s t
              (completed_batch_ids canonical) nothing_found f e was (λ z m. absurd m) x
              (choose-newest f x done).1

    -- A replay is given only to the credential and the follow-up of its snapshot, before it expires,
    -- and only where the submitted results contain those of its batch, with the same digest; whether
    -- the batch is that of all the results or one that they cover.
    pub lookup_completed_sound :
        (s : Store) (x : CompletedTombstone)
        → (lookup_completed_tombstone p fingerprint canonical follow_up now s).1 ≡ ok x
        → IsGiven p fingerprint canonical follow_up now s x
    unfolding lookup_completed_tombstone
    lookup_completed_sound s x h =
        by_exact
          (match_completed_tombstone p fingerprint (completed_batch_ids canonical) canonical
            follow_up now s).1
          refl h
      where
        by_exact :
            (r : Result CompletedTombstone)
            → (match_completed_tombstone p fingerprint
                (completed_batch_ids canonical)
                canonical
                follow_up
                now
                s).1
              ≡ r
            → (elim r as (λ _. Store × Result CompletedTombstone) [
              | ok y ↦ (
                (match_completed_tombstone p fingerprint
                    (completed_batch_ids canonical)
                    canonical
                    follow_up
                    now
                    s).0,
                ok y,
              )
              | err session_not_pending ↦
                  lookup_completed_covering p fingerprint canonical follow_up now
                    (match_completed_tombstone p fingerprint
                      (completed_batch_ids canonical)
                      canonical
                      follow_up
                      now
                      s).0
              | err e ↦ (
                (match_completed_tombstone p fingerprint
                    (completed_batch_ids canonical)
                    canonical
                    follow_up
                    now
                    s).0,
                err e,
              )
            ]).1
              ≡ ok x
            → IsGiven p fingerprint canonical follow_up now s x
        by_exact (ok y) was done = (
          completed_batch_ids canonical,
          match_completed_tombstone_sound p fingerprint (completed_batch_ids canonical) canonical
              follow_up now s x (was ∙ done),
        )
        by_exact (err session_not_pending) was done =
            covering-IsGiven s
              (match_completed_tombstone p fingerprint (completed_batch_ids canonical) canonical
                follow_up now s).0
              x (ttl-match p fingerprint canonical follow_up now (completed_batch_ids canonical) s)
              done
        by_exact (err e) was done = ground (arith, done)
