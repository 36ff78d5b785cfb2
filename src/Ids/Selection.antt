-- ===== src/Ids/Selection.antt =====
-- The results of a batch among the results at hand (`completedResultsForBatch`).
use cursor_agent2api.Base.{
  ◌≡◌, ◌≢◌, ◌↔◌, refl, sym, ap, ◌∙◌, true, false, not, ◌&&◌, List, [], ◌∷◌, arith, some, Text, ◌==◌,
  member, sort, sort_by, map-sort_by, member-sort, sort-Ascending, Distinct, Ascending-unique,
}
use cursor_agent2api.Ids.{
  CompletedToolResult, result_ids, normalize_tool_ids, remove, select, completed_results_for_batch,
  batch_subset_of,
}
use cursor_agent2api.Ids.Batch.{
  AreIds, member-fixed, member-normalize, normalize-Ascending, batch_subset_of_iff,
}

member-remove :
    (x a : Text) (xs : List Text) → member x (remove a xs) ≡ (not (x == a) && member x xs)
unfolding member remove
member-remove x a [] = ground arith
member-remove x a (y ∷ ys) = ground (arith, member-remove x a ys)

select-left :
    (x : Text) (wanted : List Text) (rs : List CompletedToolResult)
    → member x (select wanted rs).1 ≡ (member x wanted && not (member x (result_ids rs)))
unfolding select member
select-left x wanted [] = ground arith
select-left x wanted (r ∷ rs) = ground (
  arith,
  select-left x wanted rs,
  select-left x (remove r.tool_call_id wanted) rs,
  member-remove x r.tool_call_id wanted,
)

select-found :
    (x : Text) (wanted : List Text) (rs : List CompletedToolResult)
    → member x (result_ids (select wanted rs).0) ≡ (member x wanted && member x (result_ids rs))
unfolding select member
select-found x wanted [] = ground arith
select-found x wanted (r ∷ rs) = ground (
  arith,
  select-found x wanted rs,
  select-found x (remove r.tool_call_id wanted) rs,
  member-remove x r.tool_call_id wanted,
)

select-Distinct :
    (wanted : List Text) (rs : List CompletedToolResult)
    → Distinct (result_ids (select wanted rs).0)
unfolding select
select-Distinct wanted [] = tt
select-Distinct wanted (r ∷ rs) = ground (
  arith,
  select-Distinct wanted rs,
  select-Distinct (remove r.tool_call_id wanted) rs,
  select-found r.tool_call_id (remove r.tool_call_id wanted) rs,
  member-remove r.tool_call_id r.tool_call_id wanted,
)

-- With no id left over, the ids found are the ids wanted.
select-every :
    (x : Text) (wanted : List Text) (rs : List CompletedToolResult)
    → (select wanted rs).1 ≡ []
    → member x (result_ids (select wanted rs).0) ≡ member x wanted
unfolding member
select-every x wanted rs none_left =
    ground (arith, select-left x wanted rs, select-found x wanted rs, ap (member x) none_left)

completed_results-parts :
    (rs : List CompletedToolResult) (batch : List Text) (xs : List CompletedToolResult)
    → completed_results_for_batch rs batch ≡ some xs
    → (normalize_tool_ids batch ≢ [])
      × ((select (normalize_tool_ids batch) rs).1 ≡ [])
      × (sort_by
            (λ (c : CompletedToolResult). c.tool_call_id)
            (select (normalize_tool_ids batch) rs).0
          ≡ xs)
unfolding completed_results_for_batch
completed_results-parts rs batch xs h = ground arith

-- The results that are found are those of the batch: their ids are the ids of the batch, in
-- ascending order, each once.
pub completed_results-ids :
    (rs : List CompletedToolResult) (batch : List Text) (xs : List CompletedToolResult)
    → completed_results_for_batch rs batch ≡ some xs
    → result_ids xs ≡ normalize_tool_ids batch
completed_results-ids rs batch xs h =
    let (filled, none_left, sorted) = completed_results-parts rs batch xs h in
    let wanted = normalize_tool_ids batch in
    let found = (select wanted rs).0 in
    ap result_ids (sym sorted)
    ∙ map-sort_by (λ (c : CompletedToolResult). c.tool_call_id) found
    ∙ Ascending-unique (sort (result_ids found)) wanted
        (sort-Ascending (result_ids found) (select-Distinct wanted rs)) (normalize-Ascending batch)
        (λ x. member-sort x (result_ids found) ∙ select-every x wanted rs none_left)

nil_of_members : (xs : List Text) → ((x : Text) → member x xs ≡ false) → xs ≡ []
unfolding member
nil_of_members [] h = refl
nil_of_members (x ∷ xs) h = ground (arith, h x)

module _ (rs : List CompletedToolResult) (batch : List Text) (ids : AreIds (result_ids rs)) where
  covered :
      (xs : List CompletedToolResult)
      → completed_results_for_batch rs batch ≡ some xs
      → batch_subset_of batch (result_ids rs) ≡ true
  unfolding member
  covered xs h =
      let (filled, none_left, _) = completed_results-parts rs batch xs h in
      (batch_subset_of_iff batch (result_ids rs)).1 (
        filled,
        λ x m. ground (
          arith,
          member-normalize x batch,
          member-normalize x (result_ids rs),
          member-fixed x (result_ids rs) ids,
          select-left x (normalize_tool_ids batch) rs,
          ap (member x) none_left,
        ),
      )

  none_left :
      ((x : Text)
        → member x (normalize_tool_ids batch) ≡ true
        → member x (normalize_tool_ids (result_ids rs)) ≡ true)
      → (select (normalize_tool_ids batch) rs).1 ≡ []
  none_left sub = nil_of_members (select (normalize_tool_ids batch) rs).1 λ x. ground (
    arith,
    sub x,
    member-normalize x (result_ids rs),
    member-fixed x (result_ids rs) ids,
    select-left x (normalize_tool_ids batch) rs,
  )

  selected :
      normalize_tool_ids batch ≢ []
      → (select (normalize_tool_ids batch) rs).1 ≡ []
      → (xs : List CompletedToolResult) × (completed_results_for_batch rs batch ≡ some xs)
  unfolding completed_results_for_batch
  selected filled none_left = (
    sort_by (λ (c : CompletedToolResult). c.tool_call_id) (select (normalize_tool_ids batch) rs).0,
    ground arith,
  )

  -- If the ids at hand are trimmed and not empty, the results of a batch are found exactly when
  -- these ids cover the batch.
  pub completed_results_iff :
      ((xs : List CompletedToolResult) × (completed_results_for_batch rs batch ≡ some xs))
      ↔ (batch_subset_of batch (result_ids rs) ≡ true)
  completed_results_iff = (
    λ found. covered found.0 found.1,
    λ h.
        let (filled, sub) = (batch_subset_of_iff batch (result_ids rs)).0 h in
        selected filled (none_left sub),
  )
