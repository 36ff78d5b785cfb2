-- ===== src/Ids/Tests.antt =====
-- Ids, batches and results of cursoragentv1 on concrete texts.
use cursor_agent2api.Base.{
  ◌≡◌, ◌≢◌, ◌↔◌, refl, true, false, List, [], ◌∷◌, map, Text, text, Text-discrete, trim_space,
  member, sort, length, arith, ◌≤◌, Option,
}
use cursor_agent2api.Types.{ToolResult}
use cursor_agent2api.Ids.{
  ok, normalize_tool_ids, batch_subset_of, max_pending_tools, CompletedToolResult,
  canonical_tool_results, result_ids, completed_results_for_batch,
}
use cursor_agent2api.Ids.Batch.{normalize_iff, batch_subset_of_iff, AreIds}
use cursor_agent2api.Ids.Results.{canonical_tool_results-IsCanonical, IsCanonical, trimmed_ids}
use cursor_agent2api.Ids.Selection.{completed_results_iff}

abbrev loose : List Text
loose = text " b" ∷ text "a" ∷ text "b" ∷ text " " ∷ []

abbrev tidy : List Text
tidy = text "a" ∷ text "b" ∷ []

normalize_iff_example :
    (normalize_tool_ids loose ≡ normalize_tool_ids tidy)
    ↔ ((x : Text) → x ≢ [] → member x (map trim_space loose) ≡ member x (map trim_space tidy))
normalize_iff_example = normalize_iff loose tidy

batch_subset_of_iff_example : (batch_subset_of tidy loose ≡ true) ↔ (
    (normalize_tool_ids tidy ≢ [])
    × ((x : Text)
        → member x (normalize_tool_ids tidy) ≡ true
        → member x (normalize_tool_ids loose) ≡ true))
batch_subset_of_iff_example = batch_subset_of_iff tidy loose

abbrev answer : Text → ToolResult
answer id = record { tool_call_id = id; content = text "done"; is_error = false; media = [] }

abbrev accepted : Text → CompletedToolResult
accepted id = record { tool_call_id = id; content = text "done"; is_error = false; media = [] }

abbrev three_results : List CompletedToolResult
three_results = accepted (text "a") ∷ accepted (text "b") ∷ accepted (text "c") ∷ []

three_accepted :
    canonical_tool_results (answer (text "c") ∷ answer (text " b ") ∷ answer (text "a") ∷ [])
    ≡ ok three_results
unfolding canonical_tool_results Text-discrete
three_accepted = refl

canonical_tool_results-IsCanonical_example :
    IsCanonical three_results
    × (result_ids three_results
        ≡ sort (trimmed_ids (answer (text "c") ∷ answer (text " b ") ∷ answer (text "a") ∷ [])))
    × (length (answer (text "c") ∷ answer (text " b ") ∷ answer (text "a") ∷ [])
        ≤ max_pending_tools)
    × (answer (text "c") ∷ answer (text " b ") ∷ answer (text "a") ∷ [] ≢ [])
canonical_tool_results-IsCanonical_example =
    canonical_tool_results-IsCanonical
      (answer (text "c") ∷ answer (text " b ") ∷ answer (text "a") ∷ []) three_results
      three_accepted

two_found :
    completed_results_for_batch three_results (text "c" ∷ text "a" ∷ [])
    ≡ Option.some (accepted (text "a") ∷ accepted (text "c") ∷ [])
unfolding completed_results_for_batch Text-discrete
two_found = refl

three_results-AreIds : AreIds (result_ids three_results)
unfolding trim_space
three_results-AreIds = ((refl, ground arith, (refl, ground arith, (refl, ground arith, tt))))

completed_results_iff_example :
    ((xs : List CompletedToolResult) × (completed_results_for_batch three_results
          (text "c" ∷ text "a" ∷ [])
        ≡ Option.some xs))
    ↔ (batch_subset_of (text "c" ∷ text "a" ∷ []) (result_ids three_results) ≡ true)
completed_results_iff_example =
    completed_results_iff three_results (text "c" ∷ text "a" ∷ []) three_results-AreIds
