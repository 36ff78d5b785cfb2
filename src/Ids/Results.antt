-- ===== src/Ids/Results.antt =====
-- Canonical tool results, and those of a batch (`canonicalToolResults`,
-- `completedResultsForBatch`).
use cursor_agent2api.Base.{
  ℕ, suc, ◌+◌, ◌≤◌, ◌≡◌, ◌≢◌, ◌⊎◌, refl, sym, ap, ◌∙◌, subst, Bool, true, false, ◌||◌, List, [],
  ◌∷◌, map, arith, if◌then◌else◌, inl, inr, length, eqb, ltb, Text, trim_space, trim_space_idem,
  member, sort, sort_by, insert_by, map-sort_by, sort-Ascending, Distinct, Ascending,
}
use cursor_agent2api.Types.{ToolResult}
use cursor_agent2api.Ids.{
  Result, ok, err, ◌>>=◌, session_not_pending, CompletedToolResult, canonical_loop,
  canonical_tool_results, result_ids, media_size, max_pending_tools, max_pending_tool_bytes,
}
use cursor_agent2api.Ids.Batch.{AreIds, sort-AreIds}

>>=-ok {ℓ κ} :
    {A : Type ℓ} {B : Type κ} (m : Result A) (f : A → Result B) (b : B)
    → (m >>= f) ≡ ok b
    → (a : A) × (m ≡ ok a) × (f a ≡ ok b)
>>=-ok (ok a) f b h = (a, refl, h)
>>=-ok (err e) f b h = cc

-- The submitted ids, trimmed.
abbrev pub trimmed_ids : List ToolResult → List Text
trimmed_ids = map λ r. trim_space r.tool_call_id

-- The bytes of ids, contents and media.
abbrev pub total_size : List CompletedToolResult → ℕ
total_size [] = 0
total_size (c ∷ cs) = length c.tool_call_id + length c.content + media_size c.media + total_size cs

-- No id of the list has been seen.
abbrev pub Unseen : List Text → List Text → Type 0
Unseen seen [] = Unit
Unseen seen (i ∷ is) = (member i seen ≡ false) × Unseen seen is

pub Unseen-tail :
    (s : Text) (seen is : List Text) → Unseen (s ∷ seen) is → Unseen seen is × (member s is ≡ false)
unfolding member
Unseen-tail s seen [] h = (tt, refl)
Unseen-tail s seen (i ∷ is) h = ground (arith, Unseen-tail s seen is h.1)

ok-injective {ℓ} : {A : Type ℓ} (a b : A) → ok a ≡ ok b → a ≡ b
ok-injective a b h = cc

-- The item made of a result, and the size with it.
abbrev item_of : ToolResult → CompletedToolResult
item_of r = record {
  tool_call_id = trim_space r.tool_call_id;
  content = r.content;
  is_error = r.is_error;
  media = r.media;
}

abbrev size_with : ℕ → ToolResult → ℕ
size_with total r =
    total + (length (trim_space r.tool_call_id) + length r.content) + media_size r.media

canonical_loop-guards :
    (seen : List Text) (total : ℕ) (r : ToolResult) (rs : List ToolResult)
    (items : List CompletedToolResult)
    → canonical_loop seen total (r ∷ rs) ≡ ok items
    → ((canonical_loop (trim_space r.tool_call_id ∷ seen) (size_with total r) rs >>= λ xs.
          ok (item_of r ∷ xs))
        ≡ ok items)
      × (trim_space r.tool_call_id ≢ [])
      × (member (trim_space r.tool_call_id) seen ≡ false)
      × (size_with total r ≤ max_pending_tool_bytes)
unfolding canonical_loop
canonical_loop-guards seen total r rs items h = ground (
  arith,
  >>=-ok (canonical_loop (trim_space r.tool_call_id ∷ seen) (size_with total r) rs)
      (λ (xs : List CompletedToolResult). ok (item_of r ∷ xs)) items,
)

-- What the loop accepts, from the ids seen and the size so far.
record Accepted (seen : List Text) (total : ℕ) (rs : List ToolResult)
    (items : List CompletedToolResult) : Type 0 where
  ids : result_ids items ≡ trimmed_ids rs
  distinct : Distinct (result_ids items)
  are_ids : AreIds (result_ids items)
  unseen : Unseen seen (result_ids items)
  size : (total + total_size items ≤ max_pending_tool_bytes) ⊎ (items ≡ [])

Accepted-cons :
    (seen : List Text) (total : ℕ) (r : ToolResult) (rs : List ToolResult)
    (items : List CompletedToolResult)
    → Accepted (trim_space r.tool_call_id ∷ seen) (size_with total r) rs items
    → trim_space r.tool_call_id ≢ []
    → member (trim_space r.tool_call_id) seen ≡ false
    → size_with total r ≤ max_pending_tool_bytes
    → Accepted seen total (r ∷ rs) (item_of r ∷ items)
Accepted-cons seen total r rs items v filled new fits =
    let (old, apart) = Unseen-tail (trim_space r.tool_call_id) seen (result_ids items) v.unseen in
    record {
      ids = ap (◌∷◌ (trim_space r.tool_call_id)) v.ids;
      distinct = (apart, v.distinct);
      are_ids = (trim_space_idem r.tool_call_id, filled, v.are_ids);
      unseen = (new, old);
      size = elim v.size [
        | inl small ↦ inl (omega arith)
        | inr none_left ↦ inl (rw none_left (omega arith))
      ];
    }

canonical_loop-nil :
    (seen : List Text) (total : ℕ) (items : List CompletedToolResult)
    → canonical_loop seen total [] ≡ ok items
    → [] ≡ items
unfolding canonical_loop
canonical_loop-nil seen total items h = cc

canonical_loop-ok :
    (seen : List Text) (total : ℕ) (rs : List ToolResult) (items : List CompletedToolResult)
    → canonical_loop seen total rs ≡ ok items
    → Accepted seen total rs items
canonical_loop-ok seen total [] items h =
    subst (Accepted seen total []) (canonical_loop-nil seen total items h)
      (record { ids = refl; distinct = tt; are_ids = tt; unseen = tt; size = inr refl })
canonical_loop-ok seen total (r ∷ rs) items h =
    let (more, filled, new, fits) = canonical_loop-guards seen total r rs items h in
    let (rest, accepted, same) =
      >>=-ok (canonical_loop (trim_space r.tool_call_id ∷ seen) (size_with total r) rs)
        (λ (xs : List CompletedToolResult). ok (item_of r ∷ xs)) items more in
    subst (Accepted seen total (r ∷ rs)) (ok-injective (item_of r ∷ rest) items same) (
      Accepted-cons seen total r rs rest
        (canonical_loop-ok (trim_space r.tool_call_id ∷ seen) (size_with total r) rs rest accepted)
        filled new fits)

total_size-insert :
    (c : CompletedToolResult) (cs : List CompletedToolResult)
    → total_size (insert_by (λ x. x.tool_call_id) c cs) ≡ total_size (c ∷ cs)
unfolding insert_by
total_size-insert c [] = refl
total_size-insert c (d ∷ ds) = ground (arith, total_size-insert c ds)

total_size-sort :
    (cs : List CompletedToolResult) → total_size (sort_by (λ x. x.tool_call_id) cs) ≡ total_size cs
unfolding sort_by
total_size-sort [] = refl
total_size-sort (c ∷ cs) =
    total_size-insert c (sort_by (λ x. x.tool_call_id) cs)
    ∙ ap (λ (n : ℕ). length c.tool_call_id + length c.content + media_size c.media + n)
        (total_size-sort cs)

-- Results in canonical form: by ascending ids, which are trimmed, not empty and all different,
-- within the limit on bytes.
pub record IsCanonical (cs : List CompletedToolResult) : Type 0 where
  pub ascending : Ascending (result_ids cs)
  pub are_ids : AreIds (result_ids cs)
  pub size : total_size cs ≤ max_pending_tool_bytes

guard-ok {ℓ κ} :
    {A : Type ℓ} {B : Type κ} (b : Bool) (m : Result A) (f : A → Result B) (x : B)
    → ((if b then err session_not_pending else m) >>= f) ≡ ok x
    → (b ≡ false) × ((m >>= f) ≡ ok x)
guard-ok true m f x h = cc
guard-ok false m f x h = (refl, h)

size-sorted :
    (items : List CompletedToolResult)
    → (0 + total_size items ≤ max_pending_tool_bytes) ⊎ (items ≡ [])
    → total_size (sort_by (λ (c : CompletedToolResult). c.tool_call_id) items)
      ≤ max_pending_tool_bytes
size-sorted items (inl h) = omega (arith, total_size-sort items)
size-sorted items (inr h) = omega (arith, total_size-sort items, ap total_size h)

canonical_tool_results-guards :
    (rs : List ToolResult) (cs : List CompletedToolResult)
    → canonical_tool_results rs ≡ ok cs
    → (items : List CompletedToolResult) × (canonical_loop [] 0 rs ≡ ok items)
      × (sort_by (λ (c : CompletedToolResult). c.tool_call_id) items ≡ cs)
      × (length rs ≤ max_pending_tools)
      × (rs ≢ [])
unfolding canonical_tool_results
canonical_tool_results-guards [] cs h = cc
canonical_tool_results-guards (r ∷ rs) cs h =
    let finish : List CompletedToolResult → Result (List CompletedToolResult) =
      λ items. ok (sort_by (λ (c : CompletedToolResult). c.tool_call_id) items) in
    let (fits, more) =
      guard-ok (eqb (suc (length rs)) 0 || ltb max_pending_tools (suc (length rs)))
        (canonical_loop [] 0 (r ∷ rs)) finish cs h in
    let (items, accepted, same) = >>=-ok (canonical_loop [] 0 (r ∷ rs)) finish cs more in
    (items, accepted, ok-injective _ cs same, ground arith, λ e. cc)

-- Accepted results are canonical, and their ids are the trimmed ids that were submitted; there is
-- at least one and at most 256.
pub canonical_tool_results-IsCanonical :
    (rs : List ToolResult) (cs : List CompletedToolResult)
    → canonical_tool_results rs ≡ ok cs
    → IsCanonical cs
      × (result_ids cs ≡ sort (trimmed_ids rs))
      × (length rs ≤ max_pending_tools)
      × (rs ≢ [])
canonical_tool_results-IsCanonical rs cs h =
    let (items, accepted, sorted, fits, filled) = canonical_tool_results-guards rs cs h in
    let v = canonical_loop-ok [] 0 rs items accepted in
    let ids : result_ids cs ≡ sort (result_ids items) =
      ap result_ids (sym sorted)
      ∙ map-sort_by (λ (c : CompletedToolResult). c.tool_call_id) items in
    (
      record {
        ascending = rw ids (sort-Ascending (result_ids items) v.distinct);
        are_ids = rw ids (sort-AreIds (result_ids items) v.are_ids);
        size = rw (← sorted) (size-sorted items v.size);
      },
      ids ∙ ap sort v.ids,
      fits,
      filled,
    )
