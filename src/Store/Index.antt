-- ===== src/Store/Index.antt =====
-- The pending index of cursoragentv1/state.go: which sessions wait for the results of a batch, and
-- to which batch a tool call belongs.
use cursor_agent2api.Base.{
  ℕ, Bool, true, false, not, ◌&&◌, ◌||◌, List, [], ◌∷◌, ◌++◌, none, some, ltb, if◌then◌else◌, Text,
  text, ◌==◌, trim_space, sort, length, ◌≡◌, arith,
}
use native.Mathlib.Decide.{ℕ_discrete}
use cursor_agent2api.Ids.{Result, ok, err, not_exist, failed, normalize_tool_ids, remove, is_empty}
use cursor_agent2api.Store.{
  Store, Platform, PendingIndex, ToolBatchPointer, M, ◌>>◌, done, state_version,
  migrate_record_version,
}
use cursor_agent2api.Store.Directory.{Files, lookup, insert, delete}

unfoldable pub Names-discrete : Discrete (List Text)
unfolding ℕ_discrete
Names-discrete = hlevel ℕ_discrete

-- `slices.Equal`
abbrev pub names_equal : List Text → List Text → Bool
names_equal a b = elim (Names-discrete a b) [ yes _ ↦ true | no _ ↦ false ]

pub names_equal_refl : (a : List Text) → names_equal a a ≡ true
names_equal_refl a = ground arith

-- `strings.Join(ids, "\x00")`
unfoldable pub join_nul : List Text → Text
join_nul [] = []
join_nul (x ∷ []) = x
join_nul (x ∷ y ∷ ys) = x ++ (0 ∷ join_nul (y ∷ ys))

unfoldable pub dedup : List Text → List Text
unfolding remove
dedup [] = []
dedup (x ∷ xs) = x ∷ remove x (dedup xs)

-- The session set of an index with one session removed, and added if asked for, in order.
unfoldable pub session_set : Bool → Text → List Text → List Text
unfolding dedup sort
session_set true session ids = sort (session ∷ dedup (remove session ids))
session_set false session ids = sort (dedup (remove session ids))

-- Whether the pointer is that of the tool and batch (`removeToolBatchPointer`).
unfoldable pub pointer_matches : Text → Text → List Text → ToolBatchPointer → Bool
unfolding normalize_tool_ids
pointer_matches fingerprint id batch x =
    (x.credential_fingerprint == fingerprint)
    && ((x.tool_call_id == id)
        && names_equal (normalize_tool_ids x.batch_ids) (normalize_tool_ids batch))

-- `readToolBatchPointer`, on a directory of pointers.
unfoldable pub read_pointer : Text → Files ToolBatchPointer → Result ToolBatchPointer
unfolding lookup normalize_tool_ids migrate_record_version
read_pointer name fs = elim (lookup name fs) [
  | none ↦ err not_exist
  | some x ↦ elim (migrate_record_version x.version) [
    | err e ↦ err e
    | ok v ↦ ok (record x { version = v; batch_ids = normalize_tool_ids x.batch_ids })
  ]
]

-- A directory of pointers, with the names of its files by tool call.
module _ (name_of : Text → Text) (fingerprint : Text) (batch : List Text) where
  -- The loops of `writePendingToolPointers` and `writeCompletedToolPointers`.
  unfoldable pub write_pointers : ℕ → List Text → Files ToolBatchPointer → Files ToolBatchPointer
  unfolding insert
  write_pointers now [] fs = fs
  write_pointers now (id ∷ ids) fs = write_pointers now ids (
      insert (name_of id)
        (record {
          version = state_version;
          credential_fingerprint = fingerprint;
          tool_call_id = id;
          batch_ids = batch;
          updated_at = now;
        })
        fs)

  -- The loops of `removePendingToolPointers` and `removeCompletedToolPointers`.
  unfoldable pub remove_pointers : List Text → Files ToolBatchPointer → Files ToolBatchPointer
  unfolding lookup delete pointer_matches
  remove_pointers [] fs = fs
  remove_pointers (id ∷ ids) fs = remove_pointers ids (elim (lookup (name_of id) fs) [
    | none ↦ fs
    | some x ↦ if pointer_matches fingerprint id batch x then delete (name_of id) fs else fs
  ])

module _ (p : Platform) where
  open p use {sha256}

  -- `paths`: the name of a session's state and lock.
  unfoldable pub state_name : Text → Text
  state_name session = sha256 session

  -- `pendingIndexPaths`
  unfoldable pub pending_index_name : Text → List Text → Text
  unfolding join_nul normalize_tool_ids
  pending_index_name fingerprint batch =
      sha256 (trim_space fingerprint ++ (0 ∷ join_nul (normalize_tool_ids batch)))

  -- `pendingToolPointerPaths`
  unfoldable pub pointer_name : Text → Text → Text
  pointer_name fingerprint id =
      sha256 (trim_space fingerprint ++ (0 ∷ (text "tool" ++ (0 ∷ trim_space id))))

  -- `readPendingIndex`
  unfoldable pub read_index : Text → List Text → Store → Result PendingIndex
  unfolding lookup pending_index_name normalize_tool_ids migrate_record_version
  read_index fingerprint batch s =
      elim (lookup (pending_index_name fingerprint batch) s.pending_index) [
        | none ↦ err not_exist
        | some x ↦ elim (migrate_record_version x.version) [
          | err e ↦ err e
          | ok v ↦ ok (record x { version = v; batch_ids = normalize_tool_ids x.batch_ids })
        ]
      ]

  -- The index of a batch, or a new one where there is no file.
  unfoldable pub open_index : Text → List Text → Store → Result PendingIndex
  unfolding read_index normalize_tool_ids
  open_index fingerprint batch s = elim (read_index fingerprint batch s) [
    | err not_exist ↦ ok (record {
      version = state_version;
      credential_fingerprint = fingerprint;
      batch_ids = normalize_tool_ids batch;
      session_ids = [];
      updated_at = 0;
    })
    | err e ↦ err e
    | ok x ↦ ok x
  ]

  -- The part of `mutatePendingIndex` behind the reading of the index.
  unfoldable pub mutate_index : Text → List Text → Text → Bool → ℕ → PendingIndex → M (Unit {0})
  unfolding session_set write_pointers remove_pointers pointer_name pending_index_name
  mutate_index fingerprint batch session add now index s =
      let name = pending_index_name fingerprint batch in
      let ids = normalize_tool_ids batch in
      let sessions = session_set add session index.session_ids in
      let pointed =
        if add
        then record s {
          pointers = write_pointers (pointer_name fingerprint) fingerprint ids now ids s.pointers;
        }
        else s in
      if not (index.credential_fingerprint == fingerprint) || not (names_equal index.batch_ids ids)
      then (s, err (failed (text "pending index identity mismatch")))
      else if is_empty sessions
      then (
        record s {
          pending_index = delete name s.pending_index;
          pointers = remove_pointers (pointer_name fingerprint) fingerprint ids ids s.pointers;
        },
        ok tt,
      )
      else if ltb s.max_files (length sessions)
      then (pointed, err (failed (text "pending index exceeds sessions")))
      else (
        record pointed {
          pending_index =
              insert name (record index { session_ids = sessions; updated_at = now })
                pointed.pending_index;
        },
        ok tt,
      )

  unfoldable pub mutate_pending_index : Text → List Text → Text → Bool → ℕ → M (Unit {0})
  unfolding open_index mutate_index
  mutate_pending_index fingerprint batch session add now s = elim (open_index fingerprint batch s) [
    | err e ↦ (s, err e)
    | ok index ↦ mutate_index fingerprint batch session add now index s
  ]

  unfoldable pub sync_pending_index : Text → Text → List Text → List Text → ℕ → M (Unit {0})
  unfolding mutate_pending_index
  sync_pending_index fingerprint session previous next now =
      let old = normalize_tool_ids previous in
      let new = normalize_tool_ids next in
      (if not (is_empty old) && not (names_equal old new)
        then mutate_pending_index fingerprint old session false now
        else done tt)
      >> (if not (is_empty new)
          then mutate_pending_index fingerprint new session true now
          else done tt)
