-- ===== src/Store/Claim/Catalog.antt =====
-- The tool catalog of a claim: `validateToolCatalog` of cursoragentv1/state.go and
-- `normalizeToolDefinitions` of cursoragentv1/runner.go.
use cursor_agent2api.Base.{
  ℕ, ◌+◌, List, [], ◌∷◌, none, some, ltb, if◌then◌else◌, Text, text, ◌==◌, trim_space, member,
  length, Bool,
}
use cursor_agent2api.Types.{ToolDefinition}
use cursor_agent2api.Ids.{Result, ok, err, ◌>>=◌, failed, max_pending_tool_bytes, is_empty}
use cursor_agent2api.Store.{Platform}

abbrev default_schema : Text
default_schema = text "{\"type\":\"object\",\"properties\":{}}"

module _ (p : Platform) where
  open p use {canonical_schema}

  -- The loop of `normalizeToolDefinitions`, with the names seen.
  unfoldable pub normalize_tools : List Text → List ToolDefinition → Result (List ToolDefinition)
  unfolding trim_space member
  normalize_tools seen [] = ok []
  normalize_tools seen (t ∷ ts) =
      let name = trim_space t.name in
      let rest = normalize_tools (name ∷ seen) ts in
      if name == []
      then err (failed (text "tool name is required"))
      else if member name seen
      then err (failed (text "duplicate tool"))
      else elim (canonical_schema
          (if is_empty t.input_schema then default_schema else t.input_schema)) [
            | none ↦ err (failed (text "input schema must be a JSON object"))
            | some schema ↦ rest >>= λ more.
                ok (
                  record { name = name; description = t.description; input_schema = schema } ∷ more)
          ]

  -- The size check of `validateToolCatalog`, from the bytes so far.
  unfoldable pub catalog_fits : ℕ → List ToolDefinition → Bool
  catalog_fits total [] = Bool.true
  catalog_fits total (t ∷ ts) =
      let size = total + (length t.name + length t.description + length t.input_schema) in
      let rest = catalog_fits size ts in
      if ltb max_pending_tool_bytes size then Bool.false else rest

  unfoldable pub validate_tool_catalog : List ToolDefinition → Result (List ToolDefinition)
  unfolding normalize_tools catalog_fits
  validate_tool_catalog ts =
      if is_empty ts
      then ok []
      else normalize_tools [] ts >>= λ tools.
          if catalog_fits 0 tools
          then ok tools
          else err (failed (text "tool catalog exceeds the limit"))
