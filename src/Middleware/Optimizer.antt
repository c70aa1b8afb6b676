-- ===== src/Middleware/Optimizer.antt =====
-- internal/middleware/optimizer.go with HashTools of internal/mcp/optimize.go: shorter definitions of
-- tools in place of those that a server lists. `sha256` is the hash of a text in hex. What JSON is
-- decoded to and encoded from is given by `tools_in` (a tools/list result), `optimized_in` (the stored
-- definitions) and `with_tools` (a result object with its tools replaced).
pub mod Names
use Prim.Native.String.{compare, ◌++◌ as str_append}
use Prim.Native.Nat.{Ordering}
use arc_relay.Prelude.{
  ℕ, ◌≡◌, refl, sym, ap, ◌∙◌, subst, inl, inr, String, List, [], ◌∷◌, Bool, true, false, Option,
  none, some, not, ◌||◌, if◌then◌else◌, str_eq, eq_iff, map, arith, Bool-cases, Option-cases,
}
use arc_relay.Prelude.Maps.{StrMap, empty, update}
use arc_relay.Prelude.Text.{Text}
use arc_relay.Middleware.{Response, RpcError}

pub record Tool : Type 0 where
  pub name : String
  pub description : String
  pub input_schema : String

-- The columns of a stored optimization that are read.
pub record ToolOptimization : Type 0 where
  pub status : String
  pub tools_hash : String
  pub optimized_tools : String

abbrev pub is_before : Tool → Tool → Bool
is_before a b = elim (compare a.name b.name) [ Ordering.lt ↦ true | _ ↦ false ]

-- HashTools. Tools of one name stay in their order.
abbrev pub insert_tool : Tool → List Tool → List Tool
insert_tool t [] = t ∷ []
insert_tool t (x ∷ xs) = if is_before x t then x ∷ insert_tool t xs else t ∷ x ∷ xs

abbrev pub sort_tools : List Tool → List Tool
sort_tools [] = []
sort_tools (t ∷ ts) = insert_tool t (sort_tools ts)

abbrev pub written : List Tool → String
written [] = ""
written (t ∷ ts) =
    str_append t.name (str_append t.description (str_append t.input_schema (written ts)))

-- The map of the optimized tools by name, a later one in place of an earlier one.
abbrev pub by_name : List Tool → StrMap Tool → StrMap Tool
by_name [] m = m
by_name (t ∷ ts) m = by_name ts (update m t.name t)

abbrev pub or_original : Tool → Option Tool → Tool
or_original t none = t
or_original t (some u) = u

unfoldable pub replace_tools : StrMap Tool → List Tool → List Tool
replace_tools m [] = []
replace_tools m (t ∷ ts) = or_original t (m t.name) ∷ replace_tools m ts

module _ (sha256 : String → String) where
  unfoldable pub hash_tools : List Tool → String
  hash_tools ts = sha256 (written (sort_tools ts))

module _ (sha256 : String → String) (tools_in : Text → Option (List Tool))
    (optimized_in : String → Option (List Tool)) (with_tools : Text → List Tool → Option Text) where
  abbrev pub patched : Response → Option Text → Response
  patched resp none = resp
  patched resp (some r) = record resp { result = some r }

  abbrev pub replaced : Response → Text → List Tool → Option (List Tool) → Response
  replaced resp result original none = resp
  replaced resp result original (some optimized) =
      patched resp (with_tools result (replace_tools (by_name optimized empty) original))

  -- A hash that differs leaves the response as it is: the stored hash has the length of a SHA-256 in hex,
  -- since it is always made by HashTools, so that the log line can cut off its beginning.
  abbrev pub when_fresh : Response → ToolOptimization → Text → Option (List Tool) → Response
  when_fresh resp opt result none = resp
  when_fresh resp opt result (some original) =
      if not (str_eq (hash_tools sha256 original) opt.tools_hash)
      then resp
      else replaced resp result original (optimized_in opt.optimized_tools)

  abbrev pub with_result : Response → ToolOptimization → Option RpcError → Option Text → Response
  with_result resp opt (some e) result = resp
  with_result resp opt none none = resp
  with_result resp opt none (some result) = when_fresh resp opt result (tools_in result)

  abbrev pub if_ready : Response → Option ToolOptimization → Response
  if_ready resp none = resp
  if_ready resp (some opt) =
      if not (str_eq opt.status "ready") then resp else with_result resp opt resp.error resp.result

  abbrev pub if_enabled : Response → Option Bool → Option ToolOptimization → Response
  if_enabled resp none opt = resp
  if_enabled resp (some enabled) opt = if not enabled then resp else if_ready resp opt

  -- ProcessResponse, with the server's OptimizeEnabled and the stored optimization, each `none` where
  -- it is not found or not read.
  unfoldable pub optimize_response :
      String → Option Bool → Option ToolOptimization → Response → Response
  optimize_response method server opt resp =
      if not (str_eq method "tools/list") then resp else if_enabled resp server opt
